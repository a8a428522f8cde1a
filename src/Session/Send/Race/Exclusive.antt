-- ===== src/Session/Send/Race/Exclusive.antt =====
-- At most one task has a session's sending to itself: whoever takes packets from the queue, or has
-- their addresses in the ring, is the only one.
use login_server.Base.{
  ℕ, zero, suc, ◌+◌, ◌≤◌, ◌≡◌, ◌||◌, refl, ap, ◌∙◌, arith, List, [], ◌∷◌, ◌++◌, length, leb, ◌==◌,
  Bool-cases, inl, inr, ltb, ◌>>=◌, Option, none, some, length-append,
}
use login_server.Base.Int.{pos}
use login_server.Base.Results.{Always, of_Always}
use login_server.Ring.{Ring, push}
use login_server.Serializer.Scalars.{to_bytes}
use login_server.Packet.{Store}
use login_server.Session.{Session, increment_io, decrement_io, has_cancel_io_flag, cancel_io_regist}
use login_server.Session.Send.{
  wsa_buffers, queue_limit, collect_send_packet, Answer, accepted, refused, sended_loop, sended,
}
use login_server.Session.Send.Race.{
  Point, entering, exchanging, taken, resetting, gathering, refusing, leaving, giving_up, flying,
  completing, clearing, checking, abandoned, gone, gather_one, after_send, after_flight,
  after_sended, act, Race, Turn, collects, cancels, advances, Turns, still, then_turn,
}

-- Whether (1 or 0) a task has taken `sendFlag` and not given it back.
abbrev pub inside : Point → ℕ
inside entering = 0
inside exchanging = 0
inside taken = 1
inside resetting = 1
inside (gathering n i) = 1
inside refusing = 1
inside leaving = 0
inside giving_up = 1
inside flying = 1
inside completing = 1
inside clearing = 1
inside checking = 0
inside abandoned = 1
inside gone = 0

-- How many packets a task is about to take from the queue.
abbrev pub wanted : Point → ℕ
wanted entering = 0
wanted exchanging = 0
wanted taken = 0
wanted resetting = 0
wanted (gathering n i) = n
wanted refusing = 0
wanted leaving = 0
wanted giving_up = 0
wanted flying = 0
wanted completing = 0
wanted clearing = 0
wanted checking = 0
wanted abandoned = 0
wanted gone = 0

abbrev pub total : (Point → ℕ) → List Point → ℕ
total f [] = 0
total f (p ∷ ps) = f p + total f ps

pub total-append :
    (f : Point → ℕ) (ps qs : List Point) → total f (ps ++ qs) ≡ total f ps + total f qs
total-append f [] qs = omega arith
total-append f (p ∷ ps) qs = omega (arith, total-append f ps qs)

-- Only a task that is inside takes packets.
wanted-inside : (p : Point) → inside p ≡ 0 → wanted p ≡ 0
wanted-inside entering h = refl
wanted-inside exchanging h = refl
wanted-inside taken h = refl
wanted-inside resetting h = refl
wanted-inside (gathering n i) h = absurd (omega arith)
wanted-inside refusing h = refl
wanted-inside leaving h = refl
wanted-inside giving_up h = refl
wanted-inside flying h = refl
wanted-inside completing h = refl
wanted-inside clearing h = refl
wanted-inside checking h = refl
wanted-inside abandoned h = refl
wanted-inside gone h = refl

pub total-wanted : (ps : List Point) → total inside ps ≡ 0 → total wanted ps ≡ 0
total-wanted [] h = refl
total-wanted (p ∷ ps) h =
    omega (arith, wanted-inside p (omega arith), total-wanted ps (omega arith))

-- `sendFlag` is the number of tasks inside, and the packets they are about to take are there.
pub record IsExclusive (x : Race) : Type 0 where
  pub held : total inside x.tasks ≡ x.session.send_flag
  pub alone : x.session.send_flag ≤ 1
  pub there : total wanted x.tasks ≤ length x.session.send_buffer

-- The same for one task among others, of which so many are inside and want so many packets.
abbrev Kept : ℕ → ℕ → Point × Store × Session → Type 0
Kept others more (p, st, s) =
    (inside p + others ≡ s.send_flag) × (s.send_flag ≤ 1) × (wanted p + more ≤ length s.send_buffer)

module _ (others more : ℕ) where
  gather_one-Kept :
      (q : List ℕ) (n i : ℕ) (st : Store) (s : Session)
      → q ≡ s.send_buffer
      → 1 + others ≡ s.send_flag
      → s.send_flag ≤ 1
      → suc n + more ≤ length q
      → Always (Kept others more) (gather_one q n i s >>= λ (p, t). some (p, st, t))
  unfolding gather_one
  gather_one-Kept [] n i st s same held alone there = absurd (omega arith)
  gather_one-Kept (a ∷ q) n i st s same held alone there = elim (Bool-cases (leb wsa_buffers i)) [
    | inl e ↦ rw e (record {})
    | inr e ↦ rw e (one_put (push s.sended_buffer (to_bytes 8 a)))
  ]
    where
      one_put :
          (o : Option (ℕ × Ring))
          → Always (Kept others more) (
              (o >>= λ (k, r).
              some (gathering n (i + 1), record s { send_buffer = q; sended_buffer = r }))
              >>= λ (p, t). some (p, st, t))
      one_put none = record {}
      one_put (some (k, r)) = (held, alone, omega (arith, there))

  after_send-Kept :
      (answer : Answer) (i : ℕ) (st : Store) (s : Session)
      → 1 + others ≡ s.send_flag
      → s.send_flag ≤ 1
      → 0 + more ≤ length s.send_buffer
      → Kept others more (after_send answer, st, s)
  unfolding after_send
  after_send-Kept accepted i st s held alone there = (held, alone, there)
  after_send-Kept (refused code) i st s held alone there =
      elim (Bool-cases (code == 10054 || code == 10053)) [
        | inl e ↦ rw e (held, alone, there)
        | inr e ↦ rw e (held, alone, there)
      ]

  act-Kept :
      (fuel : ℕ) (answer : Answer) (transfer : ℕ) (p : Point) (st : Store) (s : Session)
      → inside p + others ≡ s.send_flag
      → s.send_flag ≤ 1
      → (others ≡ 0 → more ≡ 0)
      → wanted p + more ≤ length s.send_buffer
      → Always (Kept others more) (act fuel answer transfer p st s)
  unfolding act has_cancel_io_flag increment_io decrement_io cancel_io_regist after_flight
      after_sended sended
  act-Kept fuel answer transfer entering st s held alone less there =
      elim (Bool-cases (s.cancel_io_flag == 1)) [
        | inl e ↦ rw e (held, alone, there)
        | inr e ↦ rw e (held, alone, there)
      ]
  act-Kept fuel answer transfer exchanging st s held alone less there =
      elim (Bool-cases (s.send_flag == 1)) [
        | inl e ↦ rw e (ground (arith, e, held), omega arith, there)
        | inr e ↦ rw e (ground (arith, e, held, alone), omega arith, there)
      ]
  act-Kept fuel answer transfer taken st s held alone less there =
      elim (Bool-cases (length s.send_buffer == 0)) [
        | inl e ↦ rw e (held, alone, there)
        | inr e ↦ rw e (held, alone, omega (arith, less (omega (arith, held, alone))))
      ]
  act-Kept fuel answer transfer resetting st s held alone less there =
      (omega (arith, held, alone), omega arith, there)
  act-Kept fuel answer transfer (gathering zero i) st s held alone less there =
      after_send-Kept answer i st s held alone there
  act-Kept fuel answer transfer (gathering (suc n) i) st s held alone less there =
      gather_one-Kept s.send_buffer n i st s refl held alone there
  act-Kept fuel answer transfer refusing st s held alone less there =
      (omega (arith, held, alone), omega arith, there)
  act-Kept fuel answer transfer leaving st s held alone less there = (held, alone, there)
  act-Kept fuel answer transfer giving_up st s held alone less there = (held, alone, there)
  act-Kept fuel accepted transfer flying st s held alone less there = (held, alone, there)
  act-Kept fuel (refused code) transfer flying st s held alone less there = (held, alone, there)
  act-Kept fuel answer transfer completing st s held alone less there =
      elim (Bool-cases (transfer == 0)) [
        | inl e ↦ rw e (held, alone, there)
        | inr e ↦ rw e (after_loop (sended_loop fuel st s.sended_buffer transfer 0))
      ]
    where
      after_loop :
          (o : Option (ℕ × Store × Ring))
          → Always (Kept others more) (
              (o >>= λ (count, t, r). some (pos count, t, record s { sended_buffer = r }))
              >>= λ (count, t, u). some (after_sended count, t, u))
      after_loop none = record {}
      after_loop (some (count, t, r)) = (held, alone, there)
  act-Kept fuel answer transfer clearing st s held alone less there =
      (omega (arith, held, alone), omega arith, there)
  act-Kept fuel answer transfer checking st s held alone less there =
      elim (Bool-cases (ltb 0 (length s.send_buffer))) [
        | inl e ↦ rw e (held, alone, there)
        | inr e ↦ rw e (held, alone, there)
      ]
  act-Kept fuel answer transfer abandoned st s held alone less there = (held, alone, there)
  act-Kept fuel answer transfer gone st s held alone less there = (held, alone, there)

pub Turn-IsExclusive : {x y : Race} → IsExclusive x → Turn x y → IsExclusive y
unfolding collect_send_packet cancel_io_regist
Turn-IsExclusive v (collects st s ts a queued) =
    elim (Bool-cases (ltb (length s.send_buffer) queue_limit)) [
      | inl e ↦ rw e (record {
        held = omega (arith, v.held);
        alone = v.alone;
        there = omega (arith, v.there, length-append s.send_buffer (a ∷ []));
      })
      | inr e ↦
          rw e (record {
            held = omega (arith, v.held);
            alone = v.alone;
            there = omega (arith, v.there);
          })
    ]
Turn-IsExclusive v (cancels st s ts) = record { held = v.held; alone = v.alone; there = v.there }
Turn-IsExclusive v (advances st t s u before behind p p' fuel answer transfer does) =
    let others = total inside before + total inside behind in
    let more = total wanted before + total wanted behind in
    let kept : Kept others more (p', t, u) =
      of_Always (Kept others more) (act fuel answer transfer p st s) (p', t, u)
        (act-Kept others more fuel answer transfer p st s
          (omega (arith, v.held, total-append inside before (p ∷ behind))) v.alone
          (λ none_held.
            omega (arith, total-wanted before (omega arith), total-wanted behind (omega arith)))
          (omega (arith, v.there, total-append wanted before (p ∷ behind))))
        does in
    record {
      held = omega (arith, kept, total-append inside before (p' ∷ behind));
      alone = kept.1;
      there = omega (arith, kept, total-append wanted before (p' ∷ behind));
    }

Turns-IsExclusive : {x y : Race} → IsExclusive x → Turns x y → IsExclusive y
Turns-IsExclusive v (still x) = v
Turns-IsExclusive v (then_turn earlier last) = Turn-IsExclusive (Turns-IsExclusive v earlier) last

-- A session without a send under way, and no task of it yet.
abbrev pub quiet : Store → Session → Race
quiet st s = record { store = st; session = record s { send_flag = 0 }; tasks = [] }

pub quiet-IsExclusive : (st : Store) (s : Session) → IsExclusive (quiet st s)
quiet-IsExclusive st s = record { held = refl; alone = omega arith; there = omega arith }

-- However the threads' steps follow on a session without a send under way: of two tasks at most one
-- has taken `sendFlag`, and a task in the loop of `sendIO` finds all the packets it is still to take
-- in the queue.
pub one_inside :
    (st : Store) (s : Session) {y : Race}
    → Turns (quiet st s) y
    → (before between behind : List Point) (p q : Point)
    → y.tasks ≡ before ++ p ∷ (between ++ q ∷ behind)
    → (inside p + inside q ≤ 1) × (wanted p + wanted q ≤ length y.session.send_buffer)
one_inside st s {y} run before between behind p q at =
    let v = Turns-IsExclusive (quiet-IsExclusive st s) run in
    let sum =
      λ (f : Point → ℕ). ap (total f) at ∙ total-append f before (p ∷ (between ++ q ∷ behind)) in
    omega (
      arith,
      v.held,
      v.alone,
      v.there,
      sum inside,
      sum wanted,
      total-append inside between (q ∷ behind),
      total-append wanted between (q ∷ behind),
    )
