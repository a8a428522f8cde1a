-- ===== src/Session/Send/Race/Attended.antt =====
-- Whether somebody still sees to the packets of the queue.
use login_server.Base.{
  ℕ, zero, suc, ◌+◌, ◌≤◌, ◌<◌, ◌≡◌, ◌⊎◌, ◌||◌, subst, Bool, not, refl, arith, List, [], ◌∷◌, ◌++◌,
  length, leb, ◌==◌, Bool-cases, inl, inr, ◌>>=◌, Option, none, some, false, ltb,
}
use Prim.{Unit}
use login_server.Base.Int.{pos}
use login_server.Base.Results.{Always, of_Always}
use login_server.Ring.{Ring, push}
use login_server.Serializer.Scalars.{to_bytes}
use login_server.Packet.{Store}
use login_server.Session.{Session, increment_io, decrement_io, has_cancel_io_flag, cancel_io_regist}
use login_server.Session.Send.{wsa_buffers, Answer, accepted, refused, sended_loop, sended}
use login_server.Session.Send.Race.{
  Point, entering, exchanging, taken, resetting, gathering, refusing, leaving, giving_up, flying,
  completing, clearing, checking, abandoned, gone, gather_one, after_send, after_flight,
  after_sended, act, Race, Turn, collects, cancels, advances, Turns, still, then_turn,
}
use login_server.Session.Send.Race.Exclusive.{
  inside, total, total-append, IsExclusive, Turn-IsExclusive, quiet, quiet-IsExclusive,
}

-- Whether (1 or 0) a task is not gone: it goes on, or has given up with `sendFlag` as it is.
abbrev pub going : Point → ℕ
going entering = 1
going exchanging = 1
going taken = 1
going resetting = 1
going (gathering n i) = 1
going refusing = 1
going leaving = 1
going giving_up = 1
going flying = 1
going completing = 1
going clearing = 1
going checking = 1
going abandoned = 1
going gone = 0

inside-going : (p : Point) → inside p ≤ going p
inside-going entering = omega arith
inside-going exchanging = omega arith
inside-going taken = omega arith
inside-going resetting = omega arith
inside-going (gathering n i) = omega arith
inside-going refusing = omega arith
inside-going leaving = omega arith
inside-going giving_up = omega arith
inside-going flying = omega arith
inside-going completing = omega arith
inside-going clearing = omega arith
inside-going checking = omega arith
inside-going abandoned = omega arith
inside-going gone = omega arith

total-going : (ps : List Point) → total inside ps ≤ total going ps
total-going [] = omega arith
total-going (p ∷ ps) = omega (arith, inside-going p, total-going ps)

-- Nothing waits, or the session is about to end, or some of so many tasks are there.
abbrev pub Attends : ℕ → Session → Type 0
Attends tasks s = (length s.send_buffer ≡ 0) ⊎ ((s.cancel_io_flag ≡ 1) ⊎ (0 < tasks))

abbrev pub IsAttended : Race → Type 0
IsAttended x = Attends (total going x.tasks) x.session

-- Whether a task sets the flag back although a packet has come to the queue since it was empty.
abbrev pub late : Point → Session → Bool
late resetting s = not (length s.send_buffer == 0)
late p s = false

module _ (rest : ℕ) where
  abbrev Seen : Point × Store × Session → Type 0
  Seen (p, st, s) = Attends (going p + rest) s

  gather_one-Seen :
      (q : List ℕ) (n i : ℕ) (st : Store) (s : Session)
      → Always Seen (gather_one q n i s >>= λ (p, t). some (p, st, t))
  unfolding gather_one
  gather_one-Seen [] n i st s = inr (inr (omega arith))
  gather_one-Seen (a ∷ q) n i st s = elim (Bool-cases (leb wsa_buffers i)) [
    | inl e ↦ rw e (record {})
    | inr e ↦ rw e (one_put (push s.sended_buffer (to_bytes 8 a)))
  ]
    where
      one_put :
          (o : Option (ℕ × Ring))
          → Always Seen (
              (o >>= λ (k, r).
              some (gathering n (i + 1), record s { send_buffer = q; sended_buffer = r }))
              >>= λ (p, t). some (p, st, t))
      one_put none = record {}
      one_put (some (k, r)) = inr (inr (omega arith))

  after_send-Seen : (answer : Answer) (st : Store) (s : Session) → Seen (after_send answer, st, s)
  unfolding after_send
  after_send-Seen accepted st s = inr (inr (omega arith))
  after_send-Seen (refused code) st s = elim (Bool-cases (code == 10054 || code == 10053)) [
    | inl e ↦ rw e (inr (inr (omega arith)))
    | inr e ↦ rw e (inr (inr (omega arith)))
  ]

  act-Seen :
      (fuel : ℕ) (answer : Answer) (transfer : ℕ) (p : Point) (st : Store) (s : Session)
      (others : ℕ)
      → inside p + others ≡ s.send_flag
      → others ≤ rest
      → late p s ≡ false
      → Attends (going p + rest) s
      → Always Seen (act fuel answer transfer p st s)
  unfolding act has_cancel_io_flag increment_io decrement_io cancel_io_regist after_flight
      after_sended sended
  act-Seen fuel answer transfer entering st s others held few prompt seen =
      elim (Bool-cases (s.cancel_io_flag == 1)) [
        | inl e ↦ rw e (inr (inl (ground (arith, e))))
        | inr e ↦ rw e (inr (inr (omega arith)))
      ]
  act-Seen fuel answer transfer exchanging st s others held few prompt seen =
      elim (Bool-cases (s.send_flag == 1)) [
        | inl e ↦ rw e (inr (inr (ground (arith, e, held, few))))
        | inr e ↦ rw e (inr (inr (omega arith)))
      ]
  act-Seen fuel answer transfer taken st s others held few prompt seen =
      elim (Bool-cases (length s.send_buffer == 0)) [
        | inl e ↦ rw e (inr (inr (omega arith)))
        | inr e ↦ rw e (inr (inr (omega arith)))
      ]
  act-Seen fuel answer transfer resetting st s others held few prompt seen =
      inl (ground (arith, prompt))
  act-Seen fuel answer transfer (gathering zero i) st s others held few prompt seen =
      after_send-Seen answer st s
  act-Seen fuel answer transfer (gathering (suc n) i) st s others held few prompt seen =
      gather_one-Seen s.send_buffer n i st s
  act-Seen fuel answer transfer refusing st s others held few prompt seen = inr (inr (omega arith))
  act-Seen fuel answer transfer leaving st s others held few prompt seen = inr (inl refl)
  act-Seen fuel answer transfer giving_up st s others held few prompt seen = inr (inl refl)
  act-Seen fuel accepted transfer flying st s others held few prompt seen = inr (inr (omega arith))
  act-Seen fuel (refused code) transfer flying st s others held few prompt seen =
      inr (inr (omega arith))
  act-Seen fuel answer transfer completing st s others held few prompt seen =
      elim (Bool-cases (transfer == 0)) [
        | inl e ↦ rw e (inr (inr (omega arith)))
        | inr e ↦ rw e (after_loop (sended_loop fuel st s.sended_buffer transfer 0))
      ]
    where
      after_loop :
          (o : Option (ℕ × Store × Ring))
          → Always Seen (
              (o >>= λ (count, t, r). some (pos count, t, record s { sended_buffer = r }))
              >>= λ (count, t, u). some (after_sended count, t, u))
      after_loop none = record {}
      after_loop (some (count, t, r)) = inr (inr (omega arith))
  act-Seen fuel answer transfer clearing st s others held few prompt seen = inr (inr (omega arith))
  act-Seen fuel answer transfer checking st s others held few prompt seen =
      elim (Bool-cases (ltb 0 (length s.send_buffer))) [
        | inl e ↦ rw e (inr (inr (omega arith)))
        | inr e ↦ rw e (inl (ground (arith, e)))
      ]
  act-Seen fuel answer transfer abandoned st s others held few prompt seen = inr (inr (omega arith))
  act-Seen fuel answer transfer gone st s others held few prompt seen = seen

-- A step other than such a late one, and a row of them.
unfoldable pub IsPrompt : {x y : Race} → Turn x y → Type 0
IsPrompt (collects st s ts a queued) = Unit
IsPrompt (cancels st s ts) = Unit
IsPrompt (advances st t s u before behind p p' fuel answer transfer does) = late p s ≡ false

unfoldable pub ArePrompt : {x y : Race} → Turns x y → Type 0
ArePrompt (still x) = Unit
ArePrompt (then_turn earlier last) = ArePrompt earlier × IsPrompt last

Turn-IsAttended :
    {x y : Race} → IsExclusive x → IsAttended x → (turn : Turn x y) → IsPrompt turn → IsAttended y
unfolding IsPrompt cancel_io_regist
Turn-IsAttended v seen (collects st s ts a queued) prompt = inr (inr (omega arith))
Turn-IsAttended v seen (cancels st s ts) prompt = inr (inl refl)
Turn-IsAttended v seen (advances st t s u before behind p p' fuel answer transfer does) prompt =
    let rest = total going before + total going behind in
    let others = total inside before + total inside behind in
    let same = λ (tasks : ℕ) (more : ℕ) (w : Session) (e : tasks ≡ more) (h : Attends tasks w).
      subst (λ k. Attends k w) e h in
    same (going p' + rest) (total going (before ++ p' ∷ behind)) u
      (omega (arith, total-append going before (p' ∷ behind)))
      (of_Always (Seen rest) (act fuel answer transfer p st s) (p', t, u)
        (act-Seen rest fuel answer transfer p st s others
          (omega (arith, v.held, total-append inside before (p ∷ behind)))
          (omega (arith, total-going before, total-going behind)) prompt
          (same (total going (before ++ p ∷ behind)) (going p + rest) s
            (omega (arith, total-append going before (p ∷ behind))) seen))
        does)

Turns-IsAttended :
    {x y : Race}
    → IsExclusive x
    → IsAttended x
    → (run : Turns x y) → ArePrompt run
    → IsExclusive y × IsAttended y
unfolding ArePrompt
Turns-IsAttended v seen (still x) prompt = (v, seen)
Turns-IsAttended v seen (then_turn earlier last) prompt =
    let (w, still_seen) = Turns-IsAttended v seen earlier prompt.0 in
    (Turn-IsExclusive w last, Turn-IsAttended w still_seen last prompt.1)

-- From a session without a send under way and with an empty queue, in any order of the threads' steps
-- in which no task that has seen the queue empty sets `sendFlag` back after a packet has come: as
-- long as a packet waits and the session is not cancelled, some task is not gone, which goes on or
-- whose send has failed.
pub prompt-IsAttended :
    (st : Store) (s : Session) {y : Race}
    → length s.send_buffer ≡ 0
    → (run : Turns (quiet st s) y) → ArePrompt run
    → IsAttended y
prompt-IsAttended st s none_waiting run prompt =
    (Turns-IsAttended (quiet-IsExclusive st s) (inl none_waiting) run prompt).1
