-- ===== src/Session/Drain.antt =====
-- The loop of `Network::workerThread` over the packets received.
use login_server.Base.{
  ℕ, zero, suc, ◌+◌, ◌≤◌, ◌<◌, ◌≡◌, refl, sym, ap, ◌∙◌, some, List, [], ◌∷◌, ◌++◌, length, map,
  append_assoc, arith, subst, ap₂, length-append,
}
use login_server.Ring.{Ring}
use login_server.Ring.Index.{IsValid as RingIsValid, span}
use login_server.Serializer.{Serializer, move_front, move_rear, clear, inc_reference_counter}
use login_server.Serializer.Valid.{IsValid, contents}
use login_server.Serializer.Header.{header_size}
use login_server.Session.{Session, prepare, drain}
use login_server.Session.Prepare.{IsPrepared, prepare-IsPrepared}
use login_server.Session.Framing.{
  IsFrame, IsPartial, received, length-received, packed, packed-contents, recved_packet-frame,
  recved_packet-partial,
}

-- Packets one after the other, as they come over the connection.
abbrev pub joined : List (List ℕ) → List ℕ
joined [] = []
joined (f ∷ fs) = f ++ joined fs

abbrev pub AllFrames : List (List ℕ) → Type 0
AllFrames [] = Unit
AllFrames (f ∷ fs) = IsFrame f × AllFrames fs

-- Serializers from the pool, each with room for a full ring.
pub record Suits (alloc : ℕ → Serializer) (capacity : ℕ) : Type 0 where
  pub valid : (i : ℕ) → IsValid (alloc i)
  pub room : (i : ℕ) → capacity ≤ (alloc i).buffer_size
  pub fits_header : header_size ≤ capacity

later : {alloc : ℕ → Serializer} {c : ℕ} → Suits alloc c → Suits (λ i. alloc (suc i)) c
later u = record {
  valid = λ i. u.valid (suc i);
  room = λ i. u.room (suc i);
  fits_header = u.fits_header;
}

prepared : {alloc : ℕ → Serializer} {c : ℕ} → Suits alloc c → IsPrepared (prepare (alloc 0))
prepared u = prepare-IsPrepared (u.valid 0) (omega (arith, u.room 0, u.fits_header))

prepare-buffer_size : (p : Serializer) → (prepare p).buffer_size ≡ p.buffer_size
unfolding prepare move_front move_rear clear inc_reference_counter
prepare-buffer_size p = refl

span-le : {r : Ring} → RingIsValid r → span r ≤ r.max_size
span-le v = ground (arith, v.mask, v.head_in, v.tail_in)

-- When the bytes received are whole packets and then a part of one, the loop ends, hands over exactly
-- those packets in order, and leaves exactly that part.
pub drain_lem :
    (fs : List (List ℕ)) (tail : List ℕ) (alloc : ℕ → Serializer) (s : Session)
    → RingIsValid s.recv_buffer
    → Suits alloc s.recv_buffer.max_size
    → AllFrames fs
    → IsPartial tail
    → received s ≡ joined fs ++ tail
    → (fuel : ℕ) → length fs < fuel
    → (packets : List Serializer) × (t : Session) × (drain alloc fuel s ≡ some (packets, t))
      × (map contents packets ≡ fs)
      × (received t ≡ tail)
      × RingIsValid t.recv_buffer
unfolding drain
drain_lem fs tail alloc s v u all part e zero h = absurd (omega arith)
drain_lem [] tail alloc s v u all part e (suc fuel) h = (
  [],
  s,
  rw (recved_packet-partial s v (prepare (alloc 0)) (prepared u) (subst IsPartial (sym e) part))
      refl,
  refl,
  e,
  v,
)
drain_lem (f ∷ fs) tail alloc s v u all part e (suc fuel) h =
    let first : received s ≡ f ++ (joined fs ++ tail) = e ∙ append_assoc f (joined fs) tail in
    let all_in : length f + length (joined fs ++ tail) ≡ span s.recv_buffer =
      sym (length-append f (joined fs ++ tail)) ∙ ap length (sym first) ∙ length-received s in
    let fits : length f ≤ (prepare (alloc 0)).buffer_size =
      omega (arith, all_in, span-le v, u.room 0, prepare-buffer_size (alloc 0)) in
    let (r, cut, valid, max, left) =
      recved_packet-frame s v (prepare (alloc 0)) (prepared u) f (joined fs ++ tail) all.0 fits
        first in
    let (packets, t, drains, same, rest, valid') =
      drain_lem fs tail (λ i. alloc (suc i)) (record s { recv_buffer = r }) valid
        (subst (Suits (λ i. alloc (suc i))) (sym max) (later u)) all.1 part left fuel
        (omega arith) in
    (
      packed (prepare (alloc 0)) f ∷ packets,
      t,
      rw (cut, drains) refl,
      ap₂ ◌∷◌ (packed-contents (prepare (alloc 0)) (prepared u) f fits) same,
      rest,
      valid',
    )
