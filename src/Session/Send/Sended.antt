-- ===== src/Session/Send/Sended.antt =====
-- `sended` gives up exactly the packets that a completed `WSASend` has sent.
use login_server.Base.{
  ℕ, zero, suc, ◌+◌, ◌-◌, ◌%◌, ◌^◌, ◌<◌, ◌≡◌, refl, sym, ap, ◌∙◌, false, some, List, [], ◌∷◌, ◌++◌,
  length, arith, ◌==◌,
}
use login_server.Base.Int.{pos}
use login_server.Ring.{Ring}
use login_server.Serializer.{size}
use login_server.Packet.{Store, release}
use login_server.Session.{Session}
use login_server.Session.Send.{sended_loop, sended, release_queue}
use login_server.Session.Send.Pointers.{Carries, AllAddresses, pop-Carries, pointer-back}

-- The bytes of these packets together.
abbrev pub total : Store → List ℕ → ℕ
total st [] = 0
total st (a ∷ ps) = size (st.cell a) + total st ps

-- None of these packets is empty.
abbrev pub AllSized : Store → List ℕ → Type 0
AllSized st [] = Unit
AllSized st (a ∷ ps) = (0 < size (st.cell a)) × AllSized st ps

size-release : (st : Store) (a b : ℕ) → size ((release st a).cell b) ≡ size (st.cell b)
unfolding release size
size-release st a b = ground arith

total-release : (st : Store) (a : ℕ) (ps : List ℕ) → total (release st a) ps ≡ total st ps
total-release st a [] = refl
total-release st a (b ∷ ps) = omega (arith, size-release st a b, total-release st a ps)

AllSized-release : (st : Store) (a : ℕ) (ps : List ℕ) → AllSized st ps → AllSized (release st a) ps
AllSized-release st a [] h = tt
AllSized-release st a (b ∷ ps) h =
    (omega (arith, size-release st a b), AllSized-release st a ps h.1)

some_left : (n : ℕ) → 0 < n → (n == 0) ≡ false
some_left n h = ground arith

-- What is left of a transfer after its first packet, in 32 bits.
left_of : (n m : ℕ) → n + m < 2 ^ 32 → (n + m + 2 ^ 32 - n % 2 ^ 32) % 2 ^ 32 ≡ m
left_of n m h = omega arith

sended_loop_lem :
    (ps rest : List ℕ) (fuel : ℕ) (st : Store) (count : ℕ) {r : Ring}
    → Carries r (ps ++ rest)
    → AllAddresses ps
    → AllSized st ps
    → total st ps < 2 ^ 32
    → length ps < fuel
    → (r' : Ring) × (sended_loop fuel st r (total st ps) count
        ≡ some (count + length ps, release_queue st ps, r'))
      × (r'.max_size ≡ r.max_size)
      × Carries r' rest
unfolding sended_loop release_queue
sended_loop_lem ps rest zero st count c at sized few h = absurd (omega arith)
sended_loop_lem [] rest (suc fuel) st count {r} c at sized few h =
    (r, ap (λ n. some (n, st, r)) (omega arith), refl, c)
sended_loop_lem (a ∷ ps) rest (suc fuel) st count {r} c at sized few h =
    let (r', pops, max, c') = pop-Carries c in
    let (r'', loops, max', c'') =
      sended_loop_lem ps rest fuel (release st a) (count + 1) c' at.1
        (AllSized-release st a ps sized.1) (omega (arith, total-release st a ps)) (omega arith) in
    let same : total st ps ≡ total (release st a) ps = sym (total-release st a ps) in
    (
      r'',
      rw
          (
            some_left (size (st.cell a) + total st ps) (omega arith),
            pops,
            pointer-back a at.0,
            left_of (size (st.cell a)) (total st ps) few,
            same,
            loops,
          )
          (ap (λ n. some (n, release_queue (release st a) ps, r'')) (omega arith)),
      max' ∙ max,
      c'',
    )

pub total-pos : (st : Store) (qs : List ℕ) → AllSized st qs → 0 < length qs → 0 < total st qs
total-pos st [] z h = absurd (omega arith)
total-pos st (a ∷ qs) z h = omega arith

-- A completion of all bytes of the packets `ps`, which are not empty, are at the front of the packets
-- under way and hold fewer than 2 ^ 32 bytes together: `sended` ends, returns their number, gives up
-- one reference to each of them in order, and leaves the others under way.
pub sended_lem :
    (ps rest : List ℕ) (st : Store) (s : Session)
    → Carries s.sended_buffer (ps ++ rest)
    → AllAddresses ps
    → AllSized st ps
    → 0 < length ps
    → total st ps < 2 ^ 32
    → (fuel : ℕ) → length ps < fuel
    → (r : Ring) × (sended fuel st s (total st ps)
        ≡ some (pos (length ps), release_queue st ps, record s { sended_buffer = r }))
      × (r.max_size ≡ s.sended_buffer.max_size)
      × Carries r rest
unfolding sended
sended_lem ps rest st s c at sized some_packets few fuel h =
    let (r, loops, max, c') = sended_loop_lem ps rest fuel st 0 c at sized few h in
    let e : 0 + length ps ≡ length ps = omega arith in
    (
      r,
      rw (some_left (total st ps) (total-pos st ps sized some_packets), loops)
          (ap (λ n. some (pos n, release_queue st ps, record s { sended_buffer = r })) e),
      max,
      c',
    )
