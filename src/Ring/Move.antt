-- ===== src/Ring/Move.antt =====
-- `MoveRear` and `MoveFront`, by which a session hands over bytes that the kernel has written into
-- the block, and the agreement of the two ways to ask for the free room.
use native.Mathlib.Nat.{
  mod-eq_of_lt, mod-eq-sub-mod, add-mul-mod_self_right, pow-suc, zero-add, pow-le-pow_right,
}
use login_server.Base.{
  List, length, take, some, ◌>>=◌, ℕ, zero, suc, ◌*◌, Bool-cases, inl, inr, leb→le, leb→lt, ◌+◌,
  ◌-◌, ◌%◌, ◌^◌, ◌≤◌, ◌<◌, bit_and, ◌≡◌, sym, ap, ◌∙◌, arith, leb,
}
use login_server.Base.Int.{pos}
use login_server.Ring.Push.{push_fits}
use login_server.Ring.Pop.{given, pop_steps, front_lem}
use login_server.Ring.Contents.{contents}
use login_server.Ring.{
  store, tail, direct_enqueue_size, push, pop, front, Ring, free_size, free_size_between, move_rear,
  move_front,
}
use login_server.Ring.Index.{IsValid, span, masked, size_between-span, free_size_between-span}

suc_add : (a b : ℕ) → suc a + b ≡ suc (a + b)
suc_add a b = omega arith

two-pow-add : (a b : ℕ) → 2 ^ (a + b) ≡ 2 ^ a * 2 ^ b
two-pow-add zero b = ap (λ k. 2 ^ k) (zero-add b) ∙ omega arith
two-pow-add (suc a) b =
    ap (λ k. 2 ^ k) (suc_add a b)
    ∙ omega (arith, pow-suc 2 (a + b), two-pow-add a b, ap (λ (t : ℕ). t * 2 ^ b) (pow-suc 2 a))

last_round_of : (q m n : ℕ) → q * m ≡ n → 0 < n → (q - 1) * m + m ≡ n
last_round_of zero m n e h = absurd (omega arith)
last_round_of (suc q) m n e h = omega (arith, ap (λ (t : ℕ). t * m) (sub_one q))
  where
    sub_one : (k : ℕ) → suc k - 1 ≡ k
    sub_one k = omega arith

module _ (m q x : ℕ) (rounds : q * m ≡ 2 ^ 64) (some_m : 0 < m) (small : m ≤ 2 ^ 31)
    (few : x < 2 * m) where
  last_round : (q - 1) * m + m ≡ 2 ^ 64
  last_round = last_round_of q m (2 ^ 64) rounds (omega arith)

  -- A difference that goes below 0 wraps in 64 bits; the mask then gives the same low digits.
  mask_complement : (2 ^ 64 + (m - 1) - x) % 2 ^ 64 % m ≡ m - 1 - x % m
  mask_complement = elim (Bool-cases (leb m x)) [
    | inl e ↦ ground (
      arith,
      last_round,
      mod-eq-sub-mod {n = x} {m = m} (leb→le m x e),
      mod-eq_of_lt {n = x - m} {m = m} (omega (arith, leb→le m x e)),
      add-mul-mod_self_right (2 * m - 1 - x) (q - 1) m,
      mod-eq_of_lt {n = 2 * m - 1 - x} {m = m} (omega (arith, leb→le m x e)),
    )
    | inr e ↦ ground (
      arith,
      mod-eq_of_lt {n = x} {m = m} (leb→lt m x e),
      mod-eq_of_lt {n = m - 1 - x} {m = m} (omega arith),
    )
  ]

sixty_four : (k : ℕ) → k ≡ 64 → 2 ^ k ≡ 2 ^ 64
sixty_four k e = ap (λ n. 2 ^ n) e

pub buffer_size-le : {r : Ring} (v : IsValid r) → r.buffer_size ≤ 2 ^ 31
buffer_size-le v = rw v.power (pow-le-pow_right (omega arith) v.width_small)

-- The public `freeSize()`, whose mask is applied to the wrong operand as its text reads, gives the
-- same number as `freeSize(h, t)`, on every well-formed ring.
pub free_size-free_size_between :
    {r : Ring} → IsValid r → free_size r ≡ free_size_between r r.head_ptr r.tail_ptr
unfolding free_size free_size_between
free_size-free_size_between {r} v =
    rw
      (
        masked v ((2 ^ 64 + r.max_size - (r.tail_ptr + r.buffer_size - r.head_ptr)) % 2 ^ 64),
        masked v (r.tail_ptr + r.buffer_size - r.head_ptr),
        v.mask,
      )
      (mask_complement r.buffer_size (2 ^ (64 - v.width)) (r.tail_ptr + r.buffer_size - r.head_ptr)
        (rw v.power (
          sym (two-pow-add (64 - v.width) v.width)
          ∙ sixty_four (64 - v.width + v.width) (omega (arith, v.width_small))))
        (omega (arith, v.head_in)) (buffer_size-le v) (omega (arith, v.head_in, v.tail_in)))

move_rear-pos :
    {r : Ring} (v : IsValid r) (n : ℕ)
    → n ≤ r.max_size - span r
    → move_rear r (pos n) ≡ (pos n, record r { tail_ptr = bit_and (r.tail_ptr + n) r.max_size })
unfolding move_rear
move_rear-pos {r} v n fits = ground (arith, free_size_between-span v, v.mask, buffer_size-le v)

move_front-pos :
    {r : Ring} (v : IsValid r) (n : ℕ)
    → n ≤ span r
    → move_front r (pos n) ≡ (pos n, record r { head_ptr = bit_and (r.head_ptr + n) r.max_size })
unfolding move_front
move_front-pos {r} v n fits =
    ground (arith, size_between-span v, free_size_between-span v, v.mask, buffer_size-le v)

with_block :
    {r : Ring} (v : IsValid r) (b : List ℕ)
    → length b ≡ r.buffer_size
    → IsValid (record r { buffer = b })
with_block v b whole = record {
  width = v.width;
  power = v.power;
  width_small = v.width_small;
  mask = v.mask;
  block = whole;
  head_in = v.head_in;
  tail_in = v.tail_in;
}

-- A receive: the kernel scatters the bytes over the free room, from `tail()` on and then from the
-- start of the block, and `MoveRear` takes them in. It is a push of those bytes.
pub receive-push :
    {r : Ring} (v : IsValid r) (bytes : List ℕ)
    → length bytes ≤ r.max_size - span r
    → (b : List ℕ) × (store r.buffer (tail r) (direct_enqueue_size r) bytes ≡ some b)
      × (push r bytes
          ≡ some (length bytes, (move_rear (record r { buffer = b }) (pos (length bytes))).1))
receive-push {r} v bytes fits =
    let (b, stores, whole, pushes) = push_fits r v bytes fits in
    (
      b,
      stores,
      pushes
          ∙ ap (λ m. some (length bytes, m.1))
              (sym (move_rear-pos (with_block v b whole) (length bytes) fits)),
    )

-- A pop is a `front` followed by a `MoveFront` of the count that it returns.
pub pop-front-move_front :
    {r : Ring}
    → IsValid r
    → (wanted : ℕ)
    → pop r wanted ≡ (front r wanted >>= λ (n, bytes). some (n, bytes, (move_front r (pos n)).1))
pop-front-move_front {r} v wanted =
    pop_steps r v wanted
    ∙ ap (λ m. some (given r wanted, take (given r wanted) (contents r), m.1))
        (sym (move_front-pos v (given r wanted) (omega arith)))
    ∙ ap (λ o. o >>= λ (n, bytes). some (n, bytes, (move_front r (pos n)).1))
        (sym (front_lem r v wanted))
