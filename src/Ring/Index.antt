-- ===== src/Ring/Index.antt =====
-- Where the pointers of a well-formed ring stand, with the masks worked out.
use native.Mathlib.Nat.{mod-eq_of_lt, mod-eq-sub-mod}
use native.Mathlib.Nat.{one-le-pow, pow-le-pow_right}
use login_server.Base.{
  ℕ, zero, suc, true, ◌+◌, ◌-◌, ◌%◌, ◌^◌, ◌≤◌, ◌<◌, bit_and, ◌≡◌, refl, ◌∙◌, ◌==◌, List, length,
  ltb, leb, if◌then◌else◌, arith, Bool-cases, inl, inr, leb→le, leb→lt,
}
use login_server.Base.Bits.{bit_and_mask}
use login_server.Ring.{
  Ring, init, made_ring, clear, empty, size, size_between, free_size_between, head, tail,
  direct_enqueue_size, direct_dequeue_size,
}

-- The size is a power of two that an `unsigned int` holds, and both pointers are in the block.
pub record IsValid (r : Ring) : Type 0 where
  pub width : ℕ
  pub power : r.buffer_size ≡ 2 ^ width
  pub width_small : width ≤ 31
  pub mask : r.max_size ≡ r.buffer_size - 1
  pub block : length r.buffer ≡ r.buffer_size
  pub head_in : r.head_ptr < r.buffer_size
  pub tail_in : r.tail_ptr < r.buffer_size

-- The `i`-th offset from `s` on, going round at `m`.
abbrev pub place : ℕ → ℕ → ℕ → ℕ
place m s i = if ltb (s + i) m then s + i else s + i - m

pub mod_place : (m s i : ℕ) → s < m → i ≤ m → (s + i) % m ≡ place m s i
mod_place m s i hs hi = elim (Bool-cases (leb m (s + i))) [
  | inl e ↦ ground (
    arith,
    mod-eq-sub-mod {n = s + i} {m = m} (leb→le m (s + i) e),
    mod-eq_of_lt {n = s + i - m} {m = m} (omega (arith, leb→le m (s + i) e)),
  )
  | inr e ↦ ground (arith, mod-eq_of_lt {n = s + i} {m = m} (leb→lt m (s + i) e))
]

-- A mask by `_maxSize` is a remainder by `bufferSize`.
pub masked : {r : Ring} (v : IsValid r) (x : ℕ) → bit_and x r.max_size ≡ x % r.buffer_size
masked v x = rw (v.mask, v.power) (bit_and_mask v.width x)

-- and at most one round off it is the offset itself or the one a round below
pub masked_place :
    {r : Ring} (v : IsValid r) (s i : ℕ)
    → s < r.buffer_size
    → i ≤ r.buffer_size
    → bit_and (s + i) r.max_size ≡ place r.buffer_size s i
masked_place {r} v s i hs hi = masked v (s + i) ∙ mod_place r.buffer_size s i hs hi

-- The bytes held, without the mask.
abbrev pub span : Ring → ℕ
span r =
    if leb r.head_ptr r.tail_ptr
    then r.tail_ptr - r.head_ptr
    else r.tail_ptr + r.buffer_size - r.head_ptr

pub size_between-span : {r : Ring} (v : IsValid r) → size_between r r.head_ptr r.tail_ptr ≡ span r
unfolding size_between
size_between-span {r} v = ground (
  arith,
  v.tail_in,
  v.head_in,
  masked_place v r.tail_ptr (r.buffer_size - r.head_ptr) v.tail_in (omega arith),
  sub_last r.tail_ptr r.buffer_size r.head_ptr,
)
  where
    sub_last : (a b c : ℕ) → c ≤ b → a + b - c ≡ a + (b - c)
    sub_last a b c h = omega arith

pub empty-span : {r : Ring} (v : IsValid r) → empty r ≡ (span r == 0)
unfolding empty
empty-span v = ground (arith, v.head_in, v.tail_in)

pub size-span : {r : Ring} (v : IsValid r) → size r ≡ span r
unfolding size size_between
size-span v = size_between-span v

pub free_size_between-span :
    {r : Ring} (v : IsValid r)
    → free_size_between r r.head_ptr r.tail_ptr + span r + 1 ≡ r.buffer_size
unfolding free_size_between size_between
free_size_between-span {r} v = ground (arith, size_between-span v, v.mask, v.head_in, v.tail_in)

pub head-place : {r : Ring} (v : IsValid r) → head r ≡ place r.buffer_size r.head_ptr 1
unfolding head
head-place {r} v = masked_place v r.head_ptr 1 v.head_in (omega (arith, v.head_in))

pub tail-place : {r : Ring} (v : IsValid r) → tail r ≡ place r.buffer_size r.tail_ptr 1
unfolding tail
tail-place {r} v = masked_place v r.tail_ptr 1 v.tail_in (omega (arith, v.tail_in))

-- What one block of the caller's bytes can fill, and what the bytes held fill, before the end.
pub direct_enqueue_size-place :
    {r : Ring} (v : IsValid r)
    → direct_enqueue_size r ≡ (
        if leb (place r.buffer_size r.tail_ptr 1) r.head_ptr
        then r.head_ptr - place r.buffer_size r.tail_ptr 1
        else r.buffer_size - place r.buffer_size r.tail_ptr 1)
unfolding direct_enqueue_size
direct_enqueue_size-place v = rw (tail-place v)

pub direct_dequeue_size-place :
    {r : Ring} (v : IsValid r)
    → direct_dequeue_size r ≡ (
        if leb (place r.buffer_size r.head_ptr 1) (place r.buffer_size r.tail_ptr 1)
        then place r.buffer_size r.tail_ptr 1 - place r.buffer_size r.head_ptr 1
        else r.buffer_size - place r.buffer_size r.head_ptr 1)
unfolding direct_dequeue_size
direct_dequeue_size-place v = rw (tail-place v, head-place v)

pub empty-clear : (r : Ring) → empty (clear r) ≡ true
unfolding empty clear
empty-clear r = ground arith

pow_le : (k : ℕ) → k ≤ 30 → 2 ^ k ≤ 2 ^ 30
pow_le k h = pow-le-pow_right (omega arith) h

-- The constructor makes a well-formed ring with nothing in it.
pub init-IsValid :
    (ceil_log2 : ℕ → ℕ) (new_bytes : ℕ → List ℕ) (n : ℕ)
    → 0 < n
    → ceil_log2 n ≤ 30
    → ((k : ℕ) → length (new_bytes k) ≡ k)
    → IsValid (init ceil_log2 new_bytes n)
      × (span (init ceil_log2 new_bytes n) ≡ 0)
      × ((init ceil_log2 new_bytes n).max_size + 1 ≡ 2 ^ ceil_log2 n)
unfolding init made_ring
init-IsValid ceil_log2 new_bytes zero some_size small new = absurd (omega arith)
init-IsValid ceil_log2 new_bytes (suc n) some_size small new =
    let positive = one-le-pow (ceil_log2 (suc n)) 2 in
    let below = pow_le (ceil_log2 (suc n)) small in
    (
      record {
        width = ceil_log2 (suc n);
        power = refl;
        width_small = omega (arith, small);
        mask = omega (arith, positive, below);
        block = new (2 ^ ceil_log2 (suc n));
        head_in = omega (arith, positive);
        tail_in = omega (arith, positive);
      },
      ground arith,
      omega (arith, positive, below),
    )
