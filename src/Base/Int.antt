-- ===== src/Base/Int.antt =====
-- Signed integers over the native numbers, under the library's names, and pointer arithmetic in 64
-- bits.
use Prim.Native.Nat.{ℕ, suc, ◌+◌, ◌-◌, ◌%◌, ◌^◌}
use mathlib.Core.Bool.{Bool}
use login_server.Base.Tests.{ltb, leb, if◌then◌else◌}

-- `negsuc n` is -(n + 1).
pub data ℤ : Type 0 where
  pos : ℕ → ℤ
  negsuc : ℕ → ℤ

abbrev pub pos_part : ℤ → ℕ
pos_part (pos n) = n
pos_part (negsuc n) = 0

abbrev pub neg_part : ℤ → ℕ
neg_part (pos n) = 0
neg_part (negsuc n) = suc n

-- `a - b`, as an integer
abbrev pub sub_ℕ : ℕ → ℕ → ℤ
sub_ℕ a b = if leb b a then pos (a - b) else negsuc (b - a - 1)

abbrev pub ltb_ℤ : ℤ → ℤ → Bool
ltb_ℤ a b = ltb (pos_part a + neg_part b) (pos_part b + neg_part a)

abbrev pub max_ℤ : ℤ → ℤ → ℤ
max_ℤ a b = if ltb_ℤ a b then b else a

-- `p + z` for a pointer, and `p - q` as a `size_t`
abbrev pub ptr_add : ℕ → ℤ → ℕ
ptr_add p z = (2 ^ 64 + p + pos_part z - neg_part z) % 2 ^ 64

abbrev pub ptr_sub : ℕ → ℕ → ℕ
ptr_sub p q = (2 ^ 64 + p - q) % 2 ^ 64
