-- ===== src/Base/Bits.antt =====
-- `&` with a mask of low ones is a remainder, and `^` with the same value twice changes nothing.
-- Both are read off the native operations' digits, from the width down.
use Prim.Native.Nat.{
  ℕ, zero, suc, ◌+◌, ◌-◌, ◌*◌, ◌/◌, ◌%◌, ◌^◌, ◌≤◌, ◌<◌, min, max, differ, bit_or, bit_or-bitwise,
  bit_and, bit_xor, digits, bit_and-bitwise, bit_xor-bitwise,
}
use mathlib.Core.Path.{◌≡◌, refl, sym, ap, ◌∙◌}
use native.Mathlib.Omega.{arith}
use native.Mathlib.Nat.{
  pow-suc, one-le-pow, div-div-eq-div-mul, div-add-mod, zero-div, zero-mod, div-one,
}

abbrev and_of : ℕ → ℕ → ℕ → ℕ
and_of fuel a b = digits (λ y. 0) min fuel a b

no_mask : (fuel a : ℕ) → and_of fuel a 0 ≡ 0
no_mask zero zero = refl
no_mask zero (suc a) = refl
no_mask (suc fuel) zero = refl
no_mask (suc fuel) (suc a) = omega (arith, no_mask fuel (suc a / 2))

half_mask : (k : ℕ) → (2 ^ suc k - 1) / 2 ≡ 2 ^ k - 1
half_mask k = ground (arith, pow-suc 2 k, one-le-pow k 2)

double : (k a : ℕ) → a / 2 % 2 ^ k * 2 + a % 2 ≡ a % 2 ^ suc k
double k a =
    let e : a / 2 ^ suc k ≡ a / 2 / 2 ^ k =
      ap (λ t. a / t) (omega (arith, pow-suc 2 k)) ∙ sym (div-div-eq-div-mul a 2 (2 ^ k)) in
    let w : 2 ^ suc k * (a / 2 ^ suc k) ≡ 2 * (2 ^ k * (a / 2 / 2 ^ k)) =
      ap (λ t. 2 ^ suc k * t) e ∙ ap (λ t. t * (a / 2 / 2 ^ k)) (pow-suc 2 k) ∙ ground arith in
    omega (arith, div-add-mod a (2 ^ suc k), div-add-mod (a / 2) (2 ^ k), div-add-mod a 2)

masked : (k fuel a : ℕ) → a ≤ fuel → and_of fuel a (2 ^ k - 1) ≡ a % 2 ^ k
masked zero fuel a h = omega (arith, no_mask fuel a)
masked (suc k) zero zero h = omega (arith, pow-suc 2 k, one-le-pow k 2)
masked (suc k) (suc fuel) zero h = omega (arith, pow-suc 2 k, one-le-pow k 2)
masked (suc k) zero (suc a) h = absurd (omega arith)
masked (suc k) (suc fuel) (suc a) h =
    ap (λ b. and_of fuel (suc a / 2) b * 2 + min (suc a % 2) ((2 ^ suc k - 1) % 2)) (half_mask k)
    ∙ ap (λ t. t * 2 + min (suc a % 2) ((2 ^ suc k - 1) % 2))
        (masked k fuel (suc a / 2) (omega arith))
    ∙ ground (arith, pow-suc 2 k, one-le-pow k 2, double k (suc a))

-- A mask of `k` ones keeps the `k` low digits.
pub bit_and_mask : (k a : ℕ) → bit_and a (2 ^ k - 1) ≡ a % 2 ^ k
bit_and_mask k a = bit_and-bitwise a (2 ^ k - 1) ∙ masked k a a (omega arith)

nothing : (k j : ℕ) → 0 / 2 ^ k % 2 ^ j * 2 ^ k ≡ 0
nothing k j =
    ap (λ q. q % 2 ^ j * 2 ^ k) (zero-div (2 ^ k))
    ∙ ap (λ r. r * 2 ^ k) (zero-mod (2 ^ j))
    ∙ omega arith

-- A mask whose `k` low digits are 0 keeps what another keeps of the digits above.
shifted :
    (k j fuel a : ℕ) → a ≤ fuel → and_of fuel a ((2 ^ j - 1) * 2 ^ k) ≡ a / 2 ^ k % 2 ^ j * 2 ^ k
shifted zero j fuel a h =
    ap (and_of fuel a) (omega arith)
    ∙ masked j fuel a h
    ∙ ap (λ q. q % 2 ^ j) (sym (div-one a))
    ∙ omega arith
shifted (suc k) j zero zero h = sym (nothing (suc k) j)
shifted (suc k) j (suc fuel) zero h = sym (nothing (suc k) j)
shifted (suc k) j zero (suc a) h = absurd (omega arith)
shifted (suc k) j (suc fuel) (suc a) h =
    let twice : (2 ^ j - 1) * 2 ^ suc k ≡ 2 * ((2 ^ j - 1) * 2 ^ k) =
      ap (λ t. (2 ^ j - 1) * t) (pow-suc 2 k) ∙ ground arith in
    let half : (2 ^ j - 1) * 2 ^ suc k / 2 ≡ (2 ^ j - 1) * 2 ^ k = omega arith in
    let above : suc a / 2 ^ suc k ≡ suc a / 2 / 2 ^ k =
      ap (λ t. suc a / t) (omega (arith, pow-suc 2 k))
      ∙ sym (div-div-eq-div-mul (suc a) 2 (2 ^ k)) in
    let wide : suc a / 2 ^ suc k % 2 ^ j * 2 ^ suc k ≡ 2 * (suc a / 2 / 2 ^ k % 2 ^ j * 2 ^ k) =
      ap (λ q. q % 2 ^ j * 2 ^ suc k) above
      ∙ ap (λ t. suc a / 2 / 2 ^ k % 2 ^ j * t) (pow-suc 2 k)
      ∙ ground arith in
    ap (λ t. t * 2 + min (suc a % 2) ((2 ^ j - 1) * 2 ^ suc k % 2))
      (ap (and_of fuel (suc a / 2)) half ∙ shifted k j fuel (suc a / 2) (omega arith))
    ∙ ground (arith, twice, wide)

-- A mask of `j` ones above `k` zeros keeps those digits in their places.
pub bit_and_field : (k j a : ℕ) → bit_and a ((2 ^ j - 1) * 2 ^ k) ≡ a / 2 ^ k % 2 ^ j * 2 ^ k
bit_and_field k j a = bit_and-bitwise a ((2 ^ j - 1) * 2 ^ k) ∙ shifted k j a a (omega arith)

-- `|` with a number whose digits are all above those of `a`.
unmasked :
    (fuel a b k : ℕ) → a ≤ fuel → a < 2 ^ k → digits (λ y. y) max fuel a (b * 2 ^ k) ≡ b * 2 ^ k + a
unmasked zero zero b k h p = omega arith
unmasked (suc fuel) zero b k h p = omega arith
unmasked zero (suc a) b k h p = absurd (omega arith)
unmasked (suc fuel) (suc a) b zero h p = absurd (omega arith)
unmasked (suc fuel) (suc a) b (suc k) h p =
    let twice : b * 2 ^ suc k ≡ 2 * (b * 2 ^ k) = ap (λ t. b * t) (pow-suc 2 k) ∙ omega arith in
    let half : b * 2 ^ suc k / 2 ≡ b * 2 ^ k = omega arith in
    ap (λ t. t * 2 + max (suc a % 2) (b * 2 ^ suc k % 2))
      (ap (digits (λ y. y) max fuel (suc a / 2)) half
        ∙ unmasked fuel (suc a / 2) b k (omega arith) (omega (arith, pow-suc 2 k)))
    ∙ ground (arith, twice)

-- `|` of two fields that do not overlap is their sum.
pub bit_or_fields : (k a b : ℕ) → a < 2 ^ k → bit_or a (b * 2 ^ k) ≡ b * 2 ^ k + a
bit_or_fields k a b p = bit_or-bitwise a (b * 2 ^ k) ∙ unmasked a a b k (omega arith) p

-- `^` of `k` digits, from the lowest on.
abbrev xor_of : ℕ → ℕ → ℕ → ℕ
xor_of zero a b = 0
xor_of (suc k) a b = 2 * xor_of k (a / 2) (b / 2) + differ (a % 2) (b % 2)

zero-xor_of : (k b : ℕ) → b < 2 ^ k → xor_of k 0 b ≡ b
zero-xor_of zero b h = omega arith
zero-xor_of (suc k) b h =
    ground (arith, pow-suc 2 k, zero-xor_of k (b / 2) (omega (arith, pow-suc 2 k)))

xor_digits :
    (k fuel a b : ℕ)
    → a ≤ fuel
    → a < 2 ^ k
    → b < 2 ^ k
    → digits (λ y. y) differ fuel a b ≡ xor_of k a b
xor_digits k zero zero b h p q = sym (zero-xor_of k b q)
xor_digits k (suc fuel) zero b h p q = sym (zero-xor_of k b q)
xor_digits k zero (suc a) b h p q = absurd (omega arith)
xor_digits zero (suc fuel) (suc a) b h p q = absurd (omega arith)
xor_digits (suc k) (suc fuel) (suc a) b h p q = omega (
  arith,
  xor_digits k fuel (suc a / 2) (b / 2) (omega arith) (omega (arith, pow-suc 2 k))
      (omega (arith, pow-suc 2 k)),
)

bit_xor-xor_of : (k a b : ℕ) → a < 2 ^ k → b < 2 ^ k → bit_xor a b ≡ xor_of k a b
bit_xor-xor_of k a b p q = bit_xor-bitwise a b ∙ xor_digits k a a b (omega arith) p q

differ_digits : (x y : ℕ) → x < 2 → y < 2 → (differ x y < 2) × (differ (differ x y) y ≡ x)
differ_digits zero zero p q = omega arith
differ_digits zero (suc zero) p q = omega arith
differ_digits (suc zero) zero p q = omega arith
differ_digits (suc zero) (suc zero) p q = omega arith
differ_digits zero (suc (suc y)) p q = absurd (omega arith)
differ_digits (suc zero) (suc (suc y)) p q = absurd (omega arith)
differ_digits (suc (suc x)) y p q = absurd (omega arith)

xor_of_cancel :
    (k a b : ℕ) → a < 2 ^ k → b < 2 ^ k → (xor_of k a b < 2 ^ k) × (xor_of k (xor_of k a b) b ≡ a)
xor_of_cancel zero a b p q = omega arith
xor_of_cancel (suc k) a b p q = ground (
  arith,
  pow-suc 2 k,
  differ_digits (a % 2) (b % 2),
  xor_of_cancel k (a / 2) (b / 2) (omega (arith, pow-suc 2 k)) (omega (arith, pow-suc 2 k)),
)

-- `^` stays within the width of its operands, and undoes itself.
pub bit_xor_cancel :
    (k a b : ℕ) → a < 2 ^ k → b < 2 ^ k → (bit_xor a b < 2 ^ k) × (bit_xor (bit_xor a b) b ≡ a)
bit_xor_cancel k a b p q =
    let (small, back) = xor_of_cancel k a b p q in
    let e = bit_xor-xor_of k a b p q in
    rw (e, bit_xor-xor_of k (xor_of k a b) b small q) (small, back)
