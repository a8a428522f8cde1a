-- ===== src/Serializer/Cipher.antt =====
-- What `encryption` hides `decryption` finds again, and the checksum of `setHeader` is accepted.
use login_server.Base.{
  ℕ, suc, ◌+◌, ◌-◌, ◌^◌, ◌<◌, bit_xor, ◌≡◌, refl, ap, ◌↔◌, Bool, true, ltb, ◌&&◌, List, [], ◌∷◌,
  arith, length,
}
use login_server.Base.Bits.{bit_xor_cancel}
use login_server.Serializer.Header.{u8, encrypt, decrypt, sum_bytes, sub_bytes}

-- Bytes, as patterns of eight bits.
abbrev pub AllBytes : List ℕ → Type 0
AllBytes [] = Unit {0}
AllBytes (b ∷ bs) = (b < 256) × AllBytes bs

-- A test for it.
abbrev pub all_bytes : List ℕ → Bool
all_bytes [] = true
all_bytes (b ∷ bs) = ltb b 256 && all_bytes bs

pub all_bytes-AllBytes : (bs : List ℕ) → all_bytes bs ≡ true → AllBytes bs
all_bytes-AllBytes [] h = record {}
all_bytes-AllBytes (b ∷ bs) h = (ground arith, all_bytes-AllBytes bs (ground arith))

pub length-encrypt :
    (sk dk i pp pe : ℕ) (ts : List ℕ) → length (encrypt sk dk i pp pe ts) ≡ length ts
unfolding encrypt
length-encrypt sk dk i pp pe [] = refl
length-encrypt sk dk i pp pe (t ∷ ts) = ap suc (length-encrypt sk dk (i + 1) _ _ ts)

pub encrypt-AllBytes :
    (sk dk i pp pe : ℕ) (ts : List ℕ) → AllBytes ts → AllBytes (encrypt sk dk i pp pe ts)
unfolding encrypt
encrypt-AllBytes sk dk i pp pe [] h = tt
encrypt-AllBytes sk dk i pp pe (t ∷ ts) h = (
  (bit_xor_cancel 8 (bit_xor t (u8 (pp + dk + 1 + i))) (u8 (pe + sk + 1 + i))
      (bit_xor_cancel 8 t (u8 (pp + dk + 1 + i)) h.0 (omega arith)).0 (omega arith)).0,
  encrypt-AllBytes sk dk (i + 1) _ _ ts h.1,
)

-- Decrypting undoes encrypting, for any two keys, from any common state of the two loops.
pub decrypt-encrypt :
    (sk dk i pp pe : ℕ) (ts : List ℕ)
    → AllBytes ts
    → decrypt sk dk i pp pe (encrypt sk dk i pp pe ts) ≡ ts
unfolding encrypt decrypt
decrypt-encrypt sk dk i pp pe [] h = refl
decrypt-encrypt sk dk i pp pe (t ∷ ts) h =
    let p = bit_xor t (u8 (pp + dk + 1 + i)) in
    let first = bit_xor_cancel 8 t (u8 (pp + dk + 1 + i)) h.0 (omega arith) in
    let back = bit_xor_cancel 8 p (u8 (pe + sk + 1 + i)) first.0 (omega arith) in
    rw (back.1, first.1, decrypt-encrypt sk dk (i + 1) p (bit_xor p (u8 (pe + sk + 1 + i))) ts h.1)

-- The sum of bytes, with no wrap.
plain_sum : List ℕ → ℕ
plain_sum [] = 0
plain_sum (b ∷ bs) = b + plain_sum bs

sum_bytes-plain : (acc : ℕ) (bs : List ℕ) → acc < 256 → sum_bytes acc bs ≡ u8 (acc + plain_sum bs)
unfolding sum_bytes plain_sum
sum_bytes-plain acc [] h = omega arith
sum_bytes-plain acc (b ∷ bs) h = omega (arith, sum_bytes-plain (u8 (acc + b)) bs (omega arith))

pub sum_bytes-lt : (bs : List ℕ) → sum_bytes 0 bs < 256
sum_bytes-lt bs = omega (arith, sum_bytes-plain 0 bs (omega arith))

sub_bytes-plain :
    (acc : ℕ) (bs : List ℕ)
    → acc < 256
    → AllBytes bs
    → (sub_bytes acc bs < 256) × (u8 (sub_bytes acc bs + plain_sum bs) ≡ acc)
unfolding sub_bytes plain_sum
sub_bytes-plain acc [] h a = omega arith
sub_bytes-plain acc (b ∷ bs) h a =
    omega (arith, a.0, sub_bytes-plain (u8 (acc + 2 ^ 8 - b)) bs (omega arith) a.1)

-- Subtracting the payload from a checksum leaves 0 exactly when it is the checksum of that payload.
pub sub_bytes-sum_bytes :
    (bs : List ℕ) (c : ℕ) → AllBytes bs → c < 256 → (sub_bytes c bs ≡ 0) ↔ (c ≡ sum_bytes 0 bs)
sub_bytes-sum_bytes bs c h hc = (
  λ e. omega (arith, sum_bytes-plain 0 bs (omega arith), sub_bytes-plain c bs hc h),
  λ e. omega (arith, sum_bytes-plain 0 bs (omega arith), sub_bytes-plain c bs hc h),
)
