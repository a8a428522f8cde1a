-- ===== src/Serializer/Sealed.antt =====
-- A packet from `setHeader` over `encryption` to `decryption`.
use login_server.Base.{
  ℕ, suc, ◌+◌, ◌-◌, ◌/◌, ◌^◌, ◌≤◌, ◌<◌, ◌≡◌, refl, sym, ap, ◌∙◌, true, some, List, [], ◌∷◌, ◌++◌,
  arith, length, get_or, drop, take-append, take-append-drop, ◌==◌,
}
use login_server.Base.Blocks.{slice}
use login_server.Serializer.{Serializer}
use login_server.Serializer.Header.{
  header_size, packet_code, u8, payload_size, size_field, input_size, sum_bytes, sub_bytes,
  set_header, encryption, decryption,
}
use login_server.Serializer.Cipher.{AllBytes, sub_bytes-sum_bytes, sum_bytes-lt}
use login_server.Serializer.Valid.{IsValid, contents, length-contents}
use login_server.Serializer.Framed.{framed, set_header-framed, encryption-framed, decryption-framed}

-- Any block with room for a header, as a header, the bytes after it, and the rest.
framed_view :
    (b : List ℕ) (n : ℕ)
    → header_size ≤ length b
    → b
      ≡ framed
          (get_or b 0 0)
          (get_or b 1 0)
          (get_or b 2 0)
          (get_or b 3 0)
          (get_or b 4 0)
          (slice b header_size n)
          (drop n (drop header_size b))
framed_view (a ∷ b ∷ c ∷ d ∷ e ∷ xs) n h =
    ap (λ t. a ∷ b ∷ c ∷ d ∷ e ∷ t) (sym (take-append-drop n xs))
framed_view (a ∷ b ∷ c ∷ d ∷ []) n h = absurd (omega arith)
framed_view (a ∷ b ∷ c ∷ []) n h = absurd (omega arith)
framed_view (a ∷ b ∷ []) n h = absurd (omega arith)
framed_view (a ∷ []) n h = absurd (omega arith)
framed_view [] n h = absurd (omega arith)

pub input_size-u8 : (n : ℕ) → n < 2 ^ 15 → input_size (u8 n) (u8 (n / 2 ^ 8)) ≡ suc n
input_size-u8 n h = ground arith

-- A packet as its constructor leaves it: the payload is behind the room for the header.
pub record IsPacket (s : Serializer) : Type 0 where
  pub valid : IsValid s
  pub behind_header : s.head_ptr ≡ s.buffer_ptr + header_size
  pub bytes : AllBytes (contents s)
  pub short : s.tail_ptr - s.head_ptr < 2 ^ 15

-- The bytes of a packet that is ready to be read: its header, with a checksum of 0, and the payload.
abbrev pub opened : ℕ → List ℕ → List ℕ
opened key payload =
    packet_code ∷ u8 (length payload) ∷ u8 (length payload / 2 ^ 8) ∷ key ∷ 0 ∷ payload

slice-framed :
    (code lo hi key check : ℕ) (payload rest : List ℕ) (b t : ℕ)
    → t ≡ b + header_size + length payload
    → slice (framed code lo hi key check payload rest) (b - b) (t - b)
      ≡ code ∷ lo ∷ hi ∷ key ∷ check ∷ payload
slice-framed code lo hi key check payload rest b t e =
    let start : b - b ≡ 0 = omega arith in
    let whole : t - b ≡ suc (suc (suc (suc (suc (length payload))))) = omega arith in
    (λ i. slice (framed code lo hi key check payload rest) (start i) (whole i))
    ∙ ap (λ p. code ∷ lo ∷ hi ∷ key ∷ check ∷ p) (take-append payload rest)

-- The same, for a payload and its surroundings that are given apart.
module _ (s : Serializer) (payload rest : List ℕ) (code lo hi k check : ℕ)
    (block : s.block ≡ framed code lo hi k check payload rest)
    (behind : s.head_ptr ≡ s.buffer_ptr + header_size)
    (ends : s.tail_ptr ≡ s.buffer_ptr + header_size + length payload)
    (addressable : s.tail_ptr < 2 ^ 64) (bytes : AllBytes payload)
    (short : length payload < 2 ^ 15) where
  abbrev after : ℕ → ℕ → List ℕ → Serializer
  after key check' body = record s {
    block =
        packet_code
        ∷ u8 (length payload)
        ∷ u8 (length payload / 2 ^ 8)
        ∷ key
        ∷ check'
        ∷ (body ++ rest);
    head_ptr = s.buffer_ptr;
  }

  sized : payload_size s ≡ length payload
  sized = omega arith

  header_lem : (key : ℕ) → set_header s key ≡ some (after key (sum_bytes 0 payload) payload)
  header_lem key =
      set_header-framed s payload rest sized code lo hi k check key block behind (omega arith)
      ∙ ap
          (λ n. some (record s {
            block =
                framed packet_code (u8 n) (u8 (n / 2 ^ 8)) key (sum_bytes 0 payload) payload rest;
            head_ptr = s.buffer_ptr;
          }))
          field_lem
    where
      field_lem : size_field s ≡ length payload
      field_lem = omega arith

  sealed_lem :
      (key sk : ℕ)
      → (t u w : Serializer) × (set_header s key ≡ some t)
        × (encryption t sk ≡ some u)
        × (decryption u sk ≡ some (true, w))
        × (contents w ≡ opened key payload)
  sealed_lem key sk = (
    after key (sum_bytes 0 payload) payload,
    _,
    after key 0 payload,
    header_lem key,
    encryption-framed (after key (sum_bytes 0 payload) payload) payload rest sized packet_code
        (u8 (length payload)) (u8 (length payload / 2 ^ 8)) key (sum_bytes 0 payload) sk refl
        (input_size-u8 (length payload) short),
    decryption-framed _ payload rest sized packet_code (u8 (length payload))
          (u8 (length payload / 2 ^ 8)) key (sum_bytes 0 payload) sk refl
          (input_size-u8 (length payload) short) (sum_bytes-lt payload, bytes)
        ∙ ap (λ c. some (c == 0, after key c payload)) zero_left,
    slice-framed packet_code (u8 (length payload)) (u8 (length payload / 2 ^ 8)) key 0 payload rest
        s.buffer_ptr s.tail_ptr ends,
  )
    where
      zero_left : sub_bytes (sum_bytes 0 payload) payload ≡ 0
      zero_left =
          (sub_bytes-sum_bytes payload (sum_bytes 0 payload) bytes (sum_bytes-lt payload)).1 refl

payload_at :
    (s : Serializer)
    → s.head_ptr ≡ s.buffer_ptr + header_size
    → header_size ≡ s.head_ptr - s.buffer_ptr
payload_at s e = omega arith

-- A packet that is sealed by `setHeader` and `encryption` is accepted by `decryption` under the same
-- static key, whatever the keys are, with its payload as it was.
pub decryption-encryption-set_header :
    (s : Serializer)
    → IsPacket s
    → (key static_key : ℕ)
    → (t u w : Serializer) × (set_header s key ≡ some t)
      × (encryption t static_key ≡ some u)
      × (decryption u static_key ≡ some (true, w))
      × (contents w ≡ opened key (contents s))
decryption-encryption-set_header s p key sk =
    sealed_lem s (contents s) (drop (s.tail_ptr - s.head_ptr) (drop header_size s.block))
      (get_or s.block 0 0) (get_or s.block 1 0) (get_or s.block 2 0) (get_or s.block 3 0)
      (get_or s.block 4 0)
      (framed_view s.block (s.tail_ptr - s.head_ptr) (omega (arith, p.valid.whole))
        ∙ ap
            (λ off.
              framed (get_or s.block 0 0) (get_or s.block 1 0) (get_or s.block 2 0)
                (get_or s.block 3 0) (get_or s.block 4 0)
                (slice s.block off (s.tail_ptr - s.head_ptr))
                (drop (s.tail_ptr - s.head_ptr) (drop header_size s.block)))
            (payload_at s p.behind_header))
      p.behind_header (omega (arith, length-contents p.valid)) (omega arith) p.bytes
      (omega (arith, length-contents p.valid)) key sk
