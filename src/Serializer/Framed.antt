-- ===== src/Serializer/Framed.antt =====
-- `setHeader`, `encryption` and `decryption` on a block that is given as a header, a payload and a
-- rest.
use login_server.Base.{
  ℕ, suc, ◌+◌, ◌-◌, ◌/◌, ◌^◌, ◌<◌, ◌≡◌, refl, sym, ap, some, List, [], ◌∷◌, ◌++◌, arith, length,
  ◌==◌,
}
use login_server.Base.Blocks.{read_block, read_parts, write_parts}
use login_server.Base.Int.{ptr_add, negsuc, sub_ℕ, max_ℤ}
use login_server.Serializer.{Serializer, move_front}
use login_server.Serializer.Header.{
  header_size, header, packet_code, u8, payload_size, size_field, input_size, sum_bytes, sub_bytes,
  set_header, encrypt, encryption, decryption,
}
use login_server.Serializer.Cipher.{AllBytes, decrypt-encrypt, length-encrypt}

-- A block with a header, a payload and what follows it.
abbrev pub framed : ℕ → ℕ → ℕ → ℕ → ℕ → List ℕ → List ℕ → List ℕ
framed code lo hi key check payload rest = code ∷ lo ∷ hi ∷ key ∷ check ∷ (payload ++ rest)

pub back :
    (b h : ℕ)
    → h ≡ b + header_size
    → b + header_size < 2 ^ 64
    → ptr_add h (max_ℤ (negsuc (header_size - 1)) (sub_ℕ b h)) ≡ b
back b h e small = ground arith

-- The header as it is read from a block whose checksum and payload are scrambled.
read_scrambled :
    (code lo hi key m : ℕ) (target rest : List ℕ)
    → length target ≡ suc m
    → (c : ℕ) × (read_block (code ∷ lo ∷ hi ∷ key ∷ (target ++ rest)) 0 header_size
        ≡ some (code ∷ lo ∷ hi ∷ key ∷ c ∷ []))
read_scrambled code lo hi key m [] rest l = absurd (omega arith)
read_scrambled code lo hi key m (c ∷ target) rest l =
    (c, read_parts [] (code ∷ lo ∷ hi ∷ key ∷ c ∷ []) (target ++ rest))

module _ (s : Serializer) (payload rest : List ℕ) (sized : payload_size s ≡ length payload) where
  pub set_header-framed :
      (code lo hi k check key : ℕ)
      → s.block ≡ framed code lo hi k check payload rest
      → s.head_ptr ≡ s.buffer_ptr + header_size
      → s.buffer_ptr + header_size < 2 ^ 64
      → set_header s key
        ≡ some (record s {
          block =
              framed packet_code
                (u8 (size_field s))
                (u8 (size_field s / 2 ^ 8))
                key
                (sum_bytes 0 payload)
                payload
                rest;
          head_ptr = s.buffer_ptr;
        })
  unfolding set_header move_front
  set_header-framed code lo hi k check key e at small =
      rw (e, sized, read_parts (code ∷ lo ∷ hi ∷ k ∷ check ∷ []) payload rest)
        (rw
          (write_parts [] (code ∷ lo ∷ hi ∷ k ∷ check ∷ []) (payload ++ rest)
            (header (size_field s) key (sum_bytes 0 payload)) refl)
          (ap
            (λ p. some (record s {
              block =
                  framed packet_code (u8 (size_field s)) (u8 (size_field s / 2 ^ 8)) key
                    (sum_bytes 0 payload) payload rest;
              head_ptr = p;
            }))
            (back s.buffer_ptr s.head_ptr at small)))

  pub encryption-framed :
      (code lo hi key check sk : ℕ)
      → s.block ≡ framed code lo hi key check payload rest
      → input_size lo hi ≡ suc (length payload)
      → encryption s sk
        ≡ some (record s {
          block = code ∷ lo ∷ hi ∷ key ∷ (encrypt sk key 0 0 0 (check ∷ payload) ++ rest);
        })
  unfolding encryption
  encryption-framed code lo hi key check sk e n =
      rw
        (
          e,
          read_parts [] (code ∷ lo ∷ hi ∷ key ∷ check ∷ []) (payload ++ rest),
          n,
          read_parts (code ∷ lo ∷ hi ∷ key ∷ []) (check ∷ payload) rest,
          write_parts (code ∷ lo ∷ hi ∷ key ∷ []) (check ∷ payload) rest
              (encrypt sk key 0 0 0 (check ∷ payload))
              (length-encrypt sk key 0 0 0 (check ∷ payload)),
        )
        refl

  pub decryption-framed :
      (code lo hi key check sk : ℕ)
      → s.block ≡ code ∷ lo ∷ hi ∷ key ∷ (encrypt sk key 0 0 0 (check ∷ payload) ++ rest)
      → input_size lo hi ≡ suc (length payload)
      → AllBytes (check ∷ payload)
      → decryption s sk
        ≡ some (
          sub_bytes check payload == 0,
          record s { block = framed code lo hi key (sub_bytes check payload) payload rest },
        )
  unfolding decryption
  decryption-framed code lo hi key check sk e n bytes =
      let target = encrypt sk key 0 0 0 (check ∷ payload) in
      let l : length target ≡ suc (length payload) =
        length-encrypt sk key 0 0 0 (check ∷ payload) in
      let scrambled = read_scrambled code lo hi key (length payload) target rest l in
      rw
        (
          e,
          scrambled.1,
          n,
          ← l,
          read_parts (code ∷ lo ∷ hi ∷ key ∷ []) target rest,
          decrypt-encrypt sk key 0 0 0 (check ∷ payload) bytes,
          write_parts (code ∷ lo ∷ hi ∷ key ∷ []) target rest (check ∷ payload) (sym l),
          read_parts (code ∷ lo ∷ hi ∷ key ∷ []) (check ∷ []) (payload ++ rest),
          sized,
          read_parts (code ∷ lo ∷ hi ∷ key ∷ check ∷ []) payload rest,
          write_parts (code ∷ lo ∷ hi ∷ key ∷ []) (check ∷ []) (payload ++ rest)
              (sub_bytes check payload ∷ []) refl,
        )
        refl
