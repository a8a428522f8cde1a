-- ===== src/LoginServer/Login/Response.antt =====
-- The response to a login, as the client reads it.
use login_server.Base.{
  ℕ, suc, ◌+◌, ◌≤◌, ◌≡◌, refl, sym, ap, ◌∙◌, true, some, List, [], ◌∷◌, ◌++◌, ◌>>=◌, length,
  length-take, length-append, take, arith, subst,
}
use login_server.Serializer.{Serializer, Malloc}
use login_server.Serializer.Header.{header_size, set_header, encryption, decryption}
use login_server.Serializer.Scalars.{
  Scalar, uchar, ushort, ulong_long, encode, put, set_text, to_bytes,
}
use login_server.Serializer.Valid.{IsValid, contents, room, appended, length-contents}
use login_server.Serializer.RoundTrip.{length-encode}
use login_server.Serializer.Cipher.{AllBytes, all_bytes-AllBytes}
use login_server.Serializer.Sealed.{IsPacket, opened, decryption-encryption-set_header}
use login_server.LoginServer.Login.Chunks.{
  filled, joined, filled_lem, AllPieces, AllBytes-take, to_bytes-AllBytes, joined-AllBytes,
  joined-prefix, put_step, text_step,
}
use login_server.LoginServer.Login.{login_response, chatting_server_ip, static_key}

-- The pieces of the response, in order.
abbrev pub pieces : List ℕ → ℕ → List (List ℕ)
pieces temp account_no =
    encode ushort 102
    ∷ encode ulong_long account_no
    ∷ encode uchar 1
    ∷ take 40 temp
    ∷ take 40 temp
    ∷ take 32 temp
    ∷ encode ushort 0
    ∷ chatting_server_ip
    ∷ encode ushort 12001
    ∷ []

-- An empty packet with room for the response.
pub record IsBlank (r : Serializer) : Type 0 where
  pub valid : IsValid r
  pub behind_header : r.head_ptr ≡ r.buffer_ptr + header_size
  pub none_held : contents r ≡ []
  pub roomy : 159 ≤ room r

length-three :
    (a b c d : List ℕ)
    → length (a ++ (b ++ (c ++ d))) ≡ length a + (length b + (length c + length d))
length-three a b c d =
    omega (arith, length-append a (b ++ (c ++ d)), length-append b (c ++ d), length-append c d)

length-pieces :
    (temp : List ℕ) (account_no : ℕ)
    → length temp ≡ 40
    → length (joined (pieces temp account_no)) ≡ 159
unfolding encode to_bytes
length-pieces temp account_no h =
    let front : length (take 40 temp) ≡ 40 = omega (arith, length-take 40 temp) in
    let short : length (take 32 temp) ≡ 32 = omega (arith, length-take 32 temp) in
    omega (
      arith,
      front,
      short,
      length-three (take 40 temp) (take 40 temp) (take 32 temp)
          (0 ∷ 0 ∷ (chatting_server_ip ++ (225 ∷ 46 ∷ []))),
    )

pieces-AllPieces :
    (temp : List ℕ) (account_no : ℕ) → AllBytes temp → AllPieces (pieces temp account_no)
unfolding encode
pieces-AllPieces temp account_no h =
    let forty = AllBytes-take 40 temp h in
    let thirty_two = AllBytes-take 32 temp h in
    let port = to_bytes-AllBytes 2 12001 in
    let address = all_bytes-AllBytes chatting_server_ip refl in
    let end_of : AllPieces (chatting_server_ip ∷ to_bytes 2 12001 ∷ []) =
      (address, (port, record {})) in
    (
      to_bytes-AllBytes 2 102,
      (
        to_bytes-AllBytes 8 account_no,
        (to_bytes-AllBytes 1 1, (forty, (forty, (thirty_two, (to_bytes-AllBytes 2 0, end_of))))),
      ),
    )

-- The response before its header is set.
abbrev pub written : Serializer → List ℕ → ℕ → Serializer
written r temp account_no = filled r (pieces temp account_no)

module _ (malloc : Malloc) (fuel : ℕ) {r : Serializer} (v : IsBlank r) (temp : List ℕ)
    (whole : length temp ≡ 40) (account_no : ℕ) where
  fits :
      (cs : List (List ℕ)) (c : List ℕ) (ds : List (List ℕ))
      → cs ++ (c ∷ ds) ≡ pieces temp account_no
      → length (joined cs) + length c ≤ room r
  fits cs c ds e = omega (
    arith,
    joined-prefix cs c ds,
    ap (λ l. length (joined l)) e,
    length-pieces temp account_no whole,
    v.roomy,
  )

  puts :
      (cs ds : List (List ℕ)) (t : Scalar) (x : ℕ)
      → cs ++ (encode t x ∷ ds) ≡ pieces temp account_no
      → put malloc (suc fuel) (filled r cs) t x ≡ some (appended (filled r cs) (encode t x))
  puts cs ds t x e =
      put_step malloc fuel v.valid cs t x
        (omega (arith, fits cs (encode t x) ds e, length-encode t x))

  texts :
      (cs ds : List (List ℕ)) (text : List ℕ)
      → cs ++ (text ∷ ds) ≡ pieces temp account_no
      → set_text (filled r cs) text ≡ some (appended (filled r cs) text)
  texts cs ds text e = text_step malloc fuel v.valid cs text (fits cs text ds e)

  abbrev first : ℕ → List (List ℕ)
  first n = take n (pieces temp account_no)

  response_steps :
      (rand_key : ℕ)
      → login_response malloc (suc fuel) r temp account_no rand_key
        ≡ (set_header (written r temp account_no) rand_key >>= λ t. encryption t static_key)
  unfolding login_response
  response_steps rand_key =
      rw
        (
          puts [] _ ushort 102 refl,
          puts (first 1) _ ulong_long account_no refl,
          puts (first 2) _ uchar 1 refl,
          texts (first 3) _ (take 40 temp) refl,
          texts (first 4) _ (take 40 temp) refl,
          texts (first 5) _ (take 32 temp) refl,
          puts (first 6) _ ushort 0 refl,
          texts (first 7) _ chatting_server_ip refl,
          puts (first 8) _ ushort 12001 refl,
        )
        refl

  written-IsPacket : AllBytes temp → IsPacket (written r temp account_no)
  written-IsPacket h =
      let len = length-pieces temp account_no whole in
      let (v', holds, left, head, base) =
        filled_lem (pieces temp account_no) v.valid (omega (arith, len, v.roomy)) in
      let all : contents (written r temp account_no) ≡ joined (pieces temp account_no) =
        holds ∙ ap (λ c. c ++ joined (pieces temp account_no)) v.none_held in
      record {
        valid = v';
        behind_header = head ∙ v.behind_header ∙ ap (λ b. b + header_size) (sym base);
        bytes =
            subst AllBytes (sym all)
              (joined-AllBytes (pieces temp account_no) (pieces-AllPieces temp account_no h));
        short = omega (arith, length-contents v', ap length all, len);
      }

-- An empty packet with room for the response, and 40 bytes in the memory of `temp`: nothing faults,
-- and a client that has the static key opens the response, whatever the random key is, and finds in
-- it 102, its account number, 1, the bytes of `temp` twice and the first 32 of them again, 0, the
-- address "10.0.1.1" and 12001.
pub login_response-decryption :
    (malloc : Malloc) (fuel : ℕ) {r : Serializer} (temp : List ℕ) (account_no rand_key : ℕ)
    → IsBlank r
    → length temp ≡ 40
    → AllBytes temp
    → (u w : Serializer) × (login_response malloc (suc fuel) r temp account_no rand_key ≡ some u)
      × (decryption u static_key ≡ some (true, w))
      × (contents w ≡ opened rand_key (joined (pieces temp account_no)))
login_response-decryption malloc fuel {r} temp account_no rand_key v whole bytes =
    let len = length-pieces temp account_no whole in
    let (v', holds, _, _, _) =
      filled_lem (pieces temp account_no) v.valid (omega (arith, len, v.roomy)) in
    let (t, u, w, sets, encrypts, opens, reads) =
      decryption-encryption-set_header (written r temp account_no)
        (written-IsPacket malloc fuel v temp whole account_no bytes) rand_key static_key in
    (
      u,
      w,
      response_steps malloc fuel v temp whole account_no rand_key ∙ rw (sets, encrypts) refl,
      opens,
      reads
          ∙ ap (opened rand_key)
              (holds ∙ ap (λ c. c ++ joined (pieces temp account_no)) v.none_held),
    )
