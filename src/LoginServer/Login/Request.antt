-- ===== src/LoginServer/Login/Request.antt =====
-- A packet of a client, as `recvedPacket` gives it to `OnRecv`.
use login_server.Base.{
  ◌⊎◌, ==_iff, Bool-cases, inl, inr, ℕ, suc, ◌+◌, ◌-◌, ◌/◌, ◌^◌, ◌≤◌, ◌<◌, ◌≡◌, ◌≢◌, refl, sym, ap,
  ◌∙◌, true, false, some, List, ◌∷◌, ◌++◌, length, take, drop, take-append, take-append-drop,
  length-append, arith, ◌==◌, if◌then◌else◌, take-length_le,
}
use login_server.Base.Blocks.{slice}
use login_server.Serializer.{Serializer, Malloc}
use login_server.Serializer.Header.{
  header_size, packet_code, u8, sum_bytes, sub_bytes, encrypt, decryption,
}
use login_server.Serializer.Scalars.{
  Scalar, width, char, short, ushort, ulong_long, encode, decode, get,
}
use login_server.Serializer.Valid.{
  IsValid, contents, length-contents, fronted, fronted-IsValid, fronted-contents, read_head,
  move_front-pos, with_block,
}
use login_server.Serializer.RoundTrip.{get_lem}
use login_server.Serializer.Cipher.{AllBytes, length-encrypt, sub_bytes-sum_bytes}
use login_server.Serializer.Framed.{framed, decryption-framed}
use login_server.Serializer.Sealed.{input_size-u8, opened}
use login_server.LoginServer.Login.{
  static_key, rejected, on_login, on_opened, on_recv, session_key_check_by_database,
}
use login_server.LoginServer.Login.Chunks.{joined}
use login_server.LoginServer.Login.Response.{IsBlank, pieces, login_response-decryption}

-- The bytes of a packet on the wire: its header, and behind it the checksum and the payload under
-- `encryption`.
abbrev pub wire : ℕ → ℕ → List ℕ → List ℕ
wire key check payload =
    packet_code
    ∷ u8 (length payload)
    ∷ u8 (length payload / 2 ^ 8)
    ∷ key
    ∷ encrypt static_key key 0 0 0 (check ∷ payload)

-- A packet that holds such bytes from the start of its block.
pub record IsWire (p : Serializer) (key check : ℕ) (payload : List ℕ) : Type 0 where
  pub valid : IsValid p
  pub at_start : p.head_ptr ≡ p.buffer_ptr
  pub holds : contents p ≡ wire key check payload
  pub bytes : AllBytes (check ∷ payload)
  pub short : length payload < 2 ^ 15

get_any :
    (t : Scalar) {s : Serializer} (v : IsValid s)
    → width t ≤ s.tail_ptr - s.head_ptr
    → get s t ≡ some (decode t (take (width t) (contents s)), fronted s (width t))
unfolding get
get_any t {s} v few = rw (read_head v (width t) few, move_front-pos v (width t) few) refl

module _ {p : Serializer} {key check : ℕ} {payload : List ℕ} (w : IsWire p key check payload) where
  abbrev rest : List ℕ
  rest = drop (p.tail_ptr - p.head_ptr) p.block

  held : p.tail_ptr - p.head_ptr ≡ header_size + length payload
  held = omega (
    arith,
    length-contents w.valid,
    ap length w.holds,
    length-encrypt static_key key 0 0 0 (check ∷ payload),
  )

  block : p.block ≡ wire key check payload ++ rest
  block =
      sym (take-append-drop (p.tail_ptr - p.head_ptr) p.block)
      ∙ ap (λ c. c ++ rest)
          (ap (λ n. slice p.block n (p.tail_ptr - p.head_ptr)) (sym start) ∙ w.holds)
    where
      start : p.head_ptr - p.buffer_ptr ≡ 0
      start = omega (arith, w.at_start)

  abbrev read_off : Serializer
  read_off = fronted (fronted (fronted p 1) 2) 1

  read_off-IsValid : IsValid read_off
  read_off-IsValid =
      fronted-IsValid
        (fronted-IsValid (fronted-IsValid w.valid 1 (omega (arith, held))) 2 (omega (arith, held)))
        1 (omega (arith, held))

  abbrev opened_block : List ℕ
  opened_block =
      framed packet_code (u8 (length payload)) (u8 (length payload / 2 ^ 8)) key
        (sub_bytes check payload) payload rest

  abbrev unsealed : Serializer
  unsealed = record read_off { block = opened_block }

  opens : decryption read_off static_key ≡ some (sub_bytes check payload == 0, unsealed)
  opens =
      decryption-framed read_off payload rest
        (omega (arith, held, w.at_start, w.valid.order, w.valid.high, w.valid.addressable))
        packet_code (u8 (length payload)) (u8 (length payload / 2 ^ 8)) key check static_key block
        (input_size-u8 (length payload) w.short) w.bytes

  header_steps :
      (malloc : Malloc) (fuel : ℕ) (r : Serializer) (temp : List ℕ) (rand_key : ℕ)
      → on_recv malloc fuel r temp rand_key p ≡ (
          if sub_bytes check payload == 0
          then on_opened malloc fuel r temp rand_key unsealed
          else some rejected)
  unfolding on_recv
  header_steps malloc fuel r temp rand_key =
      rw
        (
          get_any char w.valid (omega (arith, held)),
          get_any short (fronted-IsValid w.valid 1 (omega (arith, held))) (omega (arith, held)),
          get_any char
              (fronted-IsValid (fronted-IsValid w.valid 1 (omega (arith, held))) 2
                (omega (arith, held)))
              (omega (arith, held)),
          opens,
        )
        refl

  on_recv-checksum :
      check ≢ sum_bytes 0 payload
      → (malloc : Malloc) (fuel : ℕ) (r : Serializer) (temp : List ℕ) (rand_key : ℕ)
      → on_recv malloc fuel r temp rand_key p ≡ some rejected
  on_recv-checksum wrong malloc fuel r temp rand_key =
      header_steps malloc fuel r temp rand_key ∙ rw differs refl
    where
      differs : (sub_bytes check payload == 0) ≡ false
      differs = ground (arith, (sub_bytes-sum_bytes payload check w.bytes.1 w.bytes.0).0)

  whole_block : length opened_block ≡ p.buffer_size
  whole_block = omega (
    arith,
    w.valid.whole,
    ap length block,
    length-append payload rest,
    length-append (encrypt static_key key 0 0 0 (check ∷ payload)) rest,
    length-encrypt static_key key 0 0 0 (check ∷ payload),
  )

  unsealed-IsValid : IsValid unsealed
  unsealed-IsValid = with_block read_off-IsValid opened_block whole_block

  unsealed-contents : contents unsealed ≡ sub_bytes check payload ∷ payload
  unsealed-contents =
      (λ i. slice opened_block (off i) (left i))
      ∙ ap (λ t. sub_bytes check payload ∷ t) (take-append payload rest)
    where
      off : p.head_ptr + 1 + 2 + 1 - p.buffer_ptr ≡ suc (suc (suc (suc 0)))
      off = omega (arith, w.at_start)

      left : p.tail_ptr - (p.head_ptr + 1 + 2 + 1) ≡ suc (length payload)
      left = omega (arith, held)

  -- `OnRecv` up to the type, for a packet with the right checksum.
  type_steps :
      (t : ℕ) (body : List ℕ)
      → t < 2 ^ 16
      → payload ≡ encode ushort t ++ body
      → check ≡ sum_bytes 0 payload
      → (q : Serializer) × IsValid q
        × (contents q ≡ body)
        × ((malloc : Malloc) (fuel : ℕ) (r : Serializer) (temp : List ℕ) (rand_key : ℕ)
            → on_recv malloc fuel r temp rand_key p
              ≡ (if t == 101 then on_login malloc fuel r temp rand_key q else some rejected))
  unfolding on_opened
  type_steps t body small e right =
      let some_held : 1 ≤ unsealed.tail_ptr - unsealed.head_ptr = omega (arith, held) in
      let v = fronted-IsValid unsealed-IsValid 1 some_held in
      let after : contents (fronted unsealed 1) ≡ encode ushort t ++ body =
        fronted-contents unsealed-IsValid 1 some_held ∙ ap (drop 1) unsealed-contents ∙ e in
      let (gets, v', left) = get_lem ushort t body v small after in
      let zero_left : (sub_bytes check payload == 0) ≡ true =
        ground (arith, (sub_bytes-sum_bytes payload check w.bytes.1 w.bytes.0).1 right) in
      (
        fronted (fronted unsealed 1) 2,
        v',
        left,
        λ malloc fuel r temp rand_key.
            header_steps malloc fuel r temp rand_key
            ∙ rw (zero_left, get_any char unsealed-IsValid some_held, gets) refl,
      )

  -- A packet with a type, whose checksum is not that of its payload or whose type is not 101, ends its
  -- connection: nothing is asked, stored or answered.
  pub on_recv-rejected :
      (t : ℕ) (body : List ℕ)
      → t < 2 ^ 16
      → payload ≡ encode ushort t ++ body
      → (check ≢ sum_bytes 0 payload) ⊎ (t ≢ 101)
      → (malloc : Malloc) (fuel : ℕ) (r : Serializer) (temp : List ℕ) (rand_key : ℕ)
      → on_recv malloc fuel r temp rand_key p ≡ some rejected
  on_recv-rejected t body small e (inl wrong) malloc fuel r temp rand_key =
      on_recv-checksum wrong malloc fuel r temp rand_key
  on_recv-rejected t body small e (inr other) malloc fuel r temp rand_key =
      elim (Bool-cases (check == sum_bytes 0 payload)) [
        | inl right ↦
            let (q, _, _, steps) =
              type_steps t body small e ((==_iff check (sum_bytes 0 payload)).0 right) in
            steps malloc fuel r temp rand_key ∙ rw not_login refl
        | inr wrong ↦ on_recv-checksum (λ same. ground arith) malloc fuel r temp rand_key
      ]
    where
      not_login : (t == 101) ≡ false
      not_login = ground arith

  -- A packet with the right checksum, the type 101, an account number and a session key of 64 bytes
  -- logs in, when the response has room and `temp` is 40 bytes: the database is asked for the
  -- account, redis is given the account and the key, the connection stays, and the response is one
  -- that a client with the static key opens and in which it finds its account number.
  pub on_recv-login :
      (account_no : ℕ) (session_key : List ℕ)
      → account_no < 2 ^ 64
      → length session_key ≡ 64
      → payload ≡ encode ushort 101 ++ (encode ulong_long account_no ++ session_key)
      → check ≡ sum_bytes 0 payload
      → (malloc : Malloc) (fuel : ℕ) {r : Serializer} (temp : List ℕ) (rand_key : ℕ) → IsBlank r
      → length temp ≡ 40
      → AllBytes temp
      → (u o : Serializer) × (on_recv malloc (suc fuel) r temp rand_key p
          ≡ some (record {
            asked = some account_no;
            stored = some (account_no, session_key);
            answer = some u;
            disconnects = false;
          }))
        × (decryption u static_key ≡ some (true, o))
        × (contents o ≡ opened rand_key (joined (pieces temp account_no)))
  unfolding on_login session_key_check_by_database
  on_recv-login account_no session_key small long e right malloc fuel {r} temp rand_key b whole
        bytes =
      let (q, v, holds, steps) =
        type_steps 101 (encode ulong_long account_no ++ session_key) (omega arith) e right in
      let (gets, v', left) = get_lem ulong_long account_no session_key v small holds in
      let (u, o, answers, decrypts, reads) =
        login_response-decryption malloc fuel temp account_no rand_key b whole bytes in
      let all : take 64 (contents (fronted q 8)) ≡ session_key =
        ap (take 64) left ∙ take-length_le 64 session_key (omega (arith, long)) in
      let held_key : 64 ≤ q.tail_ptr - (q.head_ptr + 8) =
        omega (arith, length-contents v', ap length left, long) in
      (
        u,
        o,
        steps malloc (suc fuel) r temp rand_key
            ∙ rw (gets, read_head v' 64 held_key, all, answers) refl,
        decrypts,
        reads,
      )
