-- ===== src/Tests/LoginTests.antt =====
-- Packets for `OnRecv` of loginServer/loginServer.cpp: a login of account 77, one with a wrong checksum,
-- and a packet of type 100.
use login_server.Base.{
  inr, ℕ, ◌+◌, ◌-◌, ◌≡◌, ◌<◌, ◌^◌, refl, arith, true, false, some, List, [], ◌∷◌, ◌++◌, replicate,
  length, take, take-append, length-append, sym, ◌∙◌,
}
use login_server.Serializer.{Serializer, Malloc}
use login_server.Serializer.Header.{decryption, sum_bytes, encrypt}
use login_server.Serializer.Scalars.{encode, to_bytes}
use login_server.Serializer.Valid.{contents}
use login_server.Serializer.Sealed.{opened}
use login_server.Serializer.Cipher.{AllBytes, all_bytes-AllBytes, length-encrypt}
use login_server.LoginServer.Login.{static_key, rejected, on_recv}
use login_server.LoginServer.Login.Chunks.{joined}
use login_server.LoginServer.Login.Response.{IsBlank, pieces}
use login_server.LoginServer.Login.Request.{wire, IsWire, on_recv-rejected, on_recv-login}

abbrev malloc : Malloc
malloc n = (8192, replicate n 0)

-- A pool's packet for the response, and what lies in the memory of `temp`.
abbrev blank : Serializer
blank = record {
  block = replicate 200 0;
  buffer_ptr = 3000;
  buffer_size = 200;
  head_ptr = 3005;
  tail_ptr = 3005;
  reference_counter = 1;
}

blank-IsBlank : IsBlank blank
blank-IsBlank = record {
  valid = record {
    whole = refl;
    low = omega arith;
    order = omega arith;
    high = omega arith;
    addressable = omega arith;
  };
  behind_header = refl;
  none_held = refl;
  roomy = omega arith;
}

abbrev temp : List ℕ
temp = replicate 40 0xcc

temp-AllBytes : AllBytes temp
temp-AllBytes = all_bytes-AllBytes temp refl

-- What a client sends: the payload under the key 9, with a checksum.
abbrev session_key : List ℕ
session_key = replicate 64 107

abbrev login : List ℕ
login = 101 ∷ 0 ∷ 77 ∷ 0 ∷ 0 ∷ 0 ∷ 0 ∷ 0 ∷ 0 ∷ 0 ∷ session_key

abbrev other : List ℕ
other = 100 ∷ 0 ∷ 1 ∷ []

abbrev packet : ℕ → List ℕ → Serializer
packet check payload = record {
  block = wire 9 check payload ++ replicate 10 0;
  buffer_ptr = 5000;
  buffer_size = length payload + 15;
  head_ptr = 5000;
  tail_ptr = 5005 + length payload;
  reference_counter = 1;
}

login_sum : sum_bytes 0 login ≡ 114
unfolding sum_bytes
login_sum = refl

packet-IsWire :
    (check : ℕ) (payload : List ℕ)
    → AllBytes (check ∷ payload)
    → length payload < 2 ^ 15
    → IsWire (packet check payload) 9 check payload
packet-IsWire check payload bytes short = record {
  valid = record {
    whole = omega (
      arith,
      length-append (encrypt static_key 9 0 0 0 (check ∷ payload)) (replicate 10 0),
      length-encrypt static_key 9 0 0 0 (check ∷ payload),
    );
    low = omega arith;
    order = omega arith;
    high = omega arith;
    addressable = omega arith;
  };
  at_start = refl;
  holds =
      (λ i. take (sized i) (wire 9 check payload ++ replicate 10 0))
      ∙ take-append (wire 9 check payload) (replicate 10 0);
  bytes = bytes;
  short = short;
}
  where
    sized : 5005 + length payload - 5000 ≡ length (wire 9 check payload)
    sized = omega (arith, length-encrypt static_key 9 0 0 0 (check ∷ payload))

abbrev login_packet : Serializer
login_packet = packet 114 login

login-IsWire : IsWire login_packet 9 114 login
login-IsWire = packet-IsWire 114 login (all_bytes-AllBytes (114 ∷ login) refl) (omega arith)

other_sum : sum_bytes 0 other ≡ 101
unfolding sum_bytes
other_sum = refl

on_recv-rejected_example : on_recv malloc 1 blank temp 3 (packet 101 other) ≡ some rejected
unfolding encode to_bytes
on_recv-rejected_example =
    on_recv-rejected (packet-IsWire 101 other (all_bytes-AllBytes (101 ∷ other) refl) (omega arith))
      100 (1 ∷ []) (omega arith) refl (inr (λ e. absurd (omega (arith, e)))) malloc 1 blank temp 3

on_recv-login_example :
    (u o : Serializer) × (on_recv malloc 1 blank temp 3 login_packet
      ≡ some (record {
        asked = some 77;
        stored = some (77, session_key);
        answer = some u;
        disconnects = false;
      }))
    × (decryption u static_key ≡ some (true, o))
    × (contents o ≡ opened 3 (joined (pieces temp 77)))
unfolding encode to_bytes
on_recv-login_example =
    on_recv-login login-IsWire 77 session_key (omega arith) refl refl (sym login_sum) malloc 0 temp
      3 blank-IsBlank refl temp-AllBytes
