-- ===== src/LoginServer/Login.antt =====
-- loginServer/loginServer.h and loginServer.cpp: what `OnRecv` does with a packet. The database and
-- redis are other libraries; what they are asked is part of the result, and the database's answer is
-- not used by the code. The response goes out by `sendReq`.
pub mod Chunks
pub mod Response
pub mod Request
pub mod Key
use login_server.Base.{
  ℕ, ◌∷◌, [], ◌++◌, Bool, true, false, Option, none, some, List, replicate, take, ◌==◌,
  if◌then◌else◌, ◌>>=◌,
}
use login_server.Serializer.{Serializer, Malloc, read}
use login_server.Serializer.Header.{set_header, encryption, decryption}
use login_server.Serializer.Scalars.{char, uchar, short, ushort, ulong_long, put, get, set_text}

-- `getStatickey`, and `getRandKey` of what `rand` gives
abbrev pub static_key : ℕ
static_key = 0x32

-- `chattingServerIp`: 16 characters of two bytes, "10.0.1.1" and zeros.
abbrev pub chatting_server_ip : List ℕ
chatting_server_ip =
    49 ∷ 0 ∷ 48 ∷ 0 ∷ 46 ∷ 0 ∷ 48 ∷ 0 ∷ 46 ∷ 0 ∷ 49 ∷ 0 ∷ 46 ∷ 0 ∷ 49 ∷ 0 ∷ replicate 16 0

-- The response, written into the packet `r` that `packet response` makes. `temp` is the memory of
-- `WCHAR temp[20]`, which the code never sets.
unfoldable pub login_response : Malloc → ℕ → Serializer → List ℕ → ℕ → ℕ → Option Serializer
login_response malloc fuel r temp account_no rand_key = do
  a ← put malloc fuel r ushort 102
  b ← put malloc fuel a ulong_long account_no
  c ← put malloc fuel b uchar 1
  d ← set_text c (take 40 temp)
  e ← set_text d (take 40 temp)
  f ← set_text e (take 32 temp)
  g ← put malloc fuel f ushort 0
  h ← set_text g chatting_server_ip
  i ← put malloc fuel h ushort 12001
  t ← set_header i rand_key
  encryption t static_key

-- What `OnRecv` has done: the account that the database was asked for, the pair that redis was given,
-- the response that was sent, and whether `disconnectReq` was called.
pub record Handled : Type 0 where
  pub asked : Option ℕ
  pub stored : Option (ℕ × List ℕ)
  pub answer : Option Serializer
  pub disconnects : Bool

abbrev pub rejected : Handled
rejected = record { asked = none; stored = none; answer = none; disconnects = true }

-- `sessionKeyCheckByDatabase`: what it asks for, and what it returns;
-- the pointer to the session key is not used
unfoldable pub session_key_check_by_database : ℕ → ℕ × Bool
session_key_check_by_database account_no = (account_no, true)

-- `OnRecv` from the account number on; `string(_sessionKey, 64)` reads 64 bytes from the head.
unfoldable pub on_login : Malloc → ℕ → Serializer → List ℕ → ℕ → Serializer → Option Handled
unfolding session_key_check_by_database
on_login malloc fuel r temp rand_key p = do
  (account_no, q) ← get p ulong_long
  let (asked, passed) = session_key_check_by_database account_no
  let accept = (do
    session_key ← read q q.head_ptr 64
    u ← login_response malloc fuel r temp account_no rand_key
    some (record {
      asked = some asked;
      stored = some (account_no, session_key);
      answer = some u;
      disconnects = false;
    }))
  if passed then accept else some (record rejected { asked = some asked })

-- `OnRecv` behind `decryption`
unfoldable pub on_opened : Malloc → ℕ → Serializer → List ℕ → ℕ → Serializer → Option Handled
unfolding on_login
on_opened malloc fuel r temp rand_key p = do
  (check_sum, q) ← get p char
  (type, t) ← get q ushort
  if type == 101 then on_login malloc fuel r temp rand_key t else some rejected

unfoldable pub on_recv : Malloc → ℕ → Serializer → List ℕ → ℕ → Serializer → Option Handled
unfolding on_opened
on_recv malloc fuel r temp rand_key p = do
  (code, a) ← get p char
  (payload_size, b) ← get a short
  (key, c) ← get b char
  (passed, d) ← decryption c static_key
  if passed then on_opened malloc fuel r temp rand_key d else some rejected
