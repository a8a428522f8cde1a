-- ===== src/Network/Ids.antt =====
-- The numbers of sessions: the index in the array, and the count of connections above it.
use login_server.Base.{ℕ, ◌+◌, ◌*◌, ◌%◌, ◌^◌, ◌<◌, ◌≡◌, ◌↔◌, ap, ◌∙◌, bit_or, arith}
use login_server.Base.Bits.{bit_or_fields}
use login_server.Network.{make_session_id, get_index}

make_session_id_lem :
    (count index : ℕ)
    → index < 2 ^ 16
    → make_session_id count index ≡ count % 2 ^ 16 * 2 ^ 48 + index
unfolding make_session_id
make_session_id_lem count index h =
    ap (bit_or index) (high count) ∙ bit_or_fields 48 index (count % 2 ^ 16) (omega arith)
  where
    high : (c : ℕ) → c * 2 ^ 48 % 2 ^ 64 ≡ c % 2 ^ 16 * 2 ^ 48
    high c = omega arith

-- For indices of 16 bits, `GET_INDEX` gives the index that a number was made with.
pub get_index-make_session_id :
    (count index : ℕ) → index < 2 ^ 16 → get_index (make_session_id count index) ≡ index
unfolding get_index
get_index-make_session_id count index h = omega (arith, make_session_id_lem count index h)

-- For indices of 16 bits, two connections have the same number exactly when they have the same index
-- and their counts agree in the low 16 bits: a number comes back after 65536 connections.
pub make_session_id-same :
    (count index count' index' : ℕ)
    → index < 2 ^ 16
    → index' < 2 ^ 16
    → (make_session_id count index ≡ make_session_id count' index')
      ↔ ((index ≡ index') × (count % 2 ^ 16 ≡ count' % 2 ^ 16))
make_session_id-same count index count' index' h k =
    omega (arith, make_session_id_lem count index h, make_session_id_lem count' index' k)
