-- ===== src/Serializer/Header.antt =====
-- The header of a packet (loginServer/lib/IOCP netServer/define.h) and the scrambling of its checksum
-- and payload (serializer.h). A `char` is the bit pattern of its eight bits, a `short` of sixteen.
use login_server.Base.{
  ℕ, ◌+◌, ◌-◌, ◌*◌, ◌/◌, ◌%◌, ◌^◌, bit_xor, Bool, Option, some, List, [], ◌∷◌, get_or, ltb, ◌==◌,
  if◌then◌else◌, ◌>>=◌,
}
use login_server.Base.Blocks.{read_block, write_block}
use login_server.Base.Int.{negsuc, ptr_sub}
use login_server.Serializer.{Serializer, move_front}

-- `networkHeader`: a code, a size of two bytes, a key and a checksum, packed.
abbrev pub header_size : ℕ
header_size = 5

abbrev pub packet_code : ℕ
packet_code = 0x77

abbrev pub u8 : ℕ → ℕ
u8 n = n % 2 ^ 8

-- The constructor of `networkHeader`, as the bytes of its fields.
unfoldable pub header : ℕ → ℕ → ℕ → List ℕ
header n key check_sum = packet_code ∷ u8 n ∷ u8 (n / 2 ^ 8) ∷ key ∷ check_sum ∷ []

-- `checkSum += payload[i]` over the payload
unfoldable pub sum_bytes : ℕ → List ℕ → ℕ
sum_bytes acc [] = acc
sum_bytes acc (b ∷ bs) = sum_bytes (u8 (acc + b)) bs

-- `checkSum -= payload[i]` over the payload
unfoldable pub sub_bytes : ℕ → List ℕ → ℕ
sub_bytes acc [] = acc
sub_bytes acc (b ∷ bs) = sub_bytes (u8 (acc + 2 ^ 8 - b)) bs

-- `(tailPtr - bufferPtr) - sizeof(networkHeader)`, which is an `int`: no byte is visited when it is
-- negative.
abbrev pub payload_size : Serializer → ℕ
payload_size s = ptr_sub s.tail_ptr s.buffer_ptr - header_size

-- The same number as it is stored in a `short`, also when it is negative.
abbrev pub size_field : Serializer → ℕ
size_field s = ptr_sub (ptr_sub s.tail_ptr s.buffer_ptr) header_size

-- `setHeader(_key)`
unfoldable pub set_header : Serializer → ℕ → Option Serializer
unfolding header
set_header s key = do
  payload ← read_block s.block header_size (payload_size s)
  b ← write_block s.block 0 (header (size_field s) key (sum_bytes 0 payload))
  some (move_front (record s { block = b }) (negsuc (header_size - 1))).1

-- `size + 1` of the header in the block, where a negative `short` leaves nothing to do.
abbrev pub input_size : ℕ → ℕ → ℕ
input_size lo hi = let n = lo + 2 ^ 8 * hi in if ltb n (2 ^ 15) then n + 1 else 0

-- The loops of `encryption` and `decryption` at index `i`, with the running bytes `pP` and `pE`.
-- The key sums are of type `int`, and only their low eight bits reach a `char`.
unfoldable pub encrypt : ℕ → ℕ → ℕ → ℕ → ℕ → List ℕ → List ℕ
encrypt static_key dynamic_key i pp pe [] = []
encrypt static_key dynamic_key i pp pe (t ∷ ts) =
    let p = bit_xor t (u8 (pp + dynamic_key + 1 + i)) in
    let e = bit_xor p (u8 (pe + static_key + 1 + i)) in
    e ∷ encrypt static_key dynamic_key (i + 1) p e ts

unfoldable pub decrypt : ℕ → ℕ → ℕ → ℕ → ℕ → List ℕ → List ℕ
decrypt static_key dynamic_key i pp pe [] = []
decrypt static_key dynamic_key i pp pe (t ∷ ts) =
    let p = bit_xor t (u8 (pe + static_key + 1 + i)) in
    bit_xor p (u8 (pp + dynamic_key + 1 + i)) ∷ decrypt static_key dynamic_key (i + 1) p t ts

-- `encryption(staticKey)`: from the checksum on, `size + 1` bytes, with the key of the header.
unfoldable pub encryption : Serializer → ℕ → Option Serializer
encryption s static_key = do
  head ← read_block s.block 0 header_size
  let n = input_size (get_or head 1 0) (get_or head 2 0)
  target ← read_block s.block 4 n
  b ← write_block s.block 4 (encrypt static_key (get_or head 3 0) 0 0 0 target)
  some (record s { block = b })

-- `decryption(staticKey)`, with the test of the checksum
unfoldable pub decryption : Serializer → ℕ → Option (Bool × Serializer)
decryption s static_key = do
  head ← read_block s.block 0 header_size
  let n = input_size (get_or head 1 0) (get_or head 2 0)
  target ← read_block s.block 4 n
  b ← write_block s.block 4 (decrypt static_key (get_or head 3 0) 0 0 0 target)
  check_sum ← read_block b 4 1
  payload ← read_block b header_size (payload_size s)
  let rest = sub_bytes (get_or check_sum 0 0) payload
  c ← write_block b 4 (rest ∷ [])
  some (rest == 0, record s { block = c })
