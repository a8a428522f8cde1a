-- ===== src/Serializer.antt =====
-- loginServer/lib/IOCP netServer/serializer.h and serializer.cpp: the buffer in which a packet is
-- written and read. Pointers are addresses, so that one into a block which has been replaced can be
-- told from one into the new block; `block` is what lies at `bufferPtr`, and an access through a
-- pointer that leaves it is a fault. `useHeap` and `heap` only choose the allocator, which is a
-- parameter here: `malloc n` is the address and the bytes of the block that it returns for `n`.
pub mod Scalars
pub mod Header
pub mod Valid
pub mod Resize
pub mod RoundTrip
pub mod Cipher
pub mod Framed
pub mod Sealed
use login_server.Base.{
  ℕ, zero, suc, ◌+◌, ◌-◌, ◌*◌, ◌%◌, ◌^◌, Bool, Option, none, some, List, length, ltb, leb, min,
  if◌then◌else◌, ◌>>=◌,
}
use login_server.Base.Blocks.{read_block, write_block}
use login_server.Base.Int.{ℤ, pos, negsuc, sub_ℕ, max_ℤ, ptr_add, ptr_sub}

pub record Serializer : Type 0 where
  pub block : List ℕ
  pub buffer_ptr : ℕ
  pub buffer_size : ℕ
  pub head_ptr : ℕ
  pub tail_ptr : ℕ
  pub reference_counter : ℕ  -- the bit pattern of the LONG

abbrev pub Malloc : Type 0
Malloc = ℕ → ℕ × List ℕ

-- The constructors, with 1024 or a given size.
unfoldable pub init : Malloc → ℕ → Serializer
init malloc n =
    let (ptr, block) = malloc n in
    record {
      block = block;
      buffer_ptr = ptr;
      buffer_size = n;
      head_ptr = ptr;
      tail_ptr = ptr;
      reference_counter = 0;
    }

-- Accesses of the block through a pointer.
unfoldable pub read : Serializer → ℕ → ℕ → Option (List ℕ)
read s p n = if leb s.buffer_ptr p then read_block s.block (p - s.buffer_ptr) n else none

unfoldable pub write : Serializer → ℕ → List ℕ → Option Serializer
write s p bytes =
    if leb s.buffer_ptr p
    then (write_block s.block (p - s.buffer_ptr) bytes >>= λ b. some (record s { block = b }))
    else none

unfoldable pub size : Serializer → ℕ
size s = ptr_sub s.tail_ptr s.head_ptr

unfoldable pub useable_size : Serializer → ℕ
useable_size s = (2 ^ 64 + s.buffer_size - ptr_sub s.tail_ptr s.buffer_ptr) % 2 ^ 64

unfoldable pub max_size : Serializer → ℕ
max_size s = s.buffer_size

unfoldable pub used_size : Serializer → ℕ
used_size s = ptr_sub s.head_ptr s.buffer_ptr

unfoldable pub clear : Serializer → Serializer
clear s = record s { head_ptr = s.buffer_ptr; tail_ptr = s.buffer_ptr }

-- `headPtr` is set before the difference `tailPtr - headPtr` is taken for the new `tailPtr`.
unfoldable pub resize : Malloc → Serializer → ℕ → Option Serializer
unfolding size read
resize malloc s n = do
  let (temp_ptr, fresh) = malloc n
  held ← read s s.head_ptr (size s)
  block ← write_block fresh 0 held
  some (record s {
    block = block;
    buffer_ptr = temp_ptr;
    buffer_size = n;
    head_ptr = temp_ptr;
    tail_ptr = (temp_ptr + ptr_sub s.tail_ptr temp_ptr) % 2 ^ 64;
  })

-- The amount is never above the request, so it fits the `int` that is returned.
unfoldable pub move_front : Serializer → ℤ → ℤ × Serializer
unfolding size
move_front s (pos n) =
    let offset = min n (size s) in
    (pos offset, record s { head_ptr = ptr_add s.head_ptr (pos offset) })
move_front s (negsuc n) =
    let offset = max_ℤ (negsuc n) (sub_ℕ s.buffer_ptr s.head_ptr) in
    (offset, record s { head_ptr = ptr_add s.head_ptr offset })

unfoldable pub move_rear : Serializer → ℤ → ℤ × Serializer
unfolding useable_size
move_rear s (pos n) =
    let offset = min n (useable_size s) in
    (pos offset, record s { tail_ptr = ptr_add s.tail_ptr (pos offset) })
move_rear s (negsuc n) =
    let offset = max_ℤ (negsuc n) (sub_ℕ s.head_ptr s.tail_ptr) in
    (offset, record s { tail_ptr = ptr_add s.tail_ptr offset })

-- `while (useableSize() < _size) resize(bufferSize * 2);` with fuel; `none` is a fault, or the end
-- of the fuel.
unfoldable pub reserve : Malloc → ℕ → Serializer → ℕ → Option Serializer
reserve malloc zero s n = none
reserve malloc (suc fuel) s n =
    let grown = resize malloc s (s.buffer_size * 2 % 2 ^ 64) >>= λ t. reserve malloc fuel t n in
    if ltb (useable_size s) n then grown else some s

-- The common end of `push` and of the `<<` operators.
unfoldable pub append : Malloc → ℕ → Serializer → List ℕ → Option Serializer
append malloc fuel s bytes = do
  t ← reserve malloc fuel s (length bytes)
  u ← write t t.tail_ptr bytes
  some (move_rear u (pos (length bytes))).1

unfoldable pub push : Malloc → ℕ → Serializer → List ℕ → Option (ℕ × Serializer)
unfolding append
push malloc fuel s bytes = append malloc fuel s bytes >>= λ t. some (length bytes, t)

unfoldable pub pop : Serializer → ℕ → Option (ℕ × List ℕ × Serializer)
pop s wanted =
    let n = if ltb (size s) wanted then size s else wanted in
    read s s.head_ptr n >>= λ bytes. some (n, bytes, (move_front s (pos n)).1)

unfoldable pub peek : Serializer → ℕ → Option (ℕ × List ℕ)
peek s wanted =
    let n = if ltb (size s) wanted then size s else wanted in
    read s s.head_ptr n >>= λ bytes. some (n, bytes)

-- `InterlockedAdd` of the counter, with the value that it returns.
unfoldable pub inc_reference_counter : Serializer → ℕ → ℕ × Serializer
inc_reference_counter s n =
    let c = (s.reference_counter + n) % 2 ^ 32 in (c, record s { reference_counter = c })

unfoldable pub dec_reference_counter : Serializer → ℕ → ℕ × Serializer
dec_reference_counter s n =
    let c = (s.reference_counter + 2 ^ 32 - n) % 2 ^ 32 in (c, record s { reference_counter = c })

unfoldable pub set_reference_counter : Serializer → ℕ → ℕ × Serializer
set_reference_counter s n = (s.reference_counter, record s { reference_counter = n })

-- `operator =`: the block is resized first, and then the pointers are set for the new block.
unfoldable pub assign : Malloc → Serializer → Serializer → Option Serializer
assign malloc s v = do
  t ← resize malloc (clear s) v.buffer_size
  bytes ← read v v.buffer_ptr t.buffer_size
  u ← write t t.buffer_ptr bytes
  some (record u {
    head_ptr = (u.buffer_ptr + ptr_sub v.head_ptr v.buffer_ptr) % 2 ^ 64;
    tail_ptr = (u.buffer_ptr + ptr_sub v.tail_ptr v.buffer_ptr) % 2 ^ 64;
  })

-- The copy constructor.
unfoldable pub copy : Malloc → Serializer → Option Serializer
copy malloc v = do
  let (ptr, fresh) = malloc v.buffer_size
  held ← read v v.head_ptr (size v)
  block ← write_block fresh (ptr_sub v.head_ptr v.buffer_ptr) held
  some (record {
    block = block;
    buffer_ptr = ptr;
    buffer_size = v.buffer_size;
    head_ptr = (ptr + ptr_sub v.head_ptr v.buffer_ptr) % 2 ^ 64;
    tail_ptr = (ptr + ptr_sub v.tail_ptr v.buffer_ptr) % 2 ^ 64;
    reference_counter = 0;
  })
