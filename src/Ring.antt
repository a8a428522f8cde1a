-- ===== src/Ring.antt =====
-- loginServer/lib/IOCP netServer/ringBuffer.h and ringBuffer.cpp: the byte ring in which a session
-- receives, and in which it keeps the packets under way.
-- `buffer` is the block behind the pointer of that name; `headPtr` and `tailPtr` are offsets in it.
-- The first byte held is the one after `head_ptr`, the last is the one at `tail_ptr`.
pub mod Index
pub mod Contents
pub mod Queue
pub mod Window
pub mod Push
pub mod Pop
pub mod Refine
pub mod Start
pub mod Copy
pub mod Move
use login_server.Base.{
  ℕ, zero, suc, ◌+◌, ◌-◌, ◌%◌, ◌^◌, bit_and, Bool, true, false, Option, none, some, List, [], ◌++◌,
  length, take, drop, ltb, leb, ◌==◌, if◌then◌else◌, ◌>>=◌,
}
use login_server.Base.Blocks.{read_block, write_block}
use login_server.Base.Int.{ℤ, pos, negsuc}

pub record Ring : Type 0 where
  pub buffer_size : ℕ
  pub max_size : ℕ
  pub buffer : List ℕ
  pub head_ptr : ℕ
  pub tail_ptr : ℕ

-- The constructor. `ceil_log2` stands for `ceil(log2(size))` where that is a number, and `new_bytes n`
-- for the block that `new char[n]` returns. For the size 0 the logarithm is below every number, the
-- power of it is 0, and `_maxSize` goes round to the greatest `unsigned int`.
unfoldable pub made_ring : (ℕ → List ℕ) → ℕ → Ring
made_ring new_bytes buffer_size = record {
  buffer_size = buffer_size;
  max_size = (buffer_size + 2 ^ 32 - 1) % 2 ^ 32;
  buffer = new_bytes buffer_size;
  head_ptr = 0;
  tail_ptr = 0;
}

unfoldable pub init : (ℕ → ℕ) → (ℕ → List ℕ) → ℕ → Ring
unfolding made_ring
init ceil_log2 new_bytes zero = made_ring new_bytes 0
init ceil_log2 new_bytes (suc n) = made_ring new_bytes (2 ^ ceil_log2 (suc n))

-- `tailPtr - headPtr + bufferSize` is signed, and is never negative for offsets in the block.
pub size : Ring → ℕ
size r = bit_and (r.tail_ptr + r.buffer_size - r.head_ptr) r.max_size

-- The public `freeSize()`: `-` binds before `&`, so the mask is applied to the difference, which is
-- mostly negative, in 64 bits.
unfoldable pub free_size : Ring → ℕ
free_size r =
    bit_and ((2 ^ 64 + r.max_size - (r.tail_ptr + r.buffer_size - r.head_ptr)) % 2 ^ 64) r.max_size

-- The protected overloads `size(h, t)` and `freeSize(h, t)`, on a snapshot of the two pointers.
pub size_between : Ring → ℕ → ℕ → ℕ
size_between r h t = bit_and (t + r.buffer_size - h) r.max_size

pub free_size_between : Ring → ℕ → ℕ → ℕ
free_size_between r h t = r.max_size - bit_and (t + r.buffer_size - h) r.max_size

pub clear : Ring → Ring
clear r = record r { head_ptr = r.tail_ptr }

pub empty : Ring → Bool
empty r = r.head_ptr == r.tail_ptr

pub full : Ring → Bool
full r = r.head_ptr == bit_and (r.tail_ptr + 1) r.max_size

-- The offsets that `head()` and `tail()` point at: the next byte to read and the next to write.
pub head : Ring → ℕ
head r = bit_and (r.head_ptr + 1) r.max_size

pub tail : Ring → ℕ
tail r = bit_and (r.tail_ptr + 1) r.max_size

pub direct_enqueue_size : Ring → ℕ
unfolding tail
direct_enqueue_size r =
    if leb (tail r) r.head_ptr then r.head_ptr - tail r else r.buffer_size - tail r

pub direct_dequeue_size : Ring → ℕ
unfolding head tail
direct_dequeue_size r = if leb (head r) (tail r) then tail r - head r else r.buffer_size - head r

-- `if (_size > most) _size = most`
pub clamp : ℤ → ℕ → ℤ
clamp (pos n) most = if ltb most n then pos most else pos n
clamp (negsuc n) most = negsuc n

abbrev int_max : ℕ
int_max = 2 ^ 31 - 1

at_most_int : ℕ → ℕ
at_most_int n = if ltb int_max n then int_max else n

-- `(offset + _size) & _maxSize`, in 64 bits
pub advance : Ring → ℕ → ℤ → ℕ
advance r offset (pos n) = bit_and (offset + n) r.max_size
advance r offset (negsuc n) = bit_and ((offset + 2 ^ 64 - suc n) % 2 ^ 64) r.max_size

unfoldable pub move_rear : Ring → ℤ → ℤ × Ring
unfolding clamp advance free_size_between at_most_int
move_rear r n =
    let n' = clamp n (at_most_int (free_size_between r r.head_ptr r.tail_ptr)) in
    (n', record r { tail_ptr = advance r r.tail_ptr n' })

unfoldable pub move_front : Ring → ℤ → ℤ × Ring
unfolding clamp advance size_between at_most_int
move_front r n =
    let n' = clamp n (at_most_int (size_between r r.head_ptr r.tail_ptr)) in
    (n', record r { head_ptr = advance r r.head_ptr n' })

-- The two `memmove`s of `push`: up to `d` bytes from `at` on, the rest from the start of the block.
unfoldable pub store : List ℕ → ℕ → ℕ → List ℕ → Option (List ℕ)
store block at d bytes =
    if leb (length bytes) d
    then write_block block at bytes
    else (write_block block at (take d bytes) >>= λ b. write_block b 0 (drop d bytes))

-- The two `memmove`s of `pop` and `front`.
unfoldable pub load : List ℕ → ℕ → ℕ → ℕ → Option (List ℕ)
load block at d n =
    if leb n d
    then read_block block at n
    else (read_block block at d >>= λ x. read_block block 0 (n - d) >>= λ y. some (x ++ y))

-- `bytes` are the `_data_size` bytes at `_data`. The result is the count with the new ring.
unfoldable pub push : Ring → List ℕ → Option (ℕ × Ring)
unfolding free_size_between tail direct_enqueue_size
push r bytes =
    let free = free_size_between r r.head_ptr r.tail_ptr in
    let n = if ltb free (length bytes) then free else length bytes in
    do
      block ← store r.buffer (tail r) (direct_enqueue_size r) (take n bytes)
      some (n, record r { buffer = block; tail_ptr = bit_and (r.tail_ptr + n) r.max_size })

-- The result is the count, the bytes that go to the caller's memory, and the new ring.
unfoldable pub pop : Ring → ℕ → Option (ℕ × List ℕ × Ring)
unfolding size_between head direct_dequeue_size
pop r wanted =
    let held = size_between r r.head_ptr r.tail_ptr in
    let n = if ltb held wanted then held else wanted in
    do
      bytes ← load r.buffer (head r) (direct_dequeue_size r) n
      some (n, bytes, record r { head_ptr = bit_and (r.head_ptr + n) r.max_size })

unfoldable pub front : Ring → ℕ → Option (ℕ × List ℕ)
unfolding size_between head direct_dequeue_size
front r wanted =
    let held = size_between r r.head_ptr r.tail_ptr in
    let n = if ltb held wanted then held else wanted in
    do bytes ← load r.buffer (head r) (direct_dequeue_size r) n; some (n, bytes)

-- The `memmove`s of a copy: one where the bytes held lie in one piece, else one for each piece.
pub copy_bytes : List ℕ → List ℕ → Bool → ℕ → ℕ → ℕ → Option (List ℕ)
copy_bytes fresh block true at n d = read_block block at n >>= λ x. write_block fresh at x
copy_bytes fresh block false at n d = do
  x ← read_block block at d
  f ← write_block fresh at x
  y ← read_block block 0 (n - d)
  write_block f 0 y

-- The copy constructor and `operator =`, which do the same to the fields; `fresh` is the block that
-- `new char[_b.bufferSize]` returns.
unfoldable pub copy : List ℕ → Ring → Option Ring
unfolding size head direct_dequeue_size
copy fresh b = do
  block ←
      copy_bytes fresh b.buffer (leb b.head_ptr b.tail_ptr) (head b) (size b)
        (direct_dequeue_size b)
  some (record b { buffer = block })
