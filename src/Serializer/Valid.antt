-- ===== src/Serializer/Valid.antt =====
-- The well-formed serializer, the bytes that it holds, and what appending and reading do to them.
use login_server.Base.{
  ℕ, suc, ◌+◌, ◌-◌, ◌≤◌, ◌<◌, ◌^◌, ◌≡◌, sym, ap, ◌∙◌, some, List, ◌++◌, arith, length, take, drop,
  ltb, if◌then◌else◌, ◌>>=◌, min,
}
use login_server.Base.Blocks.{
  splice, slice, read_block_inside, write_block_inside, length-splice, length-slice, slice-splice,
  slice-take, slice-drop,
}
use login_server.Base.Int.{pos}
use login_server.Serializer.{
  Serializer, Malloc, read, write, size, useable_size, move_front, move_rear, reserve, append, pop,
  peek,
}

pub record IsValid (s : Serializer) : Type 0 where
  pub whole : length s.block ≡ s.buffer_size
  pub low : s.buffer_ptr ≤ s.head_ptr
  pub order : s.head_ptr ≤ s.tail_ptr
  pub high : s.tail_ptr ≤ s.buffer_ptr + s.buffer_size
  pub addressable : s.buffer_ptr + s.buffer_size < 2 ^ 64

-- The bytes between the two pointers.
abbrev pub contents : Serializer → List ℕ
contents s = slice s.block (s.head_ptr - s.buffer_ptr) (s.tail_ptr - s.head_ptr)

-- The bytes that still fit behind the last one.
abbrev pub room : Serializer → ℕ
room s = s.buffer_ptr + s.buffer_size - s.tail_ptr

-- The bytes held and the room, as the code computes them.
pub size_lem : {s : Serializer} → IsValid s → size s ≡ s.tail_ptr - s.head_ptr
unfolding size
size_lem v = omega arith

pub useable_size_lem : {s : Serializer} → IsValid s → useable_size s ≡ room s
unfolding useable_size
useable_size_lem v = omega arith

pub length-contents : {s : Serializer} → IsValid s → length (contents s) ≡ s.tail_ptr - s.head_ptr
length-contents {s} v =
    omega (arith, length-slice s.block (s.head_ptr - s.buffer_ptr) (s.tail_ptr - s.head_ptr))

-- What is left after bytes have been put behind the last one.
abbrev pub appended : Serializer → List ℕ → Serializer
appended s bytes = record s {
  block = splice s.block (s.tail_ptr - s.buffer_ptr) bytes;
  tail_ptr = s.tail_ptr + length bytes;
}

pub appended-IsValid :
    {s : Serializer}
    → IsValid s
    → (bytes : List ℕ) → length bytes ≤ room s
    → IsValid (appended s bytes)
appended-IsValid {s} v bytes fits = record {
  whole = length-splice s.block (s.tail_ptr - s.buffer_ptr) bytes ∙ v.whole;
  low = v.low;
  order = omega arith;
  high = omega arith;
  addressable = v.addressable;
}

pub appended-contents :
    {s : Serializer}
    → IsValid s
    → (bytes : List ℕ) → length bytes ≤ room s
    → contents (appended s bytes) ≡ contents s ++ bytes
appended-contents {s} v bytes fits =
    let off : ℕ = s.head_ptr - s.buffer_ptr in
    let n : ℕ = s.tail_ptr - s.head_ptr in
    let end : off + n ≡ s.tail_ptr - s.buffer_ptr = omega arith in
    let all : n + length bytes ≡ s.tail_ptr + length bytes - s.head_ptr = omega arith in
    (λ i. slice (splice s.block (sym end i) bytes) off (sym all i))
    ∙ slice-splice s.block off n bytes (omega (arith, v.whole))

reserve_lem :
    {s : Serializer} (v : IsValid s) (malloc : Malloc) (fuel n : ℕ)
    → n ≤ room s
    → reserve malloc (suc fuel) s n ≡ some s
unfolding reserve
reserve_lem v malloc fuel n fits = ground (arith, useable_size_lem v)

pub write_tail :
    {s : Serializer} (v : IsValid s) (bytes : List ℕ)
    → length bytes ≤ room s
    → write s s.tail_ptr bytes
      ≡ some (record s { block = splice s.block (s.tail_ptr - s.buffer_ptr) bytes })
unfolding write
write_tail {s} v bytes fits =
    ground (arith, v.whole, write_block_inside s.block (s.tail_ptr - s.buffer_ptr) bytes)

pub move_rear-pos :
    {s : Serializer} (v : IsValid s) (n : ℕ)
    → n ≤ room s
    → move_rear s (pos n) ≡ (pos n, record s { tail_ptr = s.tail_ptr + n })
unfolding move_rear
move_rear-pos v n fits = ground (arith, useable_size_lem v)

pub move_front-pos :
    {s : Serializer} (v : IsValid s) (n : ℕ)
    → n ≤ s.tail_ptr - s.head_ptr
    → move_front s (pos n) ≡ (pos n, record s { head_ptr = s.head_ptr + n })
unfolding move_front
move_front-pos v n fits = ground (arith, size_lem v)

pub with_block :
    {s : Serializer} (v : IsValid s) (b : List ℕ)
    → length b ≡ s.buffer_size
    → IsValid (record s { block = b })
with_block v b whole = record {
  whole = whole;
  low = v.low;
  order = v.order;
  high = v.high;
  addressable = v.addressable;
}

-- With room for the bytes nothing is resized, nothing faults and exactly they are appended.
pub append_lem :
    {s : Serializer} (v : IsValid s) (malloc : Malloc) (fuel : ℕ) (bytes : List ℕ)
    → length bytes ≤ room s
    → append malloc (suc fuel) s bytes ≡ some (appended s bytes)
unfolding append
append_lem {s} v malloc fuel bytes fits =
    rw (reserve_lem v malloc fuel (length bytes) fits, write_tail v bytes fits)
      (ap (λ m. some m.1)
        (move_rear-pos
          (with_block v (splice s.block (s.tail_ptr - s.buffer_ptr) bytes)
            (length-splice s.block (s.tail_ptr - s.buffer_ptr) bytes ∙ v.whole))
          (length bytes) fits))

-- What is left after bytes have been read from the front.
abbrev pub fronted : Serializer → ℕ → Serializer
fronted s n = record s { head_ptr = s.head_ptr + n }

pub fronted-IsValid :
    {s : Serializer} → IsValid s → (n : ℕ) → n ≤ s.tail_ptr - s.head_ptr → IsValid (fronted s n)
fronted-IsValid v n few = record {
  whole = v.whole;
  low = omega arith;
  order = omega arith;
  high = v.high;
  addressable = v.addressable;
}

pub fronted-contents :
    {s : Serializer}
    → IsValid s
    → (n : ℕ) → n ≤ s.tail_ptr - s.head_ptr
    → contents (fronted s n) ≡ drop n (contents s)
fronted-contents {s} v n few =
    let off : s.head_ptr - s.buffer_ptr + n ≡ s.head_ptr + n - s.buffer_ptr = omega arith in
    let left : s.tail_ptr - s.head_ptr - n ≡ s.tail_ptr - (s.head_ptr + n) = omega arith in
    (λ i. slice s.block (sym off i) (sym left i))
    ∙ slice-drop s.block (s.head_ptr - s.buffer_ptr) n (s.tail_ptr - s.head_ptr) few

pub read_head :
    {s : Serializer} (v : IsValid s) (n : ℕ)
    → n ≤ s.tail_ptr - s.head_ptr
    → read s s.head_ptr n ≡ some (take n (contents s))
unfolding read
read_head {s} v n few = ground (
  arith,
  v.whole,
  read_block_inside s.block (s.head_ptr - s.buffer_ptr) n,
  slice-take s.block (s.head_ptr - s.buffer_ptr) n (s.tail_ptr - s.head_ptr),
)

-- The bytes that `pop` and `peek` give to a caller who asks for `n`.
abbrev pub given : Serializer → ℕ → ℕ
given s n = min n (s.tail_ptr - s.head_ptr)

given_lem :
    {s : Serializer} (v : IsValid s) (n : ℕ) → (if ltb (size s) n then size s else n) ≡ given s n
given_lem v n = ground (arith, size_lem v)

-- `peek` reads the first bytes, as many as there are of those asked for.
pub peek_lem :
    {s : Serializer}
    → IsValid s
    → (n : ℕ) → peek s n ≡ some (given s n, take (given s n) (contents s))
unfolding peek
peek_lem {s} v n =
    (λ i. read s s.head_ptr (given_lem v n i) >>= λ bytes. some (given_lem v n i, bytes))
    ∙ rw (read_head v (given s n) (omega arith))

-- On a well-formed serializer `pop` does not fault: it gives the first bytes, as many as there are of
-- those asked for, with their number, and moves the head past them.
pub pop-fronted :
    {s : Serializer}
    → IsValid s
    → (n : ℕ) → pop s n ≡ some (given s n, take (given s n) (contents s), fronted s (given s n))
unfolding pop
pop-fronted {s} v n =
    (λ i. read s s.head_ptr (given_lem v n i) >>= λ bytes.
    some (given_lem v n i, bytes, (move_front s (pos (given_lem v n i))).1))
    ∙ rw (read_head v (given s n) (omega arith), move_front-pos v (given s n) (omega arith))
