-- ===== src/Serializer/Scalars.antt =====
-- The `<<` and `>>` operators of serializer.cpp, `setString` and `getString`. A value is its bit
-- pattern, its bytes stand lowest first, and the widths are those of the Windows ABI.
use login_server.Base.{
  ℕ, zero, suc, ◌+◌, ◌-◌, ◌*◌, ◌/◌, ◌%◌, ◌^◌, Option, some, List, [], ◌∷◌, length, replicate, ltb,
  leb, ◌==◌, if◌then◌else◌, ◌>>=◌,
}
use login_server.Base.Int.{ℤ, pos, negsuc}
use login_server.Serializer.{
  Serializer, Malloc, read, write, size, useable_size, move_front, move_rear, reserve, append,
}

pub data Scalar : Type 0 where
  bool char uchar wchar short ushort int uint long ulong long_long ulong_long float double : Scalar

-- `sizeof`
abbrev pub width : Scalar → ℕ
width bool = 1
width char = 1
width uchar = 1
width wchar = 2
width short = 2
width ushort = 2
width int = 4
width uint = 4
width long = 4
width ulong = 4
width long_long = 8
width ulong_long = 8
width float = 4
width double = 8

-- The `w` bytes in which a value lies in memory, and the value of such bytes.
unfoldable pub to_bytes : ℕ → ℕ → List ℕ
to_bytes zero v = []
to_bytes (suc w) v = (v % 256) ∷ to_bytes w (v / 256)

unfoldable pub of_bytes : List ℕ → ℕ
of_bytes [] = 0
of_bytes (b ∷ bs) = b + 256 * of_bytes bs

-- What is written for a value, and the value that is made of what is read: a `bool` goes through a
-- `char` that is 0 or 1.
unfoldable pub encode : Scalar → ℕ → List ℕ
unfolding to_bytes
encode bool v = to_bytes 1 (if v == 0 then 0 else 1)
encode t v = to_bytes (width t) v

unfoldable pub decode : Scalar → List ℕ → ℕ
unfolding of_bytes
decode bool bytes = if of_bytes bytes == 0 then 0 else 1
decode t bytes = of_bytes bytes

-- `operator <<`, which for each type reserves its size and writes its bytes
unfoldable pub put : Malloc → ℕ → Serializer → Scalar → ℕ → Option Serializer
unfolding encode
put malloc fuel s t v = append malloc fuel s (encode t v)

-- `operator >>`, which reads without asking how many bytes are held
unfoldable pub get : Serializer → Scalar → Option (ℕ × Serializer)
unfolding decode
get s t = do
  bytes ← read s s.head_ptr (width t)
  some (decode t bytes, (move_front s (pos (width t))).1)

-- `operator <<` of a `std::string`: one reservation, for the length and the text
unfoldable pub put_string : Malloc → ℕ → Serializer → List ℕ → Option Serializer
unfolding to_bytes
put_string malloc fuel s text = do
  t ← reserve malloc fuel s (length text + 4)
  u ← write t t.tail_ptr (to_bytes 4 (length text))
  let v = (move_rear u (pos 4)).1
  w ← write v v.tail_ptr text
  some (move_rear w (pos (length text))).1

-- An `int` as a `size_t`, for a bit pattern of 32 bits.
abbrev pub int_to_size : ℕ → ℕ
int_to_size n = if ltb n (2 ^ 31) then n else n + 2 ^ 64 - 2 ^ 32

abbrev pub int_of : ℕ → ℤ
int_of n = if ltb n (2 ^ 31) then pos n else negsuc (2 ^ 32 - n - 1)

unfoldable pub get_string : Serializer → Option (List ℕ × Serializer)
unfolding of_bytes
get_string s = do
  bytes ← read s s.head_ptr 4
  let n = of_bytes bytes
  let t = (move_front s (pos 4)).1
  text ← read t t.head_ptr (int_to_size n)
  some (text, (move_front t (int_of n)).1)

-- `memcpy_s(dest, room, src, count)`, as documented: a count above the room zeroes the room.
abbrev pub memcpy_s : ℕ → List ℕ → List ℕ
memcpy_s dest_size src = if leb (length src) dest_size then src else replicate dest_size 0

-- `setString` and `setWstring`, whose text is `len` or `2 * len` bytes
unfoldable pub set_text : Serializer → List ℕ → Option Serializer
set_text s text = do
  t ← write s s.tail_ptr (memcpy_s (useable_size s) text)
  some (move_rear t (pos (length text))).1

-- `getString` and `getWstring` for a destination of `n` bytes: the count is `size()`. The result is
-- what is written to the destination.
unfoldable pub get_text : Serializer → ℕ → Option (List ℕ × Serializer)
get_text s n = do
  held ← read s s.head_ptr (size s)
  some (memcpy_s n held, (move_front s (pos n)).1)
