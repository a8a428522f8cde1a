-- ===== src/Serializer/Resize.antt =====
-- What `resize`, `operator =` and the copy constructor do to a well-formed serializer.
use login_server.Base.{
  ℕ, ◌+◌, ◌-◌, ◌%◌, ◌^◌, ◌≤◌, ◌<◌, ◌≡◌, ◌≢◌, ◌⊎◌, refl, sym, ap, ◌∙◌, some, List, arith, length,
  take, take-length_le,
}
use login_server.Base.Blocks.{
  splice, slice, read_block_inside, write_block_inside, length-splice, slice-splice, splice-all,
}
use login_server.Base.Int.{ptr_sub}
use login_server.Serializer.{Serializer, Malloc, read, write, clear, resize, assign}
use login_server.Serializer.Valid.{IsValid, contents, size_lem, read_head, length-contents}

-- What `malloc` promises for a request of `n` bytes while the block of `s` is in use.
pub record Allocates (malloc : Malloc) (s : Serializer) (n : ℕ) : Type 0 where
  pub whole : length (malloc n).1 ≡ n
  pub apart : ((malloc n).0 + n ≤ s.buffer_ptr) ⊎ (s.buffer_ptr + s.buffer_size ≤ (malloc n).0)
  pub addressable : (malloc n).0 + n < 2 ^ 64

-- What a resize leaves.
abbrev resized : Malloc → Serializer → ℕ → Serializer
resized malloc s n = record s {
  block = splice (malloc n).1 0 (contents s);
  buffer_ptr = (malloc n).0;
  buffer_size = n;
  head_ptr = (malloc n).0;
}

back : (p q : ℕ) → p < 2 ^ 64 → q < 2 ^ 64 → (q + ptr_sub p q) % 2 ^ 64 ≡ p
back p q hp hq = omega arith

all_held :
    {s : Serializer} (v : IsValid s) → take (s.tail_ptr - s.head_ptr) (contents s) ≡ contents s
all_held {s} v =
    take-length_le (s.tail_ptr - s.head_ptr) (contents s) (omega (arith, length-contents v))

resize_steps :
    {s : Serializer} (v : IsValid s) (malloc : Malloc) (n : ℕ)
    → Allocates malloc s n
    → s.tail_ptr - s.head_ptr ≤ n
    → resize malloc s n ≡ some (resized malloc s n)
unfolding resize
resize_steps {s} v malloc n a fits =
    rw (size_lem v, read_head v (s.tail_ptr - s.head_ptr) (omega arith), all_held v)
      (rw
        (write_block_inside (malloc n).1 0 (contents s) (omega (arith, a.whole, length-contents v)))
        (ap (λ t. some (record (resized malloc s n) { tail_ptr = t }))
          (back s.tail_ptr (malloc n).0 (omega arith) (omega arith))))

-- The bug of `resize`: it computes the new tail from the head that it has just overwritten. The
-- bytes held are moved to the new block, but the tail stays where it was, in the block that is
-- freed, so it is not behind those bytes.
pub resize_loses_tail :
    {s : Serializer}
    → IsValid s
    → (malloc : Malloc) (n : ℕ) → Allocates malloc s n
    → s.head_ptr < s.tail_ptr
    → s.tail_ptr - s.head_ptr ≤ n
    → (t : Serializer) × (resize malloc s n ≡ some t)
      × (slice t.block 0 (s.tail_ptr - s.head_ptr) ≡ contents s)
      × (t.tail_ptr ≡ s.tail_ptr)
      × (t.tail_ptr ≢ t.head_ptr + (s.tail_ptr - s.head_ptr))
resize_loses_tail {s} v malloc n a some_held fits = (
  resized malloc s n,
  resize_steps v malloc n a fits,
  ap (slice (splice (malloc n).1 0 (contents s)) 0) (omega (arith, length-contents v))
      ∙ slice-splice (malloc n).1 0 0 (contents s) (omega (arith, a.whole, length-contents v)),
  refl,
  omega (arith, a.apart),
)

clear-IsValid : {s : Serializer} → IsValid s → IsValid (clear s)
unfolding clear
clear-IsValid v = record {
  whole = v.whole;
  low = omega arith;
  order = omega arith;
  high = omega arith;
  addressable = v.addressable;
}

-- The target of an assignment, at the address of its new block.
abbrev assigned : Malloc → Serializer → Serializer → Serializer
assigned malloc s u = record s {
  block = u.block;
  buffer_ptr = (malloc u.buffer_size).0;
  buffer_size = u.buffer_size;
  head_ptr = (malloc u.buffer_size).0 + (u.head_ptr - u.buffer_ptr);
  tail_ptr = (malloc u.buffer_size).0 + (u.tail_ptr - u.buffer_ptr);
}

moved_contents :
    (block : List ℕ) (p q h t : ℕ)
    → q ≤ h
    → q ≤ t
    → slice block (p + (h - q) - p) (p + (t - q) - (p + (h - q))) ≡ slice block (h - q) (t - h)
moved_contents block p q h t hq tq =
    let a : p + (h - q) - p ≡ h - q = omega arith in
    let b : p + (t - q) - (p + (h - q)) ≡ t - h = omega arith in λ i. slice block (a i) (b i)

moved_ptr :
    (p q h n : ℕ)
    → q ≤ h
    → h ≤ q + n
    → q + n < 2 ^ 64
    → p + n < 2 ^ 64
    → (p + ptr_sub h q) % 2 ^ 64 ≡ p + (h - q)
moved_ptr p q h n a b c d = omega arith

write_start :
    (t : Serializer) (bytes : List ℕ)
    → length t.block ≡ length bytes
    → write t t.buffer_ptr bytes ≡ some (record t { block = bytes })
unfolding write
write_start t bytes e =
    ground (arith, write_block_inside t.block 0 bytes, splice-all t.block bytes e)

assign_steps :
    {s u : Serializer}
    → IsValid s
    → IsValid u
    → (malloc : Malloc) → Allocates malloc s u.buffer_size
    → assign malloc s u ≡ some (assigned malloc s u)
unfolding assign clear
assign_steps {s} {u} v w malloc a =
    rw
      (
        resize_steps (clear-IsValid v) malloc u.buffer_size
            (record { whole = a.whole; apart = a.apart; addressable = a.addressable })
            (omega arith),
        read_all,
        write_start (resized malloc (clear s) u.buffer_size) u.block
            (length-splice (malloc u.buffer_size).1 0 (contents (clear s)) ∙ a.whole ∙ sym w.whole),
        moved_ptr (malloc u.buffer_size).0 u.buffer_ptr u.head_ptr u.buffer_size (omega arith)
            (omega arith) (omega arith) a.addressable,
        moved_ptr (malloc u.buffer_size).0 u.buffer_ptr u.tail_ptr u.buffer_size (omega arith)
            (omega arith) (omega arith) a.addressable,
      )
      refl
  where
    read_all : read u u.buffer_ptr u.buffer_size ≡ some u.block
    read_all =
        unfold read in
        ground (
          arith,
          w.whole,
          read_block_inside u.block 0 u.buffer_size,
          take-length_le u.buffer_size u.block,
        )

-- `operator =` sets the pointers again after its resize, and so makes a copy that is well formed
-- and holds the same bytes, whatever the target held.
pub assign_lem :
    {s u : Serializer}
    → IsValid s
    → IsValid u
    → (malloc : Malloc) → Allocates malloc s u.buffer_size
    → (t : Serializer) × (assign malloc s u ≡ some t) × IsValid t × (contents t ≡ contents u)
assign_lem {s} {u} v w malloc a = (
  assigned malloc s u,
  assign_steps v w malloc a,
  record {
    whole = w.whole;
    low = omega arith;
    order = omega arith;
    high = omega arith;
    addressable = a.addressable;
  },
  moved_contents u.block (malloc u.buffer_size).0 u.buffer_ptr u.head_ptr u.tail_ptr (omega arith)
      (omega arith),
)
