-- ===== src/Tests/SerializerTests.antt =====
-- The serializer of loginServer/lib/IOCP netServer/serializer.cpp on small blocks.
use login_server.Base.{
  ℕ, ◌+◌, ◌<◌, ◌^◌, ◌≡◌, ◌≢◌, refl, inr, true, some, List, [], ◌∷◌, arith, replicate,
  length-replicate,
}
use login_server.Base.Blocks.{slice}
use login_server.Serializer.{Serializer, Malloc, resize}
use login_server.Serializer.Scalars.{Scalar, bool, short, ulong_long}
use login_server.Serializer.Header.{set_header, encryption, decryption}
use login_server.Serializer.Valid.{IsValid, contents}
use login_server.Serializer.Resize.{Allocates, resize_loses_tail}
use login_server.Serializer.RoundTrip.{put_all, get_all, types, get_all-put_all}
use login_server.Serializer.Sealed.{IsPacket, decryption-encryption-set_header}

-- Twelve bytes at address 4096: room for a header, two bytes held, five bytes of room.
abbrev small : Serializer
small = record {
  block = 1 ∷ 2 ∷ 3 ∷ 4 ∷ 5 ∷ 200 ∷ 100 ∷ 8 ∷ 9 ∷ 10 ∷ 11 ∷ 12 ∷ [];
  buffer_ptr = 4096;
  buffer_size = 12;
  head_ptr = 4101;
  tail_ptr = 4103;
  reference_counter = 1;
}

small-IsValid : IsValid small
small-IsValid = record {
  whole = refl;
  low = omega arith;
  order = omega arith;
  high = omega arith;
  addressable = omega arith;
}

-- A heap whose next block is at address 8192.
abbrev malloc : Malloc
malloc n = (8192, replicate n 0)

malloc-Allocates : (n : ℕ) → n < 1000 → Allocates malloc small n
malloc-Allocates n h = record {
  whole = length-replicate n 0;
  apart = inr (omega arith);
  addressable = omega arith;
}

small-IsPacket : IsPacket small
small-IsPacket = record {
  valid = small-IsValid;
  behind_header = refl;
  bytes = omega arith;
  short = omega arith;
}

decryption-encryption-set_header_example :
    (t u w : Serializer) × (set_header small 77 ≡ some t)
    × (encryption t 0x32 ≡ some u)
    × (decryption u 0x32 ≡ some (true, w))
    × (contents w ≡ 0x77 ∷ 2 ∷ 0 ∷ 77 ∷ 0 ∷ 200 ∷ 100 ∷ [])
decryption-encryption-set_header_example =
    decryption-encryption-set_header small small-IsPacket 77 0x32

abbrev cleared : Serializer
cleared = record small { head_ptr = 4096; tail_ptr = 4096 }

cleared-IsValid : IsValid cleared
cleared-IsValid = record {
  whole = refl;
  low = omega arith;
  order = omega arith;
  high = omega arith;
  addressable = omega arith;
}

abbrev row : List (Scalar × ℕ)
row = (short, 0xfffe) ∷ (bool, 1) ∷ (ulong_long, 2 ^ 60 + 3) ∷ []

get_all-put_all_example :
    (s' s'' : Serializer) × (put_all malloc 1 cleared row ≡ some s')
    × (get_all s' (types row) ≡ some (0xfffe ∷ 1 ∷ (2 ^ 60 + 3) ∷ [], s''))
    × (contents s'' ≡ [])
get_all-put_all_example =
    get_all-put_all row cleared-IsValid malloc 0 (omega arith) (omega arith) refl

resize_loses_tail_example :
    (t : Serializer) × (resize malloc small 24 ≡ some t)
    × (slice t.block 0 2 ≡ 200 ∷ 100 ∷ [])
    × (t.tail_ptr ≡ 4103)
    × (t.tail_ptr ≢ t.head_ptr + 2)
resize_loses_tail_example =
    resize_loses_tail small-IsValid malloc 24 (malloc-Allocates 24 (omega arith)) (omega arith)
      (omega arith)
