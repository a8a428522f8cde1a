-- ===== src/Tests/SessionTests.antt =====
-- The receiving side of loginServer/lib/IOCP netServer/session.cpp on a ring of 16 bytes.
use login_server.Base.{
  ℕ, ◌≤◌, ◌<◌, length-drop, false, ◌≡◌, refl, Option, true, false, none, some, List, [], ◌∷◌, ◌++◌,
  map, arith, ◌>>=◌, replicate, take, drop, length, leb, if◌then◌else◌, inl,
}
use login_server.Base.Blocks.{write_block}
use login_server.Ring.{Ring}
use login_server.Ring.Index.{IsValid as RingIsValid}
use login_server.Ring.Contents.{contents as ring_contents}
use login_server.Serializer.{Serializer}
use login_server.Serializer.Valid.{IsValid, contents}
use login_server.Session.{Session, recv_buffers, recved, prepare, drain}
use login_server.Session.Prepare.{IsPrepared, prepare-IsPrepared}
use login_server.Session.Framing.{IsFrame, received}
use login_server.Session.Drain.{Suits, drain_lem}
use login_server.Session.Stuck.{drain-stuck}
use login_server.Session.Receive.{Scatters, offered, recved-wsa_recv, recved-offered}

-- A ring whose bytes go round the end of its block, and a session that receives into it.
abbrev ring : List ℕ → ℕ → Ring
ring block tail = record {
  buffer_size = 16;
  max_size = 15;
  buffer = block;
  head_ptr = 11;
  tail_ptr = tail;
}

abbrev session : Ring → Session
session r = record {
  id = 65537;
  socket = 4;
  port = 9000;
  ip = 0;
  send_flag = 0;
  io_count = 1;
  cancel_io_flag = 0;
  send_buffer = [];
  sended_buffer = r;
  recv_buffer = r;
}

-- A packet with the payload 1, 2; one without a payload; and two bytes of a third.
abbrev two_packets : Session
two_packets =
    session (ring (9 ∷ 1 ∷ 2 ∷ 0x77 ∷ 0 ∷ 0 ∷ 8 ∷ 7 ∷ 0x77 ∷ 2 ∷ 0 ∷ 0 ∷ 0x77 ∷ 2 ∷ 0 ∷ 5 ∷ []) 9)

abbrev first_packet : List ℕ
first_packet = 0x77 ∷ 2 ∷ 0 ∷ 5 ∷ 9 ∷ 1 ∷ 2 ∷ []

abbrev second_packet : List ℕ
second_packet = 0x77 ∷ 0 ∷ 0 ∷ 8 ∷ 7 ∷ []

received-two_packets :
    received two_packets ≡ 0x77 ∷ 2 ∷ 0 ∷ 5 ∷ 9 ∷ 1 ∷ 2 ∷ 0x77 ∷ 0 ∷ 0 ∷ 8 ∷ 7 ∷ 0x77 ∷ 2 ∷ []
received-two_packets = refl

abbrev half_packet : Session
half_packet = session (ring (replicate 16 1) 14)

abbrev negative : Session
negative = session (ring (replicate 13 1 ++ (0xfb ∷ 0xff ∷ 1 ∷ [])) 3)

ring-IsValid :
    (block : List ℕ) (tail : ℕ) → length block ≡ 16 → tail < 16 → RingIsValid (ring block tail)
ring-IsValid block tail whole inside = record {
  width = 4;
  power = refl;
  width_small = omega arith;
  mask = refl;
  block = whole;
  head_in = omega arith;
  tail_in = inside;
}

-- What the pool gives: a serializer of 20 bytes, whatever was in it.
abbrev pooled : ℕ → Serializer
pooled i = record {
  block = replicate 20 0xcd;
  buffer_ptr = 4096;
  buffer_size = 20;
  head_ptr = 4100;
  tail_ptr = 4102;
  reference_counter = 0;
}

pooled-IsValid : (i : ℕ) → IsValid (pooled i)
pooled-IsValid i = record {
  whole = refl;
  low = omega arith;
  order = omega arith;
  high = omega arith;
  addressable = omega arith;
}

pooled-Suits : Suits pooled 15
pooled-Suits = record { valid = pooled-IsValid; room = λ i. omega arith; fits_header = omega arith }

ready : IsPrepared (prepare (pooled 0))
ready = prepare-IsPrepared (pooled-IsValid 0) (omega arith)

first_packet-IsFrame : IsFrame first_packet
first_packet-IsFrame = record { short = omega arith; whole = refl }

second_packet-IsFrame : IsFrame second_packet
second_packet-IsFrame = record { short = omega arith; whole = refl }

drain_lem_example :
    (packets : List Serializer) × (t : Session) × (drain pooled 3 two_packets ≡ some (packets, t))
    × (map contents packets ≡ first_packet ∷ second_packet ∷ [])
    × (received t ≡ 0x77 ∷ 2 ∷ [])
    × RingIsValid t.recv_buffer
drain_lem_example =
    drain_lem (first_packet ∷ second_packet ∷ []) (0x77 ∷ 2 ∷ []) pooled two_packets
      (ring-IsValid _ _ refl (omega arith)) pooled-Suits
      (first_packet-IsFrame, (second_packet-IsFrame, tt)) (inl (omega arith)) refl 3 (omega arith)

drain-stuck_example : drain pooled 1000 negative ≡ none
drain-stuck_example =
    drain-stuck negative (ring-IsValid _ _ refl (omega arith)) refl (omega arith) pooled 1000

-- A kernel as `WSARecv` is documented.
abbrev kernel : List (ℕ × ℕ) → List ℕ → List ℕ → Option (List ℕ)
kernel [] block bytes = some block
kernel ((off, len) ∷ rest) block bytes =
    if leb (length bytes) len
    then write_block block off bytes
    else (write_block block off (take len bytes) >>= λ b. kernel rest b (drop len bytes))

long : (n len : ℕ) → len < n → leb n len ≡ false
long n len h = ground arith

short : (n len : ℕ) → n ≤ len → leb n len ≡ true
short n len h = ground arith

kernel-Scatters : Scatters kernel
kernel-Scatters = record {
  in_first = λ off len others block bytes h. ground arith;
  in_both = λ off len off' len' block bytes h k.
      rw
        (
          long (length bytes) len h,
          short (length (drop len bytes)) len' (omega (arith, length-drop len bytes)),
        )
        refl;
}

recved-wsa_recv_example :
    (b : List ℕ) × (r : Ring) × (kernel
        (recv_buffers half_packet.recv_buffer)
        half_packet.recv_buffer.buffer
        (7 ∷ 8 ∷ 9 ∷ [])
      ≡ some b)
    × (recved (record half_packet { recv_buffer = record half_packet.recv_buffer { buffer = b } }) 3
        ≡ (true, record half_packet { recv_buffer = r }))
    × RingIsValid r
    × (r.max_size ≡ 15)
    × (ring_contents r ≡ 1 ∷ 1 ∷ 1 ∷ 7 ∷ 8 ∷ 9 ∷ [])
recved-wsa_recv_example =
    recved-wsa_recv kernel kernel-Scatters half_packet (ring-IsValid _ _ refl (omega arith))
      (7 ∷ 8 ∷ 9 ∷ []) (omega arith) (omega arith)

recved-offered_example :
    recved half_packet (offered (recv_buffers half_packet.recv_buffer)) ≡ (false, half_packet)
recved-offered_example = recved-offered half_packet (ring-IsValid _ _ refl (omega arith))
