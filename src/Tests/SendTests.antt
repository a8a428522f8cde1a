-- ===== src/Tests/SendTests.antt =====
-- The sending side of loginServer/lib/IOCP netServer/session.cpp: two packets of 3 and 2 bytes.
use login_server.Base.{
  ℕ, ◌+◌, ◌-◌, ◌≡◌, ◌<◌, ◌≤◌, ◌%◌, ◌^◌, refl, arith, some, none, List, [], ◌∷◌, replicate, length,
  count,
}
use login_server.Base.Int.{pos}
use login_server.Ring.{Ring}
use login_server.Ring.Index.{IsValid}
use login_server.Serializer.{Serializer, size}
use login_server.Serializer.Scalars.{to_bytes}
use login_server.Packet.{Store}
use login_server.Session.{Session}
use login_server.Session.Send.{Sent, accepted, send_io, sended}
use login_server.Session.Send.Pointers.{Carries}
use login_server.Session.Send.Gather.{IsReady, buffers_of, send_io-overflow}
use login_server.Session.Send.Sended.{total, AllSized}
use login_server.Session.Send.Cycle.{sended-send_io}

-- A packet of `n` bytes with a reference for each place that it is in.
abbrev packet : ℕ → ℕ → Serializer
packet a n = record {
  block = replicate 20 1;
  buffer_ptr = a + 1000;
  buffer_size = 20;
  head_ptr = a + 1000;
  tail_ptr = a + 1000 + n;
  reference_counter = 1;
}

abbrev pub store : Store
store = record { cell = λ a. packet a (a % 4); allocs = []; frees = [] }

abbrev pub ring : List ℕ → ℕ → Ring
ring block tail = record {
  buffer_size = 64;
  max_size = 63;
  buffer = block;
  head_ptr = 0;
  tail_ptr = tail;
}

ring-IsValid :
    (block : List ℕ) (tail : ℕ) → length block ≡ 64 → tail < 64 → IsValid (ring block tail)
ring-IsValid block tail whole inside = record {
  width = 6;
  power = refl;
  width_small = omega arith;
  mask = refl;
  block = whole;
  head_in = omega arith;
  tail_in = inside;
}

abbrev pub session : List ℕ → Ring → Session
session q r = record {
  id = 65537;
  socket = 4;
  port = 9000;
  ip = 0;
  send_flag = 0;
  io_count = 1;
  cancel_io_flag = 0;
  send_buffer = q;
  sended_buffer = r;
  recv_buffer = r;
}

-- Two packets wait; or one waits and one is under way.
abbrev pub idle_ring : Ring
idle_ring = ring (replicate 64 0) 0

abbrev pub waiting : Session
waiting = session (7 ∷ 6 ∷ []) idle_ring

abbrev busy_ring : Ring
busy_ring = ring (0 ∷ 7 ∷ replicate 62 0) 8

abbrev pub busy : Session
busy = session (6 ∷ []) busy_ring

idle_ring-Carries : Carries idle_ring []
idle_ring-Carries = record { valid = ring-IsValid _ _ refl (omega arith); holds = refl }

pub busy_ring-Carries : Carries busy_ring (7 ∷ [])
unfolding to_bytes
busy_ring-Carries = record { valid = ring-IsValid _ _ refl (omega arith); holds = refl }

waiting-IsReady : IsReady waiting
waiting-IsReady = record { open_for_send = refl; idle = refl; waiting = omega arith }

abbrev crowd : Session
crowd = session (replicate 101 7) idle_ring

send_io-overflow_example : send_io accepted store crowd ≡ none
send_io-overflow_example =
    send_io-overflow accepted store crowd
      (record { open_for_send = refl; idle = refl; waiting = omega arith })
      (ring-IsValid _ _ refl (omega arith)) (omega arith)

pub busy_count : (a : ℕ) → count a (6 ∷ 7 ∷ []) ≤ 1
busy_count a = ground arith

sizes : AllSized store (7 ∷ 6 ∷ [])
unfolding size
sizes = (omega arith, (omega arith, tt))

few_bytes : total store (7 ∷ 6 ∷ []) < 2 ^ 32
unfolding size
few_bytes = omega arith

waiting_count : (a : ℕ) → count a (7 ∷ 6 ∷ []) ≤ 1
waiting_count a = ground arith

sended-send_io_example :
    (sent : Sent) × (t : Store) × (u : Session) × (send_io accepted store waiting ≡ some sent)
    × (sent.buffers ≡ some (buffers_of store (7 ∷ 6 ∷ [])))
    × (sended 3 store sent.session (total store (7 ∷ 6 ∷ [])) ≡ some (pos 2, t, u))
    × (u.send_buffer ≡ [])
    × Carries u.sended_buffer []
    × ((a : ℕ)
        → (t.cell a).reference_counter ≡ (store.cell a).reference_counter - count a (7 ∷ 6 ∷ []))
sended-send_io_example =
    sended-send_io store waiting waiting-IsReady idle_ring-Carries (omega arith) (omega arith)
      (omega arith, (omega arith, tt)) sizes few_bytes (λ a. omega arith) waiting_count
