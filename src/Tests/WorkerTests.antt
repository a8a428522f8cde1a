-- ===== src/Tests/WorkerTests.antt =====
-- A worker's rounds and the requests of loginServer/lib/IOCP netServer/network.cpp, on the packets and
-- the ring of 64 bytes below.
use login_server.Base.{
  ◌==◌, if◌then◌else◌, ℕ, ◌+◌, ◌≡◌, ◌<◌, ◌^◌, refl, arith, true, some, List, [], ◌∷◌, replicate,
  length, inr, inl,
}
use login_server.Ring.{Ring}
use login_server.Ring.Index.{IsValid}
use login_server.Serializer.{Serializer, size}
use login_server.Serializer.Scalars.{to_bytes}
use login_server.Packet.{Store}
use login_server.Session.{Session, has_cancel_io_flag, cancel_io_regist, increment_io}
use login_server.Session.Send.{accepted, release_queue, collect_send_packet, send_io}
use login_server.Session.Send.Pointers.{Carries}
use login_server.Session.Send.Gather.{buffers_of}
use login_server.Session.Send.Sended.{total}
use login_server.Network.{Slot, req_value, request_check, packet_of}
use login_server.Network.Worker.{
  Work, Completion, begin, finish, after_io, on_request, worker_event, Reaction, sends, on_packets,
  react_all, react,
}
use login_server.Base.Results.{of_Always}
use login_server.Network.Worker.Ends.{IsOpen, worker_event-ends}
use login_server.Network.Worker.Serve.{IsSettled}
use login_server.Network.Worker.Resend.{IsSending, worker_event-resend}
use login_server.Network.Post.{Posted, send_serializer, disconnect_held}
use login_server.Network.Post.Disconnect.{worker_event-disconnect_held}
use login_server.Network.Post.Deliver.{IsIdle, send_serializer-worker_event}

abbrev packet : ℕ → Serializer
packet a = record {
  block = replicate 20 1;
  buffer_ptr = a + 1000;
  buffer_size = 20;
  head_ptr = a + 1000;
  tail_ptr = a + 1003;
  reference_counter = 1;
}

-- A server that answers each packet with packet 3.
abbrev on_recv : Serializer → List Reaction
on_recv p = sends 3 ∷ []

abbrev store : Store
store = record { cell = packet; allocs = []; frees = [] }

abbrev ring : List ℕ → ℕ → Ring
ring block tail = record {
  buffer_size = 64;
  max_size = 63;
  buffer = block;
  head_ptr = 0;
  tail_ptr = tail;
}

ring-IsValid :
    (block : List ℕ) (tail : ℕ) → length block ≡ 64 → tail < 64 → IsValid (ring block tail)
ring-IsValid block tail whole inside = record {
  width = 6;
  power = refl;
  width_small = omega arith;
  mask = refl;
  block = whole;
  head_in = omega arith;
  tail_in = inside;
}

abbrev session : ℕ → List ℕ → Ring → Session
session flag q r = record {
  id = 65537;
  socket = 4;
  port = 9000;
  ip = 0;
  send_flag = flag;
  io_count = 2;
  cancel_io_flag = 0;
  send_buffer = q;
  sended_buffer = r;
  recv_buffer = ring (replicate 64 0) 0;
}

-- The send of packet 7 is under way, and packets 6 and 5 wait.
abbrev busy : Session
busy = session 1 (6 ∷ 5 ∷ []) (ring (0 ∷ 7 ∷ replicate 62 0) 8)

-- A request to send packet 4 comes in meanwhile: it is queued, and nothing is started.
abbrev request : Completion
request = record { result = true; transfer = 0; overlap = 0x4000000000000004 }

abbrev after_request : Work
after_request = finish (begin store (record busy { send_buffer = 6 ∷ 5 ∷ 4 ∷ [] }))

queues :
    worker_event 100 200 9 packet on_recv accepted request (begin store busy) ≡ some after_request
unfolding worker_event on_request request_check packet_of collect_send_packet send_io
    has_cancel_io_flag after_io
queues = refl

busy-IsOpen : IsOpen busy
busy-IsOpen = record { few = omega arith; room = omega arith; unsent = inl refl }

few_posted :
    (w : Work)
    → worker_event 100 200 9 packet on_recv accepted request (begin store busy) ≡ some w
    → 2 + length w.posts + 1 < 2 ^ 32
unfolding worker_event on_request request_check packet_of collect_send_packet send_io
    has_cancel_io_flag after_io finish
few_posted w e = of_Always (λ k. 2 + length k.posts + 1 < 2 ^ 32) _ w (omega arith) e

worker_event-ends_example :
    (w : Work) × (worker_event 100 200 9 packet on_recv accepted request (begin store busy)
      ≡ some w)
    × IsSettled busy w
worker_event-ends_example =
    worker_event-ends 100 200 9 packet on_recv accepted request store busy (omega arith)
      (omega arith) (inr (inl refl)) busy-IsOpen (λ e. absurd (omega (arith, e)))
      (λ e. absurd (omega (arith, e))) few_posted

busy-IsSending : IsSending store busy (7 ∷ [])
unfolding size to_bytes
busy-IsSending = record {
  live = refl;
  held = omega arith;
  few = omega arith;
  carries = record { valid = ring-IsValid _ _ refl (omega arith); holds = refl };
  addresses = (omega arith, tt);
  sized = (omega arith, tt);
  some_packets = omega arith;
  short = omega arith;
}

worker_event-resend_example :
    (w : Work) × (worker_event 100 200 2 packet on_recv accepted
        (record { result = true; transfer = total store (7 ∷ []); overlap = 100 })
        (begin store busy)
      ≡ some w)
    × (w.store ≡ release_queue store (7 ∷ []))
    × (w.started ≡ buffers_of w.store (6 ∷ 5 ∷ []) ∷ [])
    × Carries w.session.sended_buffer (6 ∷ 5 ∷ [])
    × (w.session.send_buffer ≡ [])
    × (w.session.io_count ≡ 2)
    × (w.deletes ≡ 0)
worker_event-resend_example =
    worker_event-resend 100 200 2 packet on_recv store busy (7 ∷ []) busy-IsSending (omega arith)
      (omega arith) (omega arith) (omega arith)

-- An open session that a receive holds, with nothing to send.
abbrev idle : Slot
idle = record {
  session = session 0 [] (ring (replicate 64 0) 0);
  holders = 2;
  deleters = 0;
  stacked = 0;
  opening = 0;
}

idle-IsIdle : IsIdle idle
idle-IsIdle = record {
  sound = record {
    word = omega arith;
    few = omega arith;
    once = omega arith;
    own = omega arith;
    pending = omega arith;
  };
  open_now = refl;
  few = omega arith;
  live = refl;
  unsent = refl;
  none_waits = refl;
  none_sent = record { valid = ring-IsValid _ _ refl (omega arith); holds = refl };
  room = omega arith;
}

send_serializer-worker_event_example :
    (o : Posted) × (w : Work) × (send_serializer 65537 7 idle store ≡ o)
    × (o.slot.session.io_count ≡ 3)
    × ((o.store.cell 7).reference_counter ≡ 2)
    × (o.posts ≡ req_value 7 ∷ [])
    × (worker_event 100 200 2 packet on_recv accepted
          (record { result = true; transfer = 0; overlap = req_value 7 })
          (begin o.store o.slot.session)
        ≡ some w)
    × (w.started ≡ buffers_of store (7 ∷ []) ∷ [])
    × Carries w.session.sended_buffer (7 ∷ [])
send_serializer-worker_event_example =
    send_serializer-worker_event 100 200 2 packet on_recv store idle 7 idle-IsIdle (omega arith)
      (omega arith)

-- The busy session, held twice, is asked to disconnect; then the request of packet 4 comes in.
abbrev busy_slot : Slot
busy_slot = record { session = busy; holders = 2; deleters = 0; stacked = 0; opening = 0 }

disconnects :
    (w : Work)
    → worker_event 100 200 9 packet on_recv accepted request
        (begin store (disconnect_held busy_slot).session)
      ≡ some w
    → 2 + length w.posts + 1 < 2 ^ 32
unfolding worker_event on_request request_check packet_of collect_send_packet send_io
    has_cancel_io_flag after_io disconnect_held cancel_io_regist finish
disconnects w e = of_Always (λ k. 2 + length k.posts + 1 < 2 ^ 32) _ w (omega arith) e

worker_event-disconnect_held_example :
    (w : Work) × (worker_event 100 200 9 packet on_recv accepted request
        (begin store (disconnect_held busy_slot).session)
      ≡ some w)
    × (w.started ≡ [])
    × (w.session.io_count + 1 ≡ 2 + length w.posts)
    × (w.deletes ≡ (if w.session.io_count == 0 then 1 else 0))
    × (w.session.cancel_io_flag ≡ 1)
worker_event-disconnect_held_example =
    worker_event-disconnect_held 100 200 9 packet on_recv accepted request store busy_slot
      (omega arith) (omega arith) busy-IsOpen (λ e. absurd (omega (arith, e)))
      (λ e. absurd (omega (arith, e))) disconnects

-- The answer that `OnRecv` posts for a packet holds one reference more.
answers : (on_packets on_recv (packet 1 ∷ []) (begin store busy)).session.io_count ≡ 3
unfolding on_packets react_all react increment_io
answers = refl
