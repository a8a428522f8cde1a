-- ===== src/Session.antt =====
-- loginServer/lib/IOCP netServer/session.h and session.cpp: a connection, of which this module has the
-- receiving side with the flags and the count that a receive uses, and the loop of
-- `Network::workerThread` (network.cpp) that hands the packets received to `OnRecv`.
pub mod Prepare
pub mod Framing
pub mod Drain
pub mod Stuck
pub mod Receive
pub mod Send
use login_server.Base.{
  ℕ, zero, suc, ◌+◌, ◌-◌, ◌*◌, ◌%◌, ◌^◌, Bool, true, false, ◌||◌, Option, none, some, List, [], ◌∷◌,
  get_or, ltb, leb, ◌==◌, if◌then◌else◌, ◌>>=◌,
}
use login_server.Base.Blocks.{write_block}
use login_server.Base.Int.{ℤ, pos, negsuc}
use login_server.Ring.{
  Ring, size, free_size, tail, direct_enqueue_size, front, pop, move_rear as ring_move_rear,
}
use login_server.Serializer.{Serializer, clear, inc_reference_counter, move_front, move_rear}
use login_server.Serializer.Header.{header_size}

pub record Session : Type 0 where
  pub id : ℕ
  pub socket : ℕ
  pub port : ℕ
  pub ip : ℕ
  pub send_flag : ℕ
  pub io_count : ℕ  -- the bit pattern of the UINT32
  pub cancel_io_flag : ℕ
  pub send_buffer : List ℕ  -- the addresses of the packets queued, oldest first
  pub sended_buffer : Ring
  pub recv_buffer : Ring

-- `InterlockedIncrement` and `InterlockedDecrement` of `IOcount`, which give the new value.
unfoldable pub increment_io : Session → ℕ × Session
increment_io s = let n = (s.io_count + 1) % 2 ^ 32 in (n, record s { io_count = n })

unfoldable pub decrement_io : Session → ℕ × Session
decrement_io s = let n = (s.io_count + 2 ^ 32 - 1) % 2 ^ 32 in (n, record s { io_count = n })

-- `init` up to its `InterlockedAnd`, and the `InterlockedAnd`, which takes bit 31 away: other threads
-- can see the session in between.
unfoldable pub init_fields : Session → ℕ → ℕ → ℕ → ℕ → Session
unfolding increment_io
init_fields s id sock port ip =
    record (increment_io (record s { id = id; socket = sock; port = port; ip = ip })).1 {
      send_flag = 0;
      cancel_io_flag = 0;
    }

unfoldable pub init_open : Session → Session
init_open s = record s { io_count = s.io_count % 2 ^ 31 }

unfoldable pub init : Session → ℕ → ℕ → ℕ → ℕ → Session
unfolding init_fields init_open
init s id sock port ip = init_open (init_fields s id sock port ip)

unfoldable pub has_cancel_io_flag : Session → Bool
has_cancel_io_flag s = s.cancel_io_flag == 1

unfoldable pub cancel_io_regist : Session → ℕ × Session
cancel_io_regist s = (1, record s { cancel_io_flag = 1 })

unfoldable pub cancel_io_unregist : Session → ℕ × Session
cancel_io_unregist s = (0, record s { cancel_io_flag = 0 })

-- The `WSABUF`s that `recvIO` gives to `WSARecv`, as an offset in the ring's block and a length.
unfoldable pub recv_buffers : Ring → List (ℕ × ℕ)
recv_buffers r =
    let free = (free_size r + 2 ^ 64 - direct_enqueue_size r) % 2 ^ 64 in
    if ltb 0 free
    then (tail r, direct_enqueue_size r) ∷ (0, free % 2 ^ 32) ∷ []
    else (tail r, direct_enqueue_size r) ∷ []

-- `recved`, for a `transfer` that an `int` holds
unfoldable pub recved : Session → ℕ → Bool × Session
recved s transfer =
    if leb (free_size s.recv_buffer) transfer || transfer == 0
    then (false, s)
    else (true, record s { recv_buffer = (ring_move_rear s.recv_buffer (pos transfer)).1 })

-- `h.size` as an `int`, from its two bytes, and `sizeof(networkHeader) + h.size` as a `size_t`
unfoldable pub payload_of : List ℕ → ℤ
payload_of h =
    let n = get_or h 1 0 + 2 ^ 8 * get_or h 2 0 in
    if ltb n (2 ^ 15) then pos n else negsuc (2 ^ 16 - n - 1)

unfoldable pub frame_size : List ℕ → ℕ
frame_size h =
    let n = get_or h 1 0 + 2 ^ 8 * get_or h 2 0 in
    if ltb n (2 ^ 15) then header_size + n else (2 ^ 64 + header_size + n - 2 ^ 16) % 2 ^ 64

-- The inner branch of `recvedPacket`, with the header read.
unfoldable pub take_frame : Session → Serializer → List ℕ → Option (Bool × Session × Serializer)
take_frame s p h =
    if leb (frame_size h) (size s.recv_buffer)
    then (do
      (n, bytes, r) ← pop s.recv_buffer (frame_size h)
      b ← write_block p.block 0 bytes
      let q = (move_rear (record p { block = b }) (payload_of h)).1
      some (true, record s { recv_buffer = r }, (move_front q (negsuc (header_size - 1))).1))
    else some (false, s, p)

unfoldable pub recved_packet : Session → Serializer → Option (Bool × Session × Serializer)
recved_packet s p =
    if leb header_size (size s.recv_buffer)
    then (do
      (n, h) ← front s.recv_buffer header_size
      if n == header_size then take_frame s p h else some (false, s, p))
    else some (false, s, p)

-- What the loop of `workerThread` does to a serializer before it asks for a packet.
unfoldable pub prepare : Serializer → Serializer
prepare p =
    let counted = (inc_reference_counter p 1).1 in
    (move_front (move_rear (clear counted) (pos header_size)).1 (pos header_size)).1

-- The loop of `workerThread` after a receive, on fuel: `alloc i` is the serializer that the `i`-th
-- round takes from the pool. The result is the packets that go to `OnRecv`, in order.
unfoldable pub drain : (ℕ → Serializer) → ℕ → Session → Option (List Serializer × Session)
drain alloc zero s = none
drain alloc (suc fuel) s = recved_packet s (prepare (alloc 0)) >>= λ (more, t, p).
    let rest = drain (λ i. alloc (suc i)) fuel t in
    if more then (rest >>= λ (packets, u). some (p ∷ packets, u)) else some ([], t)
