-- ===== src/Session/Send.antt =====
-- loginServer/lib/IOCP netServer/session.cpp: the sending side of a session. Packets wait in
-- `sendBuffer`, whose pushes and pops are those of a bounded queue, as long as a send of the session is
-- under way; `sendIO` then gives all of them to one `WSASend` and keeps their addresses, as bytes, in
-- the ring `sendedBuffer`, until `sended` learns that they are gone.
pub mod Pointers
pub mod Gather
pub mod Sended
pub mod Cycle
pub mod Queued
pub mod Race
use login_server.Base.{
  ℕ, zero, suc, ◌+◌, ◌-◌, ◌%◌, ◌^◌, Bool, true, false, ◌||◌, Option, none, some, List, [], ◌∷◌,
  ◌++◌, length, ltb, leb, ◌==◌, if◌then◌else◌, ◌>>=◌,
}
use login_server.Base.Int.{ℤ, pos, negsuc}
use login_server.Ring.{Ring, push, pop, empty, clear}
use login_server.Serializer.{Serializer, size}
use login_server.Serializer.Scalars.{to_bytes, of_bytes}
use login_server.Packet.{Store, release}
use login_server.Session.{Session, increment_io, decrement_io, has_cancel_io_flag, cancel_io_regist}

-- `LockFreeQueue(256)`: one of its nodes is always in front of the first packet.
abbrev pub queue_limit : ℕ
queue_limit = 255

unfoldable pub collect_send_packet : Session → ℕ → Bool × Session
collect_send_packet s a =
    if ltb (length s.send_buffer) queue_limit
    then (true, record s { send_buffer = s.send_buffer ++ (a ∷ []) })
    else (false, s)

-- The room of `WSABUF buffer[100]`.
abbrev pub wsa_buffers : ℕ
wsa_buffers = 100

-- The loop of `sendIO` over `n` packets, of which the next goes into `buffer[i]`: the buffers that it
-- fills, as address and length. `none` is a write behind the last one, or a queue that runs empty,
-- at which the loop does not end before another thread pushes.
unfoldable pub gather : Store → Session → ℕ → ℕ → Option (List (ℕ × ℕ) × Session)
gather st s zero i = some ([], s)
gather st s (suc n) i = elim s.send_buffer [
  | [] ↦ none
  | a ∷ q ↦
      if leb wsa_buffers i
      then none
      else (push s.sended_buffer (to_bytes 8 a) >>= λ (k, r).
          gather st (record s { send_buffer = q; sended_buffer = r }) n (i + 1) >>= λ (bufs, t).
          some (((st.cell a).head_ptr, size (st.cell a) % 2 ^ 32) ∷ bufs, t))
]

-- What `WSASend` answers: the send is done or under way, or an error code.
pub data Answer : Type 0 where
  accepted : Answer
  refused : ℕ → Answer

-- What `sendIO` has done: the buffers of its `WSASend`, if it called it, the session, and whether it
-- called `deleteSession`.
pub record Sent : Type 0 where
  pub buffers : Option (List (ℕ × ℕ))
  pub session : Session
  pub deletes : Bool

-- After the call of `WSASend`. `CancelIoEx` only asks the system to end a request.
unfoldable pub answered : Answer → Session → List (ℕ × ℕ) → Sent
unfolding cancel_io_regist decrement_io
answered accepted s bufs = record { buffers = some bufs; session = s; deletes = false }
answered (refused code) s bufs =
    let closed = code == 10054 || code == 10053 in
    let t = if closed then s else record s { send_flag = 0 } in
    let (n, u) = decrement_io (cancel_io_regist t).1 in
    record { buffers = some bufs; session = u; deletes = n == 0 }

unfoldable pub send_io : Answer → Store → Session → Option Sent
unfolding has_cancel_io_flag increment_io answered
send_io answer st s =
    let nothing = λ (t : Session). some (record { buffers = none; session = t; deletes = false }) in
    if has_cancel_io_flag s
    then nothing s
    else if s.send_flag == 1
    then nothing s
    else if length s.send_buffer == 0
    then nothing (record s { send_flag = 0 })
    else (gather st (increment_io (record s { send_flag = 1 })).1 (length s.send_buffer) 0
        >>= λ (bufs, t). some (answered answer t bufs))

-- The loop of `sended` on fuel, with the number of packets so far. `transfer` is unsigned. `none` is a
-- pop that gives no whole pointer, after which an old one would be used again, or the end of the fuel.
unfoldable pub sended_loop : ℕ → Store → Ring → ℕ → ℕ → Option (ℕ × Store × Ring)
sended_loop zero st r transfer count = none
sended_loop (suc fuel) st r transfer count =
    let next = pop r 8 >>= λ (n, bytes, r').
    let a = of_bytes bytes in
    let left = (transfer + 2 ^ 32 - size (st.cell a) % 2 ^ 32) % 2 ^ 32 in
    let rest = sended_loop fuel (release st a) r' left (count + 1) in
    if n == 8 then rest else none in
    if transfer == 0 then some (count, st, r) else next

unfoldable pub sended : ℕ → Store → Session → ℕ → Option (ℤ × Store × Session)
sended fuel st s transfer =
    if transfer == 0
    then some (negsuc 0, st, s)
    else (sended_loop fuel st s.sended_buffer transfer 0 >>= λ (count, t, r).
        some (pos count, t, record s { sended_buffer = r }))

-- The two loops of `bufferClear`.
unfoldable pub release_queue : Store → List ℕ → Store
release_queue st [] = st
release_queue st (a ∷ q) = release_queue (release st a) q

unfoldable pub release_ring : ℕ → Store → Ring → Option (Store × Ring)
release_ring zero st r = none
release_ring (suc fuel) st r =
    let next = pop r 8 >>= λ (n, bytes, r').
    let rest = release_ring fuel (release st (of_bytes bytes)) r' in
    if n == 8 then rest else none in
    if empty r then some (st, r) else next

unfoldable pub buffer_clear : ℕ → Store → Session → Option (Store × Session)
buffer_clear fuel st s =
    release_ring fuel (release_queue st s.send_buffer) s.sended_buffer >>= λ (t, r).
    some (t, record s { send_buffer = []; sended_buffer = r; recv_buffer = clear s.recv_buffer })
