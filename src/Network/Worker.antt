-- ===== src/Network/Worker.antt =====
-- loginServer/lib/IOCP netServer/network.cpp: what `workerThread` does with one completion that
-- `GetQueuedCompletionStatus` gives it, with `recvIO` (session.cpp), which it calls. The requests to
-- the system are answered by parameters. `OnRecv` is the server's: what it asks of the network for a
-- packet is a parameter, and the packets that it gets are part of the result, in order.
pub mod Keep
pub mod Dispatch
pub mod Count
pub mod Serve
pub mod Resend
pub mod Stop
pub mod Ends
use login_server.Base.{
  ℕ, ◌+◌, ◌-◌, ◌%◌, ◌^◌, Bool, true, false, Option, none, some, List, [], ◌∷◌, ◌++◌, length, ltb,
  ◌==◌, if◌then◌else◌, ◌>>=◌, not,
}
use login_server.Base.Int.{ℤ, pos, negsuc}
use login_server.Serializer.{Serializer}
use login_server.Packet.{Store, release, inc_ref}
use login_server.Session.{
  Session, increment_io, decrement_io, has_cancel_io_flag, cancel_io_regist, recv_buffers, recved,
  drain,
}
use login_server.Session.Send.{
  Answer, accepted, refused, Sent, answered, collect_send_packet, send_io, sended,
}
use login_server.Network.{
  ReqEvents, not_define, send_req, disconnect_req, request_check, packet_of, req_value,
}

-- After the call of `WSARecv`. A refusal with `WSA_IO_PENDING` is an acceptance, and `CancelIoEx` only
-- asks the system to end a request.
unfoldable pub recv_answered : Answer → Session → List (ℕ × ℕ) → Sent
unfolding cancel_io_regist decrement_io
recv_answered accepted s bufs = record { buffers = some bufs; session = s; deletes = false }
recv_answered (refused code) s bufs =
    let (n, t) = decrement_io (cancel_io_regist s).1 in
    record { buffers = some bufs; session = t; deletes = n == 0 }

-- `recvIO`: the buffers of its `WSARecv`, if it called it, the session, and whether it called
-- `deleteSession`.
unfoldable pub recv_io : Answer → Session → Sent
unfolding has_cancel_io_flag increment_io recv_answered
recv_io answer s =
    if has_cancel_io_flag s
    then record { buffers = none; session = s; deletes = false }
    else recv_answered answer (increment_io s).1 (recv_buffers s.recv_buffer)

-- A completion: whether it succeeded, its size, and its overlapped pointer.
pub record Completion : Type 0 where
  pub result : Bool
  pub transfer : ℕ
  pub overlap : ℕ

-- The worker's work so far: the session and the packets' store, its two counters of messages, the
-- packets for `OnRecv`, the requests that `OnRecv` posted, the buffers of each `WSASend` and `WSARecv` that was accepted, and how often
-- `deleteSession` was called.
pub record Work : Type 0 where
  pub session : Session
  pub store : Store
  pub send_messages : ℕ
  pub recv_messages : ℕ
  pub handed : List Serializer
  pub posts : List ℕ
  pub started : List (List (ℕ × ℕ))
  pub deletes : ℕ

abbrev pub begin : Store → Session → Work
begin st s = record {
  session = s;
  store = st;
  send_messages = 0;
  recv_messages = 0;
  handed = [];
  posts = [];
  started = [];
  deletes = 0;
}

abbrev pub started_by : Answer → Option (List (ℕ × ℕ)) → List (List (ℕ × ℕ))
started_by accepted (some bufs) = bufs ∷ []
started_by accepted none = []
started_by (refused code) bufs = []

unfoldable pub after_io : Answer → Work → Sent → Work
after_io answer w sent = record w {
  session = sent.session;
  started = w.started ++ started_by answer sent.buffers;
  deletes = if sent.deletes then w.deletes + 1 else w.deletes;
}

-- `if (sessionPtr->decrementIO() == 0) core->deleteSession(sessionPtr)`, up to the call
unfoldable pub finish : Work → Work
unfolding decrement_io
finish w =
    let (n, s) = decrement_io w.session in
    record w { session = s; deletes = if n == 0 then w.deletes + 1 else w.deletes }

-- A completion of no bytes, which may be a request.
unfoldable pub on_request : ReqEvents → Answer → ℕ → Work → Option Work
on_request send_req answer p w =
    let (queued, s) = collect_send_packet w.session p in
    if queued
    then (send_io answer w.store s >>= λ sent. some (after_io answer w sent))
    else some (record w { store = release w.store p })
on_request disconnect_req answer p w = some w
on_request not_define answer p w = some w

-- The rest of a completed send, behind `sended`; at -1 the loop goes on with the next completion.
unfoldable pub on_sended : Answer → Work → ℤ → Option Work
on_sended answer w (pos n) =
    let s = record w.session { send_flag = 0 } in
    let v = record w { session = s; send_messages = (w.send_messages + n) % 2 ^ 32 } in
    let again = send_io answer w.store s >>= λ sent. some (finish (after_io answer v sent)) in
    if ltb 0 (length s.send_buffer) then again else some (finish v)
on_sended answer w (negsuc n) = some w

unfoldable pub on_send : ℕ → Answer → ℕ → Work → Option Work
on_send fuel answer transfer w = sended fuel w.store w.session transfer >>= λ (n, st, s).
    on_sended answer (record w { store = st; session = s }) n

-- What `OnRecv` asks for the session whose packet it gets: a packet to be sent, or the end of the
-- connection.
pub data Reaction : Type 0 where
  sends : ℕ → Reaction
  disconnects : Reaction

-- `sendReq` and `disconnectReq` for a session that the worker holds: `findSession` finds it, and its
-- reference is given back at the end. A request to send keeps one more, and one to its packet.
unfoldable pub react : Reaction → Work → Work
unfolding increment_io cancel_io_regist inc_ref
react (sends p) w = record w {
  session = (increment_io w.session).1;
  store = (inc_ref w.store p 1).1;
  posts = w.posts ++ (req_value p ∷ []);
}
react disconnects w = record w { session = (cancel_io_regist w.session).1 }

unfoldable pub react_all : List Reaction → Work → Work
react_all [] w = w
react_all (a ∷ asked) w = react_all asked (react a w)

-- The calls of `OnRecv` for the packets of the loop, in order. They touch neither the receive ring nor
-- the pool's next packets, so that they stand behind the loop here.
unfoldable pub on_packets : (Serializer → List Reaction) → List Serializer → Work → Work
on_packets on_recv [] w = w
on_packets on_recv (p ∷ packets) w = on_packets on_recv packets (react_all (on_recv p) w)

-- A completed receive; when `recved` is false, the loop goes on with the next completion.
unfoldable pub on_recved :
    ℕ → (ℕ → Serializer) → (Serializer → List Reaction) → Answer → ℕ → Work → Option Work
on_recved fuel alloc on_recv answer transfer w =
    let (took, s) = recved w.session transfer in
    let handing = drain alloc fuel s >>= λ (packets, t).
    let v = on_packets on_recv packets (record w {
      session = t;
      recv_messages = (w.recv_messages + length packets) % 2 ^ 32;
      handed = packets;
    }) in
    some (finish (after_io answer v (recv_io answer v.session))) in
    if took then handing else some (record w { session = s })

-- One round of the loop, for a completion with a session, whose two overlapped structures stand at
-- `send_overlapped` and `recv_overlapped`.
unfoldable pub worker_event :
    ℕ
    → ℕ
    → ℕ
    → (ℕ → Serializer)
    → (Serializer → List Reaction)
    → Answer
    → Completion
    → Work
    → Option Work
worker_event send_overlapped recv_overlapped fuel alloc on_recv answer c w =
    let requested = on_request (request_check c.overlap) answer (packet_of c.overlap) w >>= λ v.
    some (finish v) in
    let sent = on_send fuel answer c.transfer w in
    let received = on_recved fuel alloc on_recv answer c.transfer w in
    if not c.result
    then some (finish w)
    else if c.transfer == 0
    then requested
    else if c.overlap == send_overlapped
    then sent
    else if c.overlap == recv_overlapped
    then received
    else some (finish w)
