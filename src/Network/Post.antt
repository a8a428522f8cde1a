-- ===== src/Network/Post.antt =====
-- loginServer/lib/IOCP netServer/network.cpp: `sendReq` and `disconnectReq`, by which the server asks
-- for a send or for the end of a connection, by the session's number. A request to send is posted to
-- the completion port, from which a worker takes it later.
pub mod Deliver
pub mod Disconnect
use login_server.Base.{ℕ, Bool, List, [], ◌∷◌, if◌then◌else◌}
use login_server.Session.{cancel_io_regist}
use login_server.Packet.{Store, inc_ref, copy_packet, drop_packet}
use login_server.Network.{Slot, acquire, leave, find_session, req_value}

-- The session, the packets' store, and what was posted for the session.
pub record Posted : Type 0 where
  pub slot : Slot
  pub store : Store
  pub posts : List ℕ

-- `sendReq(sessionID, serializer*)`
unfoldable pub send_serializer : ℕ → ℕ → Slot → Store → Posted
unfolding inc_ref
send_serializer id packet x st =
    let (found, y) = find_session x id in
    if found
    then record {
      slot = leave (acquire y);
      store = (inc_ref st packet 1).1;
      posts = req_value packet ∷ [];
    }
    else record { slot = y; store = st; posts = [] }

-- `sendReq(sessionID, packet)`: the handle is copied for the call, and dropped after it.
unfoldable pub send_packet : ℕ → ℕ → Slot → Store → Posted
unfolding send_serializer copy_packet drop_packet
send_packet id packet x st =
    let (handle, counted) = copy_packet st packet in
    let posted = send_serializer id packet x counted in
    record posted { store = drop_packet posted.store handle }

-- `disconnectReq` of a session that is held, and of a number; `CancelIoEx` only asks the system to end
-- requests.
unfoldable pub disconnect_held : Slot → Slot
unfolding cancel_io_regist
disconnect_held x = record x { session = (cancel_io_regist x.session).1 }

unfoldable pub disconnect : ℕ → Slot → Slot
unfolding disconnect_held
disconnect id x =
    let (found, y) = find_session x id in if found then leave (disconnect_held y) else y
