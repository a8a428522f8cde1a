-- ===== src/Session/Send/Race.antt =====
-- loginServer/lib/IOCP netServer/session.cpp: `sendIO` and what follows on it in
-- `Network::workerThread` (network.cpp), as the worker threads do them at the same time on one session.
-- A task is a call of `sendIO` together with the send that it starts and the completion of that send;
-- each access to `sendFlag`, to `sendBuffer` and to `cancelIOFlag` is a step of its own, and any other
-- thread may set `cancelIOFlag` between two of them.
pub mod Exclusive
pub mod Attended
pub mod Stranded
use login_server.Base.{
  ℕ, zero, suc, ◌+◌, ◌≡◌, Bool, true, ◌||◌, Option, none, some, List, [], ◌∷◌, ◌++◌, length, ltb,
  leb, ◌==◌, if◌then◌else◌, ◌>>=◌,
}
use login_server.Base.Int.{ℤ, pos, negsuc}
use login_server.Ring.{push}
use login_server.Serializer.Scalars.{to_bytes}
use login_server.Packet.{Store}
use login_server.Session.{Session, increment_io, decrement_io, has_cancel_io_flag, cancel_io_regist}
use login_server.Session.Send.{wsa_buffers, collect_send_packet, Answer, accepted, refused, sended}

-- Where a task stands: before the test of `cancelIOFlag` and before the exchange of `sendFlag`; with
-- `sendFlag` taken, before `sendBuffer.size()`; before the flag is set back, when that was 0; in the
-- loop, with so many packets still to take and so many buffers filled; its send refused, before
-- `sendFlag` is set back for it, and before `cancelIORegist`, with the flag set back (leaving) or not
-- (giving_up); its send under way; before `sended`; before `sendFlag = 0`; before the test of the queue behind it. At its end a task is gone,
-- or has given up with `sendFlag` as it is.
pub data Point : Type 0 where
  entering : Point
  exchanging : Point
  taken : Point
  resetting : Point
  gathering : ℕ → ℕ → Point
  refusing : Point
  leaving : Point
  giving_up : Point
  flying : Point
  completing : Point
  clearing : Point
  checking : Point
  abandoned : Point
  gone : Point

-- One round of the loop of `sendIO`, from the queue that its `pop` finds. After a `pop` that gives
-- nothing the loop counts back and tries again.
unfoldable pub gather_one : List ℕ → ℕ → ℕ → Session → Option (Point × Session)
gather_one [] n i s = some (gathering (suc n) i, s)
gather_one (a ∷ q) n i s =
    if leb wsa_buffers i
    then none
    else (push s.sended_buffer (to_bytes 8 a) >>= λ (k, r).
        some (gathering n (i + 1), record s { send_buffer = q; sended_buffer = r }))

-- Where the answer of `WSASend`, the completion of the send and the result of `sended` lead.
unfoldable pub after_send : Answer → Point
after_send accepted = flying
after_send (refused code) = if code == 10054 || code == 10053 then giving_up else refusing

unfoldable pub after_flight : Answer → Session → Point × Session
after_flight accepted s = (completing, s)
after_flight (refused code) s = (abandoned, (decrement_io s).1)

unfoldable pub after_sended : ℤ → Point
after_sended (pos count) = clearing
after_sended (negsuc n) = abandoned

-- The next step of a task, with what the system answers to it: to `WSASend`, or as the outcome of the
-- send, and the bytes that the send has taken. `none` is a fault, or the end of the fuel of `sended`.
unfoldable pub act : ℕ → Answer → ℕ → Point → Store → Session → Option (Point × Store × Session)
unfolding has_cancel_io_flag increment_io
act fuel answer transfer entering st s =
    some (if has_cancel_io_flag s then gone else exchanging, st, s)
act fuel answer transfer exchanging st s =
    some (if s.send_flag == 1 then gone else taken, st, record s { send_flag = 1 })
act fuel answer transfer taken st s =
    if length s.send_buffer == 0
    then some (resetting, st, s)
    else some (gathering (length s.send_buffer) 0, st, (increment_io s).1)
act fuel answer transfer resetting st s = some (gone, st, record s { send_flag = 0 })
act fuel answer transfer (gathering zero i) st s = some (after_send answer, st, s)
act fuel answer transfer (gathering (suc n) i) st s =
    gather_one s.send_buffer n i s >>= λ (p, t). some (p, st, t)
act fuel answer transfer refusing st s = some (leaving, st, record s { send_flag = 0 })
act fuel answer transfer leaving st s = some (gone, st, (decrement_io (cancel_io_regist s).1).1)
act fuel answer transfer giving_up st s =
    some (abandoned, st, (decrement_io (cancel_io_regist s).1).1)
act fuel answer transfer flying st s = let (p, t) = after_flight answer s in some (p, st, t)
act fuel answer transfer completing st s =
    sended fuel st s transfer >>= λ (count, t, u). some (after_sended count, t, u)
act fuel answer transfer clearing st s = some (checking, st, record s { send_flag = 0 })
act fuel answer transfer checking st s =
    some (if ltb 0 (length s.send_buffer) then entering else gone, st, s)
act fuel answer transfer abandoned st s = some (abandoned, st, s)
act fuel answer transfer gone st s = some (gone, st, s)

-- A session with the packets that it uses and the tasks that have come to it.
pub record Race : Type 0 where
  pub store : Store
  pub session : Session
  pub tasks : List Point

-- One step of any thread: a packet is queued and `sendIO` called for it, `disconnectReq` or `recvIO`
-- sets `cancelIOFlag`, or a task goes on.
pub data Turn : Race → Race → Type 0 where
  collects :
      (st : Store) (s : Session) (ts : List Point) (a : ℕ)
      → (collect_send_packet s a).0 ≡ true
      → Turn
          (record { store = st; session = s; tasks = ts })
          (record { store = st; session = (collect_send_packet s a).1; tasks = entering ∷ ts })
  cancels :
      (st : Store) (s : Session) (ts : List Point)
      → Turn
          (record { store = st; session = s; tasks = ts })
          (record { store = st; session = (cancel_io_regist s).1; tasks = ts })
  advances :
      (st t : Store) (s u : Session) (before behind : List Point) (p p' : Point)
      → (fuel : ℕ) (answer : Answer) (transfer : ℕ)
      → act fuel answer transfer p st s ≡ some (p', t, u)
      → Turn
          (record { store = st; session = s; tasks = before ++ p ∷ behind })
          (record { store = t; session = u; tasks = before ++ p' ∷ behind })

pub data Turns : Race → Race → Type 0 where
  still : (x : Race) → Turns x x
  then_turn : {x y z : Race} → Turns x y → Turn y z → Turns x z
