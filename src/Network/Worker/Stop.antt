-- ===== src/Network/Worker/Stop.antt =====
-- After `disconnectReq` nothing more is sent or received for a session.
use login_server.Base.{
  ℕ, ◌+◌, ◌%◌, ◌^◌, ◌<◌, ◌≡◌, inl, inr, refl, sym, ◌∙◌, Bool-cases, false, none, some, List, [],
  ◌∷◌, ◌++◌, length, ltb, ◌==◌, subst,
}
use login_server.Base.Int.{pos}
use login_server.Base.Results.{Always, Always-bind, Always-if}
use login_server.Ring.{free_size}
use login_server.Serializer.{Serializer}
use login_server.Packet.{Store, release}
use login_server.Session.{
  Session, increment_io, decrement_io, cancel_io_regist, has_cancel_io_flag, drain,
}
use login_server.Session.Send.{
  Answer, accepted, refused, Sent, send_io, sended, collect_send_packet, queue_limit,
}
use login_server.Network.{ReqEvents, not_define, send_req, disconnect_req, request_check, packet_of}
use login_server.Network.Worker.{
  Work, begin, Completion, recv_io, after_io, started_by, finish, on_request, on_sended, on_send,
  on_recved, worker_event, Reaction, sends, disconnects, react, react_all, on_packets,
}
use login_server.Network.Worker.Dispatch.{worker_event-Always}
use login_server.Network.Worker.Keep.{
  IsSame, trans-IsSame, recved-IsSame, drain-IsSame, sended-IsSame,
}

-- No request was started, and the session stays cancelled.
pub record IsStill (w : Work) : Type 0 where
  pub none_started : w.started ≡ []
  pub cancelled : w.session.cancel_io_flag ≡ 1

abbrev nothing : Session → Sent
nothing s = record { buffers = none; session = s; deletes = false }

send_io-cancelled :
    (answer : Answer) (st : Store) (s : Session)
    → s.cancel_io_flag ≡ 1
    → send_io answer st s ≡ some (nothing s)
unfolding send_io has_cancel_io_flag
send_io-cancelled answer st s h = rw h refl

recv_io-cancelled :
    (answer : Answer) (s : Session) → s.cancel_io_flag ≡ 1 → recv_io answer s ≡ nothing s
unfolding recv_io has_cancel_io_flag
recv_io-cancelled answer s h = rw h refl

no_buffers : (answer : Answer) → started_by answer none ≡ []
no_buffers accepted = refl
no_buffers (refused code) = refl

finish-IsStill : (w : Work) → IsStill w → IsStill (finish w)
unfolding finish decrement_io
finish-IsStill w v = record { none_started = v.none_started; cancelled = v.cancelled }

after_io-IsStill :
    (answer : Answer) (w : Work) (s : Session)
    → w.started ≡ []
    → s.cancel_io_flag ≡ 1
    → IsStill (after_io answer w (nothing s))
unfolding after_io
after_io-IsStill answer w s h k = record {
  none_started = rw (h, no_buffers answer) refl;
  cancelled = k;
}

-- What `OnRecv` asks for starts no request, and does not take the cancellation back.
react-IsStill : (a : Reaction) (w : Work) → IsStill w → IsStill (react a w)
unfolding react increment_io cancel_io_regist
react-IsStill (sends p) w v = record { none_started = v.none_started; cancelled = v.cancelled }
react-IsStill disconnects w v = record { none_started = v.none_started; cancelled = refl }

react_all-IsStill : (asked : List Reaction) (w : Work) → IsStill w → IsStill (react_all asked w)
unfolding react_all
react_all-IsStill [] w v = v
react_all-IsStill (a ∷ asked) w v = react_all-IsStill asked (react a w) (react-IsStill a w v)

on_packets-IsStill :
    (on_recv : Serializer → List Reaction) (packets : List Serializer) (w : Work)
    → IsStill w
    → IsStill (on_packets on_recv packets w)
unfolding on_packets
on_packets-IsStill on_recv [] w v = v
on_packets-IsStill on_recv (p ∷ packets) w v =
    on_packets-IsStill on_recv packets (react_all (on_recv p) w) (react_all-IsStill (on_recv p) w v)

module _ (st : Store) (s : Session) (h : s.cancel_io_flag ≡ 1) where
  idle-IsStill : (t : Store) → IsStill (record (begin st s) { store = t })
  idle-IsStill t = record { none_started = refl; cancelled = h }

  on_request-IsStill :
      (kind : ReqEvents) (answer : Answer) (p : ℕ)
      → Always IsStill (on_request kind answer p (begin st s))
  unfolding on_request collect_send_packet
  on_request-IsStill send_req answer p =
      elim (Bool-cases (ltb (length s.send_buffer) queue_limit)) [
        | inl e ↦
            let t = record s { send_buffer = s.send_buffer ++ (p ∷ []) } in
            rw (e, send_io-cancelled answer st t h) (after_io-IsStill answer (begin st s) t refl h)
        | inr e ↦ rw e (idle-IsStill (release st p))
      ]
  on_request-IsStill disconnect_req answer p = idle-IsStill st
  on_request-IsStill not_define answer p = idle-IsStill st

  on_send-IsStill :
      (fuel : ℕ) (answer : Answer) (transfer : ℕ)
      → (transfer == 0) ≡ false
      → Always IsStill (on_send fuel answer transfer (begin st s))
  unfolding on_send on_sended
  on_send-IsStill fuel answer transfer e =
      Always-bind (λ (n, t, u). ((k : ℕ) × (n ≡ pos k)) × IsSame s u) IsStill _
        (sended fuel st s transfer) (sended-IsSame fuel st s transfer e)
        (λ (n, t, u) ((k, is), same).
          subst (λ m. Always IsStill (on_sended answer (begin t u) m)) (sym is)
            (rest t u k (same.keeps.cancelled ∙ h)))
    where
      rest :
          (t : Store) (u : Session) (k : ℕ)
          → u.cancel_io_flag ≡ 1
          → Always IsStill (on_sended answer (begin t u) (pos k))
      rest t u k c =
          let v = record u { send_flag = 0 } in
          let w = record (begin t u) { session = v; send_messages = (0 + k) % 2 ^ 32 } in
          Always-if IsStill (ltb 0 (length u.send_buffer)) _ _
            (rw (send_io-cancelled answer t v c)
              (finish-IsStill (after_io answer w (nothing v)) (after_io-IsStill answer w v refl c)))
            (finish-IsStill w (record { none_started = refl; cancelled = c }))

  on_recved-IsStill :
      (fuel : ℕ) (alloc : ℕ → Serializer) (on_recv : Serializer → List Reaction) (answer : Answer)
      (transfer : ℕ)
      → (transfer == 0) ≡ false
      → transfer < free_size s.recv_buffer
      → Always IsStill (on_recved fuel alloc on_recv answer transfer (begin st s))
  unfolding on_recved
  on_recved-IsStill fuel alloc on_recv answer transfer e room =
      let (t, takes, same) = recved-IsSame s transfer e room in
      rw takes (
        Always-bind (λ (packets, u). IsSame t u) IsStill _ (drain alloc fuel t)
          (drain-IsSame alloc fuel t)
          (λ (packets, u) more.
            settles
              (on_packets on_recv packets (record (begin st s) {
                session = u;
                recv_messages = (0 + length packets) % 2 ^ 32;
                handed = packets;
              }))
              (on_packets-IsStill on_recv packets _ (record {
                none_started = refl;
                cancelled = (trans-IsSame same more).keeps.cancelled ∙ h;
              }))))
    where
      settles :
          (v : Work) → IsStill v → IsStill (finish (after_io answer v (recv_io answer v.session)))
      settles v k = rw (recv_io-cancelled answer v.session k.cancelled) (
          finish-IsStill (after_io answer v (nothing v.session))
            (after_io-IsStill answer v v.session k.none_started k.cancelled))

pub worker_event-IsStill :
    (so ro fuel : ℕ) (alloc : ℕ → Serializer) (on_recv : Serializer → List Reaction)
    (answer : Answer) (c : Completion) (st : Store) (s : Session)
    → s.cancel_io_flag ≡ 1
    → (c.overlap ≡ ro → c.transfer < free_size s.recv_buffer)
    → Always IsStill (worker_event so ro fuel alloc on_recv answer c (begin st s))
worker_event-IsStill so ro fuel alloc on_recv answer c st s h room =
    worker_event-Always IsStill so ro fuel alloc on_recv answer c (begin st s)
      (finish-IsStill (begin st s) (idle-IsStill st s h st))
      (Always-bind IsStill IsStill _
        (on_request (request_check c.overlap) answer (packet_of c.overlap) (begin st s))
        (on_request-IsStill st s h (request_check c.overlap) answer (packet_of c.overlap))
        (λ v k. finish-IsStill v k))
      (λ g. on_send-IsStill st s h fuel answer c.transfer g)
      (λ g o. on_recved-IsStill st s h fuel alloc on_recv answer c.transfer g (room o))
