-- ===== src/Network/Worker/Serve.antt =====
-- One completion takes one reference and starts its requests with one each, and what is queued is
-- always on its way.
use login_server.Base.{
  ℕ, ◌+◌, ◌%◌, ◌^◌, ◌<◌, ◌≤◌, ◌≡◌, refl, sym, ap, ◌∙◌, inl, inr, Bool-cases, false, Option, none,
  some, List, [], ◌∷◌, ◌++◌, length, length-append, ltb, arith, ◌==◌, if◌then◌else◌, subst,
}
use login_server.Base.Int.{pos}
use login_server.Base.Results.{Always, Always-bind, of_Always}
use login_server.Ring.{free_size}
use login_server.Serializer.{Serializer}
use login_server.Packet.{Store, release}
use login_server.Session.{Session, increment_io, decrement_io, cancel_io_regist, drain}
use login_server.Session.Send.{
  Answer, accepted, refused, Sent, send_io, sended, collect_send_packet, queue_limit,
}
use login_server.Network.{
  ReqEvents, not_define, send_req, disconnect_req, request_check, packet_of, req_value,
}
use login_server.Network.Worker.{
  Work, begin, Completion, recv_io, after_io, started_by, finish, on_request, on_sended, on_send,
  on_recved, worker_event, Reaction, sends, disconnects, react, react_all, on_packets,
}
use login_server.Network.Worker.Dispatch.{worker_event-Always}
use login_server.Network.Worker.Keep.{
  IsSame, trans-IsSame, recved-IsSame, drain-IsSame, sended-IsSame,
}
use login_server.Network.Worker.Count.{IsServed, IsBalanced, send_io-IsBalanced, recv_io-IsBalanced}

-- The work before and after the reference of the completion is given up.
record IsWorking (s : Session) (w : Work) : Type 0 where
  count : w.session.io_count ≡ s.io_count + length w.posts + length w.started
  one : length w.started ≤ 1
  kept : w.deletes ≡ 0
  served : IsServed w.session

pub record IsSettled (s : Session) (w : Work) : Type 0 where
  pub count : w.session.io_count + 1 ≡ s.io_count + length w.posts + length w.started
  pub deleted : w.deletes ≡ (if w.session.io_count == 0 then 1 else 0)
  pub served : IsServed w.session

IsSame-IsServed : {s t : Session} → IsSame s t → IsServed s → IsServed t
IsSame-IsServed k (inl e) = inl (k.keeps.cancelled ∙ e)
IsSame-IsServed k (inr (inl e)) = inr (inl (k.keeps.sending ∙ e))
IsSame-IsServed k (inr (inr e)) = inr (inr (ap length k.queue ∙ e))

length-started_by : (answer : Answer) (o : Option (List (ℕ × ℕ))) → length (started_by answer o) ≤ 1
length-started_by accepted none = omega arith
length-started_by accepted (some bufs) = omega arith
length-started_by (refused code) o = omega arith

-- As long as the count has room for the requests that were posted.
abbrev Settles : Session → Work → Type 0
Settles s w = s.io_count + length w.posts + 1 < 2 ^ 32 → IsSettled s w

-- The work before the requests of a round, after calls of `OnRecv`: a request that was posted holds
-- one reference more, but for the bound of the count.
record IsReacting (s : Session) (w : Work) : Type 0 where
  count : w.session.io_count ≡ (s.io_count + length w.posts) % 2 ^ 32
  none_started : w.started ≡ []
  kept : w.deletes ≡ 0
  served : IsServed w.session

react-IsReacting :
    (s : Session) (a : Reaction) (w : Work) → IsReacting s w → IsReacting s (react a w)
unfolding react increment_io cancel_io_regist
react-IsReacting s (sends p) w v = record {
  count = omega (arith, v.count, length-append w.posts (req_value p ∷ []));
  none_started = v.none_started;
  kept = v.kept;
  served = v.served;
}
react-IsReacting s disconnects w v = record {
  count = v.count;
  none_started = v.none_started;
  kept = v.kept;
  served = inl refl;
}

react_all-IsReacting :
    (s : Session) (asked : List Reaction) (w : Work)
    → IsReacting s w
    → IsReacting s (react_all asked w)
unfolding react_all
react_all-IsReacting s [] w v = v
react_all-IsReacting s (a ∷ asked) w v =
    react_all-IsReacting s asked (react a w) (react-IsReacting s a w v)

on_packets-IsReacting :
    (s : Session) (on_recv : Serializer → List Reaction) (packets : List Serializer) (w : Work)
    → IsReacting s w
    → IsReacting s (on_packets on_recv packets w)
unfolding on_packets
on_packets-IsReacting s on_recv [] w v = v
on_packets-IsReacting s on_recv (p ∷ packets) w v =
    on_packets-IsReacting s on_recv packets (react_all (on_recv p) w)
      (react_all-IsReacting s (on_recv p) w v)

module _ (s : Session) (held : 0 < s.io_count) (few : s.io_count + 1 < 2 ^ 32) where
  finish-IsSettled : (w : Work) → IsWorking s w → Settles s (finish w)
  unfolding finish decrement_io
  finish-IsSettled w v room = record {
    count = omega (arith, v.count, v.one);
    deleted = ground (arith, v.kept);
    served = v.served;
  }

  after_io-IsWorking :
      (answer : Answer) (w : Work) (sent : Sent)
      → w.started ≡ []
      → w.deletes ≡ 0
      → w.session.io_count ≡ s.io_count + length w.posts
      → IsBalanced answer w.session sent
      → IsServed sent.session
      → IsWorking s (after_io answer w sent)
  unfolding after_io
  after_io-IsWorking answer w sent none_started kept same b served = record {
    count = rw none_started (omega (arith, b.count));
    one = rw none_started (length-started_by answer sent.buffers);
    kept = rw b.kept kept;
    served = served;
  }

  begin-IsWorking : (st : Store) → IsServed s → IsWorking s (record (begin st s) { store = st })
  begin-IsWorking st served = record {
    count = omega arith;
    one = omega arith;
    kept = refl;
    served = served;
  }

  -- The three kinds of completion, up to the end of the round.
  on_request-IsWorking :
      (st : Store) (kind : ReqEvents) (answer : Answer) (p : ℕ)
      → IsServed s
      → Always (IsWorking s) (on_request kind answer p (begin st s))
  unfolding on_request collect_send_packet after_io
  on_request-IsWorking st send_req answer p served =
      elim (Bool-cases (ltb (length s.send_buffer) queue_limit)) [
        | inl e ↦
            let t = record s { send_buffer = s.send_buffer ++ (p ∷ []) } in
            rw e (
              Always-bind (λ sent. IsBalanced answer t sent × IsServed sent.session) (IsWorking s) _
                (send_io answer st t) (send_io-IsBalanced answer st t held few)
                (λ sent b.
                  after_io-IsWorking answer (record (begin st s) { session = t }) sent refl refl
                    (omega arith) b.0 b.1))
        | inr e ↦ rw e (begin-IsWorking (release st p) served)
      ]
  on_request-IsWorking st disconnect_req answer p served = begin-IsWorking st served
  on_request-IsWorking st not_define answer p served = begin-IsWorking st served

  on_sended-IsSettled :
      (answer : Answer) (w : Work) (n : ℕ)
      → w.started ≡ []
      → w.deletes ≡ 0
      → w.posts ≡ []
      → w.session.io_count ≡ s.io_count
      → Always (Settles s) (on_sended answer w (pos n))
  unfolding on_sended
  on_sended-IsSettled answer w n none_started kept none_posted same =
      elim (Bool-cases (ltb 0 (length w.session.send_buffer))) [
        | inl e ↦ rw e (
            Always-bind (λ sent. IsBalanced answer t sent × IsServed sent.session) (Settles s) _
              (send_io answer w.store t)
              (send_io-IsBalanced answer w.store t (omega arith) (omega arith))
              (λ sent b. finish-IsSettled (after_io answer v sent) (
                after_io-IsWorking answer v sent none_started kept
                  (rw none_posted (omega (arith, same))) b.0 b.1)))
        | inr e ↦ rw e (
            finish-IsSettled v (record {
              count = rw (none_started, none_posted) (omega (arith, same));
              one = rw none_started (omega arith);
              kept = kept;
              served = inr (inr (ground arith));
            }))
      ]
    where
      t : Session
      t = record w.session { send_flag = 0 }

      v : Work
      v = record w { session = t; send_messages = (w.send_messages + n) % 2 ^ 32 }

  on_send-IsSettled :
      (fuel : ℕ) (answer : Answer) (st : Store) (transfer : ℕ)
      → (transfer == 0) ≡ false
      → Always (Settles s) (on_send fuel answer transfer (begin st s))
  unfolding on_send
  on_send-IsSettled fuel answer st transfer e =
      Always-bind (λ (n, t, u). ((k : ℕ) × (n ≡ pos k)) × IsSame s u) (Settles s) _
        (sended fuel st s transfer) (sended-IsSame fuel st s transfer e)
        (λ (n, t, u) ((k, is), same).
          subst (λ m. Always (Settles s) (on_sended answer (begin t u) m)) (sym is)
            (on_sended-IsSettled answer (begin t u) k refl refl refl same.keeps.count))

  -- `recvIO` and the end of the round, after the calls of `OnRecv`.
  recved-Settles :
      (answer : Answer) (v : Work)
      → IsReacting s v
      → Settles s (finish (after_io answer v (recv_io answer v.session)))
  unfolding finish after_io
  recved-Settles answer v r room =
      let count : v.session.io_count ≡ s.io_count + length v.posts = omega (arith, r.count) in
      let (b, on) =
        recv_io-IsBalanced answer v.session (omega (arith, count)) (omega (arith, count))
          r.served in
      finish-IsSettled (after_io answer v (recv_io answer v.session))
        (after_io-IsWorking answer v (recv_io answer v.session) r.none_started r.kept count b on)
        room

  on_recved-IsSettled :
      (fuel : ℕ) (alloc : ℕ → Serializer) (on_recv : Serializer → List Reaction) (answer : Answer)
      (st : Store) (transfer : ℕ)
      → (transfer == 0) ≡ false
      → transfer < free_size s.recv_buffer
      → IsServed s
      → Always (Settles s) (on_recved fuel alloc on_recv answer transfer (begin st s))
  unfolding on_recved
  on_recved-IsSettled fuel alloc on_recv answer st transfer e h served =
      let (t, takes, same) = recved-IsSame s transfer e h in
      rw takes (
        Always-bind (λ (packets, u). IsSame t u) (Settles s) _ (drain alloc fuel t)
          (drain-IsSame alloc fuel t)
          (λ (packets, u) more.
            let all = trans-IsSame same more in
            recved-Settles answer
              (on_packets on_recv packets (record (begin st s) {
                session = u;
                recv_messages = (0 + length packets) % 2 ^ 32;
                handed = packets;
              }))
              (on_packets-IsReacting s on_recv packets _ (record {
                count = omega (arith, all.keeps.count);
                none_started = refl;
                kept = refl;
                served = IsSame-IsServed all served;
              }))))

-- A completion of a session with at least one reference, where everything queued is served, and less
-- than its whole free room was received, whatever `OnRecv` asks for: a round that ends without a fault,
-- and whose requests leave the count below 2 ^ 32, takes the completion's reference away and adds one
-- for each `WSASend` and `WSARecv` that was accepted and one for each request that `OnRecv` posted;
-- `deleteSession` is called once if that leaves none, and else not; and still nothing is queued
-- without a send under way, unless the session is cancelled.
pub worker_event-IsSettled :
    (send_overlapped recv_overlapped fuel : ℕ) (alloc : ℕ → Serializer)
    (on_recv : Serializer → List Reaction) (answer : Answer) (c : Completion) (st : Store)
    (s : Session)
    → 0 < s.io_count
    → s.io_count + 1 < 2 ^ 32
    → (c.overlap ≡ recv_overlapped → c.transfer < free_size s.recv_buffer)
    → IsServed s
    → (w : Work)
    → worker_event send_overlapped recv_overlapped fuel alloc on_recv answer c (begin st s) ≡ some w
    → s.io_count + length w.posts + 1 < 2 ^ 32
    → IsSettled s w
worker_event-IsSettled so ro fuel alloc on_recv answer c st s held few room served w e few_posts =
    of_Always (Settles s) (worker_event so ro fuel alloc on_recv answer c (begin st s)) w
      (worker_event-Always (Settles s) so ro fuel alloc on_recv answer c (begin st s)
        (finish-IsSettled s held few (begin st s) (begin-IsWorking s held few st served))
        (Always-bind (IsWorking s) (Settles s) _
          (on_request (request_check c.overlap) answer (packet_of c.overlap) (begin st s))
          (on_request-IsWorking s held few st (request_check c.overlap) answer (packet_of c.overlap)
            served)
          (λ v h. finish-IsSettled s held few v h))
        (λ g. on_send-IsSettled s held few fuel answer st c.transfer g)
        (λ g o.
          on_recved-IsSettled s held few fuel alloc on_recv answer st c.transfer g (room o) served))
      e few_posts
