-- ===== src/Network/Post/Disconnect.antt =====
-- What is left of a session after `disconnectReq`.
use login_server.Base.{
  ℕ, ◌+◌, ◌^◌, ◌<◌, ◌≡◌, inl, refl, some, List, [], length, arith, ◌==◌, if◌then◌else◌, ap, ◌∙◌,
}
use login_server.Base.Results.{of_Always}
use login_server.Serializer.{Serializer}
use login_server.Packet.{Store}
use login_server.Session.{cancel_io_regist}
use login_server.Session.Send.{Answer}
use login_server.Network.{Slot}
use login_server.Network.Worker.{Work, Completion, begin, worker_event, Reaction}
use login_server.Network.Worker.Ends.{IsOpen, IsSent, IsReceived, worker_event-ends}
use login_server.Network.Worker.Stop.{IsStill, worker_event-IsStill}
use login_server.Network.Post.{disconnect_held}

-- After `disconnectReq` of a session with at least one reference, where fewer than 100 packets wait, and
-- the ring of addresses has room for them and one more and is empty unless a send is under way. The
-- completion is a send of whole packets that are under way, or a receive of less than the free room
-- that makes whole packets and a part of one, with more fuel than there are packets, or none of these.
-- Whatever `OnRecv` asks for, as long as its requests leave the count below 2 ^ 32: the worker's round
-- ends without a fault and starts no request; it takes one reference away and adds one for each
-- request that `OnRecv` posted, and calls `deleteSession` exactly when that leaves none; and the
-- session stays cancelled.
pub worker_event-disconnect_held :
    (so ro fuel : ℕ) (alloc : ℕ → Serializer) (on_recv : Serializer → List Reaction)
    (answer : Answer) (c : Completion) (st : Store) (x : Slot)
    → 0 < x.session.io_count
    → x.session.io_count + 1 < 2 ^ 32
    → IsOpen x.session
    → (c.overlap ≡ so → IsSent fuel c.transfer st (disconnect_held x).session)
    → (c.overlap ≡ ro → IsReceived fuel c.transfer alloc (disconnect_held x).session)
    → ((w : Work)
        → worker_event so ro fuel alloc on_recv answer c (begin st (disconnect_held x).session)
          ≡ some w
        → x.session.io_count + length w.posts + 1 < 2 ^ 32)
    → (w : Work) × (worker_event so ro fuel alloc on_recv answer c
          (begin st (disconnect_held x).session)
        ≡ some w)
      × (w.started ≡ [])
      × (w.session.io_count + 1 ≡ x.session.io_count + length w.posts)
      × (w.deletes ≡ (if w.session.io_count == 0 then 1 else 0))
      × (w.session.cancel_io_flag ≡ 1)
unfolding disconnect_held cancel_io_regist
worker_event-disconnect_held so ro fuel alloc on_recv answer c st x held few v sent got few_posts =
    let s = (disconnect_held x).session in
    let open_still : IsOpen s = record { few = v.few; room = v.room; unsent = v.unsent } in
    let (w, ends, settled) =
      worker_event-ends so ro fuel alloc on_recv answer c st s held few (inl refl) open_still sent
        got few_posts in
    let still =
      of_Always IsStill _ w
        (worker_event-IsStill so ro fuel alloc on_recv answer c st s refl (λ e. (got e).offered))
        ends in
    (
      w,
      ends,
      still.none_started,
      settled.count
          ∙ ap (λ l. x.session.io_count + length w.posts + length l) still.none_started
          ∙ omega arith,
      settled.deleted,
      still.cancelled,
    )
