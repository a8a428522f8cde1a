-- ===== src/Network/Post/Deliver.antt =====
-- A request to send, from `sendReq` to the `WSASend` of a worker.
use login_server.Base.{
  ℕ, ◌+◌, ◌-◌, ◌%◌, ◌^◌, ◌<◌, ◌≤◌, ◌≡◌, refl, ap, ◌∙◌, true, false, some, List, [], ◌∷◌, ◌++◌,
  length, leb, ltb, arith, ◌==◌, subst,
}
use login_server.Serializer.{Serializer, inc_reference_counter, size}
use login_server.Packet.{Store, inc_ref, set_cell}
use login_server.Session.{increment_io, decrement_io}
use login_server.Session.Send.{Sent, accepted, collect_send_packet, queue_limit}
use login_server.Session.Send.Pointers.{Carries}
use login_server.Session.Send.Gather.{buffers_of, send_io-accepted}
use login_server.Network.{Slot, acquire, let_go, leave, find_session, req_value}
use login_server.Network.Release.{IsSound}
use login_server.Network.Requests.{request_check-req_value}
use login_server.Network.Worker.{Work, begin, after_io, finish, on_request, worker_event, Reaction}
use login_server.Network.Post.{Posted, send_serializer}

-- A session that is open and has nothing to send.
pub record IsIdle (x : Slot) : Type 0 where
  pub sound : IsSound x
  pub open_now : x.stacked + x.opening ≡ 0
  pub few : x.holders + 2 < 2 ^ 31
  pub live : x.session.cancel_io_flag ≡ 0
  pub unsent : x.session.send_flag ≡ 0
  pub none_waits : x.session.send_buffer ≡ []
  pub none_sent : Carries x.session.sended_buffer []
  pub room : 8 ≤ x.session.sended_buffer.max_size

abbrev held_once_more : Slot → Slot
held_once_more x = record x {
  session = record x.session { io_count = x.session.io_count + 1 };
  holders = x.holders + 1;
}

acquire_lem : (x : Slot) → x.session.io_count + 1 < 2 ^ 32 → acquire x ≡ held_once_more x
unfolding acquire increment_io
acquire_lem x h =
    ap (λ n. record x { session = record x.session { io_count = n }; holders = x.holders + 1 })
      (omega arith)

find_lem : (x : Slot) (v : IsIdle x) → find_session x x.session.id ≡ (true, held_once_more x)
unfolding find_session
find_lem x v =
    rw (acquire_lem x (omega (arith, v.sound.word, v.few, v.open_now)), counted, own) refl
  where
    counted : leb (2 ^ 31) (x.session.io_count + 1) ≡ false
    counted = ground (arith, v.sound.word, v.few, v.open_now)

    own : (x.session.id == x.session.id) ≡ true
    own = ground arith

leave_lem :
    (x : Slot)
    → 1 < x.session.io_count
    → x.session.io_count < 2 ^ 31
    → leave x ≡ record x {
      session = record x.session { io_count = x.session.io_count - 1 };
      holders = x.holders - 1;
    }
unfolding leave let_go decrement_io
leave_lem x h k = rw (back, not_last) refl
  where
    back : (x.session.io_count + 2 ^ 32 - 1) % 2 ^ 32 ≡ x.session.io_count - 1
    back = omega arith

    not_last : (x.session.io_count - 1 == 0) ≡ false
    not_last = ground arith

-- What `sendReq` does for such a session.
send_lem :
    (x : Slot) (v : IsIdle x) (st : Store) (packet : ℕ)
    → send_serializer x.session.id packet x st ≡ record {
      slot = held_once_more x;
      store = (inc_ref st packet 1).1;
      posts = req_value packet ∷ [];
    }
unfolding send_serializer
send_lem x v st packet =
    rw (find_lem x v, acquire_lem y short, leave_lem (held_once_more y) held few)
      (λ i. record {
        slot = record x {
          session = record x.session { io_count = counted i };
          holders = held_by i;
        };
        store = (inc_ref st packet 1).1;
        posts = req_value packet ∷ [];
      })
  where
    y : Slot
    y = held_once_more x

    short : y.session.io_count + 1 < 2 ^ 32
    short = omega (arith, v.sound.word, v.few, v.open_now)

    held : 1 < y.session.io_count + 1
    held = omega arith

    few : y.session.io_count + 1 < 2 ^ 31
    few = omega (arith, v.sound.word, v.few, v.open_now)

    counted : x.session.io_count + 1 + 1 - 1 ≡ x.session.io_count + 1
    counted = omega arith

    held_by : x.holders + 1 + 1 - 1 ≡ x.holders + 1
    held_by = omega arith

-- A worker gets the request of a session that has nothing to send.
request_lem :
    (so ro fuel : ℕ) (alloc : ℕ → Serializer) (on_recv : Serializer → List Reaction) (st : Store)
    (x : Slot) (v : IsIdle x) (packet : ℕ)
    → packet < 2 ^ 60
    → (w : Work) × (worker_event so ro fuel alloc on_recv accepted
          (record { result = true; transfer = 0; overlap = req_value packet })
          (begin st (held_once_more x).session)
        ≡ some w)
      × (w.started ≡ buffers_of st (packet ∷ []) ∷ [])
      × Carries w.session.sended_buffer (packet ∷ [])
unfolding worker_event on_request collect_send_packet after_io finish decrement_io
request_lem so ro fuel alloc on_recv st x v packet small =
    let (kind, back, _) = request_check-req_value packet small in
    let s = (held_once_more x).session in
    let queued = record s { send_buffer = s.send_buffer ++ (packet ∷ []) } in
    let alone : s.send_buffer ++ (packet ∷ []) ≡ packet ∷ [] =
      ap (λ q. q ++ (packet ∷ [])) v.none_waits in
    let one : length (s.send_buffer ++ (packet ∷ [])) ≡ 1 = ap length alone in
    let (r, sends, max, c) =
      send_io-accepted st queued
        (record { open_for_send = v.live; idle = v.unsent; waiting = omega (arith, one) }) []
        v.none_sent (omega (arith, one)) (omega (arith, one, v.room)) in
    let space : ltb (length s.send_buffer) queue_limit ≡ true = rw v.none_waits refl in
    let sent : Sent = record {
      buffers = some (buffers_of st queued.send_buffer);
      session = record queued {
        send_flag = 1;
        io_count = (s.io_count + 1) % 2 ^ 32;
        send_buffer = [];
        sended_buffer = r;
      };
      deletes = false;
    } in
    (
      finish (after_io accepted (begin st s) sent),
      rw (kind, back, space, sends) refl,
      ap (λ q. buffers_of st q ∷ []) alone,
      subst (Carries r) alone c,
    )

-- A session that is open, with nothing queued and no send under way: `sendReq` posts one request,
-- under which the session and the packet are held once more; and the worker that gets it hands
-- exactly this packet's bytes to `WSASend`, and keeps its address until the send is complete.
pub send_serializer-worker_event :
    (so ro fuel : ℕ) (alloc : ℕ → Serializer) (on_recv : Serializer → List Reaction) (st : Store)
    (x : Slot) (packet : ℕ)
    → IsIdle x
    → packet < 2 ^ 60
    → (st.cell packet).reference_counter + 1 < 2 ^ 32
    → (o : Posted) × (w : Work) × (send_serializer x.session.id packet x st ≡ o)
      × (o.slot.session.io_count ≡ x.session.io_count + 1)
      × ((o.store.cell packet).reference_counter ≡ (st.cell packet).reference_counter + 1)
      × (o.posts ≡ req_value packet ∷ [])
      × (worker_event so ro fuel alloc on_recv accepted
            (record { result = true; transfer = 0; overlap = req_value packet })
            (begin o.store o.slot.session)
          ≡ some w)
      × (w.started ≡ buffers_of st (packet ∷ []) ∷ [])
      × Carries w.session.sended_buffer (packet ∷ [])
unfolding inc_ref set_cell inc_reference_counter size
send_serializer-worker_event so ro fuel alloc on_recv st x packet v small counted =
    let (w, gets, starts, carries) =
      request_lem so ro fuel alloc on_recv (inc_ref st packet 1).1 x v packet small in
    (
      _,
      w,
      send_lem x v st packet,
      refl,
      rw own (omega arith),
      refl,
      gets,
      starts ∙ rw own refl,
      carries,
    )
  where
    own : (packet == packet) ≡ true
    own = ground arith
