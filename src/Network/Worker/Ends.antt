-- ===== src/Network/Worker/Ends.antt =====
-- When a worker's round comes to its end without a fault, and what it has done then.
use login_server.Base.{
  ℕ, ◌+◌, ◌*◌, ◌^◌, ◌<◌, ◌≤◌, ◌≡◌, ◌⊎◌, sym, ap, inl, inr, Bool-cases, true, false, some, List, [],
  ◌∷◌, ◌++◌, length, length-append, append-nil, ltb, arith, ◌==◌, ==_iff, subst, not,
}
use login_server.Base.Int.{pos}
use login_server.Base.Results.{Ends, of_Ends}
use login_server.Ring.{Ring, free_size}
use login_server.Ring.Index.{IsValid as RingIsValid}
use login_server.Serializer.{Serializer}
use login_server.Packet.{Store}
use login_server.Session.{Session, recved}
use login_server.Session.Framing.{IsPartial, received}
use login_server.Session.Drain.{joined, AllFrames, Suits, drain_lem}
use login_server.Session.Send.{
  Answer, send_io, collect_send_packet, queue_limit, wsa_buffers, release_queue,
}
use login_server.Session.Send.Pointers.{Carries, AllAddresses}
use login_server.Session.Send.Gather.{send_io-Ends}
use login_server.Session.Send.Sended.{total, AllSized, sended_lem}
use login_server.Network.{ReqEvents, not_define, send_req, disconnect_req, request_check, packet_of}
use login_server.Network.Worker.{
  Work, begin, Completion, on_request, on_sended, on_send, on_recved, worker_event, Reaction,
}
use login_server.Network.Worker.Keep.{recved-IsSame}
use login_server.Network.Worker.Count.{IsServed}
use login_server.Network.Worker.Serve.{IsSettled, worker_event-IsSettled}

-- The completion of a send: of all bytes of these packets, which are under way.
pub record IsSent (fuel transfer : ℕ) (st : Store) (s : Session) : Type 0 where
  pub packets : List ℕ
  pub carries : Carries s.sended_buffer packets
  pub addresses : AllAddresses packets
  pub sized : AllSized st packets
  pub some_packets : 0 < length packets
  pub bytes : total st packets ≡ transfer
  pub short : total st packets < 2 ^ 32
  pub enough : length packets < fuel

-- The completion of a receive: with its bytes, the ring holds whole packets and a part of one.
pub record IsReceived (fuel transfer : ℕ) (alloc : ℕ → Serializer) (s : Session) : Type 0 where
  pub frames : List (List ℕ)
  pub tail : List ℕ
  pub offered : transfer < free_size s.recv_buffer
  pub valid : RingIsValid (recved s transfer).1.recv_buffer
  pub suits : Suits alloc (recved s transfer).1.recv_buffer.max_size
  pub all : AllFrames frames
  pub part : IsPartial tail
  pub holds : received (recved s transfer).1 ≡ joined frames ++ tail
  pub enough : length frames < fuel

-- What a session allows a worker: fewer than 100 packets wait, the ring of addresses has room for them
-- and one more, and it is empty unless a send is under way.
pub record IsOpen (s : Session) : Type 0 where
  pub few : length s.send_buffer < wsa_buffers
  pub room : 8 * (length s.send_buffer + 1) ≤ s.sended_buffer.max_size
  pub unsent : (s.send_flag ≡ 1) ⊎ Carries s.sended_buffer []

module _ (st : Store) (s : Session) (v : IsOpen s) (answer : Answer) where
  on_request-Ends : (kind : ReqEvents) (p : ℕ) → Ends (on_request kind answer p (begin st s))
  unfolding on_request collect_send_packet
  on_request-Ends send_req p = elim (Bool-cases (ltb (length s.send_buffer) queue_limit)) [
    | inl e ↦
        let (sent, sends) =
          of_Ends (send_io answer st (record s { send_buffer = s.send_buffer ++ (p ∷ []) })) (
            send_io-Ends answer st (record s { send_buffer = s.send_buffer ++ (p ∷ []) }) v.unsent
              (omega (arith, v.few, length-append s.send_buffer (p ∷ [])))
              (omega (arith, v.room, length-append s.send_buffer (p ∷ [])))) in
        rw (e, sends) (record {})
    | inr e ↦ rw e (record {})
  ]
  on_request-Ends disconnect_req p = record {}
  on_request-Ends not_define p = record {}

  on_sended-Ends :
      (t : Store) (r : Ring) (n : ℕ)
      → r.max_size ≡ s.sended_buffer.max_size
      → Carries r []
      → Ends (on_sended answer (begin t (record s { sended_buffer = r })) (pos n))
  unfolding on_sended
  on_sended-Ends t r n max c = elim (Bool-cases (ltb 0 (length s.send_buffer))) [
    | inl e ↦
        let u = record s { sended_buffer = r; send_flag = 0 } in
        let (sent, sends) =
          of_Ends (send_io answer t u)
            (send_io-Ends answer t u (inr c) (omega (arith, v.few)) (omega (arith, v.room, max))) in
        rw (e, sends) (record {})
    | inr e ↦ rw e (record {})
  ]

  on_send-Ends :
      (fuel transfer : ℕ)
      → IsSent fuel transfer st s
      → Ends (on_send fuel answer transfer (begin st s))
  unfolding on_send
  on_send-Ends fuel transfer d =
      let (r, takes, max, c) =
        sended_lem d.packets [] st s
          (subst (Carries s.sended_buffer) (sym (append-nil d.packets)) d.carries) d.addresses
          d.sized d.some_packets d.short fuel d.enough in
      subst (λ k. Ends (on_send fuel answer k (begin st s))) d.bytes
        (rw takes (on_sended-Ends (release_queue st d.packets) r (length d.packets) max c))

  on_recved-Ends :
      (fuel transfer : ℕ) (alloc : ℕ → Serializer) (on_recv : Serializer → List Reaction)
      → (transfer == 0) ≡ false
      → IsReceived fuel transfer alloc s
      → Ends (on_recved fuel alloc on_recv answer transfer (begin st s))
  unfolding on_recved
  on_recved-Ends fuel transfer alloc on_recv e d =
      let (t, takes, same) = recved-IsSame s transfer e d.offered in
      let took : (recved s transfer).0 ≡ true = ap (λ x. x.0) takes in
      let (packets, u, drains, handed, left, valid) =
        drain_lem d.frames d.tail alloc (recved s transfer).1 d.valid d.suits d.all d.part d.holds
          fuel d.enough in
      rw (took, drains) (record {})

worker_event-Ends :
    (so ro fuel : ℕ) (alloc : ℕ → Serializer) (on_recv : Serializer → List Reaction)
    (answer : Answer) (c : Completion) (st : Store) (s : Session)
    → IsOpen s
    → (c.overlap ≡ so → IsSent fuel c.transfer st s)
    → (c.overlap ≡ ro → IsReceived fuel c.transfer alloc s)
    → Ends (worker_event so ro fuel alloc on_recv answer c (begin st s))
unfolding worker_event
worker_event-Ends so ro fuel alloc on_recv answer c st s v sent got =
    elim (Bool-cases (not c.result)) [
      | inl f ↦ rw f (record {})
      | inr f ↦ elim (Bool-cases (c.transfer == 0)) [
        | inl g ↦
            let (w, ends) =
              of_Ends
                (on_request (request_check c.overlap) answer (packet_of c.overlap) (begin st s))
                (on_request-Ends st s v answer (request_check c.overlap) (packet_of c.overlap)) in
            rw (f, g, ends) (record {})
        | inr g ↦ elim (Bool-cases (c.overlap == so)) [
          | inl h ↦
              rw (f, g, h)
                (on_send-Ends st s v answer fuel c.transfer (sent ((==_iff c.overlap so).0 h)))
          | inr h ↦ elim (Bool-cases (c.overlap == ro)) [
            | inl k ↦
                rw (f, g, h, k)
                  (on_recved-Ends st s v answer fuel c.transfer alloc on_recv g
                    (got ((==_iff c.overlap ro).0 k)))
            | inr k ↦ rw (f, g, h, k) (record {})
          ]
        ]
      ]
    ]

-- A completion of a session with at least one reference, where everything queued is served, fewer than
-- 100 packets wait, and the ring of addresses has room for them and one more and is empty unless a
-- send is under way. The completion is a send of whole packets that are under way, or a receive of
-- less than the free room that makes whole packets and a part of one, with more fuel than there are
-- packets, or none of these. Whatever `WSASend` and `WSARecv` answer and `OnRecv` asks for, as long as
-- its requests leave the count below 2 ^ 32: the worker's round ends without a fault; it takes the
-- completion's reference away and adds one for each `WSASend` and `WSARecv` that was accepted and for
-- each request that `OnRecv` posted; `deleteSession` is called once if that leaves none, and else not;
-- and still nothing is queued without a send under way, unless the session is cancelled.
pub worker_event-ends :
    (so ro fuel : ℕ) (alloc : ℕ → Serializer) (on_recv : Serializer → List Reaction)
    (answer : Answer) (c : Completion) (st : Store) (s : Session)
    → 0 < s.io_count
    → s.io_count + 1 < 2 ^ 32
    → IsServed s
    → IsOpen s
    → (c.overlap ≡ so → IsSent fuel c.transfer st s)
    → (c.overlap ≡ ro → IsReceived fuel c.transfer alloc s)
    → ((w : Work)
        → worker_event so ro fuel alloc on_recv answer c (begin st s) ≡ some w
        → s.io_count + length w.posts + 1 < 2 ^ 32)
    → (w : Work) × (worker_event so ro fuel alloc on_recv answer c (begin st s) ≡ some w)
      × IsSettled s w
worker_event-ends so ro fuel alloc on_recv answer c st s held few served v sent got few_posts =
    let (w, ends) =
      of_Ends (worker_event so ro fuel alloc on_recv answer c (begin st s))
        (worker_event-Ends so ro fuel alloc on_recv answer c st s v sent got) in
    (
      w,
      ends,
      worker_event-IsSettled so ro fuel alloc on_recv answer c st s held few (λ e. (got e).offered)
          served w ends (few_posts w ends),
    )
