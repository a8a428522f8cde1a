-- ===== src/Network/Worker/Resend.antt =====
-- What waits in the queue goes out when the send before it is complete.
use login_server.Base.{
  ℕ, ◌+◌, ◌*◌, ◌-◌, ◌%◌, ◌^◌, ◌<◌, ◌≤◌, ◌≡◌, refl, sym, true, false, some, List, [], ◌∷◌, length,
  ltb, arith, ◌==◌, if◌then◌else◌, subst, append-nil,
}
use login_server.Base.Int.{pos}
use login_server.Ring.{Ring}
use login_server.Serializer.{Serializer}
use login_server.Packet.{Store}
use login_server.Session.{Session, decrement_io}
use login_server.Session.Send.{accepted, wsa_buffers, release_queue}
use login_server.Session.Send.Pointers.{Carries, AllAddresses}
use login_server.Session.Send.Gather.{buffers_of, send_io-accepted}
use login_server.Session.Send.Sended.{total, total-pos, AllSized, sended_lem}
use login_server.Network.Worker.{
  Work, begin, after_io, finish, on_sended, on_send, worker_event, Reaction,
}

nonzero : (n : ℕ) → 0 < n → (n == 0) ≡ false
nonzero n h = ground arith

same : (n : ℕ) → (n == n) ≡ true
same n = ground arith

some_wait : (n : ℕ) → 0 < n → ltb 0 n ≡ true
some_wait n h = ground arith

module _ (st : Store) (s : Session) (ps : List ℕ) where
  -- The result of a round that sends all packets of the queue, with their addresses in the ring `r`.
  abbrev resent : Ring → Work
  resent r = record {
    session = record s {
      send_flag = 1;
      io_count = ((s.io_count + 1) % 2 ^ 32 + 2 ^ 32 - 1) % 2 ^ 32;
      send_buffer = [];
      sended_buffer = r;
    };
    store = release_queue st ps;
    send_messages = (0 + length ps) % 2 ^ 32;
    recv_messages = 0;
    handed = [];
    posts = [];
    started = buffers_of (release_queue st ps) s.send_buffer ∷ [];
    deletes = if ((s.io_count + 1) % 2 ^ 32 + 2 ^ 32 - 1) % 2 ^ 32 == 0 then 1 else 0;
  }

  on_sended_steps :
      (r : Ring)
      → s.cancel_io_flag ≡ 0
      → 0 < length s.send_buffer
      → length s.send_buffer ≤ wsa_buffers
      → 8 * length s.send_buffer ≤ r.max_size
      → Carries r []
      → (r' : Ring) × (on_sended accepted
            (record (begin st s) {
              store = release_queue st ps;
              session = record s { sended_buffer = r };
            })
            (pos (length ps))
          ≡ some (resent r'))
        × Carries r' s.send_buffer
  unfolding on_sended after_io finish decrement_io
  on_sended_steps r live waiting few fits c =
      let (r', sends, max, c') =
        send_io-accepted (release_queue st ps) (record s { sended_buffer = r; send_flag = 0 })
          (record { open_for_send = live; idle = refl; waiting = waiting }) [] c few
          (omega arith) in
      (r', rw (some_wait (length s.send_buffer) waiting, sends) refl, c')

-- What is known of a session whose send of the packets `ps` is under way.
pub record IsSending (st : Store) (s : Session) (ps : List ℕ) : Type 0 where
  pub live : s.cancel_io_flag ≡ 0
  pub held : 0 < s.io_count
  pub few : s.io_count + 1 < 2 ^ 32
  pub carries : Carries s.sended_buffer ps
  pub addresses : AllAddresses ps
  pub sized : AllSized st ps
  pub some_packets : 0 < length ps
  pub short : total st ps < 2 ^ 32

-- The send of the packets `ps` is under way, and 1 to 100 packets wait: when the send completes with
-- all its bytes and the next `WSASend` is accepted, the round gives up one reference to each of `ps`
-- and sends all that waited, in order; these are under way then, none waits, the session is held as
-- often as before, and `deleteSession` is not called.
pub worker_event-resend :
    (so ro fuel : ℕ) (alloc : ℕ → Serializer) (on_recv : Serializer → List Reaction) (st : Store)
    (s : Session) (ps : List ℕ)
    → IsSending st s ps
    → 0 < length s.send_buffer
    → length s.send_buffer ≤ wsa_buffers
    → 8 * length s.send_buffer ≤ s.sended_buffer.max_size
    → length ps < fuel
    → (w : Work) × (worker_event so ro fuel alloc on_recv accepted
          (record { result = true; transfer = total st ps; overlap = so })
          (begin st s)
        ≡ some w)
      × (w.store ≡ release_queue st ps)
      × (w.started ≡ buffers_of w.store s.send_buffer ∷ [])
      × Carries w.session.sended_buffer s.send_buffer
      × (w.session.send_buffer ≡ [])
      × (w.session.io_count ≡ s.io_count)
      × (w.deletes ≡ 0)
unfolding worker_event on_send
worker_event-resend so ro fuel alloc on_recv st s ps u waiting few fits h =
    let (r, sends, max, c) =
      sended_lem ps [] st s (subst (Carries s.sended_buffer) (sym (append-nil ps)) u.carries)
        u.addresses u.sized u.some_packets u.short fuel h in
    let (r', steps, c') = on_sended_steps st s ps r u.live waiting few (omega (arith, max)) c in
    (
      resent st s ps r',
      rw (nonzero (total st ps) (total-pos st ps u.sized u.some_packets), same so, sends) steps,
      refl,
      refl,
      c',
      refl,
      omega (arith, u.held, u.few),
      ground (arith, u.held, u.few),
    )
