-- ===== src/Session/Send/Cycle.antt =====
-- A send from the queue to its completion, and `bufferClear` of a session that is deleted: every
-- packet gives up one reference.
use login_server.Base.{
  ℕ, zero, suc, ◌+◌, ◌-◌, ◌*◌, ◌%◌, ◌^◌, ◌≤◌, ◌<◌, ◌≡◌, refl, sym, ◌∙◌, true, false, some, List, [],
  ◌∷◌, ◌++◌, length, arith, subst, ◌==◌, if◌then◌else◌, append-nil, count,
}
use login_server.Base.Int.{pos}
use login_server.Ring.{Ring, clear}
use login_server.Ring.Index.{span, empty-span}
use login_server.Packet.{Store, release}
use login_server.Session.{Session}
use login_server.Session.Send.{
  Sent, accepted, send_io, sended, wsa_buffers, release_queue, release_ring, buffer_clear,
}
use login_server.Session.Send.Pointers.{
  Carries, AllAddresses, span-Carries, pop-Carries, pointer-back,
}
use login_server.Session.Send.Gather.{IsReady, buffers_of, send_io-accepted}
use login_server.Session.Send.Sended.{total, AllSized, sended_lem}

counter-release :
    (st : Store) (a b : ℕ)
    → (st.cell b).reference_counter < 2 ^ 32
    → (if a == b then 1 else 0) ≤ (st.cell b).reference_counter
    → ((release st a).cell b).reference_counter
      ≡ (st.cell b).reference_counter - (if a == b then 1 else 0)
unfolding release
counter-release st a b fits own = ground arith

counter-release_queue :
    (st : Store) (q : List ℕ) (b : ℕ)
    → (st.cell b).reference_counter < 2 ^ 32
    → count b q ≤ (st.cell b).reference_counter
    → ((release_queue st q).cell b).reference_counter ≡ (st.cell b).reference_counter - count b q
unfolding release_queue
counter-release_queue st [] b fits own = omega arith
counter-release_queue st (a ∷ q) b fits own =
    let one = counter-release st a b fits (omega arith) in
    omega (
      arith,
      one,
      counter-release_queue (release st a) q b (omega (arith, one)) (omega (arith, one)),
    )

-- The loop over the ring.
release_ring_lem :
    (ps : List ℕ) (fuel : ℕ) (st : Store) {r : Ring}
    → Carries r ps
    → AllAddresses ps
    → length ps < fuel
    → (r' : Ring) × (release_ring fuel st r ≡ some (release_queue st ps, r')) × Carries r' []
unfolding release_ring release_queue
release_ring_lem ps zero st c at h = absurd (omega arith)
release_ring_lem [] (suc fuel) st {r} c at h = (r, rw (empty-span c.valid ∙ none_held) refl, c)
  where
    none_held : (span r == 0) ≡ true
    none_held = ground (arith, span-Carries c)
release_ring_lem (a ∷ ps) (suc fuel) st {r} c at h =
    let (r', pops, max, c') = pop-Carries c in
    let (r'', loops, c'') = release_ring_lem ps fuel (release st a) c' at.1 (omega arith) in
    (r'', rw (empty-span c.valid ∙ some_held, pops, pointer-back a at.0, loops) refl, c'')
  where
    some_held : (span r == 0) ≡ false
    some_held = ground (arith, span-Carries c)

release_queue-append :
    (st : Store) (ps qs : List ℕ)
    → release_queue (release_queue st ps) qs ≡ release_queue st (ps ++ qs)
unfolding release_queue
release_queue-append st [] qs = refl
release_queue-append st (a ∷ ps) qs = release_queue-append (release st a) ps qs

-- `bufferClear` ends: it empties the three buffers, and gives up one reference for each time that a
-- packet is queued or under way.
pub buffer_clear_lem :
    (st : Store) (s : Session) (ps : List ℕ)
    → Carries s.sended_buffer ps
    → AllAddresses ps
    → ((a : ℕ) → (st.cell a).reference_counter < 2 ^ 32)
    → ((a : ℕ) → count a (s.send_buffer ++ ps) ≤ (st.cell a).reference_counter)
    → (fuel : ℕ) → length ps < fuel
    → (t : Store) × (r : Ring) × (buffer_clear fuel st s
        ≡ some (
          t,
          record s { send_buffer = []; sended_buffer = r; recv_buffer = clear s.recv_buffer },
        ))
      × Carries r []
      × ((a : ℕ)
          → (t.cell a).reference_counter
            ≡ (st.cell a).reference_counter - count a (s.send_buffer ++ ps))
unfolding buffer_clear
buffer_clear_lem st s ps c at fits own fuel h =
    let (r, loops, c') = release_ring_lem ps fuel (release_queue st s.send_buffer) c at h in
    (
      release_queue st (s.send_buffer ++ ps),
      r,
      rw (loops, release_queue-append st s.send_buffer ps) refl,
      c',
      λ a. counter-release_queue st (s.send_buffer ++ ps) a (fits a) (own a),
    )

-- A ready session with no packet under way and at most 100 in its queue, none empty, whose `WSASend`
-- is accepted and completed with all bytes: each packet of the queue is sent, in order, and gives up
-- one reference, `sended` returns their number, and neither buffer holds one any more.
pub sended-send_io :
    (st : Store) (s : Session)
    → IsReady s
    → Carries s.sended_buffer []
    → length s.send_buffer ≤ wsa_buffers
    → 8 * length s.send_buffer ≤ s.sended_buffer.max_size
    → AllAddresses s.send_buffer
    → AllSized st s.send_buffer
    → total st s.send_buffer < 2 ^ 32
    → ((a : ℕ) → (st.cell a).reference_counter < 2 ^ 32)
    → ((a : ℕ) → count a s.send_buffer ≤ (st.cell a).reference_counter)
    → (sent : Sent) × (t : Store) × (u : Session) × (send_io accepted st s ≡ some sent)
      × (sent.buffers ≡ some (buffers_of st s.send_buffer))
      × (sended (suc (length s.send_buffer)) st sent.session (total st s.send_buffer)
          ≡ some (pos (length s.send_buffer), t, u))
      × (u.send_buffer ≡ [])
      × Carries u.sended_buffer []
      × ((a : ℕ)
          → (t.cell a).reference_counter ≡ (st.cell a).reference_counter - count a s.send_buffer)
sended-send_io st s w c few fits at sized short counted own =
    let (r, sends, max, c') = send_io-accepted st s w [] c few (omega arith) in
    let after = record s {
      send_flag = 1;
      io_count = (s.io_count + 1) % 2 ^ 32;
      send_buffer = [];
      sended_buffer = r;
    } in
    let (r', dones, max', c'') =
      sended_lem s.send_buffer [] st after (subst (Carries r) (sym (append-nil s.send_buffer)) c')
        at sized w.waiting short (suc (length s.send_buffer)) (omega arith) in
    (
      _,
      release_queue st s.send_buffer,
      record after { sended_buffer = r' },
      sends,
      refl,
      dones,
      refl,
      c'',
      λ a. counter-release_queue st s.send_buffer a (counted a) (own a),
    )
