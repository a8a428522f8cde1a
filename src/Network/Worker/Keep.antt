-- ===== src/Network/Worker/Keep.antt =====
-- What the parts of a completion leave of a session as it was.
use login_server.Base.{
  ℕ, zero, suc, ◌+◌, ◌<◌, ◌≡◌, refl, ◌∙◌, true, false, none, List, [], ◌∷◌, leb, lt→leb, ◌==◌,
}
use login_server.Base.Int.{pos}
use login_server.Base.Results.{Always, Always-bind, Always-then, Always-if}
use login_server.Base.Blocks.{write_block}
use login_server.Ring.{Ring, push, pop, front, move_rear, size, free_size}
use login_server.Serializer.{Serializer}
use login_server.Serializer.Scalars.{to_bytes}
use login_server.Serializer.Header.{header_size}
use login_server.Packet.{Store}
use login_server.Session.{Session, recved, recved_packet, take_frame, frame_size, drain, prepare}
use login_server.Session.Send.{gather, wsa_buffers, sended, sended_loop}

-- What stays of a session while packets are queued or taken from the queue.
pub record Keeps (s t : Session) : Type 0 where
  pub count : t.io_count ≡ s.io_count
  pub cancelled : t.cancel_io_flag ≡ s.cancel_io_flag
  pub sending : t.send_flag ≡ s.send_flag

pub gather-Keeps :
    (st : Store) (s : Session) (n i : ℕ) (q : List ℕ) (r : Ring)
    → Always
        (λ (bufs, t). Keeps s t)
        (gather st (record s { send_buffer = q; sended_buffer = r }) n i)
unfolding gather
gather-Keeps st s zero i q r = record { count = refl; cancelled = refl; sending = refl }
gather-Keeps st s (suc n) i [] r = record {}
gather-Keeps st s (suc n) i (a ∷ q) r =
    Always-if (λ (bufs, t). Keeps s t) (leb wsa_buffers i) none _ (record {})
      (Always-then (λ (bufs, t). Keeps s t) _ (push r (to_bytes 8 a))
        (λ (k, r').
          Always-bind (λ (bufs, t). Keeps s t) (λ (bufs, t). Keeps s t) _
            (gather st (record s { send_buffer = q; sended_buffer = r' }) n (i + 1))
            (gather-Keeps st s n (i + 1) q r') (λ (bufs, t) k. k)))

-- A session whose sending side is as before.
pub record IsSame (s t : Session) : Type 0 where
  pub keeps : Keeps s t
  pub queue : t.send_buffer ≡ s.send_buffer

received-IsSame : (s : Session) (r : Ring) → IsSame s (record s { recv_buffer = r })
received-IsSame s r = record {
  keeps = record { count = refl; cancelled = refl; sending = refl };
  queue = refl;
}

pub trans-IsSame : {s t u : Session} → IsSame s t → IsSame t u → IsSame s u
trans-IsSame a b = record {
  keeps = record {
    count = b.keeps.count ∙ a.keeps.count;
    cancelled = b.keeps.cancelled ∙ a.keeps.cancelled;
    sending = b.keeps.sending ∙ a.keeps.sending;
  };
  queue = b.queue ∙ a.queue;
}

pub recved-IsSame :
    (s : Session) (transfer : ℕ)
    → (transfer == 0) ≡ false
    → transfer < free_size s.recv_buffer
    → (t : Session) × (recved s transfer ≡ (true, t)) × IsSame s t
unfolding recved
recved-IsSame s transfer e h =
    let r = (move_rear s.recv_buffer (pos transfer)).1 in
    (
      record s { recv_buffer = r },
      rw (lt→leb (free_size s.recv_buffer) transfer h, e) refl,
      received-IsSame s r,
    )

take_frame-IsSame :
    (s : Session) (p : Serializer) (h : List ℕ)
    → Always (λ (b, t, q). IsSame s t) (take_frame s p h)
unfolding take_frame
take_frame-IsSame s p h =
    Always-if (λ (b, t, q). IsSame s t) (leb (frame_size h) (size s.recv_buffer)) _ _
      (Always-then (λ (b, t, q). IsSame s t) _ (pop s.recv_buffer (frame_size h))
        (λ (n, bytes, r).
          Always-then (λ (b, t, q). IsSame s t) _ (write_block p.block 0 bytes)
            (λ b. received-IsSame s r)))
      (received-IsSame s s.recv_buffer)

recved_packet-IsSame :
    (s : Session) (p : Serializer) → Always (λ (b, t, q). IsSame s t) (recved_packet s p)
unfolding recved_packet
recved_packet-IsSame s p =
    Always-if (λ (b, t, q). IsSame s t) (leb header_size (size s.recv_buffer)) _ _
      (Always-then (λ (b, t, q). IsSame s t) _ (front s.recv_buffer header_size)
        (λ (n, h).
          Always-if (λ (b, t, q). IsSame s t) (n == header_size) _ _ (take_frame-IsSame s p h)
            (received-IsSame s s.recv_buffer)))
      (received-IsSame s s.recv_buffer)

pub drain-IsSame :
    (alloc : ℕ → Serializer) (fuel : ℕ) (s : Session)
    → Always (λ (packets, t). IsSame s t) (drain alloc fuel s)
unfolding drain
drain-IsSame alloc zero s = record {}
drain-IsSame alloc (suc fuel) s =
    Always-bind (λ (b, t, q). IsSame s t) (λ (packets, t). IsSame s t) _
      (recved_packet s (prepare (alloc 0))) (recved_packet-IsSame s (prepare (alloc 0)))
      (λ (more, t, p) k.
        Always-if (λ (packets, u). IsSame s u) more _ _
          (Always-bind (λ (packets, u). IsSame t u) (λ (packets, u). IsSame s u) _
            (drain (λ i. alloc (suc i)) fuel t) (drain-IsSame (λ i. alloc (suc i)) fuel t)
            (λ (packets, u) m. trans-IsSame k m))
          k)

-- `sended` of some bytes gives a number of packets, and only takes them out of its ring.
pub sended-IsSame :
    (fuel : ℕ) (st : Store) (s : Session) (transfer : ℕ)
    → (transfer == 0) ≡ false
    → Always (λ (n, t, u). ((k : ℕ) × (n ≡ pos k)) × IsSame s u) (sended fuel st s transfer)
unfolding sended
sended-IsSame fuel st s transfer e = rw e (
    Always-then (λ (n, t, u). ((k : ℕ) × (n ≡ pos k)) × IsSame s u) _
      (sended_loop fuel st s.sended_buffer transfer 0)
      (λ (k, t, r). (
        (k, refl),
        record { keeps = record { count = refl; cancelled = refl; sending = refl }; queue = refl },
      )))
