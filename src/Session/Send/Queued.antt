-- ===== src/Session/Send/Queued.antt =====
-- loginServer/lib/IOCP netServer/session.cpp over LockFreeQueue.h: what a session calls `sendBuffer`,
-- a sequence of packets with room for 255, is a `LockFreeQueue(256)`.
use login_server.Base.{
  ℕ, zero, suc, ◌+◌, ◌<◌, ◌≡◌, refl, sym, ap, ◌∙◌, arith, Bool, true, false, Option, none, some,
  List, [], ◌∷◌, ◌++◌, length, length-append, get_or, drop, ltb, leb, Bool-cases, inl, inr,
  if◌then◌else◌, ◌>>=◌, ◌%◌, ◌^◌,
}
use login_server.Base.Results.{Always, Always-bind, of_Always}
use login_server.Ring.{Ring, push as ring_push}
use login_server.Serializer.{size}
use login_server.Serializer.Scalars.{to_bytes}
use login_server.Packet.{Store}
use login_server.Session.{Session}
use login_server.Session.Send.{queue_limit, wsa_buffers, collect_send_packet, gather}
use login_server.LockFreeQueue.{Queue, make_nodeptr, fill, init, push, pop}
use login_server.LockFreeQueue.Init.{IsPool, init-IsQueue}
use login_server.LockFreeQueue.Rep.{IsQueue, values}
use login_server.LockFreeQueue.Push.{new, pushed, push_steps, pushed-IsQueue, pushed-values}
use login_server.LockFreeQueue.Pop.{front, popped, pop_steps, popped-IsQueue, popped-values}
use login_server.LockFreeQueue.Fifo.{counted, counted-IsQueue, push-full}

-- The linked list stands for these packets, with 255 nodes behind its first one.
pub record Holds (q : Queue) (packets : List ℕ) : Type 0 where
  pub keys : List ℕ
  pub frees : List ℕ
  pub queue : IsQueue q keys frees
  pub contents : values q keys ≡ packets
  pub nodes : length keys + length frees ≡ queue_limit

length-values : (q : Queue) (ks : List ℕ) → length (values q ks) ≡ length ks
length-values q [] = refl
length-values q (k ∷ ks) = ap suc (length-values q ks)

-- `sendBuffer.size()`
pub size-Holds : (q : Queue) (packets : List ℕ) → Holds q packets → q.size ≡ length packets
size-Holds q packets h = h.queue.sized ∙ sym (length-values q h.keys) ∙ ap length h.contents

-- The constructor makes an empty one from 256 different nodes.
pub init-Holds :
    (q : Queue) (places : List ℕ)
    → make_nodeptr q.top_key ≡ 0
    → length places ≡ 256
    → IsPool places
    → (r : Queue) × (init (fill q places) ≡ some r) × Holds r []
init-Holds q places unset all p =
    let (r, fs, makes, v, rest) = init-IsQueue q places unset (omega (arith, all)) p in
    (
      r,
      makes,
      record {
        keys = [];
        frees = fs;
        queue = v;
        contents = refl;
        nodes = omega (arith, rest, all);
      },
    )

-- `push` on the linked list
push-Holds :
    (fuel : ℕ) (q : Queue) (a : ℕ) (packets : List ℕ)
    → Holds q packets
    → (q' : Queue) × (push (suc fuel) q a ≡ some (ltb (length packets) queue_limit, q'))
      × Holds q' (if ltb (length packets) queue_limit then packets ++ (a ∷ []) else packets)
push-Holds fuel q a packets h = from_keys h.keys h.frees h.queue h.contents h.nodes
  where
    full : (n : ℕ) → n ≡ queue_limit → ltb n queue_limit ≡ false
    full n e = ground arith

    room : (n : ℕ) → n < queue_limit → ltb n queue_limit ≡ true
    room n h = ground arith

    from_keys :
        (ks fs : List ℕ) (v : IsQueue q ks fs)
        → values q ks ≡ packets
        → length ks + length fs ≡ queue_limit
        → (q' : Queue) × (push (suc fuel) q a ≡ some (ltb (length packets) queue_limit, q'))
          × Holds q' (if ltb (length packets) queue_limit then packets ++ (a ∷ []) else packets)
    from_keys ks [] v same all =
        rw (full (length packets) (omega (arith, all, length-values q ks, ap length same))) (
          counted q,
          push-full q ks (suc fuel) a v,
          record {
            keys = ks;
            frees = [];
            queue = counted-IsQueue q ks [] v;
            contents = same;
            nodes = all;
          },
        )
    from_keys ks (f ∷ fs) v same all =
        rw (room (length packets) (omega (arith, all, length-values q ks, ap length same))) (
          pushed q ks f fs v a,
          push_steps q ks f fs v a fuel,
          record {
            keys = ks ++ (new q ks f fs v a ∷ []);
            frees = fs;
            queue = pushed-IsQueue q ks f fs v a;
            contents = pushed-values q ks f fs v a ∙ ap (λ l. l ++ (a ∷ [])) same;
            nodes = omega (arith, all, length-append ks (new q ks f fs v a ∷ []));
          },
        )

-- What `collectSendPacket` gives, by whether the queue has room.
abbrev chosen : Bool → Session → ℕ → Bool × Session
chosen b s a =
    if b then (true, record s { send_buffer = s.send_buffer ++ (a ∷ []) }) else (false, s)

-- A queue that holds at most 255 packets takes another one exactly when `collectSendPacket` says so,
-- and then holds the packets of the session again; its loop ends in the first round.
pub push-collect_send_packet :
    (fuel : ℕ) (s : Session) (a : ℕ) (q : Queue)
    → Holds q s.send_buffer
    → (q' : Queue) × (push (suc fuel) q a ≡ some ((collect_send_packet s a).0, q'))
      × Holds q' (collect_send_packet s a).1.send_buffer
unfolding collect_send_packet
push-collect_send_packet fuel s a q h =
    same_choice (ltb (length s.send_buffer) queue_limit) (push-Holds fuel q a s.send_buffer h)
  where
    same_choice :
        (b : Bool)
        → (q' : Queue) × (push (suc fuel) q a ≡ some (b, q'))
          × Holds q' (if b then s.send_buffer ++ (a ∷ []) else s.send_buffer)
        → (q' : Queue) × (push (suc fuel) q a ≡ some ((chosen b s a).0, q'))
          × Holds q' (chosen b s a).1.send_buffer
    same_choice true found = found
    same_choice false found = found

-- The loop of `sendIO` over the linked list, of which `pop` may find nothing (`none`: the loop goes on
-- until another thread pushes).
unfoldable pub gather_queue :
    ℕ → Store → Queue → Ring → ℕ → ℕ → Option (List (ℕ × ℕ) × Queue × Ring)
gather_queue fuel st q r zero i = some ([], q, r)
gather_queue fuel st q r (suc n) i = pop fuel q >>= λ (o, q'). o >>= λ a.
    if leb wsa_buffers i
    then none
    else (ring_push r (to_bytes 8 a) >>= λ (k, r').
        gather_queue fuel st q' r' n (i + 1) >>= λ (bufs, q'', r'').
        some (((st.cell a).head_ptr, size (st.cell a) % 2 ^ 32) ∷ bufs, q'', r''))

pop-Holds :
    (fuel : ℕ) (q : Queue) (a : ℕ) (packets : List ℕ)
    → Holds q (a ∷ packets)
    → (q' : Queue) × (pop (suc fuel) q ≡ some (some a, q')) × Holds q' packets
pop-Holds fuel q a packets h = from_keys h.keys h.frees h.queue h.contents h.nodes
  where
    from_keys :
        (ks fs : List ℕ) (v : IsQueue q ks fs)
        → values q ks ≡ a ∷ packets
        → length ks + length fs ≡ queue_limit
        → (q' : Queue) × (pop (suc fuel) q ≡ some (some a, q')) × Holds q' packets
    from_keys [] fs v same all = absurd (omega (arith, ap length same))
    from_keys (k ∷ ks) fs v same all = (
      popped q k ks fs v,
      pop_steps q k ks fs v fuel ∙ ap (λ l. some (some (get_or l 0 0), popped q k ks fs v)) same,
      record {
        keys = ks;
        frees = front q k ks fs v ∷ fs;
        queue = popped-IsQueue q k ks fs v;
        contents = popped-values q k ks fs v ∙ ap (drop 1) same;
        nodes = omega (arith, all);
      },
    )

-- What holds after a result that is known to be the one of an operation.
Always-after :
    {A B : Type 0} (P : B → Type 0) (f : A → Option B) (o : Option A)
    → ((a : A) → o ≡ some a → Always P (f a))
    → Always P (o >>= f)
Always-after P f none k = record {}
Always-after P f (some a) k = k a refl

module _ (fuel : ℕ) (st : Store) (s : Session) where
  abbrev at_round : List ℕ → Ring → Session
  at_round b r = record s { send_buffer = b; sended_buffer = r }

  abbrev Follows : Queue → Ring → ℕ → ℕ → List (ℕ × ℕ) × Session → Type 0
  Follows q r n i (bufs, t) =
      (q' : Queue) × (gather_queue (suc fuel) st q r n i ≡ some (bufs, q', t.sended_buffer))
      × Holds q' t.send_buffer

  gather-Follows :
      (n i : ℕ) (q : Queue) (b : List ℕ) (r : Ring)
      → Holds q b
      → Always (Follows q r n i) (gather st (at_round b r) n i)
  unfolding gather gather_queue
  gather-Follows zero i q b r h = (q, refl, h)
  gather-Follows (suc n) i q [] r h = record {}
  gather-Follows (suc n) i q (a ∷ b) r h = elim (Bool-cases (leb wsa_buffers i)) [
    | inl e ↦ rw e (record {})
    | inr e ↦ rw e (
        let (q1, pops, h1) = pop-Holds fuel q a b h in
        Always-after (Follows q r (suc n) i)
          (λ (k, r'). gather st (at_round b r') n (i + 1) >>= λ (bufs, t).
            some (((st.cell a).head_ptr, size (st.cell a) % 2 ^ 32) ∷ bufs, t))
          (ring_push r (to_bytes 8 a))
          (λ (k, r') pushes.
            Always-bind (Follows q1 r' n (i + 1)) (Follows q r (suc n) i)
              (λ (bufs, t). some (((st.cell a).head_ptr, size (st.cell a) % 2 ^ 32) ∷ bufs, t))
              (gather st (at_round b r') n (i + 1)) (gather-Follows n (i + 1) q1 b r' h1)
              (λ (bufs, t) (q', steps, h'). (q', rw (pops, e, pushes, steps) refl, h'))))
  ]

  -- Over a queue that holds the packets of the session, the loop of `sendIO` takes as many packets as
  -- it is to take, and ends, whenever the loop over the sequence of packets does; the buffers and the
  -- ring are the same, and the queue holds the packets that are left.
  pub gather_queue-gather :
      (q : Queue) (n : ℕ) (bufs : List (ℕ × ℕ)) (t : Session)
      → Holds q s.send_buffer
      → gather st s n 0 ≡ some (bufs, t)
      → (q' : Queue) × (gather_queue (suc fuel) st q s.sended_buffer n 0
          ≡ some (bufs, q', t.sended_buffer))
        × Holds q' t.send_buffer
  gather_queue-gather q n bufs t h e =
      of_Always (Follows q s.sended_buffer n 0) (gather st s n 0) (bufs, t)
        (gather-Follows n 0 q s.send_buffer s.sended_buffer h) e
