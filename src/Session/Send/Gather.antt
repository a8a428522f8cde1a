-- ===== src/Session/Send/Gather.antt =====
-- `sendIO` takes the whole queue, in order, as long as it fits its array of buffers.
use login_server.Base.{
  ℕ, ◌+◌, ◌*◌, ◌%◌, ◌^◌, ◌≤◌, ◌<◌, ◌≡◌, ◌⊎◌, refl, sym, ◌∙◌, false, none, some, List, [], ◌∷◌, ◌++◌,
  length, map, leb, arith, append-nil, append_assoc, length-append, subst, Bool-cases, inl, inr,
  lt→leb, leb→lt, ◌==◌, ◌>>=◌,
}
use login_server.Base.Results.{Ends}
use login_server.Ring.{Ring}
use login_server.Ring.Index.{IsValid}
use login_server.Ring.Push.{push_lem}
use login_server.Serializer.{size}
use login_server.Serializer.Scalars.{to_bytes}
use login_server.Packet.{Store}
use login_server.Session.{Session, increment_io, has_cancel_io_flag}
use login_server.Session.Send.{gather, wsa_buffers, Answer, accepted, answered, send_io}
use login_server.Session.Send.Pointers.{Carries, push-Carries}

-- The buffers for these packets.
abbrev pub buffers_of : Store → List ℕ → List (ℕ × ℕ)
buffers_of st = map (λ a. ((st.cell a).head_ptr, size (st.cell a) % 2 ^ 32))

abbrev with_send : Session → List ℕ → Ring → Session
with_send s q r = record s { send_buffer = q; sended_buffer = r }

gather_lem :
    (st : Store) (s : Session) (q : List ℕ) (i : ℕ) {r : Ring} {ps : List ℕ}
    → Carries r ps
    → i + length q ≤ wsa_buffers
    → 8 * (length ps + length q) ≤ r.max_size
    → (r' : Ring) × (gather st (with_send s q r) (length q) i
        ≡ some (buffers_of st q, with_send s [] r'))
      × (r'.max_size ≡ r.max_size)
      × Carries r' (ps ++ q)
unfolding gather
gather_lem st s [] i {r} {ps} c few fits =
    (r, refl, refl, subst (Carries r) (sym (append-nil ps)) c)
gather_lem st s (a ∷ q) i {r} {ps} c few fits =
    let (r', pushes, max, c') = push-Carries c a (omega arith) in
    let (r'', gathers, max', c'') =
      gather_lem st s q (i + 1) c' (omega arith) (omega (arith, max, length-append ps (a ∷ []))) in
    (
      r'',
      rw (lt→leb wsa_buffers i (omega arith), pushes, gathers) refl,
      max' ∙ max,
      subst (Carries r'') (append_assoc ps (a ∷ []) q) c'',
    )

-- One packet more than the array has room for.
gather-overflow :
    (st : Store) (s : Session) (q : List ℕ) (i : ℕ) {r : Ring}
    → IsValid r
    → i ≤ wsa_buffers
    → wsa_buffers < i + length q
    → gather st (with_send s q r) (length q) i ≡ none
unfolding gather
gather-overflow st s [] i v room many = absurd (omega arith)
gather-overflow st s (a ∷ q) i {r} v room many = elim (Bool-cases (leb wsa_buffers i)) [
  | inl e ↦ rw e refl
  | inr e ↦
      let (r', pushes, valid, max, holds) = push_lem r v (to_bytes 8 a) in
      let inside : i < wsa_buffers = leb→lt wsa_buffers i e in
      rw (e, pushes, gather-overflow st s q (i + 1) valid (omega arith) (omega arith)) refl
]

-- A session that may send: not cancelled, with no send under way and something in its queue.
pub record IsReady (s : Session) : Type 0 where
  pub open_for_send : s.cancel_io_flag ≡ 0
  pub idle : s.send_flag ≡ 0
  pub waiting : 0 < length s.send_buffer

abbrev started : Session → Session
started s = (increment_io (record s { send_flag = 1 })).1

unset : (n : ℕ) → n ≡ 0 → (n == 1) ≡ false
unset n h = ground arith

some_left : (n : ℕ) → 0 < n → (n == 0) ≡ false
some_left n h = ground arith

send_io-gather :
    (answer : Answer) (st : Store) (s : Session)
    → IsReady s
    → send_io answer st s ≡ (
        gather st (started s) (length s.send_buffer) 0 >>= λ (bufs, t).
        some (answered answer t bufs))
unfolding send_io has_cancel_io_flag
send_io-gather answer st s w =
    rw
      (
        unset s.cancel_io_flag w.open_for_send,
        unset s.send_flag w.idle,
        some_left (length s.send_buffer) w.waiting,
      )
      refl

-- A ready session with at most 100 packets in its queue, and room for their addresses behind those of
-- the packets `ps` under way: when `WSASend` accepts, `sendIO` has given it all packets of the queue
-- in order, none is queued any more, and the ring holds their addresses behind those of `ps`.
pub send_io-accepted :
    (st : Store) (s : Session)
    → IsReady s
    → (ps : List ℕ) → Carries s.sended_buffer ps
    → length s.send_buffer ≤ wsa_buffers
    → 8 * (length ps + length s.send_buffer) ≤ s.sended_buffer.max_size
    → (r : Ring) × (send_io accepted st s
        ≡ some (record {
          buffers = some (buffers_of st s.send_buffer);
          session = record s {
            send_flag = 1;
            io_count = (s.io_count + 1) % 2 ^ 32;
            send_buffer = [];
            sended_buffer = r;
          };
          deletes = false;
        }))
      × (r.max_size ≡ s.sended_buffer.max_size)
      × Carries r (ps ++ s.send_buffer)
unfolding answered increment_io
send_io-accepted st s w ps c few fits =
    let (r, gathers, max, c') = gather_lem st (started s) s.send_buffer 0 c (omega arith) fits in
    (r, send_io-gather accepted st s w ∙ rw gathers refl, max, c')

-- `sendIO` ends, whatever `WSASend` answers, with at most 100 packets in the queue, room for their
-- addresses, and none under way unless `sendFlag` says so.
pub send_io-Ends :
    (answer : Answer) (st : Store) (s : Session)
    → (s.send_flag ≡ 1) ⊎ Carries s.sended_buffer []
    → length s.send_buffer ≤ wsa_buffers
    → 8 * length s.send_buffer ≤ s.sended_buffer.max_size
    → Ends (send_io answer st s)
unfolding send_io has_cancel_io_flag increment_io
send_io-Ends answer st s unsent few room = elim (Bool-cases (s.cancel_io_flag == 1)) [
  | inl e ↦ rw e (record {})
  | inr e ↦ elim (Bool-cases (s.send_flag == 1)) [
    | inl f ↦ rw (e, f) (record {})
    | inr f ↦ elim (Bool-cases (length s.send_buffer == 0)) [
      | inl g ↦ rw (e, f, g) (record {})
      | inr g ↦ elim unsent [
        | inl h ↦ absurd (ground (arith, f, h))
        | inr c ↦
            let (r, gathers, max, c') =
              gather_lem st (increment_io (record s { send_flag = 1 })).1 s.send_buffer 0 c
                (omega arith) (omega (arith, room)) in
            rw (e, f, g, gathers) (record {})
      ]
    ]
  ]
]

-- A ready session with more than 100 packets in its queue, whatever `WSASend` would answer: `sendIO`
-- writes behind the end of its array of buffers.
pub send_io-overflow :
    (answer : Answer) (st : Store) (s : Session)
    → IsReady s
    → IsValid s.sended_buffer
    → wsa_buffers < length s.send_buffer
    → send_io answer st s ≡ none
unfolding increment_io
send_io-overflow answer st s w v many =
    send_io-gather answer st s w
    ∙ rw (gather-overflow st (started s) s.send_buffer 0 v (omega arith) (omega arith)) refl
