-- ===== src/Network/Worker/Count.antt =====
-- What one completion does to `IOcount` and to the sending of what is queued, step by step.
use login_server.Base.{
  ℕ, ◌+◌, ◌%◌, ◌^◌, ◌<◌, ◌≡◌, refl, ◌⊎◌, inl, inr, Bool-cases, false, none, List, length, arith,
  ◌==◌, ==_iff, ◌||◌,
}
use login_server.Base.Results.{Always, Always-bind}
use login_server.Packet.{Store}
use login_server.Session.{
  Session, increment_io, decrement_io, has_cancel_io_flag, cancel_io_regist, recv_buffers,
}
use login_server.Session.Send.{Answer, accepted, refused, Sent, answered, gather, send_io}
use login_server.Network.Worker.Keep.{Keeps, gather-Keeps}
use login_server.Network.Worker.{recv_io, recv_answered, started_by}

-- Nothing waits in the queue without a send under way, unless the session is cancelled.
abbrev pub IsServed : Session → Type 0
IsServed s = (s.cancel_io_flag ≡ 1) ⊎ ((s.send_flag ≡ 1) ⊎ (length s.send_buffer ≡ 0))

-- A request that was started holds one reference more; a count above 0 is not deleted.
pub record IsBalanced (answer : Answer) (s : Session) (sent : Sent) : Type 0 where
  pub count : sent.session.io_count ≡ s.io_count + length (started_by answer sent.buffers)
  pub kept : sent.deletes ≡ false

unstarted : (answer : Answer) → length (started_by answer none) ≡ 0
unstarted accepted = refl
unstarted (refused code) = refl

module _ (answer : Answer) (s : Session) (held : 0 < s.io_count)
    (few : s.io_count + 1 < 2 ^ 32) where
  nothing-IsBalanced :
      (t : Session)
      → t.io_count ≡ s.io_count
      → IsBalanced answer s (record { buffers = none; session = t; deletes = false })
  nothing-IsBalanced t same = record { count = omega (arith, unstarted answer); kept = refl }

answered-IsBalanced :
    (answer : Answer) (s t : Session) (bufs : List (ℕ × ℕ))
    → 0 < s.io_count
    → s.io_count + 1 < 2 ^ 32
    → t.io_count ≡ s.io_count + 1
    → t.send_flag ≡ 1
    → IsBalanced answer s (answered answer t bufs) × IsServed (answered answer t bufs).session
unfolding answered cancel_io_regist decrement_io
answered-IsBalanced accepted s t bufs held few count sending =
    (record { count = count; kept = refl }, inr (inl sending))
answered-IsBalanced (refused code) s t bufs held few count sending =
    elim (Bool-cases (code == 10054 || code == 10053)) [
      | inl e ↦ rw e (record { count = omega arith; kept = ground arith }, inl refl)
      | inr e ↦ rw e (record { count = omega arith; kept = ground arith }, inl refl)
    ]

module _ (answer : Answer) (st : Store) (s : Session) (held : 0 < s.io_count)
    (few : s.io_count + 1 < 2 ^ 32) where
  pub send_io-IsBalanced :
      Always (λ sent. IsBalanced answer s sent × IsServed sent.session) (send_io answer st s)
  unfolding send_io has_cancel_io_flag increment_io decrement_io cancel_io_regist answered
  send_io-IsBalanced = elim (Bool-cases (s.cancel_io_flag == 1)) [
    | inl e ↦
        rw e (nothing-IsBalanced answer s held few s refl, inl ((==_iff s.cancel_io_flag 1).0 e))
    | inr e ↦ rw e (elim (Bool-cases (s.send_flag == 1)) [
      | inl f ↦
          rw f (nothing-IsBalanced answer s held few s refl, inr (inl ((==_iff s.send_flag 1).0 f)))
      | inr f ↦ rw f (elim (Bool-cases (length s.send_buffer == 0)) [
        | inl g ↦ rw g (
          nothing-IsBalanced answer s held few (record s { send_flag = 0 }) refl,
          inr (inr ((==_iff (length s.send_buffer) 0).0 g)),
        )
        | inr g ↦ rw g (
            Always-bind (λ (bufs, t). Keeps begun t)
              (λ sent. IsBalanced answer s sent × IsServed sent.session) _
              (gather st begun (length s.send_buffer) 0)
              (gather-Keeps st begun (length s.send_buffer) 0 s.send_buffer s.sended_buffer)
              (λ (bufs, t) k.
                answered-IsBalanced answer s t bufs held few (omega (arith, k.count)) k.sending))
      ])
    ])
  ]
    where
      begun : Session
      begun = record s { send_flag = 1; io_count = (s.io_count + 1) % 2 ^ 32 }

recv_answered-IsBalanced :
    (answer : Answer) (s t : Session) (bufs : List (ℕ × ℕ))
    → 0 < s.io_count
    → s.io_count + 1 < 2 ^ 32
    → t.io_count ≡ s.io_count + 1
    → IsServed t
    → IsBalanced answer s (recv_answered answer t bufs)
      × IsServed (recv_answered answer t bufs).session
unfolding recv_answered cancel_io_regist decrement_io
recv_answered-IsBalanced accepted s t bufs held few count served =
    (record { count = count; kept = refl }, served)
recv_answered-IsBalanced (refused code) s t bufs held few count served =
    (record { count = omega arith; kept = ground arith }, inl refl)

-- `recvIO` counts its request, and what is queued stays served.
pub recv_io-IsBalanced :
    (answer : Answer) (s : Session)
    → 0 < s.io_count
    → s.io_count + 1 < 2 ^ 32
    → IsServed s
    → IsBalanced answer s (recv_io answer s) × IsServed (recv_io answer s).session
unfolding recv_io has_cancel_io_flag increment_io
recv_io-IsBalanced answer s held few served = elim (Bool-cases (s.cancel_io_flag == 1)) [
  | inl e ↦ rw e (nothing-IsBalanced answer s held few s refl, served)
  | inr e ↦ rw e (
      recv_answered-IsBalanced answer s (increment_io s).1 (recv_buffers s.recv_buffer) held few
        (omega arith) served)
]
