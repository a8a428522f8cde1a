-- ===== src/Network/Worker/Dispatch.antt =====
-- What holds of a worker's round when it holds of the round for each kind of completion.
use login_server.Base.{
  ℕ, ◌≡◌, inl, inr, Bool-cases, false, some, List, ◌==◌, ==_iff, if◌then◌else◌, ◌>>=◌, not,
}
use login_server.Base.Results.{Always, Always-if}
use login_server.Serializer.{Serializer}
use login_server.Session.Send.{Answer}
use login_server.Network.{request_check, packet_of}
use login_server.Network.Worker.{
  Work, Completion, finish, on_request, on_send, on_recved, worker_event, Reaction,
}

module _ (P : Work → Type 0) (so ro fuel : ℕ) (alloc : ℕ → Serializer)
    (on_recv : Serializer → List Reaction) (answer : Answer) (c : Completion) (w : Work) where
  by_receiver :
      P (finish w)
      → (c.overlap ≡ ro → Always P (on_recved fuel alloc on_recv answer c.transfer w))
      → Always P (
          if c.overlap == ro
          then on_recved fuel alloc on_recv answer c.transfer w
          else some (finish w))
  by_receiver idle received = elim (Bool-cases (c.overlap == ro)) [
    | inl e ↦ rw e (received ((==_iff c.overlap ro).0 e))
    | inr e ↦ rw e idle
  ]

  pub worker_event-Always :
      P (finish w)
      → Always P (
          on_request (request_check c.overlap) answer (packet_of c.overlap) w >>= λ v.
          some (finish v))
      → ((c.transfer == 0) ≡ false → Always P (on_send fuel answer c.transfer w))
      → ((c.transfer == 0) ≡ false
          → c.overlap ≡ ro
          → Always P (on_recved fuel alloc on_recv answer c.transfer w))
      → Always P (worker_event so ro fuel alloc on_recv answer c w)
  unfolding worker_event
  worker_event-Always idle requested sent received = elim (Bool-cases (not c.result)) [
    | inl f ↦ rw f idle
    | inr f ↦ elim (Bool-cases (c.transfer == 0)) [
      | inl g ↦ rw (f, g) requested
      | inr g ↦
          rw (f, g) (Always-if P (c.overlap == so) _ _ (sent g) (by_receiver idle (received g)))
    ]
  ]
