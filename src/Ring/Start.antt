-- ===== src/Ring/Start.antt =====
-- A ring from its constructor on.
use login_server.Base.{
  get_or, ℕ, ◌+◌, ◌*◌, ◌^◌, ◌≡◌, ◌<◌, ◌≤◌, ap, ◌∙◌, arith, some, List, [], length,
}
use login_server.Ring.{Ring, init}
use login_server.Ring.Index.{span, place, init-IsValid}
use login_server.Ring.Contents.{contents, tabulate}
use login_server.Ring.Queue
use login_server.Ring.Queue.{Op}
use login_server.Ring.Refine.{run, run_refines}

contents-none : (r : Ring) → span r ≡ 0 → contents r ≡ []
contents-none r e =
    ap
      (tabulate (λ i. get_or r.buffer (place r.buffer_size (place r.buffer_size r.head_ptr 1) i) 0))
      e

-- For a size above 0 of which the logarithm, rounded up, is at most 30: the constructor makes a ring
-- that answers any sequence of calls as an empty queue does, without an access outside its block, and
-- that takes at least the size less one and fewer than twice the size less one bytes.
pub run-init :
    (ceil_log2 : ℕ → ℕ) (new_bytes : ℕ → List ℕ) (n : ℕ)
    → 0 < n
    → n ≤ 2 ^ ceil_log2 n
    → 2 ^ ceil_log2 n < 2 * n
    → ceil_log2 n ≤ 30
    → ((k : ℕ) → length (new_bytes k) ≡ k)
    → (ops : List Op)
    → (room : ℕ) × (n ≤ room + 1)
      × (room + 1 < 2 * n)
      × (run (init ceil_log2 new_bytes n) ops ≡ some (Queue.run room [] ops))
run-init ceil_log2 new_bytes n some_size up close small new ops =
    let r = init ceil_log2 new_bytes n in
    let (v, none_held, room) = init-IsValid ceil_log2 new_bytes n some_size small new in
    (
      r.max_size,
      omega (arith, up, room),
      omega (arith, close, room),
      run_refines ops r v ∙ ap (λ q. some (Queue.run r.max_size q ops)) (contents-none r none_held),
    )
