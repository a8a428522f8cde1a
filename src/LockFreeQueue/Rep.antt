-- ===== src/LockFreeQueue/Rep.antt =====
-- What a well-formed queue stands for, and the sequence of values that it holds.
use login_server.Base.{ℕ, ◌+◌, ◌^◌, ◌≤◌, ◌<◌, ◌≡◌, List, ◌∷◌, map, count, length}
use login_server.LockFreeQueue.{Queue, make_nodeptr}
use login_server.LockFreeQueue.Links.{places, last, Linked, Free}

-- The chain from `_head`, whose first node holds no value any more, ends at `_tail`; the nodes at
-- `fs` are free; all of them are different nodes; and `_size` counts the values.
pub record IsQueue (q : Queue) (ks fs : List ℕ) : Type 0 where
  pub linked : Linked q.node q.head ks
  pub ends : q.tail ≡ last q.head ks
  pub free : Free q.node q.top_key fs
  pub once : (a : ℕ) → count a (places (q.head ∷ ks)) + count a fs ≤ 1
  pub nonzero : count 0 (places (q.head ∷ ks)) ≡ 0
  pub small : (a : ℕ) → 0 < count a (places (q.head ∷ ks)) → a < 2 ^ 48
  pub sized : q.size ≡ length ks

abbrev pub values : Queue → List ℕ → List ℕ
values q = map (λ k. (q.node (make_nodeptr k)).value)
