-- ===== src/LockFreeQueue/Pop.antt =====
-- A pop gives the oldest value and frees the node in front of it.
use login_server.Base.{
  ℕ, suc, ◌+◌, ◌-◌, ◌%◌, ◌^◌, ◌<◌, ◌≡◌, refl, ap, ◌∙◌, false, some, List, ◌∷◌, count, arith, ◌==◌,
  if◌then◌else◌, subst, Bool-cases, inl, inr, ==_iff,
}
use login_server.LockFreeQueue.{Node, Queue, make_key, make_nodeptr, set_node, free, unlink, pop}
use login_server.LockFreeQueue.Links.{
  places, last, Free, make_nodeptr-make_key, count-last, Linked-same, Free-same, values-same,
}
use login_server.LockFreeQueue.Rep.{IsQueue, values}

module _ (q : Queue) (k : ℕ) (ks fs : List ℕ) (v : IsQueue q (k ∷ ks) fs) where
  abbrev pub front : ℕ
  front = make_nodeptr q.head

  abbrev freed : ℕ → Node
  freed b =
      if b == front then record (q.node front) { key = k; pool_next = q.top_key } else q.node b

  abbrev count_now : ℕ
  count_now = (q.push_count + 1) % 2 ^ 64

  abbrev pub popped : Queue
  popped = record q {
    node = freed;
    head = k;
    size = q.size - 1;
    top_key = make_key front count_now;
    push_count = count_now;
  }

  apart : count front (places (k ∷ ks)) ≡ 0
  apart = ground (arith, v.once front)

  front-pos : 0 < front
  front-pos = ground (arith, v.nonzero)

  front-lt : front < 2 ^ 48
  front-lt = v.small front (ground arith)

  not_last : (q.head == q.tail) ≡ false
  not_last = elim (Bool-cases (q.head == q.tail)) [
    | inl e ↦
        let same : front ≡ make_nodeptr (last k ks) =
          ap make_nodeptr ((==_iff q.head q.tail).0 e ∙ v.ends) in
        absurd (omega (arith, apart, count-last k ks, ap (λ a. count a (places (k ∷ ks))) same))
    | inr e ↦ e
  ]

  value_kept : (freed (make_nodeptr k)).value ≡ (q.node (make_nodeptr k)).value
  value_kept = ground arith

  unlink_steps :
      (fuel : ℕ)
      → unlink (suc fuel) (record q { size = q.size - 1 })
        ≡ some ((freed (make_nodeptr k)).value, popped)
  unfolding unlink free set_node
  unlink_steps fuel = rw (v.linked.0, v.linked.1, not_last) refl

  pub pop_steps :
      (fuel : ℕ) → pop (suc fuel) q ≡ some (some (q.node (make_nodeptr k)).value, popped)
  unfolding pop
  pop_steps fuel =
      rw (some_held q.size (omega (arith, v.sized)), unlink_steps fuel)
        (ap (λ t. some (some t, popped)) value_kept)
    where
      some_held : (n : ℕ) → 0 < n → (n == 0) ≡ false
      some_held n h = ground arith

  pub popped-IsQueue : IsQueue popped ks (front ∷ fs)
  popped-IsQueue = record {
    linked = Linked-same q.node freed k ks (λ a h. ground arith) v.linked.2;
    ends = v.ends;
    free = (
      make_nodeptr-make_key front count_now front-lt,
      front-pos,
      front-lt,
      subst (λ p. Free freed p fs) (ground arith)
          (Free-same q.node freed q.top_key fs (λ a h. ground (arith, v.once a)) v.free),
    );
    once = λ a. omega (arith, v.once a);
    nonzero = omega (arith, v.nonzero);
    small = λ a h. v.small a (omega arith);
    sized = omega (arith, v.sized);
  }

  pub popped-values : values popped ks ≡ values q ks
  popped-values = values-same q.node freed ks (λ a h. ground arith)
