-- ===== src/LockFreeQueue/Push.antt =====
-- A push takes a free node and puts it behind the last, and fails when there is none.
use login_server.Base.{
  ℕ, suc, ◌+◌, ◌%◌, ◌^◌, ◌<◌, ◌≡◌, refl, sym, ap, ap₂, ◌∙◌, Bool, true, false, some, List, [], ◌∷◌,
  ◌++◌, map-append, count, ne_of_count, length-append, arith, ◌==◌, if◌then◌else◌,
}
use login_server.LockFreeQueue.{
  Node, Queue, make_key, make_nodeptr, set_node, alloc, link, push_node, push,
}
use login_server.LockFreeQueue.Links.{
  places, last, make_nodeptr-make_key, make_key-ne-zero, count-last, Linked-same, Free-same,
  values-same, Linked-append, Linked-last, last-append, count-places-append,
}
use login_server.LockFreeQueue.Rep.{IsQueue, values}

is_node : (f : ℕ) → 0 < f → (f == 0) ≡ false
is_node f h = ground arith

null_test : (n : ℕ) → n ≡ 0 → (n == 0) ≡ true
null_test n e = ground arith

abbrev at_most_one : Bool → ℕ
at_most_one b = if b then 1 else 0

module _ (q : Queue) (ks : List ℕ) (f : ℕ) (fs : List ℕ) (v : IsQueue q ks (f ∷ fs)) (t : ℕ) where
  abbrev count_now : ℕ
  count_now = (q.pushs + 1) % 2 ^ 64

  abbrev pub new : ℕ
  new = make_key f count_now

  new-place : make_nodeptr new ≡ f
  new-place = make_nodeptr-make_key f count_now v.free.2

  -- The nodes once the new one is filled, and once it is linked.
  abbrev filled : ℕ → Node
  filled b = if b == f then record (q.node f) { value = t; key = 0 } else q.node b

  abbrev linked : ℕ → Node
  linked b =
      if b == make_nodeptr q.tail
      then record (filled (make_nodeptr q.tail)) { key = new }
      else filled b

  abbrev pub pushed : Queue
  pushed = record q {
    node = linked;
    pushs = count_now;
    tail = new;
    size = q.size + 1;
    top_key = (q.node f).pool_next;
  }

  apart : count f (places (q.head ∷ ks)) ≡ 0
  apart = ground (arith, v.once f)

  end_apart : (make_nodeptr q.tail == f) ≡ false
  end_apart =
      ap (λ k. make_nodeptr k == f) v.ends
      ∙ ne_of_count f (make_nodeptr (last q.head ks)) (places (q.head ∷ ks)) apart
          (count-last q.head ks)

  end_null : (filled (make_nodeptr q.tail)).key ≡ 0
  end_null =
      rw end_apart
        (ap (λ k. (q.node (make_nodeptr k)).key) v.ends ∙ Linked-last q.node q.head ks v.linked)

  new_count : (a : ℕ) → at_most_one (make_nodeptr new == a) ≡ at_most_one (f == a)
  new_count a = ap (λ b. at_most_one (b == a)) new-place

  alloc_steps :
      alloc (record q { pushs = count_now })
      ≡ some (f, record q { pushs = count_now; top_key = (q.node f).pool_next })
  unfolding alloc
  alloc_steps = rw (v.free.0, is_node f v.free.1) refl

  pub push_steps : (fuel : ℕ) → push (suc fuel) q t ≡ some (true, pushed)
  unfolding push push_node link set_node
  push_steps fuel =
      ap (push_node (suc fuel) t (record q { pushs = count_now })) alloc_steps
      ∙ rw (null_test (filled (make_nodeptr q.tail)).key end_null) refl

  pub pushed-IsQueue : IsQueue pushed (ks ++ (new ∷ [])) fs
  pushed-IsQueue = record {
    linked =
        Linked-append filled linked new q.head ks (λ a. ground (arith, v.ends))
          (λ a. omega (arith, v.once a))
          (ap (λ a. count a (places (q.head ∷ ks))) new-place ∙ apart)
          (ap (λ a. (filled a).key) new-place ∙ ground arith)
          (make_key-ne-zero f count_now v.free.1 v.free.2)
          (Linked-same q.node filled q.head ks
            (λ a h. ground (arith, ne_of_count f a (places (q.head ∷ ks)) apart h)) v.linked);
    ends = sym (last-append q.head new ks);
    free = Free-same q.node linked (q.node f).pool_next fs (λ a h. ground arith) v.free.3;
    once = λ a. omega (arith, v.once a, count-places-append a new ks, new_count a);
    nonzero = ground (arith, v.nonzero, count-places-append 0 new ks, new_count 0, v.free.1);
    small = λ a h. ground (arith, v.small a, count-places-append a new ks, new_count a, v.free.2);
    sized = omega (arith, v.sized, length-append ks (new ∷ []));
  }

  pub pushed-values : values pushed (ks ++ (new ∷ [])) ≡ values q ks ++ (t ∷ [])
  pushed-values =
      map-append (λ k. (linked (make_nodeptr k)).value) ks (new ∷ [])
      ∙ ap₂ ◌++◌
          (values-same q.node linked ks
            (λ a h. ground (arith, ne_of_count f a (places ks) (ground (arith, apart)) h)))
          (ap (λ a. (linked a).value ∷ []) new-place ∙ ground (arith, end_apart))
