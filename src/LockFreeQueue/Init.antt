-- ===== src/LockFreeQueue/Init.antt =====
-- The pool and the queue as the constructors leave them.
use login_server.Base.{
  ℕ, suc, ◌+◌, ◌-◌, ◌%◌, ◌^◌, ◌≤◌, ◌<◌, ◌≡◌, refl, ap, subst, ◌∙◌, false, some, List, [], ◌∷◌,
  count, length, arith, ◌==◌, if◌then◌else◌, ◌>>=◌,
}
use login_server.LockFreeQueue.{Queue, Node, make_key, make_nodeptr, set_node, alloc, fill, init}
use login_server.LockFreeQueue.Links.{Free, Free-same, make_nodeptr-make_key, make_nodeptr_small}
use login_server.LockFreeQueue.Rep.{IsQueue}
use login_server.LockFreeQueue.Fifo.{Call, run, fifo, run-fifo}

-- Different addresses of nodes, below the bits that a key takes for its number.
pub record IsPool (places : List ℕ) : Type 0 where
  pub once : (a : ℕ) → count a places ≤ 1
  pub positive : (a : ℕ) → 0 < count a places → 0 < a
  pub small : (a : ℕ) → 0 < count a places → a < 2 ^ 48

abbrev stacked : List ℕ → List ℕ → List ℕ
stacked [] fs = fs
stacked (a ∷ places) fs = stacked places (a ∷ fs)

count-stacked :
    (b : ℕ) (places fs : List ℕ) → count b (stacked places fs) ≡ count b places + count b fs
count-stacked b [] fs = omega arith
count-stacked b (a ∷ places) fs = omega (arith, count-stacked b places (a ∷ fs))

length-stacked : (places fs : List ℕ) → length (stacked places fs) ≡ length places + length fs
length-stacked [] fs = omega arith
length-stacked (a ∷ places) fs = omega (arith, length-stacked places (a ∷ fs))

fill-Free :
    (q : Queue) (places fs : List ℕ)
    → IsPool (stacked places fs)
    → Free q.node q.top_key fs
    → Free (fill q places).node (fill q places).top_key (stacked places fs)
unfolding fill set_node
fill-Free q [] fs p free = free
fill-Free q (a ∷ places) fs p free =
    fill-Free
      (record q {
        node = stored;
        top_key = make_key a q.push_count;
        push_count = (q.push_count + 1) % 2 ^ 64;
      })
      places (a ∷ fs) p
      (
        make_nodeptr-make_key a q.push_count below,
        p.positive a here,
        below,
        subst (λ k. Free stored k fs) (ground arith)
            (Free-same q.node stored q.top_key fs
              (λ b h. ground (arith, p.once b, count-stacked b places (a ∷ fs))) free),
      )
  where
    stored : ℕ → Node
    stored b = if b == a then record (q.node a) { pool_next = q.top_key } else q.node b

    here : 0 < count a (stacked places (a ∷ fs))
    here = ground (arith, count-stacked a places (a ∷ fs))

    below : a < 2 ^ 48
    below = p.small a here

stacked-IsPool : (places : List ℕ) → IsPool places → IsPool (stacked places [])
stacked-IsPool places p = record {
  once = λ a. omega (arith, p.once a, count-stacked a places []);
  positive = λ a h. p.positive a (omega (arith, count-stacked a places []));
  small = λ a h. p.small a (omega (arith, count-stacked a places []));
}

-- The queue made of a pool whose first free node is at `f`.
module _ (q : Queue) (f : ℕ) (fs : List ℕ) (p : IsPool (f ∷ fs))
    (free : Free q.node q.top_key (f ∷ fs)) where
  abbrev fresh : Queue
  fresh = record q {
    node = λ b. if b == f then record (q.node f) { key = 0 } else q.node b;
    pushs = 0;
    head = f;
    tail = f;
    size = 0;
    top_key = (q.node f).pool_next;
  }

  is_node : (f == 0) ≡ false
  is_node = ground (arith, free.1)

  init_steps : init q ≡ some fresh
  unfolding init alloc set_node
  init_steps = rw (free.0, is_node) refl

  place : (a : ℕ) → count a (make_nodeptr f ∷ []) ≡ count a (f ∷ [])
  place a = ap (λ b. count a (b ∷ [])) (make_nodeptr_small f free.2)

  fresh-IsQueue : IsQueue fresh [] fs
  fresh-IsQueue = record {
    linked = ap (λ a. (fresh.node a).key) (make_nodeptr_small f free.2) ∙ ground arith;
    ends = refl;
    free =
        Free-same q.node fresh.node (q.node f).pool_next fs (λ a h. ground (arith, p.once a))
          free.3;
    once = λ a. ground (arith, p.once a, place a);
    nonzero = ground (arith, place 0, free.1);
    small = λ a h. ground (arith, place a, free.2);
    sized = refl;
  }

-- What the constructor makes from different addresses of nodes: an empty queue with one node less.
pub init-IsQueue :
    (q : Queue) (places : List ℕ)
    → make_nodeptr q.top_key ≡ 0
    → 0 < length places
    → IsPool places
    → (r : Queue) × (fs : List ℕ) × (init (fill q places) ≡ some r)
      × IsQueue r [] fs
      × (length fs + 1 ≡ length places)
init-IsQueue q places h n p =
    first (stacked places []) (stacked-IsPool places p)
      (fill-Free q places [] (stacked-IsPool places p) h) (length-stacked places [])
  where
    first :
        (fs : List ℕ)
        → IsPool fs
        → Free (fill q places).node (fill q places).top_key fs
        → length fs ≡ length places + 0
        → (r : Queue) × (fs : List ℕ) × (init (fill q places) ≡ some r)
          × IsQueue r [] fs
          × (length fs + 1 ≡ length places)
    first [] w free e = absurd (omega arith)
    first (f ∷ fs) w free e = (
      fresh (fill q places) f fs w free,
      fs,
      init_steps (fill q places) f fs w free,
      fresh-IsQueue (fill q places) f fs w free,
      omega (arith, e),
    )

-- From different addresses of nodes for its pool, `malloc`ed in any order, the constructor makes a
-- queue that answers every sequence of calls as an empty first-in-first-out sequence does that has
-- room for one value less than there are nodes.
pub init-fifo :
    (q : Queue) (places : List ℕ) (fuel : ℕ) (calls : List Call)
    → make_nodeptr q.top_key ≡ 0
    → 0 < length places
    → IsPool places
    → (init (fill q places) >>= λ r. run (suc fuel) r calls)
      ≡ some (fifo (length places - 1) [] calls)
init-fifo q places fuel calls h n p =
    let (r, fs, makes, v, rest) = init-IsQueue q places h n p in
    rw (makes, run-fifo r [] fs fuel calls v)
      (ap (λ m. some (fifo m [] calls)) (omega (arith, rest)))
