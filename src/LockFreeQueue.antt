-- ===== src/LockFreeQueue.antt =====
-- loginServer/lib/IOCP netServer/LockFreeQueue.h: the queue of packets to send, a linked list of nodes
-- from a pool of its own. A key is the address of a node with a number above it. Each call is taken
-- without interruption, so that its compare-and-exchanges find what the call has read before; the
-- loops are those of the source, on fuel.
pub mod Links
pub mod Rep
pub mod Push
pub mod Pop
pub mod Fifo
pub mod Init
use login_server.Base.{
  ℕ, zero, suc, ◌+◌, ◌-◌, ◌*◌, ◌%◌, ◌^◌, Bool, true, false, Option, none, some, List, [], ◌∷◌, ◌==◌,
  if◌then◌else◌, ◌>>=◌, bit_and, bit_or,
}

pub record Node : Type 0 where
  pub value : ℕ
  pub key : ℕ
  pub pool_next : ℕ

-- The queue with its `nodePool`, of which `top_key` and `push_count` are kept.
pub record Queue : Type 0 where
  pub node : ℕ → Node
  pub pushs : ℕ
  pub head : ℕ
  pub tail : ℕ
  pub size : ℕ
  pub top_key : ℕ
  pub push_count : ℕ

unfoldable pub make_key : ℕ → ℕ → ℕ
make_key ptr push_no = bit_or ptr (push_no * 2 ^ 48 % 2 ^ 64)

unfoldable pub make_nodeptr : ℕ → ℕ
make_nodeptr key = bit_and key (2 ^ 48 - 1)

unfoldable pub set_node : Queue → ℕ → Node → Queue
set_node q a n = record q { node = λ b. if b == a then n else q.node b }

-- `nodePool::Alloc`
unfoldable pub alloc : Queue → Option (ℕ × Queue)
alloc q =
    let pop_node = make_nodeptr q.top_key in
    if pop_node == 0
    then none
    else some (pop_node, record q { top_key = (q.node pop_node).pool_next })

-- `nodePool::Free`
unfoldable pub free : Queue → ℕ → Queue
unfolding set_node
free q a =
    let n = (q.push_count + 1) % 2 ^ 64 in
    record (set_node q a (record (q.node a) { pool_next = q.top_key })) {
      push_count = n;
      top_key = make_key a n;
    }

-- The loop of `nodePool(_size)`, over the addresses that `malloc` returns.
unfoldable pub fill : Queue → List ℕ → Queue
unfolding set_node
fill q [] = q
fill q (a ∷ rest) =
    fill
      (record (set_node q a (record (q.node a) { pool_next = q.top_key })) {
        top_key = make_key a q.push_count;
        push_count = (q.push_count + 1) % 2 ^ 64;
      })
      rest

-- The constructor, after the pool's.
unfoldable pub init : Queue → Option Queue
unfolding alloc set_node
init q = do
  (a, r) ← alloc (record q { size = 0; pushs = 0 })
  some (record (set_node r a (record (r.node a) { key = 0 })) { head = a; tail = a })

-- The loop of `push` that links the new node behind the last.
unfoldable pub link : ℕ → Queue → ℕ → Option Queue
unfolding set_node
link zero q new_key = none
link (suc fuel) q new_key =
    let last_node = make_nodeptr q.tail in
    let key = (q.node last_node).key in
    let again = link fuel (record q { tail = key }) new_key in
    if key == 0
    then some (record (set_node q last_node (record (q.node last_node) { key = new_key })) {
      tail = new_key;
    })
    else again

-- `push`, from the answer of `Alloc` on
unfoldable pub push_node : ℕ → ℕ → Queue → Option (ℕ × Queue) → Option (Bool × Queue)
unfolding set_node
push_node fuel t counted none = some (false, counted)
push_node fuel t counted (some (n, r)) =
    link fuel (set_node r n (record (r.node n) { value = t; key = 0 })) (make_key n counted.pushs)
    >>= λ u. some (true, record u { size = u.size + 1 })

unfoldable pub push : ℕ → Queue → ℕ → Option (Bool × Queue)
push fuel q t =
    let counted = record q { pushs = (q.pushs + 1) % 2 ^ 64 } in
    push_node fuel t counted (alloc counted)

-- The loop of `pop`.
unfoldable pub unlink : ℕ → Queue → Option (ℕ × Queue)
unlink zero q = none
unlink (suc fuel) q =
    let key = (q.node (make_nodeptr q.head)).key in
    let again = unlink fuel q in
    let helped = unlink fuel (record q { tail = (q.node (make_nodeptr q.tail)).key }) in
    if key == 0
    then again
    else if q.head == q.tail
    then helped
    else (let r = free (record q { head = key }) (make_nodeptr q.head) in
        some ((r.node (make_nodeptr key)).value, r))

-- `pop`, where `_size` that falls below 0 is counted up again; `none` in the result is false.
unfoldable pub pop : ℕ → Queue → Option (Option ℕ × Queue)
pop fuel q =
    if q.size == 0
    then some (none, q)
    else (unlink fuel (record q { size = q.size - 1 }) >>= λ (t, r). some (some t, r))
