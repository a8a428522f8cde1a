-- ===== src/LockFreeQueue/Fifo.antt =====
-- What a client sees of the queue: a first-in-first-out sequence with bounded room.
use login_server.Base.{
  ℕ, zero, suc, ◌+◌, ◌%◌, ◌^◌, ◌≡◌, refl, ap, Bool, true, false, Option, none, some, List, [], ◌∷◌,
  ◌++◌, length, ◌>>=◌,
}
use login_server.LockFreeQueue.{Queue, alloc, push_node, push, pop}
use login_server.LockFreeQueue.Rep.{IsQueue, values}
use login_server.LockFreeQueue.Push.{new, pushed, push_steps, pushed-IsQueue, pushed-values}
use login_server.LockFreeQueue.Pop.{front, popped, pop_steps, popped-IsQueue, popped-values}

-- The calls of a client, and what it gets back.
pub data Call : Type 0 where
  put : ℕ → Call
  take_one : Call

pub data Reply : Type 0 where
  put_reply : Bool → Reply
  take_reply : Option ℕ → Reply

unfoldable pub run : ℕ → Queue → List Call → Option (List Reply)
run fuel q [] = some []
run fuel q (put t ∷ calls) = do
  (b, r) ← push fuel q t
  replies ← run fuel r calls
  some (put_reply b ∷ replies)
run fuel q (take_one ∷ calls) = do
  (t, r) ← pop fuel q
  replies ← run fuel r calls
  some (take_reply t ∷ replies)

-- A sequence that has room for so many values more.
abbrev pub fifo : ℕ → List ℕ → List Call → List Reply
fifo room held [] = []
fifo zero held (put t ∷ calls) = put_reply false ∷ fifo zero held calls
fifo (suc room) held (put t ∷ calls) = put_reply true ∷ fifo room (held ++ (t ∷ [])) calls
fifo room [] (take_one ∷ calls) = take_reply none ∷ fifo room [] calls
fifo room (x ∷ held) (take_one ∷ calls) = take_reply (some x) ∷ fifo (suc room) held calls

-- A push that finds no free node counts itself and does no more.
abbrev pub counted : Queue → Queue
counted q = record q { pushs = (q.pushs + 1) % 2 ^ 64 }

pub push-full :
    (q : Queue) (ks : List ℕ) (fuel t : ℕ)
    → IsQueue q ks []
    → push fuel q t ≡ some (false, counted q)
unfolding push push_node alloc
push-full q ks fuel t v = ap (push_node fuel t (counted q)) no_node
  where
    no_node : alloc (counted q) ≡ none
    no_node = rw v.free refl

pub counted-IsQueue : (q : Queue) (ks fs : List ℕ) → IsQueue q ks fs → IsQueue (counted q) ks fs
counted-IsQueue q ks fs v = record {
  linked = v.linked;
  ends = v.ends;
  free = v.free;
  once = v.once;
  nonzero = v.nonzero;
  small = v.small;
  sized = v.sized;
}

pub pop-empty : (q : Queue) (fs : List ℕ) (fuel : ℕ) → IsQueue q [] fs → pop fuel q ≡ some (none, q)
unfolding pop
pop-empty q fs fuel v = rw v.sized refl

-- A queue that is well-formed answers every sequence of calls as a first-in-first-out sequence
-- does that holds the values of the queue and has as much room as there are free nodes; and each
-- loop ends in its first round.
pub run-fifo :
    (q : Queue) (ks fs : List ℕ) (fuel : ℕ) (calls : List Call)
    → IsQueue q ks fs
    → run (suc fuel) q calls ≡ some (fifo (length fs) (values q ks) calls)
unfolding run
run-fifo q ks fs fuel [] v = refl
run-fifo q ks [] fuel (put t ∷ calls) v =
    rw
      (
        push-full q ks (suc fuel) t v,
        run-fifo (counted q) ks [] fuel calls (counted-IsQueue q ks [] v),
      )
      refl
run-fifo q ks (f ∷ fs) fuel (put t ∷ calls) v =
    rw
      (
        push_steps q ks f fs v t fuel,
        run-fifo (pushed q ks f fs v t) (ks ++ (new q ks f fs v t ∷ [])) fs fuel calls
            (pushed-IsQueue q ks f fs v t),
        pushed-values q ks f fs v t,
      )
      refl
run-fifo q [] fs fuel (take_one ∷ calls) v =
    rw (pop-empty q fs (suc fuel) v, run-fifo q [] fs fuel calls v) refl
run-fifo q (k ∷ ks) fs fuel (take_one ∷ calls) v =
    rw
      (
        pop_steps q k ks fs v fuel,
        run-fifo (popped q k ks fs v) ks (front q k ks fs v ∷ fs) fuel calls
            (popped-IsQueue q k ks fs v),
        popped-values q k ks fs v,
      )
      refl
