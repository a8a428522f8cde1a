-- ===== src/Ring/Refine.antt =====
-- A well-formed ring behaves as the bounded queue of the bytes that it holds, over any sequence of
-- calls, and no call reads or writes outside its block.
use login_server.Base.{◌≡◌, refl, ap, Option, some, List, [], ◌∷◌, arith, ◌>>=◌, get_or}
use login_server.Ring.{Ring, push, pop, front, clear}
use login_server.Ring.Index.{IsValid, place, span}
use login_server.Ring.Contents.{contents, tabulate}
use login_server.Ring.Window.{length-contents}
use login_server.Ring.Push.{push_lem}
use login_server.Ring.Pop.{pop_lem, front_lem}
use login_server.Ring.Queue
use login_server.Ring.Queue.{Op, pushes, pops, peeks, clears, Reply}

-- A client's calls in order, with what each returns; `none` is a fault.
step : Ring → Op → Option (Reply × Ring)
step r (pushes bytes) = push r bytes >>= λ (n, r'). some ((n, []), r')
step r (pops wanted) = pop r wanted >>= λ (n, bytes, r'). some ((n, bytes), r')
step r (peeks wanted) = front r wanted >>= λ (n, bytes). some ((n, bytes), r)
step r clears = some ((0, []), clear r)

pub run : Ring → List Op → Option (List Reply)
run r [] = some []
run r (op ∷ ops) = step r op >>= λ (reply, r'). run r' ops >>= λ replies. some (reply ∷ replies)

-- What a call does, next to what the queue does.
record Steps (r : Ring) (op : Op) : Type 0 where
  after : Ring
  returns : step r op ≡ some ((Queue.step r.max_size (contents r) op).0, after)
  valid : IsValid after
  same_size : after.max_size ≡ r.max_size
  holds : contents after ≡ (Queue.step r.max_size (contents r) op).1

span-clear : (r : Ring) → span (clear r) ≡ 0
unfolding clear
span-clear r = ground arith

clear-IsValid : {r : Ring} → IsValid r → IsValid (clear r) × (contents (clear r) ≡ [])
unfolding clear
clear-IsValid {r} v = (
  record {
    width = v.width;
    power = v.power;
    width_small = v.width_small;
    mask = v.mask;
    block = v.block;
    head_in = v.tail_in;
    tail_in = v.tail_in;
  },
  ap (tabulate (λ i. get_or r.buffer (place r.buffer_size (place r.buffer_size r.tail_ptr 1) i) 0))
      (span-clear r),
)

step-Steps : (r : Ring) (v : IsValid r) (op : Op) → Steps r op
unfolding step Queue.step
step-Steps r v (pushes bytes) =
    let (r', e, valid, same, holds) = push_lem r v bytes in
    record {
      after = r';
      returns = rw (e, length-contents r) refl;
      valid = valid;
      same_size = same;
      holds = rw (length-contents r) holds;
    }
step-Steps r v (pops wanted) =
    let (r', e, valid, same, holds) = pop_lem r v wanted in
    record {
      after = r';
      returns = rw (e, length-contents r) refl;
      valid = valid;
      same_size = same;
      holds = rw (length-contents r) holds;
    }
step-Steps r v (peeks wanted) = record {
  after = r;
  returns = rw (front_lem r v wanted, length-contents r) refl;
  valid = v;
  same_size = refl;
  holds = refl;
}
step-Steps r v clears = record {
  after = clear r;
  returns = refl;
  valid = (clear-IsValid v).0;
  same_size = unfold clear in refl;
  holds = (clear-IsValid v).1;
}

-- No sequence of calls tells a well-formed ring from the bounded queue of its contents, and none
-- faults.
pub run_refines :
    (ops : List Op) (r : Ring)
    → IsValid r
    → run r ops ≡ some (Queue.run r.max_size (contents r) ops)
unfolding run Queue.run
run_refines [] r v = refl
run_refines (op ∷ ops) r v =
    let s = step-Steps r v op in
    rw (s.returns, run_refines ops s.after s.valid, s.same_size, s.holds) refl
