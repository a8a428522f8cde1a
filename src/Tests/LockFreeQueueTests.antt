-- ===== src/Tests/LockFreeQueueTests.antt =====
-- The queue of loginServer/lib/IOCP netServer/LockFreeQueue.h with a pool of three nodes: room for two.
use login_server.Base.{ℕ, ◌≡◌, refl, true, false, none, some, List, [], ◌∷◌, ◌>>=◌, arith}
use login_server.LockFreeQueue.{Queue, fill, init, make_nodeptr}
use login_server.LockFreeQueue.Fifo.{Call, put, take_one, put_reply, take_reply, run}
use login_server.LockFreeQueue.Init.{IsPool, init-fifo}

abbrev pub unmade : Queue
unmade = record {
  node = λ a. record { value = 0; key = 0; pool_next = 0 };
  pushs = 0;
  head = 0;
  tail = 0;
  size = 0;
  top_key = 0;
  push_count = 65535;
}

abbrev places : List ℕ
places = 4096 ∷ 8192 ∷ 12288 ∷ []

places-IsPool : IsPool places
places-IsPool = record {
  once = λ a. ground arith;
  positive = λ a h. ground arith;
  small = λ a h. ground arith;
}

abbrev calls : List Call
calls = put 7 ∷ put 8 ∷ put 9 ∷ take_one ∷ put 9 ∷ take_one ∷ take_one ∷ take_one ∷ []

init-fifo_example :
    (init (fill unmade places) >>= λ r. run 1 r calls)
    ≡ some (
        put_reply true
        ∷ put_reply true
        ∷ put_reply false
        ∷ take_reply (some 7)
        ∷ put_reply true
        ∷ take_reply (some 8)
        ∷ take_reply (some 9)
        ∷ take_reply none
        ∷ [])
unfolding make_nodeptr
init-fifo_example = init-fifo unmade places 0 calls refl (omega arith) places-IsPool
