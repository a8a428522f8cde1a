-- ===== src/Tests/RingTests.antt =====
-- The ring of loginServer/lib/IOCP netServer/ringBuffer.cpp on a block of four bytes.
use login_server.Base.{
  ℕ, ◌+◌, ◌≤◌, ◌<◌, ◌≡◌, refl, some, List, [], ◌∷◌, arith, replicate, length-replicate,
}
use login_server.Ring.{Ring, init}
use login_server.Ring.Index.{IsValid}
use login_server.Ring.Start.{run-init}
use login_server.Ring.Contents.{contents}
use login_server.Ring.Queue
use login_server.Ring.Queue.{Op, pushes, pops, peeks, clears}
use login_server.Ring.Refine.{run, run_refines}

-- 13, then 10, round the end of the block
abbrev wrapped : Ring
wrapped = record {
  buffer_size = 4;
  max_size = 3;
  buffer = 10 ∷ 11 ∷ 12 ∷ 13 ∷ [];
  head_ptr = 2;
  tail_ptr = 0;
}

wrapped-IsValid : IsValid wrapped
wrapped-IsValid = record {
  width = 2;
  power = refl;
  width_small = omega arith;
  mask = refl;
  block = refl;
  head_in = omega arith;
  tail_in = omega arith;
}

contents-wrapped : contents wrapped ≡ 13 ∷ 10 ∷ []
contents-wrapped = refl

abbrev script : List Op
script =
    peeks 9 ∷ pushes (1 ∷ 2 ∷ []) ∷ pops 2 ∷ pushes (3 ∷ 4 ∷ []) ∷ pops 9 ∷ clears ∷ pops 1 ∷ []

run_refines_example :
    run wrapped script
    ≡ some (
        (2, 13 ∷ 10 ∷ [])
        ∷ (1, [])
        ∷ (2, 13 ∷ 10 ∷ [])
        ∷ (2, [])
        ∷ (3, 1 ∷ 3 ∷ 4 ∷ [])
        ∷ (0, [])
        ∷ (0, [])
        ∷ [])
unfolding Queue.run Queue.step
run_refines_example = run_refines script wrapped wrapped-IsValid

-- A session's receive ring of 256 bytes.
abbrev log_256 : ℕ → ℕ
log_256 n = 8

abbrev zeros : ℕ → List ℕ
zeros n = replicate n 0

run-init_example :
    (room : ℕ) × (200 ≤ room + 1)
    × (room + 1 < 400)
    × (run (init log_256 zeros 200) script ≡ some (Queue.run room [] script))
run-init_example =
    run-init log_256 zeros 200 (omega arith) (omega arith) (omega arith) (omega arith)
      (λ k. length-replicate k 0) script

-- For the size 0 the ring has no byte, and a mask of 32 ones.
no_size : (init log_256 zeros 0).max_size ≡ 4294967295
unfolding init
no_size = refl
