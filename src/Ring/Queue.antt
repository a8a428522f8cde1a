-- ===== src/Ring/Queue.antt =====
-- What a ring promises: a queue of at most `cap` bytes, oldest first. A push takes what fits, a pop
-- gives what there is.
use login_server.Base.{ℕ, ◌-◌, min, List, [], ◌∷◌, ◌++◌, length, take, drop}

abbrev pub Queue : Type 0
Queue = List ℕ

-- What a client can ask of a ring, and what it gets back: a count, and bytes.
pub data Op : Type 0 where
  pushes : List ℕ → Op
  pops peeks : ℕ → Op
  clears : Op

abbrev pub Reply : Type 0
Reply = ℕ × List ℕ

module _ (cap : ℕ) where
  unfoldable pub step : Queue → Op → Reply × Queue
  step q (pushes bytes) =
      let n = min (length bytes) (cap - length q) in ((n, []), q ++ take n bytes)
  step q (pops wanted) = let n = min wanted (length q) in ((n, take n q), drop n q)
  step q (peeks wanted) = let n = min wanted (length q) in ((n, take n q), q)
  step q clears = ((0, []), [])

  unfoldable pub run : Queue → List Op → List Reply
  run q [] = []
  run q (op ∷ ops) = let (reply, q') = step q op in reply ∷ run q' ops
