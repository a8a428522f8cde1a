-- ===== src/Packet/Counted.antt =====
-- The counter of a serializer is the number of its references, and the pool gets it back once for
-- each time that it gave it out.
use login_server.Base.{ℕ, ◌+◌, ◌^◌, ◌<◌, ◌≡◌, [], count, arith, ltb, if◌then◌else◌}
use login_server.Serializer.{Serializer, clear, move_front, move_rear}
use login_server.Packet.{
  release, new_packet, drop_packet, copy_packet, assign_packet, Owned, more, fewer, Step, makes,
  copies, drops, assigns, Steps, done, then_step,
}

pub record IsCounted (x : Owned) : Type 0 where
  pub counter : (a : ℕ) → (x.store.cell a).reference_counter ≡ x.held a
  pub few : (a : ℕ) → x.held a < 2 ^ 31
  pub once :
      (a : ℕ) → count a x.store.allocs ≡ count a x.store.frees + (if ltb 0 (x.held a) then 1 else 0)

Step-IsCounted : {x y : Owned} → IsCounted x → Step x y → IsCounted y
unfolding more fewer new_packet drop_packet copy_packet assign_packet release clear move_front
    move_rear
Step-IsCounted v (makes x a new) = record {
  counter = λ b. ground (arith, v.counter b, v.counter a);
  few = λ b. ground (arith, v.few b);
  once = λ b. ground (arith, v.once b);
}
Step-IsCounted v (copies x a own few) = record {
  counter = λ b. ground (arith, v.counter b, v.counter a);
  few = λ b. ground (arith, v.few b);
  once = λ b. ground (arith, v.once b);
}
Step-IsCounted v (drops x a own) = record {
  counter = λ b. ground (arith, v.counter b, v.counter a, v.few a);
  few = λ b. ground (arith, v.few b);
  once = λ b. ground (arith, v.once b, v.counter a, v.few a);
}
Step-IsCounted v (assigns x b a own from few) = record {
  counter = λ c. ground (arith, v.counter a, v.counter b, v.counter c, v.few b);
  few = λ c. ground (arith, v.few c);
  once = λ c. ground (arith, v.once c, v.counter a, v.counter b, v.few b);
}

-- Before the first packet: every serializer of the pool has the counter of its constructor.
abbrev pub untouched : (ℕ → Serializer) → Owned
untouched cell = record { store = record { cell = cell; allocs = []; frees = [] }; held = λ a. 0 }

Steps-IsCounted : {x y : Owned} → IsCounted x → Steps x y → IsCounted y
Steps-IsCounted v (done x) = v
Steps-IsCounted v (then_step before last) = Step-IsCounted (Steps-IsCounted v before) last

-- However handles are made, copied, assigned and dropped, from a pool whose serializers have a counter
-- of 0: the counter of each serializer is the number of its references; while there is one, the pool
-- has given it out once more than it got it back; and when there is none, it has got it back.
pub counter-held :
    (cell : ℕ → Serializer)
    → ((a : ℕ) → (cell a).reference_counter ≡ 0)
    → {y : Owned} → Steps (untouched cell) y
    → (a : ℕ)
    → ((y.store.cell a).reference_counter ≡ y.held a)
      × (0 < y.held a → count a y.store.allocs ≡ count a y.store.frees + 1)
      × (y.held a ≡ 0 → count a y.store.allocs ≡ count a y.store.frees)
counter-held cell zero_counter {y} run a =
    let v = Steps-IsCounted start run in
    (v.counter a, (λ h. ground (arith, v.once a)), (λ h. ground (arith, v.once a)))
  where
    start : IsCounted (untouched cell)
    start = record { counter = zero_counter; few = λ b. omega arith; once = λ b. omega arith }
