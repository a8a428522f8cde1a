-- ===== src/Network/Release.antt =====
-- A session that is held is not released, one that is not held will be, and no index is on the stack
-- twice, whatever the order of the threads' steps.
use login_server.Base.{
  ℕ, ◌+◌, ◌*◌, ◌%◌, ◌^◌, ◌≤◌, ◌<◌, ◌≡◌, ◌≢◌, ◌↔◌, arith, ◌==◌, leb, Bool-cases, inl, inr, refl,
  if◌then◌else◌, true, false,
}
use login_server.Session.{Session, increment_io, decrement_io, init_fields, init_open}
use login_server.Network.{
  Slot, try_release, acquire, let_go, delete_session, begin_init, end_init, Step, acquires, lets_go,
  deletes, begins, ends, find_session, Steps, done, then_step,
}

-- The low 31 bits of `IOcount` count the references, and bit 31 says that the index is on the stack
-- or that its session is being opened; the index is on the stack at most once; and a session that is
-- open and not held has a thread that is about to delete it.
pub record IsSound (x : Slot) : Type 0 where
  pub word : x.session.io_count ≡ x.holders + 2 ^ 31 * (x.stacked + x.opening)
  pub few : x.holders < 2 ^ 31
  pub once : x.stacked + x.opening ≤ 1
  pub own : x.opening ≤ x.holders
  pub pending : 0 < x.holders + x.stacked + x.opening + x.deleters

pub Step-IsSound : {x y : Slot} → IsSound x → Step x y → IsSound y
unfolding acquire let_go delete_session begin_init end_init try_release increment_io decrement_io
    init_fields init_open
Step-IsSound v (acquires x few) = record {
  word = omega (arith, v.word, v.once);
  few = few;
  once = v.once;
  own = omega (arith, v.own);
  pending = omega arith;
}
Step-IsSound v (lets_go x held) = record {
  word = ground (arith, v.word, v.once, v.few);
  few = omega (arith, v.few);
  once = v.once;
  own = omega arith;
  pending = ground (arith, v.word, v.once, v.few);
}
Step-IsSound v (deletes x due) = record {
  word = ground (arith, v.word, v.once, v.few);
  few = v.few;
  once = ground (arith, v.word, v.once, v.few);
  own = v.own;
  pending = ground (arith, v.word, v.once, v.few, v.pending);
}
Step-IsSound v (begins x id sock port ip on closed few) = record {
  word = omega (arith, v.word, v.once);
  few = few;
  once = omega (arith, v.once);
  own = omega arith;
  pending = omega arith;
}
Step-IsSound v (ends x inside) = record {
  word = omega (arith, v.word, v.once, v.few);
  few = v.few;
  once = omega (arith, v.once);
  own = omega arith;
  pending = omega (arith, v.own);
}

-- Every order of steps of the threads keeps a session sound.
pub Steps-IsSound : {x y : Slot} → IsSound x → Steps x y → IsSound y
Steps-IsSound v (done x) = v
Steps-IsSound v (then_step before last) = Step-IsSound (Steps-IsSound v before) last

-- A session of the array as its constructor leaves it, when `acceptThread` has opened it for the
-- first time and no other thread has looked for it before.
abbrev pub fresh : Session → Slot
fresh s = record {
  session = record s { io_count = 0 };
  holders = 0;
  deleters = 0;
  stacked = 1;
  opening = 0;
}

abbrev pub first_open : Session → ℕ → ℕ → ℕ → ℕ → Slot
first_open s id sock port ip = end_init (begin_init (fresh s) id sock port ip)

pub first_open-IsSound :
    (s : Session) (id sock port ip : ℕ) → IsSound (first_open s id sock port ip)
unfolding begin_init end_init init_fields init_open increment_io
first_open-IsSound s id sock port ip = record {
  word = omega arith;
  few = omega arith;
  once = omega arith;
  own = omega arith;
  pending = omega arith;
}

-- Whether `findSession` gives a session, from its count and its number.
found :
    (x : Slot) (wanted : ℕ)
    → (find_session x wanted).0
      ≡ (if leb (2 ^ 31) ((x.session.io_count + 1) % 2 ^ 32) then false else x.session.id == wanted)
unfolding find_session acquire increment_io
found x wanted = elim (Bool-cases (leb (2 ^ 31) ((x.session.io_count + 1) % 2 ^ 32))) [
  | inl e ↦ rw e refl
  | inr e ↦ elim (Bool-cases (x.session.id == wanted)) [
    | inl f ↦ rw (e, f) refl
    | inr f ↦ rw (e, f) refl
  ]
]

module _ {y : Slot} (s : Session) (id sock port ip : ℕ)
    (run : Steps (first_open s id sock port ip) y) where
  sound : IsSound y
  sound = Steps-IsSound (first_open-IsSound s id sock port ip) run

  -- However the threads' steps follow on the first `init`: when no reference is held and no thread is
  -- about to call `deleteSession`, the index is on the stack, exactly once.
  pub idle-stacked : y.holders ≡ 0 → y.deleters ≡ 0 → (y.stacked ≡ 1) × (y.opening ≡ 0)
  idle-stacked none_held none_due = omega (arith, sound.pending, sound.once, sound.own)

  -- However the threads' steps follow on the first `init`: `deleteSession` releases the session only
  -- when no reference is held and the index is not on the stack.
  pub delete_session-unheld :
      (delete_session y).stacked ≢ y.stacked → (y.holders ≡ 0) × (y.stacked ≡ 0) × (y.opening ≡ 0)
  unfolding delete_session try_release
  delete_session-unheld released = ground (arith, sound.word)

  -- However the threads' steps follow on the first `init`: `findSession` finds exactly the session
  -- that is open, not released and not inside `init`, under its own number, and holds it then.
  pub find_session-open :
      y.holders + 1 < 2 ^ 31
      → (wanted : ℕ)
      → ((find_session y wanted).0 ≡ true)
        ↔ ((y.stacked ≡ 0) × (y.opening ≡ 0) × (y.session.id ≡ wanted))
  find_session-open few wanted = rw (found y wanted) (ground (arith, sound.word, sound.once, few))
