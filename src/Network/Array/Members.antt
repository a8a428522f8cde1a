-- ===== src/Network/Array/Members.antt =====
-- Every order of the threads' steps on the array in which no session is looked up that was never opened
-- keeps the stack of free indices right.
use login_server.Base.{
  ℕ, ◌+◌, ◌%◌, ◌^◌, ◌≡◌, ◌<◌, ◌≤◌, ◌⊎◌, refl, sym, subst, arith, false, List, [], ◌∷◌, count, ◌==◌,
  if◌then◌else◌, ==_iff, Bool-cases, inl, inr, ap, ◌∙◌,
}
use login_server.Session.{Session, increment_io, decrement_io, init_fields, init_open}
use login_server.Network.{
  Slot, acquire, let_go, delete_session, try_release, begin_init, end_init, acquires, lets_go,
  deletes, begins, ends, make_session_id, get_index,
}
use login_server.Network.Release.{IsSound, Step-IsSound}
use login_server.Network.Ids.{get_index-make_session_id}
use login_server.Network.Array.{
  Array, set_slot, start, accept, delete_at, Move, acquires_at, lets_go_at, deletes_at, accepts,
  ends_at, Moves, no_move, then_move, IsKnown, AreKnown,
}
use login_server.Network.Array.Stack.{count-push_indices}

-- A session that was never opened, or is being opened for the first time: its count has no bit 31.
pub record IsNew (i : ℕ) (x : Slot) : Type 0 where
  pub word : x.session.io_count ≡ x.opening
  pub one : x.stacked + x.opening ≡ 1
  pub own : x.holders ≡ x.opening
  pub none_due : x.deleters ≡ 0
  pub named : (x.opening ≡ 0) ⊎ (get_index x.session.id ≡ i)

-- A session that was opened.
pub record IsOld (i : ℕ) (x : Slot) : Type 0 where
  pub sound : IsSound x
  pub named : get_index x.session.id ≡ i

-- A session of the array, by its index.
abbrev pub IsMember : ℕ → Slot → Type 0
IsMember i x = IsNew i x ⊎ IsOld i x

-- Each index below the bound is as often on the stack as its session says, and no other is.
pub record IsArray (x : Array) : Type 0 where
  pub member : (i : ℕ) → i < x.max_session → IsMember i (x.slots i)
  pub same : (i : ℕ) → i < x.max_session → count i x.index_stack ≡ (x.slots i).stacked
  pub within : (i : ℕ) → x.max_session ≤ i → count i x.index_stack ≡ 0
  pub small : x.max_session < 2 ^ 16

pub once : (i : ℕ) (x : Slot) → IsMember i x → x.stacked ≤ 1
once i x (inl w) = omega (arith, w.one)
once i x (inr w) = omega (arith, w.sound.once)

-- The array with another session at an index, another stack and another count.
abbrev changed : Array → ℕ → Slot → List ℕ → ℕ → Array
changed x i y stack n = record x {
  slots = λ j. if j == i then y else x.slots j;
  index_stack = stack;
  session_count = n;
}

changed-IsArray :
    (x : Array) (i : ℕ) (y : Slot) (stack : List ℕ) (n : ℕ)
    → IsArray x
    → i < x.max_session
    → IsMember i y
    → count i stack ≡ y.stacked
    → ((j : ℕ) → (j == i) ≡ false → count j stack ≡ count j x.index_stack)
    → IsArray (changed x i y stack n)
changed-IsArray x i y stack n v inside m here others = record {
  member = λ j lt. elim (Bool-cases (j == i)) [
    | inl e ↦ rw e (subst (λ k. IsMember k y) (sym ((==_iff j i).0 e)) m)
    | inr e ↦ rw e (v.member j lt)
  ];
  same = λ j lt. elim (Bool-cases (j == i)) [
    | inl e ↦ rw e (ap (λ k. count k stack) ((==_iff j i).0 e) ∙ here)
    | inr e ↦ rw e (others j e ∙ v.same j lt)
  ];
  within = λ j le. others j (apart j le) ∙ v.within j le;
  small = v.small;
}
  where
    apart : (j : ℕ) → x.max_session ≤ j → (j == i) ≡ false
    apart j le = ground (arith, inside)

acquire-IsMember :
    (i : ℕ) (x : Slot)
    → x.holders + 1 < 2 ^ 31
    → (x.stacked + x.opening ≡ 0) ⊎ (2 ^ 31 ≤ x.session.io_count)
    → IsMember i x
    → IsMember i (acquire x)
unfolding acquire increment_io
acquire-IsMember i x few (inl open_now) (inl w) = absurd (omega (arith, open_now, w.one))
acquire-IsMember i x few (inr flagged) (inl w) = absurd (omega (arith, flagged, w.word, w.one))
acquire-IsMember i x few opened (inr w) =
    inr (record { sound = Step-IsSound w.sound (acquires x few); named = w.named })

let_go-IsMember : (i : ℕ) (x : Slot) → x.opening < x.holders → IsMember i x → IsMember i (let_go x)
unfolding let_go decrement_io
let_go-IsMember i x held (inl w) = absurd (omega (arith, held, w.own))
let_go-IsMember i x held (inr w) =
    inr (record { sound = Step-IsSound w.sound (lets_go x held); named = w.named })

end_init-IsMember : (i : ℕ) (x : Slot) → x.opening ≡ 1 → IsMember i x → IsMember i (end_init x)
unfolding end_init init_open
end_init-IsMember i x inside (inl w) = inr (record {
  sound = record {
    word = omega (arith, w.word, w.own, w.one, inside);
    few = omega (arith, w.own, inside);
    once = omega (arith, w.one);
    own = omega (arith, w.own, inside);
    pending = omega (arith, w.own, inside);
  };
  named = elim w.named [ inl e ↦ absurd (omega (arith, e, inside)) | inr e ↦ e ];
})
end_init-IsMember i x inside (inr w) =
    inr (record { sound = Step-IsSound w.sound (ends x inside); named = w.named })

begin_init-IsMember :
    (i : ℕ) (x : Slot) (id sock port ip : ℕ)
    → x.stacked ≡ 1
    → x.holders + 1 < 2 ^ 31
    → get_index id ≡ i
    → IsMember i x
    → IsMember i (begin_init x id sock port ip) × ((begin_init x id sock port ip).stacked ≡ 0)
unfolding begin_init init_fields increment_io
begin_init-IsMember i x id sock port ip on few named (inl w) = (
  inl (record {
    word = omega (arith, w.word, w.one, on);
    one = omega (arith, on);
    own = omega (arith, w.own, w.one, on);
    none_due = w.none_due;
    named = inr named;
  }),
  omega (arith, on),
)
begin_init-IsMember i x id sock port ip on few named (inr w) = (
  inr (record {
    sound =
        Step-IsSound w.sound
          (begins x id sock port ip (omega (arith, on)) (omega (arith, on, w.sound.once)) few);
    named = named;
  }),
  omega (arith, on),
)

-- The stack behind `deleteSession` of an index.
module _ (x : Array) (i : ℕ) (named : get_index (x.slots i).session.id ≡ i) where
  count-delete_at :
      count i x.index_stack ≡ (x.slots i).stacked
      → count i (delete_at i x).index_stack ≡ (delete_session (x.slots i)).stacked
  unfolding delete_at delete_session try_release
  count-delete_at h = elim (Bool-cases ((x.slots i).session.io_count == 0)) [
    | inl e ↦ rw e (ground (arith, named, h))
    | inr e ↦ rw e h
  ]

  count-delete_at-other :
      (j : ℕ) → (j == i) ≡ false → count j (delete_at i x).index_stack ≡ count j x.index_stack
  unfolding delete_at delete_session try_release
  count-delete_at-other j other = elim (Bool-cases ((x.slots i).session.io_count == 0)) [
    | inl e ↦ rw e (ground (arith, named, other))
    | inr e ↦ rw e refl
  ]

delete_at-IsArray :
    (x : Array) (i : ℕ)
    → IsArray x
    → i < x.max_session
    → 0 < (x.slots i).deleters
    → IsArray (delete_at i x)
unfolding delete_at delete_session set_slot try_release
delete_at-IsArray x i v lt due = elim (v.member i lt) [
  | inl w ↦ absurd (omega (arith, due, w.none_due))
  | inr w ↦
      changed-IsArray x i (delete_session (x.slots i)) (delete_at i x).index_stack x.session_count v
        lt
        (inr (record {
          sound = Step-IsSound w.sound (deletes (x.slots i) due);
          named = id-delete_session (x.slots i) ∙ w.named;
        }))
        (count-delete_at x i w.named (v.same i lt)) (count-delete_at-other x i w.named)
]
  where
    id-delete_session :
        (y : Slot) → get_index (delete_session y).session.id ≡ get_index y.session.id
    id-delete_session y = elim (Bool-cases (y.session.io_count == 0)) [
      | inl e ↦ rw e refl
      | inr e ↦ rw e refl
    ]

accept-IsArray :
    (x : Array) (stack : List ℕ) (sock port ip : ℕ)
    → IsArray (record x { index_stack = stack })
    → ((i : ℕ) → i < x.max_session → (x.slots i).holders + 1 < 2 ^ 31)
    → IsArray (accept sock port ip (record x { index_stack = stack })).1
unfolding accept set_slot
accept-IsArray x [] sock port ip v few = v
accept-IsArray x (i ∷ rest) sock port ip v few =
    let below : i < x.max_session = ground (arith, v.within i) in
    let m = v.member i below in
    let on : (x.slots i).stacked ≡ 1 = ground (arith, v.same i below, once i (x.slots i) m) in
    let (m', off) =
      begin_init-IsMember i (x.slots i) (make_session_id x.session_count i) sock port ip on
        (few i below) (get_index-make_session_id x.session_count i (omega (arith, v.small, below)))
        m in
    changed-IsArray (record x { index_stack = i ∷ rest }) i
      (begin_init (x.slots i) (make_session_id x.session_count i) sock port ip) rest
      ((x.session_count + 1) % 2 ^ 32) v below m' (ground (arith, v.same i below, on, off))
      (λ j e. ground (arith, e))

Move-IsArray : {x y : Array} → IsArray x → (move : Move x y) → IsKnown move → IsArray y
unfolding IsKnown set_slot acquire let_go end_init
Move-IsArray v (acquires_at x i lt few) opened =
    changed-IsArray x i (acquire (x.slots i)) x.index_stack x.session_count v lt
      (acquire-IsMember i (x.slots i) few opened (v.member i lt)) (v.same i lt) (λ j e. refl)
Move-IsArray v (lets_go_at x i lt held) known =
    changed-IsArray x i (let_go (x.slots i)) x.index_stack x.session_count v lt
      (let_go-IsMember i (x.slots i) held (v.member i lt)) (v.same i lt) (λ j e. refl)
Move-IsArray v (ends_at x i lt inside) known =
    changed-IsArray x i (end_init (x.slots i)) x.index_stack x.session_count v lt
      (end_init-IsMember i (x.slots i) inside (v.member i lt)) (v.same i lt) (λ j e. refl)
Move-IsArray v (deletes_at x i lt due) known = delete_at-IsArray x i v lt due
Move-IsArray v (accepts x sock port ip few) known =
    accept-IsArray x x.index_stack sock port ip v few

pub Moves-IsArray : {x y : Array} → IsArray x → (run : Moves x y) → AreKnown run → IsArray y
unfolding AreKnown
Moves-IsArray v (no_move x) known = v
Moves-IsArray v (then_move earlier last) known =
    Move-IsArray (Moves-IsArray v earlier known.0) last known.1

pub start-IsArray : (n : ℕ) (made : ℕ → Session) → n < 2 ^ 16 → IsArray (start n made)
unfolding start
start-IsArray n made small = record {
  member = λ i lt.
      inl (record { word = refl; one = refl; own = refl; none_due = refl; named = inl refl });
  same = λ i lt. ground (arith, count-push_indices i n []);
  within = λ i le. ground (arith, count-push_indices i n []);
  small = small;
}
