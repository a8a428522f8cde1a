-- ===== src/Network/Array/Sessions.antt =====
-- What `getSessionCount` and `acceptThread` find, whatever the threads have done since `start`.
use login_server.Base.{
  ℕ, zero, suc, ◌+◌, ◌-◌, ◌^◌, ◌≡◌, ◌<◌, ◌≤◌, refl, arith, true, some, List, [], ◌∷◌, count, ◌==◌,
  inl, inr,
}
use login_server.Base.Results.{Always, of_Always}
use login_server.Session.{Session, increment_io, init_fields}
use login_server.Network.{Slot, begin_init, get_index}
use login_server.Network.Ids.{get_index-make_session_id}
use login_server.Network.Array.{Array, set_slot, start, accept, get_session_count, Moves, AreKnown}
use login_server.Network.Array.Stack.{sum_below, sum_same, length-sum_below}
use login_server.Network.Array.Members.{IsMember, IsArray, once, Moves-IsArray, start-IsArray}

off_stack :
    (f : ℕ → ℕ) (n : ℕ)
    → ((i : ℕ) → i < n → f i ≤ 1)
    → sum_below (λ i. 1 - f i) n + sum_below f n ≡ n
off_stack f zero h = refl
off_stack f (suc n) h = omega (arith, h n (omega arith), off_stack f n (λ i lt. h i (omega arith)))

opening-none : (i : ℕ) (x : Slot) → IsMember i x → x.stacked ≡ 1 → x.opening ≡ 0
opening-none i x (inl w) on = omega (arith, w.one, on)
opening-none i x (inr w) on = omega (arith, w.sound.once, on)

-- What is so of an index that `acceptThread` takes.
abbrev IsFree : ℕ → ℕ → ℕ → Array → ℕ → Type 0
IsFree sock port ip x i =
    (i < x.max_session)
    × ((x.slots i).stacked ≡ 1)
    × ((x.slots i).opening ≡ 0)
    × (count i (accept sock port ip x).1.index_stack ≡ 0)
    × (get_index ((accept sock port ip x).1.slots i).session.id ≡ i)

accept-IsFree :
    (sock port ip : ℕ) (x : Array) (stack : List ℕ)
    → IsArray (record x { index_stack = stack })
    → Always
        (IsFree sock port ip (record x { index_stack = stack }))
        (accept sock port ip (record x { index_stack = stack })).0
unfolding accept set_slot begin_init init_fields increment_io
accept-IsFree sock port ip x [] v = record {}
accept-IsFree sock port ip x (i ∷ rest) v =
    let below : i < x.max_session = ground (arith, v.within i) in
    let m = v.member i below in
    let on : (x.slots i).stacked ≡ 1 = ground (arith, v.same i below, once i (x.slots i) m) in
    let itself : (i == i) ≡ true = ground arith in
    (
      below,
      on,
      opening-none i (x.slots i) m on,
      ground (arith, v.same i below, on),
      rw itself (get_index-make_session_id x.session_count i (omega (arith, v.small, below))),
    )

module _ {y : Array} (n : ℕ) (made : ℕ → Session) (small : n < 2 ^ 16)
    (run : Moves (start n made) y) (known : AreKnown run) where
  right : IsArray y
  right = Moves-IsArray (start-IsArray n made small) run known

  -- However the threads' steps follow on `start`, as long as none takes a reference to a session that was
  -- never opened: `getSessionCount` is the number of sessions whose
  -- index is not on the stack.
  pub get_session_count-off_stack :
      get_session_count y ≡ sum_below (λ i. 1 - (y.slots i).stacked) y.max_session
  unfolding get_session_count
  get_session_count-off_stack = omega (
    arith,
    right.small,
    length-sum_below y.index_stack y.max_session right.within,
    sum_same (λ i. count i y.index_stack) (λ i. (y.slots i).stacked) y.max_session right.same,
    off_stack (λ i. (y.slots i).stacked) y.max_session
        (λ i lt. once i (y.slots i) (right.member i lt)),
  )

  -- However the threads' steps follow on `start`, as long as none takes a reference to a session that was
  -- never opened: an index that `acceptThread` takes from the stack is
  -- one of the array, of a session that is released and not inside `init`; it is not on the stack any
  -- more, and the number that its session gets says the index.
  pub accept-free :
      (sock port ip i : ℕ)
      → (accept sock port ip y).0 ≡ some i
      → (i < y.max_session)
        × ((y.slots i).stacked ≡ 1)
        × ((y.slots i).opening ≡ 0)
        × (count i (accept sock port ip y).1.index_stack ≡ 0)
        × (get_index ((accept sock port ip y).1.slots i).session.id ≡ i)
  accept-free sock port ip i took =
      of_Always (IsFree sock port ip y) (accept sock port ip y).0 i
        (accept-IsFree sock port ip y y.index_stack right) took
