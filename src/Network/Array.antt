-- ===== src/Network/Array.antt =====
-- loginServer/lib/IOCP netServer/network.h and network.cpp: the array of sessions with the stack of the
-- indices that are free, as `start` makes them and `acceptThread`, `deleteSession` and
-- `getSessionCount` use them.
pub mod Stack
pub mod Members
pub mod Sessions
pub mod Unused
use login_server.Base.{
  ℕ, zero, suc, ◌+◌, ◌-◌, ◌%◌, ◌^◌, ◌≡◌, ◌<◌, ◌≤◌, ◌⊎◌, Bool, true, false, Option, none, some, List,
  [], ◌∷◌, length, leb, ◌==◌, if◌then◌else◌,
}
use Prim.{Unit}
use login_server.Session.{Session}
use login_server.Network.{
  Slot, acquire, let_go, delete_session, try_release, begin_init, end_init, make_session_id,
  get_index,
}

pub record Array : Type 0 where
  pub slots : ℕ → Slot
  pub index_stack : List ℕ  -- the top first
  pub session_count : ℕ
  pub max_session : ℕ

unfoldable pub set_slot : Array → ℕ → Slot → Array
set_slot x i y = record x { slots = λ j. if j == i then y else x.slots j }

-- The loop of `start` that fills `indexStack`, from `maxSession - 1` down to 0.
unfoldable pub push_indices : ℕ → List ℕ → List ℕ
push_indices zero stack = stack
push_indices (suc i) stack = push_indices i (i ∷ stack)

-- A session as its constructor leaves it, its index on the stack.
abbrev pub new_slot : Session → Slot
new_slot s = record {
  session = record s { id = 0; io_count = 0 };
  holders = 0;
  deleters = 0;
  stacked = 1;
  opening = 0;
}

-- `start`, for the sessions that `new` makes.
unfoldable pub start : ℕ → (ℕ → Session) → Array
start max_session made = record {
  slots = λ i. new_slot (made i);
  index_stack = push_indices max_session [];
  session_count = 0;
  max_session = max_session;
}

-- `acceptThread`, from the lock of the stack into `init`: the index taken, if there is one. Without
-- one the socket is closed.
unfoldable pub accept : ℕ → ℕ → ℕ → Array → Option ℕ × Array
unfolding set_slot
accept sock port ip x = elim x.index_stack [
  | [] ↦ (none, x)
  | i ∷ rest ↦
      let y = begin_init (x.slots i) (make_session_id x.session_count i) sock port ip in
      (
        some i,
        record (set_slot x i y) {
          index_stack = rest;
          session_count = (x.session_count + 1) % 2 ^ 32;
        },
      )
]

-- `deleteSession` of the session at an index, with the push on the stack of what its number says.
unfoldable pub delete_at : ℕ → Array → Array
unfolding set_slot
delete_at i x =
    let (released, s) = try_release (x.slots i).session in
    record (set_slot x i (delete_session (x.slots i))) {
      index_stack = if released then get_index s.id ∷ x.index_stack else x.index_stack;
    }

-- `getSessionCount`
unfoldable pub get_session_count : Array → ℕ
get_session_count x = (x.max_session + 2 ^ 64 - length x.index_stack) % 2 ^ 64

-- `if (decrementIO() == 0) deleteSession(...)` for the session at an index, by a thread that no other
-- one interrupts.
unfoldable pub leave_at : ℕ → Array → Array
unfolding set_slot
leave_at i x =
    let y = let_go (x.slots i) in
    if y.session.io_count == 0 then delete_at i (set_slot x i y) else set_slot x i y

-- `findSession`, by a thread that no other one interrupts; false is a null pointer.
unfoldable pub find_at : ℕ → Array → Bool × Array
unfolding set_slot
find_at id x =
    let i = get_index id in
    let y = acquire (x.slots i) in
    if leb (2 ^ 31) y.session.io_count
    then (false, leave_at i (set_slot x i y))
    else if y.session.id == id
    then (true, set_slot x i y)
    else (false, leave_at i (set_slot x i y))

-- One step of any thread on the array.
pub data Move : Array → Array → Type 0 where
  acquires_at :
      (x : Array) (i : ℕ)
      → i < x.max_session
      → (x.slots i).holders + 1 < 2 ^ 31
      → Move x (set_slot x i (acquire (x.slots i)))
  lets_go_at :
      (x : Array) (i : ℕ)
      → i < x.max_session
      → (x.slots i).opening < (x.slots i).holders
      → Move x (set_slot x i (let_go (x.slots i)))
  deletes_at :
      (x : Array) (i : ℕ) → i < x.max_session → 0 < (x.slots i).deleters → Move x (delete_at i x)
  accepts :
      (x : Array) (sock port ip : ℕ)
      → ((i : ℕ) → i < x.max_session → (x.slots i).holders + 1 < 2 ^ 31)
      → Move x (accept sock port ip x).1
  ends_at :
      (x : Array) (i : ℕ)
      → i < x.max_session
      → (x.slots i).opening ≡ 1
      → Move x (set_slot x i (end_init (x.slots i)))

pub data Moves : Array → Array → Type 0 where
  no_move : (x : Array) → Moves x x
  then_move : {x y z : Array} → Moves x y → Move y z → Moves x z

-- Whether the reference that a step takes is to a session that was opened before: its count says that
-- it is open, or has bit 31. `findSession` takes one of any session that it is given a number for.
unfoldable pub IsKnown : {x y : Array} → Move x y → Type 0
IsKnown (acquires_at x i lt few) =
    ((x.slots i).stacked + (x.slots i).opening ≡ 0) ⊎ (2 ^ 31 ≤ (x.slots i).session.io_count)
IsKnown (lets_go_at x i lt held) = Unit
IsKnown (deletes_at x i lt due) = Unit
IsKnown (accepts x sock port ip few) = Unit
IsKnown (ends_at x i lt inside) = Unit

unfoldable pub AreKnown : {x y : Array} → Moves x y → Type 0
AreKnown (no_move x) = Unit
AreKnown (then_move earlier last) = AreKnown earlier × IsKnown last
