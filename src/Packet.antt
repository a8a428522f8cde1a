-- ===== src/Packet.antt =====
-- loginServer/lib/IOCP netServer/packet.h and packet.cpp: the handles by which threads share a
-- serializer, and the pool that gives serializers out. A handle is the pointer that it keeps, or
-- `none` for a null pointer. The pool itself is another library: which address `Alloc` returns is an
-- argument, and the addresses that went through `Alloc` and `Free` are kept, latest first.
pub mod Counted
use login_server.Base.{
  ℕ, ◌+◌, ◌-◌, ◌^◌, ◌<◌, ◌≡◌, Bool, Option, none, some, List, ◌∷◌, ◌==◌, if◌then◌else◌,
}
use login_server.Base.Int.{ℤ, pos}
use login_server.Serializer.{
  Serializer, clear, inc_reference_counter, dec_reference_counter, move_front, move_rear,
}
use login_server.Serializer.Header.{header_size}

pub record Store : Type 0 where
  pub cell : ℕ → Serializer
  pub allocs : List ℕ
  pub frees : List ℕ

unfoldable pub set_cell : Store → ℕ → Serializer → Store
set_cell st a s = record st { cell = λ b. if b == a then s else st.cell b }

-- `serializerPool.Alloc()`, which leaves the counter as it is, and `serializerPool.Free(s)`
unfoldable pub pool_alloc : Store → ℕ → Store
pool_alloc st a = record st { allocs = a ∷ st.allocs }

unfoldable pub serializer_free : Store → ℕ → Store
serializer_free st a = record st { frees = a ∷ st.frees }

unfoldable pub serializer_alloc : Store → ℕ → Store
unfolding pool_alloc set_cell
serializer_alloc st a = let t = pool_alloc st a in set_cell t a (clear (t.cell a))

unfoldable pub inc_ref : Store → ℕ → ℕ → ℕ × Store
unfolding set_cell inc_reference_counter
inc_ref st a n = let (c, s) = inc_reference_counter (st.cell a) n in (c, set_cell st a s)

unfoldable pub dec_ref : Store → ℕ → ℕ → ℕ × Store
unfolding set_cell dec_reference_counter
dec_ref st a n = let (c, s) = dec_reference_counter (st.cell a) n in (c, set_cell st a s)

-- `if (s->decReferenceCounter() == 0) serializerFree(s);`
unfoldable pub release : Store → ℕ → Store
unfolding dec_ref serializer_free
release st a = let (c, t) = dec_ref st a 1 in if c == 0 then serializer_free t a else t

abbrev pub Handle : Type 0
Handle = Option ℕ

-- `packet()`
unfoldable pub new_packet : Store → ℕ → Handle × Store
unfolding pool_alloc set_cell inc_ref
new_packet st a =
    let t = pool_alloc st a in
    let s = (move_front (move_rear (clear (t.cell a)) (pos header_size)).1 (pos header_size)).1 in
    (some a, (inc_ref (set_cell t a s) a 1).1)

-- `~packet()`
unfoldable pub drop_packet : Store → Handle → Store
unfolding release
drop_packet st none = st
drop_packet st (some a) = release st a

-- `packet(packet& p)`, of a handle that is not null
unfoldable pub copy_packet : Store → ℕ → Handle × Store
unfolding inc_ref
copy_packet st a = (some a, (inc_ref st a 1).1)

-- `packet(serializer* s)`: the reference that came with the pointer is now the handle's.
unfoldable pub of_serializer : ℕ → Handle
of_serializer a = some a

-- `incReferenceCounter(size)` and `decReferenceCounter(size)` of a handle
unfoldable pub inc_reference : Store → Handle → ℕ → ℕ × Store
unfolding inc_ref
inc_reference st none n = (0, st)
inc_reference st (some a) n = inc_ref st a n

unfoldable pub dec_reference : Store → Handle → ℕ → ℕ × Handle × Store
unfolding dec_ref serializer_free
dec_reference st none n = (0, none, st)
dec_reference st (some a) n =
    let (c, t) = dec_ref st a n in if c == 0 then (c, none, serializer_free t a) else (c, some a, t)

-- `operator =` of a handle, whose source is not null, and of a pointer
unfoldable pub assign_packet : Store → Handle → ℕ → Handle × Store
unfolding inc_ref drop_packet
assign_packet st h a = (some a, drop_packet (inc_ref st a 1).1 h)

unfoldable pub assign_serializer : Store → Handle → ℕ → Handle × Store
unfolding drop_packet
assign_serializer st h a = (some a, drop_packet st h)

-- The program's references: `held a` counts the handles and the pointers under way, in queues, rings
-- and posted requests, that own a reference to the serializer at `a`.
pub record Owned : Type 0 where
  pub store : Store
  pub held : ℕ → ℕ

unfoldable pub more : (ℕ → ℕ) → ℕ → ℕ → ℕ
more held a b = if b == a then held b + 1 else held b

unfoldable pub fewer : (ℕ → ℕ) → ℕ → ℕ → ℕ
fewer held a b = if b == a then held b - 1 else held b

-- One operation on the references, in any order: the pool gives out only what it has got back, a
-- reference is copied or dropped by who holds one, and there are fewer than 2 ^ 31 of them.
pub data Step : Owned → Owned → Type 0 where
  makes :
      (x : Owned) (a : ℕ)
      → x.held a ≡ 0
      → Step x (record { store = (new_packet x.store a).1; held = more x.held a })
  copies :
      (x : Owned) (a : ℕ)
      → 0 < x.held a
      → x.held a + 1 < 2 ^ 31
      → Step x (record { store = (copy_packet x.store a).1; held = more x.held a })
  drops :
      (x : Owned) (a : ℕ)
      → 0 < x.held a
      → Step x (record { store = drop_packet x.store (some a); held = fewer x.held a })
  assigns :
      (x : Owned) (b a : ℕ)
      → 0 < x.held b
      → 0 < x.held a
      → x.held a + 1 < 2 ^ 31
      → Step x
          (record { store = (assign_packet x.store (some b) a).1; held = fewer (more x.held a) b })

pub data Steps : Owned → Owned → Type 0 where
  done : (x : Owned) → Steps x x
  then_step : {x y z : Owned} → Steps x y → Step y z → Steps x z
