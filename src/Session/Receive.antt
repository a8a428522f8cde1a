-- ===== src/Session/Receive.antt =====
-- A receive: the room that `recvIO` offers to the kernel, and `recved`, which takes in what it wrote.
use mathlib.Core.Option.{some-injective}
use login_server.Base.{
  ℕ, ◌+◌, ◌-◌, ◌%◌, ◌^◌, ◌≤◌, ◌<◌, ◌≡◌, refl, sym, ap, ◌∙◌, ◌⊎◌, inl, inr, true, false, Option,
  some, List, [], ◌∷◌, ◌++◌, length, take, drop, ltb, leb, if◌then◌else◌, ◌>>=◌, Bool-cases, leb→le,
  leb→lt, arith, take-length_le, ◌||◌, ◌==◌,
}
use login_server.Base.Blocks.{write_block}
use login_server.Base.Int.{pos}
use login_server.Ring.{Ring, store, free_size, tail, direct_enqueue_size, move_rear}
use login_server.Ring.Index.{
  IsValid, span, free_size_between-span, direct_enqueue_size-place, tail-place,
}
use login_server.Ring.Contents.{contents}
use login_server.Ring.Push.{taken, push_lem}
use login_server.Ring.Move.{free_size-free_size_between, buffer_size-le, receive-push}
use login_server.Session.{Session, recv_buffers, recved}
use login_server.Session.Framing.{received}

free_size-room : {r : Ring} (v : IsValid r) → free_size r ≡ r.max_size - span r
free_size-room {r} v =
    omega (arith, free_size-free_size_between v, free_size_between-span v, v.mask)

-- The room before the end of the block is part of the free room, and less than it only when it goes
-- up to the end.
direct_enqueue_size-le :
    {r : Ring} (v : IsValid r)
    → (direct_enqueue_size r ≤ r.max_size - span r)
      × ((direct_enqueue_size r ≡ r.max_size - span r)
          ⊎ (tail r + direct_enqueue_size r ≡ r.buffer_size))
direct_enqueue_size-le {r} v =
    ground (arith, direct_enqueue_size-place v, tail-place v, v.mask, v.head_in, v.tail_in)

-- The buffers that `recvIO` offers, without the wrap of its subtraction.
recv_buffers_lem :
    {r : Ring} (v : IsValid r)
    → recv_buffers r ≡ (
        let free = r.max_size - span r - direct_enqueue_size r in
        if ltb 0 free
        then (tail r, direct_enqueue_size r) ∷ (0, free) ∷ []
        else (tail r, direct_enqueue_size r) ∷ [])
unfolding recv_buffers
recv_buffers_lem {r} v =
    let le = direct_enqueue_size-le v in
    let wrap : (free_size r + 2 ^ 64 - direct_enqueue_size r) % 2 ^ 64
        ≡ r.max_size - span r - direct_enqueue_size r =
      omega (arith, free_size-room v, le.0, v.mask, buffer_size-le v) in
    let long : (r.max_size - span r - direct_enqueue_size r) % 2 ^ 32
        ≡ r.max_size - span r - direct_enqueue_size r =
      omega (arith, v.mask, buffer_size-le v) in
    rw (wrap, long) refl

positive : (n : ℕ) → 0 < n → ltb 0 n ≡ true
positive n h = ground arith

accepted : (free n : ℕ) → 0 < n → n < free → (leb free n || n == 0) ≡ false
accepted free n h k = ground arith

free_size-with_block : (r : Ring) (b : List ℕ) → free_size (record r { buffer = b }) ≡ free_size r
unfolding free_size
free_size-with_block r b = refl

-- What is relied on of `WSARecv`: it fills its buffers in order, each before the next, with the bytes
-- that it has got. The block is that of the ring, and `none` a write outside it.
pub record Scatters (wsa_recv : List (ℕ × ℕ) → List ℕ → List ℕ → Option (List ℕ)) : Type 0 where
  pub in_first :
      (off len : ℕ) (others : List (ℕ × ℕ)) (block bytes : List ℕ)
      → length bytes ≤ len
      → wsa_recv ((off, len) ∷ others) block bytes ≡ write_block block off bytes
  pub in_both :
      (off len off' len' : ℕ) (block bytes : List ℕ)
      → len < length bytes
      → length bytes ≤ len + len'
      → wsa_recv ((off, len) ∷ (off', len') ∷ []) block bytes
        ≡ (write_block block off (take len bytes) >>= λ b. write_block b off' (drop len bytes))

module _ (wsa_recv : List (ℕ × ℕ) → List ℕ → List ℕ → Option (List ℕ))
    (scatters : Scatters wsa_recv) where
  -- The kernel writes where a push would.
  wsa_recv-store :
      {r : Ring} (v : IsValid r) (bytes : List ℕ)
      → length bytes ≤ r.max_size - span r
      → wsa_recv (recv_buffers r) r.buffer bytes
        ≡ store r.buffer (tail r) (direct_enqueue_size r) bytes
  unfolding store
  wsa_recv-store {r} v bytes fits =
      let le = direct_enqueue_size-le v in
      let free : ℕ = r.max_size - span r - direct_enqueue_size r in
      elim (Bool-cases (leb (length bytes) (direct_enqueue_size r))) [
        | inl e ↦ elim (Bool-cases (ltb 0 free)) [
          | inl z ↦
              rw
                (
                  recv_buffers_lem v,
                  z,
                  e,
                  scatters.in_first (tail r) (direct_enqueue_size r) ((0, free) ∷ []) r.buffer bytes
                      (leb→le (length bytes) (direct_enqueue_size r) e),
                )
                refl
          | inr z ↦
              rw
                (
                  recv_buffers_lem v,
                  z,
                  e,
                  scatters.in_first (tail r) (direct_enqueue_size r) [] r.buffer bytes
                      (leb→le (length bytes) (direct_enqueue_size r) e),
                )
                refl
        ]
        | inr e ↦
            let long : direct_enqueue_size r < length bytes =
              leb→lt (length bytes) (direct_enqueue_size r) e in
            rw
              (
                recv_buffers_lem v,
                positive free (omega arith),
                e,
                scatters.in_both (tail r) (direct_enqueue_size r) 0 free r.buffer bytes long
                    (omega arith),
              )
              refl
      ]

-- A receive of fewer bytes than are free, and at least one: the kernel's bytes are appended to those
-- received before, and `recved` returns true.
pub recved-wsa_recv :
    (wsa_recv : List (ℕ × ℕ) → List ℕ → List ℕ → Option (List ℕ))
    → Scatters wsa_recv
    → (s : Session) (v : IsValid s.recv_buffer) (bytes : List ℕ) → 0 < length bytes
    → length bytes < s.recv_buffer.max_size - span s.recv_buffer
    → (b : List ℕ) × (r : Ring) × (wsa_recv (recv_buffers s.recv_buffer) s.recv_buffer.buffer bytes
        ≡ some b)
      × (recved (record s { recv_buffer = record s.recv_buffer { buffer = b } }) (length bytes)
          ≡ (true, record s { recv_buffer = r }))
      × IsValid r
      × (r.max_size ≡ s.recv_buffer.max_size)
      × (contents r ≡ received s ++ bytes)
unfolding recved
recved-wsa_recv wsa_recv scatters s v bytes some_bytes fits =
    let (b, stores, receives) = receive-push v bytes (omega arith) in
    let (r, pushes, valid, max, holds) = push_lem s.recv_buffer v bytes in
    let all : taken s.recv_buffer (length bytes) ≡ length bytes = omega arith in
    let same : (move_rear (record s.recv_buffer { buffer = b }) (pos (length bytes))).1 ≡ r =
      ap (λ t. t.1) (some-injective _ _ (sym receives ∙ pushes)) in
    (
      b,
      r,
      wsa_recv-store wsa_recv scatters v bytes (omega arith) ∙ stores,
      rw
          (
            free_size-with_block s.recv_buffer b,
            accepted (free_size s.recv_buffer) (length bytes) some_bytes
                (omega (arith, free_size-room v)),
          )
          (ap (λ t. (true, record s { recv_buffer = t })) same),
      valid,
      max,
      holds
          ∙ ap (λ n. received s ++ take n bytes) all
          ∙ ap (λ t. received s ++ t) (take-length_le (length bytes) bytes (omega arith)),
    )

-- All the room that `recvIO` offers.
abbrev pub offered : List (ℕ × ℕ) → ℕ
offered [] = 0
offered ((off, len) ∷ buffers) = len + offered buffers

offered-recv_buffers : {r : Ring} (v : IsValid r) → offered (recv_buffers r) ≡ r.max_size - span r
offered-recv_buffers {r} v =
    let le = direct_enqueue_size-le v in
    let free : ℕ = r.max_size - span r - direct_enqueue_size r in
    elim (Bool-cases (ltb 0 free)) [
      | inl z ↦ rw (recv_buffers_lem v, z) (omega arith)
      | inr z ↦ rw (recv_buffers_lem v, z) (omega (arith, none_free free z))
    ]
  where
    none_free : (n : ℕ) → ltb 0 n ≡ false → n ≡ 0
    none_free n h = ground arith

-- On a well-formed ring, `recved` refuses a receive that fills all the room which `recvIO` has
-- offered, and leaves the session as it was.
pub recved-offered :
    (s : Session)
    → IsValid s.recv_buffer
    → recved s (offered (recv_buffers s.recv_buffer)) ≡ (false, s)
unfolding recved
recved-offered s v =
    rw
      (refused (free_size s.recv_buffer) (offered (recv_buffers s.recv_buffer))
        (omega (arith, free_size-room v, offered-recv_buffers v)))
      refl
  where
    refused : (free n : ℕ) → free ≤ n → (leb free n || n == 0) ≡ true
    refused free n h = ground arith
