-- ===== src/Ring/Push.antt =====
-- `push` appends what fits.
use login_server.Base.{
  take-length_le, Option, ◌≤◌, ℕ, ◌+◌, ◌-◌, ◌<◌, bit_and, ◌≡◌, refl, ap, subst, ◌∙◌, some, List,
  ◌++◌, arith, length, get_or, take, length-take, ltb, if◌then◌else◌, ◌>>=◌, min,
}
use login_server.Ring.{Ring, push, store, free_size_between, tail, direct_enqueue_size}
use login_server.Ring.Index.{
  IsValid, place, span, masked_place, free_size_between-span, tail-place, direct_enqueue_size-place,
}
use login_server.Ring.Contents.{window, contents, direct, store-window}
use login_server.Ring.Window.{window-extend}

-- The bytes that `push` takes from a caller who offers `n`.
abbrev pub taken : Ring → ℕ → ℕ
taken r n = min n (r.max_size - span r)

module _ (r : Ring) (v : IsValid r) where
  -- What a push that has stored its bytes in `b` leaves behind.
  pushed : List ℕ → ℕ → Ring
  pushed b n = record r { buffer = b; tail_ptr = bit_and (r.tail_ptr + n) r.max_size }

  pushed_tail :
      (b : List ℕ) (n : ℕ)
      → n + span r < r.buffer_size
      → ((pushed b n).tail_ptr ≡ place r.buffer_size r.tail_ptr n)
        × (span (pushed b n) ≡ span r + n)
  unfolding pushed
  pushed_tail b n few =
      let e = masked_place v r.tail_ptr n v.tail_in (omega arith) in
      (e, rw e (ground (arith, v.tail_in, v.head_in)))

  pushed-IsValid :
      (b : List ℕ) (n : ℕ)
      → n + span r < r.buffer_size
      → length b ≡ r.buffer_size
      → IsValid (pushed b n)
  unfolding pushed
  pushed-IsValid b n few e = record {
    width = v.width;
    power = v.power;
    width_small = v.width_small;
    mask = v.mask;
    block = e;
    head_in = v.head_in;
    tail_in = rw (pushed_tail b n few).0 (ground (arith, v.tail_in));
  }

  pushed-contents :
      (b : List ℕ) (bytes : List ℕ)
      → length bytes + span r < r.buffer_size
      → ((i : ℕ)
          → i < r.buffer_size
          → get_or b (place r.buffer_size (place r.buffer_size r.tail_ptr 1) i) 0 ≡ (
              if ltb i (length bytes)
              then get_or bytes i 0
              else get_or r.buffer (place r.buffer_size (place r.buffer_size r.tail_ptr 1) i) 0))
      → contents (pushed b (length bytes)) ≡ contents r ++ bytes
  unfolding pushed
  pushed-contents b bytes few law =
      ap (window b r.buffer_size (place r.buffer_size r.head_ptr 1))
        (pushed_tail b (length bytes) few).1
      ∙ window-extend r.buffer b r.buffer_size (place r.buffer_size r.head_ptr 1)
          (place r.buffer_size r.tail_ptr 1) (span r) bytes (ground (arith, v.head_in))
          (ground (arith, v.head_in, v.tail_in)) (omega arith) law

  taken_lem :
      (n : ℕ)
      → (if ltb (free_size_between r r.head_ptr r.tail_ptr) n
          then free_size_between r r.head_ptr r.tail_ptr
          else n)
        ≡ taken r n
  taken_lem n = ground (arith, free_size_between-span v, v.mask)

  taken-lt : (n : ℕ) → taken r n + span r < r.buffer_size
  taken-lt n = omega (arith, free_size_between-span v, v.mask)

  -- `push` with its masks worked out.
  push-steps :
      (bytes : List ℕ)
      → let n = taken r (length bytes) in
        push r bytes ≡ (
          store r.buffer
            (place r.buffer_size r.tail_ptr 1)
            (direct r.buffer_size (place r.buffer_size r.tail_ptr 1) r.head_ptr)
            (take n bytes)
          >>= λ b. some (n, pushed b n))
  unfolding push pushed
  push-steps bytes = λ i.
      store r.buffer (tail-place v i) (direct_enqueue_size-place v i)
        (take (taken_lem (length bytes) i) bytes)
      >>= λ b. some (taken_lem (length bytes) i, pushed b (taken_lem (length bytes) i))

  -- What a push leaves behind, once its bytes are stored in `b`.
  push_stored :
      (bytes : List ℕ) (n : ℕ) (b : List ℕ)
      → n ≡ taken r (length bytes)
      → store r.buffer
          (place r.buffer_size r.tail_ptr 1)
          (direct r.buffer_size (place r.buffer_size r.tail_ptr 1) r.head_ptr)
          (take n bytes)
        ≡ some b
      → length b ≡ r.buffer_size
      → ((i : ℕ)
          → i < r.buffer_size
          → get_or b (place r.buffer_size (place r.buffer_size r.tail_ptr 1) i) 0 ≡ (
              if ltb i (length (take n bytes))
              then get_or (take n bytes) i 0
              else get_or r.buffer (place r.buffer_size (place r.buffer_size r.tail_ptr 1) i) 0))
      → (push r bytes ≡ some (n, pushed b n))
        × IsValid (pushed b n)
        × (contents (pushed b n) ≡ contents r ++ take n bytes)
  push_stored bytes n b e stores whole law =
      let few : n + span r < r.buffer_size = omega (arith, taken-lt (length bytes)) in
      let m : length (take n bytes) ≡ n = omega (arith, length-take n bytes) in
      (
        push-steps bytes ∙ rw (← e, stores) refl,
        pushed-IsValid b n few whole,
        subst (λ k. contents (pushed b k) ≡ contents r ++ take n bytes) m
            (pushed-contents b (take n bytes) (omega arith) law),
      )

  -- A push returns how many bytes fit, appends exactly those, and never writes outside the block.
  pub push_lem :
      (bytes : List ℕ)
      → let n = taken r (length bytes) in
        (r' : Ring) × (push r bytes ≡ some (n, r'))
        × IsValid r'
        × (r'.max_size ≡ r.max_size)
        × (contents r' ≡ contents r ++ take n bytes)
  push_lem bytes = go (taken r (length bytes)) refl
    where
      go :
          (n : ℕ)
          → n ≡ taken r (length bytes)
          → (r' : Ring) × (push r bytes ≡ some (n, r'))
            × IsValid r'
            × (r'.max_size ≡ r.max_size)
            × (contents r' ≡ contents r ++ take n bytes)
      go n e =
          let (b, stores, whole, law) =
            store-window r.buffer r.buffer_size (place r.buffer_size r.tail_ptr 1)
              (direct r.buffer_size (place r.buffer_size r.tail_ptr 1) r.head_ptr) v.block
              (ground (arith, v.tail_in)) (ground (arith, v.tail_in, v.head_in)) (take n bytes)
              (omega (arith, length-take n bytes, taken-lt (length bytes)))
              (ground
                (arith, v.tail_in, v.head_in, length-take n bytes, taken-lt (length bytes))) in
          let (pushes, valid, holds) = push_stored bytes n b e stores whole law in
          (pushed b n, pushes, valid, unfold pushed in refl, holds)

  push_all :
      (bytes b : List ℕ)
      → length bytes ≤ r.max_size - span r
      → store r.buffer
          (place r.buffer_size r.tail_ptr 1)
          (direct r.buffer_size (place r.buffer_size r.tail_ptr 1) r.head_ptr)
          bytes
        ≡ some b
      → push r bytes ≡ some (length bytes, pushed b (length bytes))
  push_all bytes b fits stores =
      push-steps bytes
      ∙ ap (λ n. store_then n (take n bytes)) (omega arith)
      ∙ ap (store_then (length bytes)) (take-length_le (length bytes) bytes (omega arith))
      ∙ ap (λ o. o >>= λ c. some (length bytes, pushed c (length bytes))) stores
    where
      store_then : ℕ → List ℕ → Option (ℕ × Ring)
      store_then n bs =
          store r.buffer (place r.buffer_size r.tail_ptr 1)
            (direct r.buffer_size (place r.buffer_size r.tail_ptr 1) r.head_ptr) bs
          >>= λ c. some (n, pushed c n)

  tail_bytes : List ℕ → Option (List ℕ)
  tail_bytes bytes = store r.buffer (tail r) (direct_enqueue_size r) bytes

  tail_bytes-place :
      (bytes : List ℕ)
      → tail_bytes bytes
        ≡ store r.buffer
            (place r.buffer_size r.tail_ptr 1)
            (direct r.buffer_size (place r.buffer_size r.tail_ptr 1) r.head_ptr)
            bytes
  unfolding tail_bytes
  tail_bytes-place bytes =
      λ i. store r.buffer (tail-place v i) (direct_enqueue_size-place v i) bytes

  -- Bytes that fit are all taken: what the ring is then, in terms of `store`.
  pub push_fits :
      (bytes : List ℕ)
      → length bytes ≤ r.max_size - span r
      → (b : List ℕ) × (store r.buffer (tail r) (direct_enqueue_size r) bytes ≡ some b)
        × (length b ≡ r.buffer_size)
        × (push r bytes
            ≡ some (
              length bytes,
              record r { buffer = b; tail_ptr = bit_and (r.tail_ptr + length bytes) r.max_size },
            ))
  unfolding pushed tail_bytes
  push_fits bytes fits =
      let (b, stores, whole, _) =
        store-window r.buffer r.buffer_size (place r.buffer_size r.tail_ptr 1)
          (direct r.buffer_size (place r.buffer_size r.tail_ptr 1) r.head_ptr) v.block
          (ground (arith, v.tail_in)) (ground (arith, v.tail_in, v.head_in)) bytes
          (omega (arith, taken-lt (length bytes)))
          (ground (arith, v.tail_in, v.head_in, taken-lt (length bytes))) in
      (b, rw (tail_bytes-place bytes) stores, whole, push_all bytes b fits stores)
