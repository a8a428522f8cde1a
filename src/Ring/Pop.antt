-- ===== src/Ring/Pop.antt =====
-- `pop` and `front` give the oldest bytes.
use login_server.Base.{
  ℕ, ◌+◌, ◌-◌, ◌≤◌, bit_and, ◌≡◌, refl, ap, ◌∙◌, some, arith, take, drop, ltb, if◌then◌else◌, ◌>>=◌,
  min,
}
use login_server.Ring.{Ring, pop, front, load, size_between, head, direct_dequeue_size}
use login_server.Ring.Index.{
  IsValid, place, span, masked_place, size_between-span, free_size_between-span, head-place,
  direct_dequeue_size-place,
}
use login_server.Ring.Contents.{window, contents, direct, load-window}
use login_server.Ring.Window.{window-take, window-drop}

-- The bytes that `pop` and `front` give to a caller who asks for `n`.
abbrev pub given : Ring → ℕ → ℕ
given r n = min n (span r)

module _ (r : Ring) (v : IsValid r) where
  given_lem :
      (n : ℕ)
      → (if ltb (size_between r r.head_ptr r.tail_ptr) n
          then size_between r r.head_ptr r.tail_ptr
          else n)
        ≡ given r n
  given_lem n = ground (arith, size_between-span v)

  -- Both read the oldest bytes, in order, and never outside the block.
  load-contents :
      (wanted : ℕ)
      → load r.buffer (head r) (direct_dequeue_size r) (given r wanted)
        ≡ some (take (given r wanted) (contents r))
  load-contents wanted =
      rw (head-place v, direct_dequeue_size-place v)
        (load-window r.buffer r.buffer_size (place r.buffer_size r.head_ptr 1)
            (direct r.buffer_size (place r.buffer_size r.head_ptr 1)
              (place r.buffer_size r.tail_ptr 1))
            v.block (ground (arith, v.head_in)) (ground (arith, v.head_in, v.tail_in))
            (given r wanted) (omega (arith, v.head_in, v.tail_in, free_size_between-span v))
            (ground (arith, v.head_in, v.tail_in))
          ∙ ap some (
              window-take r.buffer r.buffer_size (place r.buffer_size r.head_ptr 1) (given r wanted)
                (span r) (omega arith)))

  popped : ℕ → Ring
  popped n = record r { head_ptr = bit_and (r.head_ptr + n) r.max_size }

  popped_head :
      (n : ℕ)
      → n ≤ span r
      → ((popped n).head_ptr ≡ place r.buffer_size r.head_ptr n) × (span (popped n) ≡ span r - n)
  unfolding popped
  popped_head n few =
      let e = masked_place v r.head_ptr n v.head_in (omega (arith, free_size_between-span v)) in
      (e, rw e (ground (arith, v.tail_in, v.head_in)))

  popped-IsValid : (n : ℕ) → n ≤ span r → IsValid (popped n)
  unfolding popped
  popped-IsValid n few = record {
    width = v.width;
    power = v.power;
    width_small = v.width_small;
    mask = v.mask;
    block = v.block;
    head_in = rw (popped_head n few).0 (ground (arith, v.head_in, v.tail_in));
    tail_in = v.tail_in;
  }

  popped-contents : (n : ℕ) → n ≤ span r → contents (popped n) ≡ drop n (contents r)
  unfolding popped
  popped-contents n few =
      ap (λ k. window r.buffer r.buffer_size (place r.buffer_size (popped n).head_ptr 1) k)
        (popped_head n few).1
      ∙ ap (λ s. window r.buffer r.buffer_size s (span r - n)) turn
      ∙ window-drop r.buffer r.buffer_size (place r.buffer_size r.head_ptr 1) n (span r)
          (ground (arith, v.head_in)) (omega (arith, free_size_between-span v)) few
          (omega (arith, free_size_between-span v))
    where
      turn :
          place r.buffer_size (popped n).head_ptr 1
          ≡ place r.buffer_size (place r.buffer_size r.head_ptr 1) n
      turn = ground (arith, popped_head n few, v.head_in, v.tail_in)

  pub pop_steps :
      (wanted : ℕ)
      → pop r wanted
        ≡ some (
          given r wanted,
          take (given r wanted) (contents r),
          record r { head_ptr = bit_and (r.head_ptr + given r wanted) r.max_size },
        )
  unfolding pop popped
  pop_steps wanted =
      (λ i. load r.buffer (head r) (direct_dequeue_size r) (given_lem wanted i) >>= λ bytes.
      some (given_lem wanted i, bytes, popped (given_lem wanted i)))
      ∙ rw (load-contents wanted)

  -- A pop gives the oldest bytes, as many as there are of those asked for, in order, removes
  -- exactly those, and never reads outside the block.
  pub pop_lem :
      (wanted : ℕ)
      → let n = given r wanted in
        (r' : Ring) × (pop r wanted ≡ some (n, take n (contents r), r'))
        × IsValid r'
        × (r'.max_size ≡ r.max_size)
        × (contents r' ≡ drop n (contents r))
  unfolding popped
  pop_lem wanted =
      let few : given r wanted ≤ span r = omega arith in
      (popped (given r wanted), pop_steps wanted, popped-IsValid _ few, refl, popped-contents _ few)

  -- `front` gives the same bytes as a pop, and the ring is as it was.
  pub front_lem :
      (wanted : ℕ) → front r wanted ≡ some (given r wanted, take (given r wanted) (contents r))
  unfolding front
  front_lem wanted =
      (λ i. load r.buffer (head r) (direct_dequeue_size r) (given_lem wanted i) >>= λ bytes.
      some (given_lem wanted i, bytes))
      ∙ rw (load-contents wanted)
