-- ===== src/Ring/Copy.antt =====
-- A copy of a ring holds the same bytes in a block of its own.
use login_server.Base.{
  ℕ, ◌+◌, ◌-◌, ◌≤◌, ◌<◌, ◌≡◌, refl, ap, ◌∙◌, ◌⊎◌, Bool, true, false, Option, some, List, arith,
  length, get_or, drop, get_or_ext, get_or-take, get_or-drop, ltb, leb, if◌then◌else◌, ◌>>=◌,
  Bool-cases, inl, inr, ◌&&◌,
}
use login_server.Base.Blocks.{
  splice, slice, read_block_inside, write_block_inside, length-splice, length-slice, get_or-splice,
}
use login_server.Ring.{Ring, copy, copy_bytes}
use login_server.Ring.Index.{IsValid, place, span, size-span, head-place, direct_dequeue_size-place}
use login_server.Ring.Contents.{window, contents, get_or-tabulate, length-tabulate, direct}

-- Blocks that agree on a window's places have the same window.
window-agree :
    (block b : List ℕ) (m s n : ℕ)
    → ((i : ℕ) → i < n → get_or b (place m s i) 0 ≡ get_or block (place m s i) 0)
    → window b m s n ≡ window block m s n
window-agree block b m s n same =
    get_or_ext 0 (window b m s n) (window block m s n)
      (omega (
        arith,
        length-tabulate (λ i. get_or b (place m s i) 0) n,
        length-tabulate (λ i. get_or block (place m s i) 0) n,
      ))
      λ i lt. ground (
        arith,
        length-tabulate (λ i. get_or b (place m s i) 0) n,
        get_or-tabulate (λ i. get_or b (place m s i) 0) n i,
        get_or-tabulate (λ i. get_or block (place m s i) 0) n i,
        same i,
      )

-- A part of a block over the same part of another.
abbrev over : List ℕ → List ℕ → ℕ → ℕ → List ℕ
over fresh block off n = splice fresh off (slice block off n)

get_or-over :
    (fresh block : List ℕ) (off n j : ℕ)
    → length fresh ≡ length block
    → off + n ≤ length block
    → j < length block
    → get_or (over fresh block off n) j 0
      ≡ (if leb off j && ltb j (off + n) then get_or block j 0 else get_or fresh j 0)
get_or-over fresh block off n j e h lt = ground (
  arith,
  get_or-splice fresh off (slice block off n) j,
  length-slice block off n,
  get_or-take n (drop off block) (j - off) 0,
  get_or-drop off block (j - off) 0,
)

module _ (fresh block : List ℕ) (m at n d : ℕ) (new : length fresh ≡ m)
    (old : length block ≡ m) where
  -- In one piece: the bytes that are copied, and what is at each of their places.
  copy_straight :
      at + n ≤ m
      → (copy_bytes fresh block true at n d ≡ some (over fresh block at n))
        × ((j : ℕ) → at ≤ j → j < at + n → get_or (over fresh block at n) j 0 ≡ get_or block j 0)
  unfolding copy_bytes
  copy_straight fits = (
    rw (read_block_inside block at n (omega arith))
        (write_block_inside fresh at (slice block at n) (omega (arith, length-slice block at n))),
    λ j p q. ground (arith, get_or-over fresh block at n j),
  )

  abbrev round : List ℕ
  round = over (over fresh block at d) block 0 (n - d)

  -- In two pieces, the second from the start of the block up to the first at most.
  copy_round :
      d ≤ n
      → n ≤ m
      → at + d ≤ m
      → (d ≡ n) ⊎ (at + d ≡ m)
      → (copy_bytes fresh block false at n d ≡ some round)
        × (length round ≡ m)
        × ((j : ℕ)
            → j < m
            → ((at ≤ j) × (j < at + d)) ⊎ (j < n - d)
            → get_or round j 0 ≡ get_or block j 0)
  unfolding copy_bytes
  copy_round long few inside end = (
    rw
        (
          read_block_inside block at d (omega arith),
          write_block_inside fresh at (slice block at d) (omega (arith, length-slice block at d)),
          read_block_inside block 0 (n - d) (omega arith),
        )
        (write_block_inside (over fresh block at d) 0 (slice block 0 (n - d))
          (omega (arith, length-slice block 0 (n - d), length-splice fresh at (slice block at d)))),
    length-splice (over fresh block at d) 0 (slice block 0 (n - d))
        ∙ length-splice fresh at (slice block at d)
        ∙ new,
    λ j lt p. ground (
      arith,
      get_or-over (over fresh block at d) block 0 (n - d) j,
      get_or-over fresh block at d j,
      length-splice fresh at (slice block at d),
    ),
  )

-- The block of a copy agrees with the original's wherever a byte is held.
record IsCopy (fresh : List ℕ) (b : Ring) : Type 0 where
  block : List ℕ
  copies : copy fresh b ≡ some (record b { buffer = block })
  whole : length block ≡ b.buffer_size
  same :
      (i : ℕ)
      → i < span b
      → get_or block (place b.buffer_size (place b.buffer_size b.head_ptr 1) i) 0
        ≡ get_or b.buffer (place b.buffer_size (place b.buffer_size b.head_ptr 1) i) 0

module _ (fresh : List ℕ) (b : Ring) (v : IsValid b) (new : length fresh ≡ b.buffer_size) where
  abbrev first : ℕ
  first = place b.buffer_size b.head_ptr 1

  abbrev to_end : ℕ
  to_end = direct b.buffer_size first (place b.buffer_size b.tail_ptr 1)

  copy-steps : copy fresh b ≡ (
      copy_bytes fresh b.buffer (leb b.head_ptr b.tail_ptr) first (span b) to_end >>= λ block.
      some (record b { buffer = block }))
  unfolding copy
  copy-steps = λ i.
      copy_bytes fresh b.buffer (leb b.head_ptr b.tail_ptr) (head-place v i) (size-span v i)
        (direct_dequeue_size-place v i)
      >>= λ block. some (record b { buffer = block })

  abbrev store_in : Option (List ℕ) → Option Ring
  store_in o = o >>= λ block. some (record b { buffer = block })

  abbrev go_on : Bool → Option Ring
  go_on w = store_in (copy_bytes fresh b.buffer w first (span b) to_end)

  copied : IsCopy fresh b
  copied = elim (Bool-cases (leb b.head_ptr b.tail_ptr)) [
    | inl e ↦
        let (copies, same) =
          copy_straight fresh b.buffer b.buffer_size first (span b) to_end new v.block
            (ground (arith, v.head_in, v.tail_in)) in
        record {
          block = over fresh b.buffer first (span b);
          copies = copy-steps ∙ ap go_on e ∙ ap store_in copies;
          whole = length-splice fresh first (slice b.buffer first (span b)) ∙ new;
          same = λ i lt.
              same (place b.buffer_size first i) (ground (arith, v.head_in, v.tail_in))
                (ground (arith, v.head_in, v.tail_in));
        }
    | inr e ↦
        let (copies, whole, same) =
          copy_round fresh b.buffer b.buffer_size first (span b) to_end new v.block
            (ground (arith, v.head_in, v.tail_in)) (ground (arith, v.head_in, v.tail_in))
            (ground (arith, v.head_in, v.tail_in)) (ground (arith, v.head_in, v.tail_in)) in
        record {
          block = round fresh b.buffer b.buffer_size first (span b) to_end new v.block;
          copies = copy-steps ∙ ap go_on e ∙ ap store_in copies;
          whole = whole;
          same = λ i lt.
              same (place b.buffer_size first i) (ground (arith, v.head_in, v.tail_in))
                (ground (arith, v.head_in, v.tail_in));
        }
  ]

  -- A copy succeeds, is well formed and holds the bytes of its original.
  pub copy_lem :
      (c : Ring) × (copy fresh b ≡ some c)
      × IsValid c
      × (c.buffer_size ≡ b.buffer_size)
      × (contents c ≡ contents b)
  copy_lem =
      let c = copied in
      (
        record b { buffer = c.block },
        c.copies,
        record {
          width = v.width;
          power = v.power;
          width_small = v.width_small;
          mask = v.mask;
          block = c.whole;
          head_in = v.head_in;
          tail_in = v.tail_in;
        },
        refl,
        window-agree b.buffer c.block b.buffer_size first (span b) c.same,
      )
