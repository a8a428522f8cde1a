-- ===== src/Ring/Contents.antt =====
-- The bytes that a ring holds, oldest first, and what `store` and `load` do to them.
use login_server.Base.{
  ℕ, zero, suc, ◌+◌, ◌-◌, ◌≤◌, ◌<◌, ◌≡◌, refl, ap, ◌∙◌, ◌⊎◌, inl, inr, some, List, [], ◌∷◌, ◌++◌,
  arith, length, get_or, take, drop, get_or_ext, get_or-append, get_or-take, get_or-drop,
  length-append, length-take, length-drop, ltb, leb, if◌then◌else◌, Bool-cases, leb→lt, false,
}
use login_server.Base.Blocks.{
  splice, slice, read_block_inside, write_block_inside, length-splice, length-slice, get_or-splice,
}
use login_server.Ring.{Ring, store, load}
use login_server.Ring.Index.{place, span}

abbrev pub tabulate : (ℕ → ℕ) → ℕ → List ℕ
tabulate f zero = []
tabulate f (suc n) = f 0 ∷ tabulate (λ i. f (suc i)) n

pub length-tabulate : (f : ℕ → ℕ) (n : ℕ) → length (tabulate f n) ≡ n
length-tabulate f zero = refl
length-tabulate f (suc n) = ap suc (length-tabulate (λ i. f (suc i)) n)

pub get_or-tabulate : (f : ℕ → ℕ) (n i : ℕ) → i < n → get_or (tabulate f n) i 0 ≡ f i
get_or-tabulate f zero i h = absurd (omega arith)
get_or-tabulate f (suc n) zero h = refl
get_or-tabulate f (suc n) (suc i) h = get_or-tabulate (λ i. f (suc i)) n i (omega arith)

-- The `n` bytes of a block of `m` bytes from offset `s` on, going round at the end.
abbrev pub window : List ℕ → ℕ → ℕ → ℕ → List ℕ
window block m s n = tabulate (λ i. get_or block (place m s i) 0) n

abbrev pub contents : Ring → List ℕ
contents r = window r.buffer r.buffer_size (place r.buffer_size r.head_ptr 1) (span r)

-- The room from offset `t` on that stops at `stop` or at the end of a block of `m` bytes.
abbrev pub direct : ℕ → ℕ → ℕ → ℕ
direct m t stop = if leb t stop then stop - t else m - t

module _ (block : List ℕ) (m t d : ℕ) (whole : length block ≡ m) (inside : t < m)
    (room : t + d ≤ m) where
  -- Two writes, the second at the start of the block, in ring order.
  splice_twice :
      (bytes : List ℕ) (i : ℕ)
      → length bytes < m
      → d < length bytes
      → t + d ≡ m
      → i < m
      → get_or (splice (splice block t (take d bytes)) 0 (drop d bytes)) (place m t i) 0
        ≡ (if ltb i (length bytes) then get_or bytes i 0 else get_or block (place m t i) 0)
  splice_twice bytes i few long end lt = ground (
    arith,
    length-take d bytes,
    length-drop d bytes,
    length-splice block t (take d bytes),
    get_or-splice (splice block t (take d bytes)) 0 (drop d bytes) (place m t i),
    get_or-splice block t (take d bytes) (place m t i),
    get_or-take d bytes i 0,
    get_or-drop d bytes (place m t i) 0,
  )

  slice-window : (n : ℕ) → t + n ≤ m → slice block t n ≡ window block m t n
  slice-window n h =
      get_or_ext 0 (slice block t n) (window block m t n)
        (omega
          (arith, length-slice block t n, length-tabulate (λ i. get_or block (place m t i) 0) n))
        λ i lt. ground (
          arith,
          length-slice block t n,
          get_or-take n (drop t block) i 0,
          get_or-drop t block i 0,
          get_or-tabulate (λ i. get_or block (place m t i) 0) n i,
        )

  slices-window :
      (n : ℕ)
      → n ≤ m
      → d < n
      → t + d ≡ m
      → slice block t d ++ slice block 0 (n - d) ≡ window block m t n
  slices-window n few long end =
      get_or_ext 0 (slice block t d ++ slice block 0 (n - d)) (window block m t n)
        (omega (
          arith,
          length-append (slice block t d) (slice block 0 (n - d)),
          length-slice block t d,
          length-slice block 0 (n - d),
          length-tabulate (λ i. get_or block (place m t i) 0) n,
        ))
        λ i lt. ground (
          arith,
          length-append (slice block t d) (slice block 0 (n - d)),
          get_or-append (slice block t d) (slice block 0 (n - d)) i 0,
          length-slice block t d,
          length-slice block 0 (n - d),
          get_or-take d (drop t block) i 0,
          get_or-drop t block i 0,
          get_or-take (n - d) block (i - d) 0,
          get_or-tabulate (λ i. get_or block (place m t i) 0) n i,
        )

  end_of : {a : ℕ} → leb a d ≡ false → (a ≤ d) ⊎ (t + d ≡ m) → t + d ≡ m
  end_of {a} e fits = ground arith

  -- `store` stays inside the block when what wraps does, and writes the bytes in ring order.
  pub store-window :
      (bytes : List ℕ)
      → length bytes < m
      → (length bytes ≤ d) ⊎ (t + d ≡ m)
      → (b : List ℕ) × (store block t d bytes ≡ some b)
        × (length b ≡ m)
        × ((i : ℕ)
            → i < m
            → get_or b (place m t i) 0
              ≡ (if ltb i (length bytes) then get_or bytes i 0 else get_or block (place m t i) 0))
  unfolding store
  store-window bytes few fits = elim (Bool-cases (leb (length bytes) d)) [
    | inl e ↦ (
      splice block t bytes,
      ground (arith, write_block_inside block t bytes),
      length-splice block t bytes ∙ whole,
      λ i lt. ground (arith, get_or-splice block t bytes (place m t i)),
    )
    | inr e ↦ (
      splice (splice block t (take d bytes)) 0 (drop d bytes),
      ground (
        arith,
        length-take d bytes,
        length-drop d bytes,
        length-splice block t (take d bytes),
        write_block_inside block t (take d bytes),
        write_block_inside (splice block t (take d bytes)) 0 (drop d bytes),
      ),
      length-splice (splice block t (take d bytes)) 0 (drop d bytes)
          ∙ length-splice block t (take d bytes)
          ∙ whole,
      λ i lt. splice_twice bytes i few (leb→lt (length bytes) d e) (end_of e fits) lt,
    )
  ]

  -- `load` reads the bytes in ring order.
  pub load-window :
      (n : ℕ) → n ≤ m → (n ≤ d) ⊎ (t + d ≡ m) → load block t d n ≡ some (window block m t n)
  unfolding load
  load-window n few fits = elim (Bool-cases (leb n d)) [
    | inl e ↦ ground (arith, read_block_inside block t n, slice-window n)
    | inr e ↦
        ground
          (arith, read_block_inside block t d, read_block_inside block 0 (n - d), slices-window n)
  ]
