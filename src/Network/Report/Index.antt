-- ===== src/Network/Report/Index.antt =====
-- Which index the workers get: `GetCurrentThread` gives every thread the same pseudo handle.
use login_server.Base.{
  ℕ, zero, suc, ◌+◌, ◌≡◌, refl, sym, ap, ◌∙◌, arith, none, some, List, [], ◌∷◌, length, replicate,
  ◌==◌, count, if◌then◌else◌, Bool-cases, inl, inr, Bool, false, true, ◌<◌,
}
use login_server.Base.Results.{of_Always}
use login_server.Network.Report.{
  IndexMap, index_of, assign_index, start_workers, found_index, thread_index, begin_workers,
  posted_ends,
}

-- A result is not none.
some-none : {i : ℕ} → some i ≡ none → i < i
some-none {i} e = of_Always (λ k. k < k) none i (record {}) (sym e)

index_of-assign_index :
    (k h i : ℕ) (m : IndexMap)
    → index_of k (assign_index h i m) ≡ (if h == k then some i else index_of k m)
unfolding index_of assign_index
index_of-assign_index k h i [] = refl
index_of-assign_index k h i ((j, n) ∷ m) = elim (Bool-cases (j == h)) [
  | inl e ↦ rw e (ground (arith, e))
  | inr e ↦ rw e (ground (arith, e, index_of-assign_index k h i m))
]

-- A handle that is not in the map makes it longer by one.
length-assign_index :
    (h i : ℕ) (m : IndexMap) → index_of h m ≡ none → length (assign_index h i m) ≡ length m + 1
unfolding index_of assign_index
length-assign_index h i [] e = refl
length-assign_index h i ((j, n) ∷ m) e = elim (Bool-cases (j == h)) [
  | inl f ↦
      absurd (omega (arith, some-none (ap (λ b. if b then some n else index_of h m) (sym f) ∙ e)))
  | inr f ↦ rw f (
      omega (
        arith,
        length-assign_index h i m (ap (λ b. if b then some n else index_of h m) (sym f) ∙ e),
      ))
]

abbrev one_if : Bool → ℕ
one_if b = if b then 1 else 0

index_of-nil : (k : ℕ) → index_of k [] ≡ none
unfolding index_of
index_of-nil k = refl

apart : (b : Bool) → one_if b ≡ 0 → b ≡ false
apart true e = absurd (omega (arith, e))
apart false e = refl

index_of-start_workers :
    (k i : ℕ) (handles : List ℕ) (m : IndexMap)
    → count k handles ≡ 0
    → index_of k (start_workers i handles m) ≡ index_of k m
unfolding start_workers
index_of-start_workers k i [] m e = refl
index_of-start_workers k i (h ∷ handles) m e =
    index_of-start_workers k (i + 1) handles (assign_index h i m) (omega (arith, e))
    ∙ index_of-assign_index k h i m
    ∙ rw (apart (h == k) (omega (arith, e))) refl

thread_index-known : (k i : ℕ) (m : IndexMap) → index_of k m ≡ some i → thread_index k m ≡ (i, m)
unfolding thread_index found_index
thread_index-known k i m e = ap (found_index k m) e

thread_index-unknown :
    (k : ℕ) (m : IndexMap) → index_of k m ≡ none → thread_index k m ≡ (0, assign_index k 0 m)
unfolding thread_index found_index
thread_index-unknown k m e = ap (found_index k m) e

begin_workers-known :
    (n k i : ℕ) (m : IndexMap)
    → index_of k m ≡ some i
    → begin_workers (replicate n k) m ≡ (replicate n i, m)
unfolding begin_workers
begin_workers-known zero k i m e = refl
begin_workers-known (suc n) k i m e =
    rw (thread_index-known k i m e, begin_workers-known n k i m e) refl

-- `GetCurrentThread` gives each worker a handle that is none of those that `CreateThread` returned:
-- then, however many workers there are, each counts under the index 0, and `stop` posts one end more
-- than `start` has noted handles.
pub begin_workers-shared :
    (n pseudo : ℕ) (handles : List ℕ)
    → count pseudo handles ≡ 0
    → ((begin_workers (replicate (suc n) pseudo) (start_workers 0 handles [])).0
        ≡ replicate (suc n) 0)
      × (posted_ends (begin_workers (replicate (suc n) pseudo) (start_workers 0 handles [])).1
          ≡ posted_ends (start_workers 0 handles []) + 1)
unfolding begin_workers posted_ends
begin_workers-shared n pseudo handles other =
    let m = start_workers 0 handles [] in
    let unknown : index_of pseudo m ≡ none =
      index_of-start_workers pseudo 0 handles [] other ∙ index_of-nil pseudo in
    let known : index_of pseudo (assign_index pseudo 0 m) ≡ some 0 =
      index_of-assign_index pseudo pseudo 0 m ∙ rw (itself pseudo) refl in
    let whole : begin_workers (replicate (suc n) pseudo) m
        ≡ (replicate (suc n) 0, assign_index pseudo 0 m) =
      rw
        (
          thread_index-unknown pseudo m unknown,
          begin_workers-known n pseudo 0 (assign_index pseudo 0 m) known,
        )
        refl in
    (ap (λ w. w.0) whole, ap (λ w. posted_ends w.1) whole ∙ length-assign_index pseudo 0 m unknown)
  where
    itself : (k : ℕ) → (k == k) ≡ true
    itself k = ground arith
