-- ===== src/LockFreeQueue/Links.antt =====
-- Chains of nodes: the queue's, through their keys, and the free ones', through `poolNext`.
use login_server.Base.{
  ℕ, ◌+◌, ◌*◌, ◌%◌, ◌^◌, ◌≤◌, ◌<◌, ◌≡◌, refl, sym, ap, ◌∙◌, false, List, [], ◌∷◌, ◌++◌, map, count,
  ne_of_count, ap₂, arith, ◌==◌, if◌then◌else◌, subst, bit_or,
}
use login_server.Base.Bits.{bit_and_mask, bit_or_fields}
use login_server.LockFreeQueue.{Node, make_key, make_nodeptr}

make_key_lem : (a n : ℕ) → a < 2 ^ 48 → make_key a n ≡ n % 2 ^ 16 * 2 ^ 48 + a
unfolding make_key
make_key_lem a n h = ap (bit_or a) (high n) ∙ bit_or_fields 48 a (n % 2 ^ 16) h
  where
    high : (c : ℕ) → c * 2 ^ 48 % 2 ^ 64 ≡ c % 2 ^ 16 * 2 ^ 48
    high c = omega arith

pub make_nodeptr-make_key : (a n : ℕ) → a < 2 ^ 48 → make_nodeptr (make_key a n) ≡ a
unfolding make_nodeptr
make_nodeptr-make_key a n h = bit_and_mask 48 (make_key a n) ∙ omega (arith, make_key_lem a n h)

pub make_nodeptr_small : (a : ℕ) → a < 2 ^ 48 → make_nodeptr a ≡ a
unfolding make_nodeptr
make_nodeptr_small a h = bit_and_mask 48 a ∙ omega arith

pub make_key-ne-zero : (a n : ℕ) → 0 < a → a < 2 ^ 48 → (make_key a n == 0) ≡ false
make_key-ne-zero a n h k = ground (arith, make_key_lem a n k)

-- The addresses of the nodes behind some keys.
abbrev pub places : List ℕ → List ℕ
places = map make_nodeptr

abbrev pub last : ℕ → List ℕ → ℕ
last k [] = k
last k (j ∷ ks) = last j ks

-- From the node of `k` on, the keys are `ks`, and the last one is NULL.
abbrev pub Linked : (ℕ → Node) → ℕ → List ℕ → Type 0
Linked node k [] = (node (make_nodeptr k)).key ≡ 0
Linked node k (j ∷ ks) = ((node (make_nodeptr k)).key ≡ j) × ((j == 0) ≡ false) × Linked node j ks

-- From the key `k` on, the free nodes are at `fs`, none of them at 0.
abbrev pub Free : (ℕ → Node) → ℕ → List ℕ → Type 0
Free node k [] = make_nodeptr k ≡ 0
Free node k (f ∷ fs) =
    (make_nodeptr k ≡ f) × (0 < f) × (f < 2 ^ 48) × Free node (node f).pool_next fs

pub count-last : (k : ℕ) (ks : List ℕ) → 0 < count (make_nodeptr (last k ks)) (places (k ∷ ks))
count-last k [] = ground arith
count-last k (j ∷ ks) = omega (arith, count-last j ks)

-- A chain does not feel a change of nodes that it does not have.
pub Linked-same :
    (m n : ℕ → Node) (k : ℕ) (ks : List ℕ)
    → ((a : ℕ) → 0 < count a (places (k ∷ ks)) → (n a).key ≡ (m a).key)
    → Linked m k ks
    → Linked n k ks
Linked-same m n k [] same l = same (make_nodeptr k) (ground arith) ∙ l
Linked-same m n k (j ∷ ks) same l = (
  same (make_nodeptr k) (ground arith) ∙ l.0,
  l.1,
  Linked-same m n j ks (λ a h. same a (omega arith)) l.2,
)

pub Free-same :
    (m n : ℕ → Node) (k : ℕ) (fs : List ℕ)
    → ((a : ℕ) → 0 < count a fs → (n a).pool_next ≡ (m a).pool_next)
    → Free m k fs
    → Free n k fs
Free-same m n k [] same l = l
Free-same m n k (f ∷ fs) same l = (
  l.0,
  l.1,
  l.2,
  Free-same m n (n f).pool_next fs (λ a h. same a (omega arith))
      (subst (λ p. Free m p fs) (sym (same f (ground arith))) l.3),
)

pub values-same :
    (m n : ℕ → Node) (ks : List ℕ)
    → ((a : ℕ) → 0 < count a (places ks) → (n a).value ≡ (m a).value)
    → map (λ k. (n (make_nodeptr k)).value) ks ≡ map (λ k. (m (make_nodeptr k)).value) ks
values-same m n [] same = refl
values-same m n (k ∷ ks) same =
    ap₂ ◌∷◌ (same (make_nodeptr k) (ground arith))
      (values-same m n ks (λ a h. same a (omega arith)))

-- The new key in the last node, whose own node ends the chain.
pub Linked-append :
    (m n : ℕ → Node) (new : ℕ) (k : ℕ) (ks : List ℕ)
    → ((a : ℕ) → (n a).key ≡ (if a == make_nodeptr (last k ks) then new else (m a).key))
    → ((a : ℕ) → count a (places (k ∷ ks)) ≤ 1)
    → count (make_nodeptr new) (places (k ∷ ks)) ≡ 0
    → (m (make_nodeptr new)).key ≡ 0
    → (new == 0) ≡ false
    → Linked m k ks
    → Linked n k (ks ++ (new ∷ []))
Linked-append m n new k [] set once apart end some_key l = (
  ground (arith, set (make_nodeptr k)),
  some_key,
  ground (arith, set (make_nodeptr new), end, apart),
)
Linked-append m n new k (j ∷ ks) set once apart end some_key l = (
  let alone : count (make_nodeptr k) (places (j ∷ ks)) ≡ 0 =
        ground (arith, once (make_nodeptr k)) in
      let other =
        ne_of_count (make_nodeptr k) (make_nodeptr (last j ks)) (places (j ∷ ks)) alone
          (count-last j ks) in
      ground (arith, set (make_nodeptr k), other, l.0),
  l.1,
  Linked-append m n new j ks set (λ a. omega (arith, once a)) (omega arith) end some_key l.2,
)

pub Linked-last :
    (node : ℕ → Node) (k : ℕ) (ks : List ℕ)
    → Linked node k ks
    → (node (make_nodeptr (last k ks))).key ≡ 0
Linked-last node k [] l = l
Linked-last node k (j ∷ ks) l = Linked-last node j ks l.2

pub last-append : (k new : ℕ) (ks : List ℕ) → last k (ks ++ (new ∷ [])) ≡ new
last-append k new [] = refl
last-append k new (j ∷ ks) = last-append j new ks

pub count-places-append :
    (a new : ℕ) (ks : List ℕ)
    → count a (places (ks ++ (new ∷ [])))
      ≡ count a (places ks) + (if make_nodeptr new == a then 1 else 0)
count-places-append a new [] = omega arith
count-places-append a new (k ∷ ks) = omega (arith, count-places-append a new ks)
