-- ===== src/Network/Array/Stack.antt =====
-- How often an index is on the stack, and how many indices are on it.
use login_server.Base.{
  ℕ, zero, suc, ◌+◌, ◌≡◌, ◌<◌, ◌≤◌, refl, arith, List, [], ◌∷◌, length, count, ◌==◌, ltb,
  if◌then◌else◌,
}
use login_server.Network.Array.{push_indices}

-- The loop of `start` pushes each index below its bound once.
pub count-push_indices :
    (i n : ℕ) (stack : List ℕ)
    → count i (push_indices n stack) ≡ (if ltb i n then 1 else 0) + count i stack
unfolding push_indices
count-push_indices i zero stack = ground arith
count-push_indices i (suc n) stack = ground (arith, count-push_indices i n (n ∷ stack))

abbrev pub sum_below : (ℕ → ℕ) → ℕ → ℕ
sum_below f zero = 0
sum_below f (suc n) = sum_below f n + f n

sum_add : (f g : ℕ → ℕ) (n : ℕ) → sum_below (λ i. f i + g i) n ≡ sum_below f n + sum_below g n
sum_add f g zero = omega arith
sum_add f g (suc n) = omega (arith, sum_add f g n)

sum_is : (b n : ℕ) → sum_below (λ i. if b == i then 1 else 0) n ≡ (if ltb b n then 1 else 0)
sum_is b zero = ground arith
sum_is b (suc n) = ground (arith, sum_is b n)

pub sum_same : (f g : ℕ → ℕ) (n : ℕ) → ((i : ℕ) → i < n → f i ≡ g i) → sum_below f n ≡ sum_below g n
sum_same f g zero h = refl
sum_same f g (suc n) h =
    omega (arith, h n (omega arith), sum_same f g n (λ i lt. h i (omega arith)))

-- Every element of a list is counted once, under itself.
pub length-sum_below :
    (xs : List ℕ) (n : ℕ)
    → ((i : ℕ) → n ≤ i → count i xs ≡ 0)
    → sum_below (λ i. count i xs) n ≡ length xs
length-sum_below [] n within = sum_zero n
  where
    sum_zero : (n : ℕ) → sum_below (λ i. 0) n ≡ 0
    sum_zero zero = refl
    sum_zero (suc n) = omega (arith, sum_zero n)
length-sum_below (b ∷ xs) n within = omega (
  arith,
  sum_add (λ i. if b == i then 1 else 0) (λ i. count i xs) n,
  inside,
  length-sum_below xs n (λ i le. ground (arith, within i)),
)
  where
    inside : sum_below (λ i. if b == i then 1 else 0) n ≡ 1
    inside = ground (arith, sum_is b n, within b)
