-- ===== src/Ring/Window.antt =====
-- Windows of a block: writing past the end extends one, and a part of one is a window.
use login_server.Base.{
  ℕ, ◌+◌, ◌-◌, ◌≤◌, ◌<◌, ◌≡◌, List, ◌++◌, arith, length, get_or, take, drop, get_or_ext,
  get_or-append, get_or-take, get_or-drop, length-append, length-take, length-drop, ltb,
  if◌then◌else◌,
}
use login_server.Ring.{Ring}
use login_server.Ring.Index.{place, span}
use login_server.Ring.Contents.{window, contents, get_or-tabulate, length-tabulate}

pub length-contents : (r : Ring) → length (contents r) ≡ span r
length-contents r =
    length-tabulate
      (λ i. get_or r.buffer (place r.buffer_size (place r.buffer_size r.head_ptr 1) i) 0) (span r)

-- Writing just past a window extends it by what is written.
pub window-extend :
    (block b : List ℕ) (m s t k : ℕ) (bytes : List ℕ)
    → s < m
    → t ≡ place m s k
    → k + length bytes < m
    → ((i : ℕ)
        → i < m
        → get_or b (place m t i) 0
          ≡ (if ltb i (length bytes) then get_or bytes i 0 else get_or block (place m t i) 0))
    → window b m s (k + length bytes) ≡ window block m s k ++ bytes
window-extend block b m s t k bytes hs at few law =
    get_or_ext 0 (window b m s (k + length bytes)) (window block m s k ++ bytes)
      (omega (
        arith,
        length-tabulate (λ i. get_or b (place m s i) 0) (k + length bytes),
        length-append (window block m s k) bytes,
        length-tabulate (λ i. get_or block (place m s i) 0) k,
      ))
      λ i lt. ground (
        arith,
        length-tabulate (λ i. get_or b (place m s i) 0) (k + length bytes),
        length-tabulate (λ i. get_or block (place m s i) 0) k,
        get_or-append (window block m s k) bytes i 0,
        get_or-tabulate (λ i. get_or b (place m s i) 0) (k + length bytes) i,
        get_or-tabulate (λ i. get_or block (place m s i) 0) k i,
        law (i - k),
        law (m - k + i),
      )

-- The first of a window's bytes, and those after them.
pub window-take :
    (block : List ℕ) (m s n k : ℕ) → n ≤ k → window block m s n ≡ take n (window block m s k)
window-take block m s n k h =
    get_or_ext 0 (window block m s n) (take n (window block m s k))
      (omega (
        arith,
        length-tabulate (λ i. get_or block (place m s i) 0) n,
        length-take n (window block m s k),
        length-tabulate (λ i. get_or block (place m s i) 0) k,
      ))
      λ i lt. ground (
        arith,
        length-tabulate (λ i. get_or block (place m s i) 0) n,
        get_or-tabulate (λ i. get_or block (place m s i) 0) n i,
        get_or-take n (window block m s k) i 0,
        get_or-tabulate (λ i. get_or block (place m s i) 0) k i,
      )

pub window-drop :
    (block : List ℕ) (m s n k : ℕ)
    → s < m
    → k ≤ m
    → n ≤ k
    → n < m
    → window block m (place m s n) (k - n) ≡ drop n (window block m s k)
window-drop block m s n k hs hk h hn =
    get_or_ext 0 (window block m (place m s n) (k - n)) (drop n (window block m s k))
      (omega (
        arith,
        length-tabulate (λ i. get_or block (place m (place m s n) i) 0) (k - n),
        length-drop n (window block m s k),
        length-tabulate (λ i. get_or block (place m s i) 0) k,
      ))
      λ i lt. ground (
        arith,
        length-tabulate (λ i. get_or block (place m (place m s n) i) 0) (k - n),
        get_or-tabulate (λ i. get_or block (place m (place m s n) i) 0) (k - n) i,
        get_or-drop n (window block m s k) i 0,
        get_or-tabulate (λ i. get_or block (place m s i) 0) k (n + i),
      )
