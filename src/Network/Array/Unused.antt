-- ===== src/Network/Array/Unused.antt =====
-- `findSession` for a session that was never opened, as `start` leaves it.
use login_server.Base.{
  ℕ, zero, suc, ◌+◌, ◌^◌, ◌≡◌, ◌≢◌, ◌<◌, ◌≤◌, refl, ◌∙◌, false, true, arith, some, List, [], ◌∷◌,
  ◌==◌,
}
use login_server.Session.{Session, increment_io, decrement_io}
use login_server.Network.{acquire, let_go, try_release, get_index}
use login_server.Network.Array.{
  Array, set_slot, push_indices, start, accept, delete_at, leave_at, find_at,
}

-- The loop of `start` ends with 0 on the top.
push_indices-top :
    (n : ℕ) (stack : List ℕ) → (rest : List ℕ) × (push_indices (suc n) stack ≡ 0 ∷ rest)
unfolding push_indices
push_indices-top zero stack = (stack, refl)
push_indices-top (suc n) stack = push_indices-top n (suc n ∷ stack)

-- What the look-up leaves on the stack.
find_at-start :
    (n : ℕ) (made : ℕ → Session) (wanted : ℕ)
    → wanted ≢ 0
    → ((find_at wanted (start n made)).0 ≡ false)
      × ((find_at wanted (start n made)).1.index_stack ≡ 0 ∷ (start n made).index_stack)
unfolding find_at leave_at delete_at set_slot start acquire let_go increment_io decrement_io
    try_release get_index
find_at-start n made wanted given =
    let itself : (get_index wanted == get_index wanted) ≡ true = ground arith in
    let other : (0 == wanted) ≡ false = ground (arith, given) in rw (other, itself) (refl, refl)

accept-top :
    (x : Array) (i : ℕ) (rest stack : List ℕ) (sock port ip : ℕ)
    → stack ≡ i ∷ rest
    → ((accept sock port ip (record x { index_stack = stack })).0 ≡ some i)
      × ((accept sock port ip (record x { index_stack = stack })).1.index_stack ≡ rest)
unfolding accept set_slot
accept-top x i rest stack sock port ip e = rw e (refl, refl)

-- On an array of fewer than 2 ^ 16 sessions that `start` has made, of which none was opened: a look-up
-- under any number but 0 that says an index of the array. `findSession` finds nothing and pushes the index 0 on the stack, which is there already, so that the
-- next two connections get the same session, whatever their sockets and addresses.
pub start-find_at :
    (n : ℕ) (made : ℕ → Session) (wanted : ℕ)
    → n + 1 < 2 ^ 16
    → get_index wanted ≤ n
    → wanted ≢ 0
    → (sock port ip sock' port' ip' : ℕ)
    → ((find_at wanted (start (suc n) made)).0 ≡ false)
      × ((find_at wanted (start (suc n) made)).1.index_stack ≡ 0 ∷ (start (suc n) made).index_stack)
      × ((accept sock port ip (find_at wanted (start (suc n) made)).1).0 ≡ some 0)
      × ((accept sock' port' ip' (accept sock port ip (find_at wanted (start (suc n) made)).1).1).0
          ≡ some 0)
unfolding start
start-find_at n made wanted small inside given sock port ip sock' port' ip' =
    let (none_found, pushed) = find_at-start (suc n) made wanted given in
    let (rest, top) = push_indices-top n [] in
    let y = (find_at wanted (start (suc n) made)).1 in
    let (first, left) =
      accept-top y 0 (push_indices (suc n) []) y.index_stack sock port ip pushed in
    let z = (accept sock port ip y).1 in
    let (second, more) = accept-top z 0 rest z.index_stack sock' port' ip' (left ∙ top) in
    (none_found, pushed, first, second)
