-- ===== src/Tests/ArrayTests.antt =====
-- An array of three sessions in loginServer/lib/IOCP netServer/network.cpp, of which one is opened.
use login_server.Base.{false, some, ◌∷◌, ◌-◌, ◌≡◌, ◌<◌, refl, arith, count}
use login_server.Network.{get_index}
use login_server.Network.Array.{
  Array, start, accept, find_at, push_indices, get_session_count, Moves, no_move, then_move,
  accepts, AreKnown, IsKnown,
}
use login_server.Network.Array.Stack.{sum_below}
use login_server.Network.Array.Sessions.{get_session_count-off_stack, accept-free}
use login_server.Network.Array.Unused.{start-find_at}
use login_server.Tests.NetworkTests.{blank}

abbrev three : Array
three = start 3 (λ i. blank)

abbrev one_open : Array
one_open = (accept 80 9000 1 three).1

to_one_open : Moves three one_open
unfolding start
to_one_open = then_move (no_move three) (accepts three 80 9000 1 (λ i lt. omega arith))

to_one_open-AreKnown : AreKnown to_one_open
unfolding to_one_open AreKnown IsKnown
to_one_open-AreKnown = (record {}, record {})

get_session_count-off_stack_example :
    get_session_count one_open
    ≡ sum_below (λ i. 1 - (one_open.slots i).stacked) one_open.max_session
get_session_count-off_stack_example =
    get_session_count-off_stack 3 (λ i. blank) (omega arith) to_one_open to_one_open-AreKnown

-- It is one.
one_counted : get_session_count one_open ≡ 1
unfolding get_session_count accept start push_indices
one_counted = refl

accept-free_example :
    (1 < one_open.max_session)
    × ((one_open.slots 1).stacked ≡ 1)
    × ((one_open.slots 1).opening ≡ 0)
    × (count 1 (accept 81 9001 2 one_open).1.index_stack ≡ 0)
    × (get_index ((accept 81 9001 2 one_open).1.slots 1).session.id ≡ 1)
unfolding accept start push_indices
accept-free_example =
    accept-free 3 (λ i. blank) (omega arith) to_one_open to_one_open-AreKnown 81 9001 2 1 refl

-- A look-up under the number 3, which the array of five sessions made by `start` never gave out, and
-- two connections after it.
start-find_at_example :
    ((find_at 3 (start 5 (λ i. blank))).0 ≡ false)
    × ((find_at 3 (start 5 (λ i. blank))).1.index_stack ≡ 0 ∷ (start 5 (λ i. blank)).index_stack)
    × ((accept 80 9000 1 (find_at 3 (start 5 (λ i. blank))).1).0 ≡ some 0)
    × ((accept 81 9001 2 (accept 80 9000 1 (find_at 3 (start 5 (λ i. blank))).1).1).0 ≡ some 0)
unfolding get_index
start-find_at_example =
    start-find_at 4 (λ i. blank) 3 (omega arith) (omega arith) (λ e. absurd (omega (arith, e))) 80
      9000 1 81 9001 2
