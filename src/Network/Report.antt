-- ===== src/Network/Report.antt =====
-- loginServer/lib/IOCP netServer/network.h and network.cpp: how the workers count their messages and
-- how `networkThread` reports them. `start` notes an index for the handle of each worker, under which
-- the worker counts in two arrays; each round of `networkThread` sums these up and sets them back.
pub mod Index
pub mod Totals
use login_server.Base.{
  ℕ, zero, suc, ◌+◌, ◌-◌, ◌*◌, ◌/◌, ◌%◌, ◌^◌, ◌≡◌, Option, none, some, List, [], ◌∷◌, length, ◌==◌,
  if◌then◌else◌,
}

-- `threadIndexMap`: handles with indices.
abbrev pub IndexMap : Type 0
IndexMap = List (ℕ × ℕ)

unfoldable pub index_of : ℕ → IndexMap → Option ℕ
index_of handle [] = none
index_of handle ((k, i) ∷ m) = let rest = index_of handle m in if k == handle then some i else rest

unfoldable pub assign_index : ℕ → ℕ → IndexMap → IndexMap
assign_index handle i [] = (handle, i) ∷ []
assign_index handle i ((k, j) ∷ m) =
    let rest = assign_index handle i m in if k == handle then (k, i) ∷ m else (k, j) ∷ rest

-- The loop of `start` over the handles that `CreateThread` returns, from the index `i` on.
unfoldable pub start_workers : ℕ → List ℕ → IndexMap → IndexMap
start_workers i [] m = m
start_workers i (handle ∷ handles) m = start_workers (i + 1) handles (assign_index handle i m)

-- `threadIndexMap[handle]`, which puts 0 under a handle that is not in the map.
unfoldable pub found_index : ℕ → IndexMap → Option ℕ → ℕ × IndexMap
found_index handle m (some i) = (i, m)
found_index handle m none = (0, assign_index handle 0 m)

unfoldable pub thread_index : ℕ → IndexMap → ℕ × IndexMap
thread_index handle m = found_index handle m (index_of handle m)

-- The workers' start, each asking for the index of the handle that `GetCurrentThread` gives it.
unfoldable pub begin_workers : List ℕ → IndexMap → List ℕ × IndexMap
begin_workers [] m = ([], m)
begin_workers (handle ∷ handles) m =
    let (i, n) = thread_index handle m in let (is, o) = begin_workers handles n in (i ∷ is, o)

-- `stop` posts one end for each entry of the map.
unfoldable pub posted_ends : IndexMap → ℕ
posted_ends m = length m

-- The counters of the messages sent, and of those received, by index, and of connections, with the
-- rates of the last round and its tick.
pub record Report : Type 0 where
  pub send_counts : List ℕ
  pub recv_counts : List ℕ
  pub accept_count : ℕ
  pub send_tps : ℕ
  pub recv_tps : ℕ
  pub accept_tps : ℕ
  pub past_tick : ℕ

-- `sendMessageTPSArr[i] += n`; `none` is an access behind the end.
unfoldable pub count_up : ℕ → ℕ → List ℕ → Option (List ℕ)
count_up i n [] = none
count_up zero n (c ∷ cs) = some ((c + n) % 2 ^ 32 ∷ cs)
count_up (suc i) n (c ∷ cs) = elim (count_up i n cs) [ none ↦ none | some ds ↦ some (c ∷ ds) ]

-- The loop of `networkThread` over one array: its sum, and the array set back.
unfoldable pub sum_up : ℕ → List ℕ → ℕ × List ℕ
sum_up sum [] = (sum, [])
sum_up sum (c ∷ cs) = let (total, ds) = sum_up ((sum + c) % 2 ^ 32) cs in (total, 0 ∷ ds)

-- What a round of `networkThread` sets after so many milliseconds.
unfoldable pub reported : ℕ → ℕ → Report → Report
reported now elapsed r =
    let (sent, sends) = sum_up 0 r.send_counts in
    let (received, recvs) = sum_up 0 r.recv_counts in
    let rate = λ (n : ℕ). n * 1000 % 2 ^ 32 / elapsed in
    record {
      send_counts = sends;
      recv_counts = recvs;
      accept_count = 0;
      send_tps = rate sent;
      recv_tps = rate received;
      accept_tps = rate r.accept_count;
      past_tick = now;
    }

-- One round of `networkThread` at a tick; `none` is the division by 0 of a round without time.
unfoldable pub network_round : ℕ → Report → Option Report
network_round now r =
    let elapsed = (now + 2 ^ 32 - r.past_tick) % 2 ^ 32 in
    if elapsed == 0 then none else some (reported now elapsed r)
