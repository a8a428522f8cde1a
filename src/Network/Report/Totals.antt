-- ===== src/Network/Report/Totals.antt =====
-- What a round of `networkThread` reports of the messages that the workers have counted.
use login_server.Base.{
  ap, ◌∙◌, ℕ, zero, suc, ◌+◌, ◌-◌, ◌*◌, ◌/◌, ◌%◌, ◌^◌, ◌≡◌, ◌<◌, refl, arith, Option, none, some,
  List, [], ◌∷◌, ◌==◌, ◌>>=◌, false, ap₂,
}
use login_server.Base.Results.{Always, Always-map, Always-bind, of_Always}
use login_server.Network.Report.{Report, count_up, sum_up, reported, network_round}

abbrev pub sum : List ℕ → ℕ
sum [] = 0
sum (c ∷ cs) = c + sum cs

-- Messages that workers count, each under an index, between two rounds; and how many they are.
unfoldable pub count_all : List (ℕ × ℕ) → List ℕ → Option (List ℕ)
count_all [] cs = some cs
count_all ((i, n) ∷ works) cs = count_up i n cs >>= count_all works

abbrev pub handled : List (ℕ × ℕ) → ℕ
handled [] = 0
handled ((i, n) ∷ works) = n + handled works

sum_up_lem :
    (s : ℕ) (cs : List ℕ)
    → s < 2 ^ 32
    → ((sum_up s cs).0 ≡ (s + sum cs) % 2 ^ 32) × (sum (sum_up s cs).1 ≡ 0)
unfolding sum_up
sum_up_lem s [] h = (omega (arith, h), refl)
sum_up_lem s (c ∷ cs) h = omega (arith, sum_up_lem ((s + c) % 2 ^ 32) cs (omega arith))

-- The sum grows by what is counted, up to the wrap of the counters.
abbrev Grows : List ℕ → ℕ → List ℕ → Type 0
Grows cs n ds = sum ds % 2 ^ 32 ≡ (sum cs + n) % 2 ^ 32

count_up-Grows : (i n : ℕ) (cs : List ℕ) → Always (Grows cs n) (count_up i n cs)
unfolding count_up
count_up-Grows i n [] = record {}
count_up-Grows zero n (c ∷ cs) = omega arith
count_up-Grows (suc i) n (c ∷ cs) = from_rest (count_up i n cs) (count_up-Grows i n cs)
  where
    from_rest :
        (o : Option (List ℕ))
        → Always (Grows cs n) o
        → Always (Grows (c ∷ cs) n) (elim o [ none ↦ none | some ds ↦ some (c ∷ ds) ])
    from_rest none h = record {}
    from_rest (some ds) h = omega (arith, h)

count_all-Grows :
    (works : List (ℕ × ℕ)) (cs : List ℕ) → Always (Grows cs (handled works)) (count_all works cs)
unfolding count_all
count_all-Grows [] cs = omega arith
count_all-Grows ((i, n) ∷ works) cs =
    Always-bind (Grows cs n) (Grows cs (n + handled works)) (count_all works) (count_up i n cs)
      (count_up-Grows i n cs)
      (λ ds h.
        Always-map (λ es k. omega (arith, h, k)) (count_all works ds) (count_all-Grows works ds))

-- What a round reports of one array, in which the workers have counted from 0 on.
sum_up-rate :
    (works : List (ℕ × ℕ)) (counts counted : List ℕ) (elapsed : ℕ)
    → sum counts ≡ 0
    → count_all works counts ≡ some counted
    → handled works * 1000 < 2 ^ 32
    → ((sum_up 0 counted).0 * 1000 % 2 ^ 32 / elapsed ≡ handled works * 1000 / elapsed)
      × (sum (sum_up 0 counted).1 ≡ 0)
sum_up-rate works counts counted elapsed empty counts_up few =
    let grown =
      of_Always (Grows counts (handled works)) (count_all works counts) counted
        (count_all-Grows works counts) counts_up in
    let (total, back) = sum_up_lem 0 counted (omega arith) in
    (ap (λ n. n / elapsed) (omega (arith, total, grown, empty, few)), back)

-- From counters that are 0, for messages sent, messages received and connections, of each of which
-- there are fewer than 2 ^ 32 / 1000, the messages counted under indices of the arrays: a round at a
-- later tick reports how many of each there are in a second, rounded down, whichever worker has
-- counted them, and sets all the counters and the tick for the next.
pub network_round-rate :
    (r : Report) (sent received : List (ℕ × ℕ)) (sends recvs : List ℕ) (accepts now : ℕ)
    → sum r.send_counts ≡ 0
    → sum r.recv_counts ≡ 0
    → count_all sent r.send_counts ≡ some sends
    → count_all received r.recv_counts ≡ some recvs
    → handled sent * 1000 < 2 ^ 32
    → handled received * 1000 < 2 ^ 32
    → accepts * 1000 < 2 ^ 32
    → r.past_tick < now
    → now < 2 ^ 32
    → (r' : Report) × (network_round now
          (record r { send_counts = sends; recv_counts = recvs; accept_count = accepts })
        ≡ some r')
      × (r'.send_tps ≡ handled sent * 1000 / (now - r.past_tick))
      × (r'.recv_tps ≡ handled received * 1000 / (now - r.past_tick))
      × (r'.accept_tps ≡ accepts * 1000 / (now - r.past_tick))
      × (sum r'.send_counts ≡ 0)
      × (sum r'.recv_counts ≡ 0)
      × (r'.accept_count ≡ 0)
      × (r'.past_tick ≡ now)
unfolding network_round reported
network_round-rate r sent received sends recvs accepts now none_sent none_received sends_up recvs_up
      few few' few'' later small =
    let elapsed = (now + 2 ^ 32 - r.past_tick) % 2 ^ 32 in
    let some_time : (elapsed == 0) ≡ false = ground arith in
    let same : elapsed ≡ now - r.past_tick = omega (arith, later, small) in
    let (send_rate, sends_back) =
      sum_up-rate sent r.send_counts sends elapsed none_sent sends_up few in
    let (recv_rate, recvs_back) =
      sum_up-rate received r.recv_counts recvs elapsed none_received recvs_up few' in
    (
      reported now elapsed
          (record r { send_counts = sends; recv_counts = recvs; accept_count = accepts }),
      rw some_time refl,
      send_rate ∙ ap (λ k. handled sent * 1000 / k) same,
      recv_rate ∙ ap (λ k. handled received * 1000 / k) same,
      ap₂ ◌/◌ (omega (arith, few'')) same,
      sends_back,
      recvs_back,
      refl,
      refl,
    )
