-- ===== src/Tests/ReportTests.antt =====
-- Two workers of loginServer/lib/IOCP netServer/network.cpp, and a round after two seconds.
use login_server.Base.{◌+◌, ◌-◌, ◌^◌, ◌≡◌, refl, arith, some, [], ◌∷◌, replicate}
use login_server.Network.Report.{
  Report, start_workers, begin_workers, posted_ends, count_up, network_round,
}
use login_server.Network.Report.Index.{begin_workers-shared}
use login_server.Network.Report.Totals.{sum, count_all, network_round-rate}

-- `GetCurrentThread` gives -2 in 64 bits.
begin_workers-shared_example :
    ((begin_workers (replicate 2 (2 ^ 64 - 2)) (start_workers 0 (120 ∷ 124 ∷ []) [])).0
      ≡ 0 ∷ 0 ∷ [])
    × (posted_ends
          (begin_workers (replicate 2 (2 ^ 64 - 2)) (start_workers 0 (120 ∷ 124 ∷ []) [])).1
        ≡ posted_ends (start_workers 0 (120 ∷ 124 ∷ []) []) + 1)
begin_workers-shared_example = begin_workers-shared 1 (2 ^ 64 - 2) (120 ∷ 124 ∷ []) refl

abbrev idle : Report
idle = record {
  send_counts = 0 ∷ 0 ∷ [];
  recv_counts = 0 ∷ 0 ∷ [];
  accept_count = 0;
  send_tps = 0;
  recv_tps = 0;
  accept_tps = 0;
  past_tick = 5000;
}

network_round-rate_example :
    (r : Report) × (network_round 7000
        (record idle { send_counts = 30 ∷ 20 ∷ []; recv_counts = 0 ∷ 8 ∷ []; accept_count = 3 })
      ≡ some r)
    × (r.send_tps ≡ 25)
    × (r.recv_tps ≡ 4)
    × (r.accept_tps ≡ 1)
    × (sum r.send_counts ≡ 0)
    × (sum r.recv_counts ≡ 0)
    × (r.accept_count ≡ 0)
    × (r.past_tick ≡ 7000)
unfolding count_all count_up
network_round-rate_example =
    network_round-rate idle ((0, 10) ∷ (1, 20) ∷ (0, 20) ∷ []) ((1, 8) ∷ []) (30 ∷ 20 ∷ [])
      (0 ∷ 8 ∷ []) 3 7000 refl refl refl refl (omega arith) (omega arith) (omega arith)
      (omega arith) (omega arith)
