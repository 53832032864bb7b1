-- ===== src/Agent/Examples.antt =====
-- One interface over two calls: the theorems on the agent at concrete values.
use homemonit.Base.{
  ℕ, String, Bool, false, ◌&&◌, ◌≡◌, refl, none, some, [], ◌∷◌, string_key, nat_key, ◌==◌, lookup,
  arith,
}
use homemonit.Agent.Deltas.{DeltaTracker}
use homemonit.Agent.Nics.{IoCounters, listed}
use homemonit.Agent.Network.{
  Agent, NetworkStats, NetIoStats, Seen, sum_and_track_per_nic_deltas, update_network_stats,
  nic_rate, counted,
}
use homemonit.Agent.Network.Rates.{of_name, sum_and_track_exact}
use homemonit.Agent.Network.Anomaly.{update_network_stats_restart}

abbrev t : DeltaTracker String
t = record { current = ("a", 7) ∷ []; previous = ("a", 5) ∷ ("b", 1) ∷ [] }

-- Only "eth*" matches, and only "eth0".
abbrev matches : String → String → Bool
matches pattern name = pattern == "eth*" && name == "eth0"

abbrev v : ℕ → ℕ → IoCounters
v sent recv = record { name = "eth0"; bytes_sent = sent; bytes_recv = recv }

abbrev nis : NetIoStats
nis = record { bytes_recv = 500; bytes_sent = 1_000; time = some 1_000_000_000 }

abbrev agent : Agent
agent = record { net_interfaces = "eth0" ∷ []; net_io_stats = (1_000, nis) ∷ []; trackers = [] }

abbrev stats : NetworkStats
stats = record { network_interfaces = []; bandwidth = (0, 0) }

sum_and_track_exact_example :
    let a' = (sum_and_track_per_nic_deltas 1_000 0 (v 10 20 ∷ []) stats agent).0 in
    let sums = (sum_and_track_per_nic_deltas 1_000 2_000 (v 110 5 ∷ []) stats a').1 in
    lookup "eth0" sums.nics ≡ some (record { up = 50; down = 2; total_up = 110; total_down = 5 })
unfolding of_name listed nic_rate counted
sum_and_track_exact_example =
    sum_and_track_exact 1_000 0 2_000 (v 10 20 ∷ []) (v 110 5 ∷ []) stats stats agent (v 110 5) refl
      (refl, tt) (refl, tt) refl

abbrev seen : ℕ → Seen
seen sent = record {
  since = 3_000_000_000;
  now = 3_000_000_001;
  first = none;
  counters = some (v sent 500 ∷ []);
  again = none;
}

abbrev never : IoCounters → Bool
never c = false

update_network_stats_restart_example :
    let (a', stats') = update_network_stats never (seen 10) 1_000 stats agent in
    (stats'.bandwidth ≡ (0, 0)) × (a'.net_io_stats ≡ []) × (a'.trackers ≡ [])
unfolding listed lookup
update_network_stats_restart_example =
    update_network_stats_restart never (seen 10) 1_000 stats agent (v 10 500 ∷ []) nis 1_000_000_000
      ((λ e. cc), refl, refl, refl) (omega arith) (omega arith) (omega arith) (omega arith)
      (omega arith)

abbrev shown : String
shown = "data"

abbrev second : ℕ
second = 1_000

abbrev minute : ℕ
minute = 60_000
