-- ===== src/Agent/Network.antt =====
-- agent/network.go: the counters of the network interfaces and the rates made from them. A time is in
-- nanoseconds; a read of the counters is `none` where it fails.
pub mod Keys
pub mod Rates
pub mod Anomaly
use homemonit.Base.{
  ℕ, ◌+◌, ◌-◌, ◌*◌, ◌/◌, ◌%◌, ◌^◌, String, Bool, true, false, ◌||◌, Option, none, some, List, [],
  ◌∷◌, string_key, nat_key, lookup, insert, erase, ltb, leb, nat_beq, if◌then◌else◌,
}
use Prim.Native.String.{◌++◌}
use homemonit.Records.Stats.{NicStats}
use homemonit.Agent.Deltas.{DeltaTracker, sub64, new_delta_tracker, set, previous, cycle}
use homemonit.Agent.Nics.{IoCounters, NicConfig, listed, skip_network_interface}

pub record NetIoStats : Type 0 where
  pub bytes_recv : ℕ
  pub bytes_sent : ℕ
  pub time : Option ℕ  -- none: the zero time

-- The fields of the agent for the network.
pub record Agent : Type 0 where
  pub net_interfaces : List String
  pub net_io_stats : List (ℕ × NetIoStats)
  pub trackers : List (ℕ × DeltaTracker String)

-- The fields of the statistics that this part writes.
pub record NetworkStats : Type 0 where
  pub network_interfaces : List (String × NicStats)
  pub bandwidth : ℕ × ℕ

abbrev pub u64 : ℕ → ℕ
u64 n = n % 2 ^ 64

abbrev pub up_key : String → String
up_key name = name ++ "up"

abbrev pub down_key : String → String
down_key name = name ++ "down"

-- Bytes in so many milliseconds, per second; not called with 0 milliseconds.
abbrev pub per_second : ℕ → ℕ → ℕ
per_second bytes ms = u64 (bytes * 1000) / ms

-- The bytes since the last value of a counter, or all of them where the counter began anew.
unfoldable pub counted : ℕ → ℕ → ℕ
counted value before = if leb before value then value - before else value

unfoldable pub nic_rate : ℕ → ℕ → Option ℕ → ℕ
nic_rate ms value none = 0
nic_rate ms value (some before) = if ltb 0 ms then per_second (counted value before) ms else 0

-- The running state of the loop over the counters.
pub record Sums : Type 0 where
  pub tracker : DeltaTracker String
  pub sent : ℕ
  pub recv : ℕ
  pub nics : List (String × NicStats)

unfoldable pub track_nic : ℕ → IoCounters → Sums → Sums
track_nic ms v s =
    let tracker = set (down_key v.name) v.bytes_recv (set (up_key v.name) v.bytes_sent s.tracker) in
    record {
      tracker = tracker;
      sent = u64 (s.sent + v.bytes_sent);
      recv = u64 (s.recv + v.bytes_recv);
      nics =
          insert v.name
            (record {
              up = nic_rate ms v.bytes_sent (previous (up_key v.name) tracker);
              down = nic_rate ms v.bytes_recv (previous (down_key v.name) tracker);
              total_up = v.bytes_sent;
              total_down = v.bytes_recv;
            })
            s.nics;
    }

unfoldable pub track_nics : List String → ℕ → List IoCounters → Sums → Sums
track_nics interfaces ms [] s = s
track_nics interfaces ms (v ∷ counters) s =
    track_nics interfaces ms counters (if listed v.name interfaces then track_nic ms v s else s)

unfoldable pub tracker_or : Option (DeltaTracker String) → DeltaTracker String
tracker_or none = new_delta_tracker
tracker_or (some t) = t

unfoldable pub sum_and_track_per_nic_deltas :
    ℕ → ℕ → List IoCounters → NetworkStats → Agent → Agent × Sums
sum_and_track_per_nic_deltas cache_time ms counters stats a =
    let sums = track_nics a.net_interfaces ms counters (record {
      tracker = cycle (tracker_or (lookup cache_time a.trackers));
      sent = 0;
      recv = 0;
      nics = stats.network_interfaces;
    }) in
    (record a { trackers = insert cache_time sums.tracker a.trackers }, sums)

unfoldable pub baseline_or : Option NetIoStats → NetIoStats
baseline_or none = record { bytes_recv = 0; bytes_sent = 0; time = none }
baseline_or (some s) = s

-- `since` is the time of the first look at the clock, `now` that of the second.
unfoldable pub tick : ℕ → ℕ → NetIoStats → NetIoStats × ℕ
tick since now s =
    (record s { time = some now }, elim s.time [ none ↦ 0 | some t ↦ (since - t) / 1_000_000 ])

unfoldable pub load_and_tick_net_baseline : ℕ → ℕ → ℕ → Agent → NetIoStats × ℕ
load_and_tick_net_baseline cache_time since now a =
    tick since now (baseline_or (lookup cache_time a.net_io_stats))

unfoldable pub compute_bytes_per_second : ℕ → ℕ → ℕ → NetIoStats → ℕ × ℕ
compute_bytes_per_second ms sent recv nis =
    if ltb 0 ms
    then (per_second (sub64 sent nis.bytes_sent) ms, per_second (sub64 recv nis.bytes_recv) ms)
    else (0, 0)

unfoldable pub valid_names : (IoCounters → Bool) → List IoCounters → List String → List String
valid_names skip [] names = names
valid_names skip (v ∷ counters) names =
    valid_names skip counters
      (if skip v then names else if listed v.name names then names else v.name ∷ names)

-- The counters are read for this by themselves.
unfoldable pub initialize_net_io_stats : (IoCounters → Bool) → Option (List IoCounters) → Agent
initialize_net_io_stats skip none = record { net_interfaces = []; net_io_stats = []; trackers = [] }
initialize_net_io_stats skip (some counters) = record {
  net_interfaces = valid_names skip counters [];
  net_io_stats = [];
  trackers = [];
}

abbrev pub limit : ℕ
limit = 10_000_000_000

unfoldable pub apply_network_totals :
    (IoCounters → Bool)
    → Option (List IoCounters)
    → ℕ
    → NetIoStats
    → ℕ
    → ℕ
    → ℕ × ℕ
    → NetworkStats
    → Agent
    → Agent × NetworkStats
apply_network_totals skip again cache_time nis sent recv rates stats a =
    let fresh = initialize_net_io_stats skip again in
    if ltb limit rates.0 || ltb limit rates.1
    then (
      record fresh {
        net_io_stats = erase cache_time fresh.net_io_stats;
        trackers = erase cache_time fresh.trackers;
      },
      record stats { bandwidth = (0, 0) },
    )
    else (
      record a {
        net_io_stats =
            insert cache_time (record nis { bytes_sent = sent; bytes_recv = recv }) a.net_io_stats;
      },
      record stats { bandwidth = rates },
    )

unfoldable pub ensure_net_interfaces_initialized :
    (IoCounters → Bool) → Option (List IoCounters) → Agent → Agent
ensure_net_interfaces_initialized skip again a = elim a.net_interfaces [
  | [] ↦ initialize_net_io_stats skip again
  | name ∷ names ↦ a
]

-- What a call sees: its two looks at the clock, and the three reads of the counters, of which the
-- first and the last are only made where the interfaces are found anew.
pub record Seen : Type 0 where
  pub since : ℕ
  pub now : ℕ
  pub first : Option (List IoCounters)
  pub counters : Option (List IoCounters)
  pub again : Option (List IoCounters)

update_read :
    (IoCounters → Bool)
    → Seen
    → ℕ
    → Option (List IoCounters)
    → NetworkStats
    → Agent
    → Agent × NetworkStats
update_read skip w cache_time none stats a = (a, stats)
update_read skip w cache_time (some counters) stats a =
    let (nis, ms) = load_and_tick_net_baseline cache_time w.since w.now a in
    let (a', sums) = sum_and_track_per_nic_deltas cache_time ms counters stats a in
    let rates = compute_bytes_per_second ms sums.sent sums.recv nis in
    apply_network_totals skip w.again cache_time nis sums.sent sums.recv rates
      (record stats { network_interfaces = sums.nics }) a'

unfoldable pub update_network_stats :
    (IoCounters → Bool) → Seen → ℕ → NetworkStats → Agent → Agent × NetworkStats
unfolding update_read
update_network_stats skip w cache_time stats a =
    update_read skip w cache_time w.counters stats
      (ensure_net_interfaces_initialized skip w.first a)
