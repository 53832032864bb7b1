-- ===== src/Records/Examples.antt =====
-- A few rows and records: the theorems on the records at concrete tables, and runs.
use homemonit.Base.{
  ℕ, zero, suc, ◌+◌, ◌-◌, ◌*◌, ◌/◌, ◌≤◌, Bool, true, false, ◌≡◌, ◌↔◌, ◌⊎◌, refl, some, List, [],
  ◌∷◌, length, keep, Occurs, string_key, ltb, leb, FloatOps, arith,
}
use Prim.Native.Nat.{max}
use homemonit.Records.Tables.{StatsRow, UpdatedRow, HistoryRow, Tables, Statement}
use homemonit.Records.Deletion.{minute, hour, record_data, delete_old_records}
use homemonit.Records.Deletion.Retention.{Expired, delete_old_records_stats}
use homemonit.Records.Deletion.Isolation.{delete_old_records_isolated}
use homemonit.Records.Deletion.History.{DistinctRows}
use homemonit.Records.Longer.{
  Collection, World, rows_of, create_longer_records, longer_record, create_for_systems,
  create_for_system, create_round, create_longer_record, in_shorter_period, in_longer_period,
  add_row,
}
use homemonit.Records.Longer.Spacing.{IsSpaced, Period, create_longer_records-IsSpaced}
use homemonit.Records.Longer.Evidence.{IsJustified, create_longer_records-IsJustified}
use homemonit.Records.Stats.{NicStats, Stats, ContainerStats}
use homemonit.Records.Sums.{no_stats}

abbrev now : ℕ
now = 100 * hour

abbrev old_row : StatsRow
old_row = record { id = "r1"; system = "s1"; type = "1m"; created = 98 * hour; stats = "x" }

abbrev new_row : StatsRow
new_row = record { id = "r2"; system = "s1"; type = "1m"; created = now; stats = "y" }

abbrev box : UpdatedRow
box = record { id = "c1"; updated = now }

abbrev first_alert : HistoryRow
first_alert = record { id = "h1"; user = "u1"; created = 5 }

abbrev second_alert : HistoryRow
second_alert = record { id = "h2"; user = "u1"; created = 9 }

abbrev history : List HistoryRow
history = first_alert ∷ second_alert ∷ []

abbrev tables : Tables
tables = record {
  system_stats = old_row ∷ new_row ∷ [];
  container_stats = [];
  containers = box ∷ [];
  systemd_services = [];
  alerts_history = history;
  quiet_hours = [];
}

abbrev accepts : Statement → Bool
accepts s = false

delete_old_records_stats_example :
    let t' = delete_old_records accepts now tables in
    (Occurs new_row t'.system_stats
      ↔ (Occurs new_row tables.system_stats × ¬ Expired now record_data new_row))
    × (Occurs new_row t'.container_stats
        ↔ (Occurs new_row tables.container_stats × ¬ Expired now record_data new_row))
delete_old_records_stats_example = delete_old_records_stats accepts now tables new_row refl refl

delete_old_records_isolated_example :
    let t' = delete_old_records accepts now tables in
    (Occurs box t'.containers ↔ (Occurs box tables.containers × (now - 10 * minute ≤ box.updated)))
    × (Occurs box t'.systemd_services
        ↔ (Occurs box tables.systemd_services × (now - 20 * minute ≤ box.updated)))
delete_old_records_isolated_example = delete_old_records_isolated accepts now tables box refl refl

history-DistinctRows : DistinctRows history
history-DistinctRows = ((λ e. ground (arith, e, string_key.test_iff "h2" "h1"), tt), (tt, tt))

-- Two short records of one minute each would not do; nine do.
abbrev minutes : ℕ → List StatsRow
minutes zero = []
minutes (suc n) = record new_row { created = now - n * minute } ∷ minutes n

abbrev full : Tables
full = record tables { system_stats = minutes 9 }

abbrev world : World
world = record {
  now = λ k. now;
  count_fails = λ k c. false;
  select_fails = λ k c. false;
  save_fails = λ k c. false;
  new_id = λ k c. "new";
  saved_at = λ k c. now;
  average = λ c stats. "mean";
}

create_longer_records_run :
    length (rows_of Collection.system_stats (create_longer_records world true ("s1" ∷ []) full))
    ≡ 10
unfolding create_longer_records rows_of create_for_systems create_for_system create_round
    create_longer_record keep in_shorter_period in_longer_period add_row longer_record
create_longer_records_run = refl

minutes-IsSpaced : (n : ℕ) → IsSpaced (19 * minute) "s1" "20m" (minutes n)
minutes-IsSpaced zero = tt
minutes-IsSpaced (suc n) =
    (λ h. absurd (ground (arith, h.1, string_key.test_iff "1m" "20m")), minutes-IsSpaced n)

create_longer_records-IsSpaced_example :
    IsSpaced
      (19 * minute)
      "s1"
      "20m"
      (rows_of Collection.system_stats (create_longer_records world true ("s1" ∷ []) full))
unfolding rows_of
create_longer_records-IsSpaced_example =
    create_longer_records-IsSpaced Period.twenty world true ("s1" ∷ []) Collection.system_stats full
      "s1" (λ k c. omega arith) (minutes-IsSpaced 9)

abbrev ten : StatsRow
ten = record { id = "new"; system = "s1"; type = "10m"; created = now; stats = "mean" }

create_longer_records-IsJustified_example :
    let t' = create_longer_records world true ("s1" ∷ []) full in
    (Occurs ten (rows_of Collection.system_stats t')
      → Occurs ten (rows_of Collection.system_stats full)
        ⊎ IsJustified world ("s1" ∷ []) Collection.system_stats t' ten)
    × (Occurs ten (rows_of Collection.system_stats full)
        → Occurs ten (rows_of Collection.system_stats t'))
create_longer_records-IsJustified_example =
    create_longer_records-IsJustified world true ("s1" ∷ []) Collection.system_stats full ten

-- Floats that are whole numbers, for the runs.
abbrev whole : FloatOps
whole = record {
  add = λ a b. a + b;
  sub = λ a b. a - b;
  mul = λ a b. a * b;
  div = λ a b. a / b;
  max = max;
  lt = ltb;
  le = leb;
  round = λ a. a;
  of_nat = λ a. a;
  to_nat = λ a. a;
}

abbrev nic : ℕ → NicStats
nic n = record { up = n; down = n; total_up = n; total_down = n }

abbrev two_records : List Stats
two_records =
    record no_stats { bandwidth = (10, 0); network_interfaces = some (("eth0", nic 10) ∷ []) }
    ∷ record no_stats { bandwidth = (30, 0); max_bandwidth = (40, 0) }
    ∷ []

abbrev web : ContainerStats
web = record {
  name = "web";
  cpu = 8;
  mem = 6;
  network_sent = 0;
  network_recv = 0;
  bandwidth = (100, 50);
}
