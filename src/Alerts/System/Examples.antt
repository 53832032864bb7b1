-- ===== src/Alerts/System/Examples.antt =====
-- A system with an alert on CPU usage: the theorems on the system alerts at concrete states, and runs.
use homemonit.Base.{
  ℕ, ◌+◌, ◌*◌, ◌/◌, ◌≤◌, String, true, false, ◌≡◌, ◌⊎◌, refl, Option, none, some, List, [], ◌∷◌,
  string_key, lookup, All, map, keep, ltb, leb, FloatOps, SingleOps, arith,
}
use mathlib.Core.Option
use homemonit.Records.Tables.{StatsRow}
use homemonit.Entities.{CombinedData, empty_info, empty_data}
use homemonit.Alerts.Cache.{
  AlertRecord, AlertsDb, AlertsCache, CachedAlertData, populate_from_record, populate_from_db,
  update_all,
}
use homemonit.Alerts.Cache.Coherence.{IsTable, populate_from_db-Coherent}
use homemonit.Alerts.Cache.Reads.{AllStores, update-AllStores}
use homemonit.Alerts.Status.{AlertManager}
use homemonit.Alerts.Status.Delivery.{Inv}
use homemonit.Alerts.System.{
  SystemAlertData, StatsFields, AlertedSystem, current_value, new_alert, accumulate, no_stats,
  unmarshal, first_pass, recent_stats, reaching, second_pass, transitions, handle_alerts,
}
use homemonit.Alerts.System.Passes.{IsImmediate, IsTransition, queried, handle_alerts-IsSound}
use homemonit.Alerts.System.Averages.{IsAveraged}
use homemonit.Alerts.System.Once.{tally, about, handle_alerts-once}
use homemonit.Alerts.System.Window.{moments, window_sums, reset, accumulate-window_sums}

-- Floats that are whole numbers.
abbrev whole : FloatOps
whole = record {
  add = λ a b. a + b;
  sub = λ a b. a;
  mul = λ a b. a * b;
  div = λ a b. a / b;
  max = λ a b. a;
  lt = ltb;
  le = leb;
  round = λ a. a;
  of_nat = λ a. a;
  to_nat = λ a. a;
}

-- 1.2 is rounded up to 2 here.
abbrev single : SingleOps
single = record {
  single = λ a. a;
  double = λ a. a;
  add = λ a b. a + b;
  div = λ a b. a / 2;
  lt = ltb;
  le = leb;
  of_nat = λ a. a;
}

abbrev combined : CombinedData
combined = record empty_data { info = record empty_info { cpu = 95 } }

abbrev system : AlertedSystem
system = record { id = "s1"; name = "web"; updated = 1_000_000 }

abbrev row : AlertRecord
row = record {
  id = "a1";
  system = "s1";
  user = "u1";
  name = "CPU";
  value = 80;
  triggered = false;
  min = 1;
}

abbrev ten_minutes : CachedAlertData
ten_minutes = record (populate_from_record row) { id = "a2"; min = 2 }

-- Every text says that the CPU usage is 90.
abbrev parse : String → Option StatsFields
parse text =
    some (record { cpu = some 90; mem = none; disk = none; bandwidth = none; extra_fs = none })

abbrev stats_at : ℕ → StatsRow
stats_at t = record { id = "r"; system = "s1"; type = "1m"; created = t; stats = "90" }

abbrev rows : List StatsRow
rows = stats_at 870_000 ∷ stats_at 930_000 ∷ stats_at 990_000 ∷ []

abbrev sample : List SystemAlertData
sample = record (new_alert system ten_minutes 95) { time = 880_000 } ∷ []

abbrev both : List CachedAlertData
both = populate_from_record row ∷ ten_minutes ∷ []

handle_alerts-IsSound_example :
    let (sent, ok) = handle_alerts whole single parse system combined (some rows) both in
    let found = queried whole system combined (some rows) both in
    All
      (λ x.
        IsImmediate whole single system both x
        ⊎ (IsTransition whole single system both x × IsAveraged whole single parse found x))
      sent
    × (ok ≡ false → All (IsImmediate whole single system both) sent)
handle_alerts-IsSound_example =
    handle_alerts-IsSound whole single parse system combined (some rows) both

handle_alerts-once_example :
    tally (about "a2") (handle_alerts whole single parse system combined (some rows) both).0 ≤ 1
unfolding populate_from_record
handle_alerts-once_example =
    handle_alerts-once whole single parse system combined (some rows) both "a2"

accumulate-window_sums_example :
    accumulate whole single parse true rows no_stats sample
    ≡ Option.map
        (λ ms. map (window_sums whole single ms) (map (reset whole single) sample))
        (moments parse rows no_stats)
unfolding new_alert
accumulate-window_sums_example =
    accumulate-window_sums whole single parse (stats_at 870_000)
      (stats_at 930_000 ∷ stats_at 990_000 ∷ []) no_stats sample (omega arith, tt)

-- Both alerts are sent: the second after the average over the two rows in its window.
both_sent :
    map
      (λ x. let counted : String × ℕ = (x.alert_data.id, x.count) in counted)
      (handle_alerts whole single parse system combined (some rows) both).0
    ≡ ("a1", 0) ∷ ("a2", 2) ∷ []
unfolding handle_alerts second_pass recent_stats keep first_pass current_value populate_from_record
    reaching accumulate transitions
both_sent = refl

-- Its value is the average.
average_sent :
    map
      (λ x. x.val)
      (handle_alerts whole single parse system combined (some rows) (ten_minutes ∷ [])).0
    ≡ 90 ∷ []
unfolding handle_alerts second_pass recent_stats keep first_pass current_value populate_from_record
    reaching accumulate transitions
average_sent = refl

-- A row without extra file systems leaves those of the row before in use.
abbrev silent : StatsFields
silent = record { cpu = none; mem = none; disk = none; bandwidth = none; extra_fs = none }

stale_fs :
    let old = record no_stats {
      extra_fs = ("data", record { disk_total = 9; disk_used = 9 }) ∷ [];
    } in
    (unmarshal silent old).extra_fs ≡ old.extra_fs
unfolding unmarshal
stale_fs = refl

abbrev db : AlertsDb
db = record { rows = ("a1", row) ∷ []; readable = true; writable = true }

abbrev empty : AlertsCache
empty = record { store = []; populated = false }

abbrev am : AlertManager
am = record {
  db = db;
  cache = (populate_from_db true db empty).0;
  pending = [];
  callbacks = [];
  sent = [];
  stopped = false;
  now = 0;
}

db-IsTable : IsTable db.rows
unfolding lookup
db-IsTable = (refl, refl, tt)

am-AllStores : AllStores am.cache
unfolding populate_from_db update_all lookup
am-AllStores = update-AllStores row empty (λ s m e. cc)

am-Inv : Inv am
unfolding lookup
am-Inv = record {
  table = db-IsTable;
  coherent = (populate_from_db-Coherent db empty db-IsTable refl).0;
  stores = am-AllStores;
  once = tt;
  keyed = λ i info e. cc;
}
