-- ===== src/Alerts/System.antt =====
-- internal/alerts/alerts_system.go: the alerts on CPU, memory and disk usage.
-- A time is in milliseconds, counted from a day before year 1, so that no difference below falls
-- under 0. `Sprintf` of "%.2f" is an argument, and so is the parser of JSON, which gives the fields
-- that a text sets. A goroutine is a value of the list that the handler returns, in the order in
-- which they are started; `send_system_alert` is what one of them runs.
pub mod Values
pub mod Sums
pub mod Passes
pub mod Once
pub mod Window
pub mod Averages
pub mod Writes
mod Examples
use homemonit.Base.{
  ℕ, ◌+◌, ◌-◌, ◌*◌, ◌%◌, String, Bool, true, false, not, ◌&&◌, ◌||◌, Option, none, some, List, [],
  ◌∷◌, ◌==◌, string_key, nat_key, ltb, leb, if◌then◌else◌, keep, lookup, insert, Float, FloatOps,
  SingleOps,
}
use Prim.Native.String.{◌++◌}
use mathlib.Core.List.{◌++◌ as append}
use homemonit.Records.Tables.{StatsRow}
use homemonit.Records.Stats.{FsStats}
use homemonit.Entities.{CombinedData}
use homemonit.Alerts.Cache.{CachedAlertData, get_alerts_excluding_names}
use homemonit.Alerts.Status.{AlertManager, AlertMessageData, set_alert_triggered}
pub use homemonit.Alerts.System.Values.{
  SystemAlertFsStats, SystemAlertStats, StatsFields, SystemAlertData, AlertedSystem, FirstPass,
}
unfoldable pub use homemonit.Alerts.System.Values.{
  field_or, merge_fs, unmarshal, no_stats, one_fifth_more, at_least_one, new_alert, counted,
  max_used_pct, current_value, unchanged, valued, first_pass,
}
unfoldable pub use homemonit.Alerts.System.Sums.{
  add_sum, max_sum, enough, add_fs_sums, add_stats, add_to_all, accumulate, averaged, transition,
  transitions,
}

-- ORDER BY created.
unfoldable pub insert_by_created : StatsRow → List StatsRow → List StatsRow
insert_by_created row [] = row ∷ []
insert_by_created row (other ∷ rows) =
    let later = insert_by_created row rows in
    if leb row.created other.created then row ∷ other ∷ rows else other ∷ later

unfoldable pub order_by_created : List StatsRow → List StatsRow
unfolding insert_by_created
order_by_created [] = []
order_by_created (row ∷ rows) = insert_by_created row (order_by_created rows)

-- The query on `system_stats`.
unfoldable pub recent_stats : String → ℕ → List StatsRow → List StatsRow
unfolding order_by_created
recent_stats system oldest rows = order_by_created (
    keep (λ row. row.system == system && row.type == "1m" && ltb (oldest - 90_000) row.created)
      rows)

unfoldable pub reaching : ℕ → List SystemAlertData → List SystemAlertData
reaching oldest_record = keep (λ alert. ltb oldest_record alert.time)

module _ (o : FloatOps) (s : SingleOps) (parse : String → Option StatsFields) where
  -- The loop over the rows runs where some alert is left.
  pub accumulate_some : List StatsRow → List SystemAlertData → Option (List SystemAlertData)
  accumulate_some rows [] = some []
  accumulate_some rows (alert ∷ alerts) = accumulate o s parse true rows no_stats (alert ∷ alerts)

  pub from_rows : List StatsRow → List SystemAlertData → Option (List SystemAlertData)
  unfolding accumulate_some
  from_rows [] valid = some []
  from_rows (row ∷ rows) valid = accumulate_some (row ∷ rows) (reaching row.created valid)

  -- The averaged alerts; none is an error of the query or of the parser. `rows` is the collection
  -- `system_stats`, none where the query on it fails.
  unfoldable pub second_pass :
      AlertedSystem → Option (List StatsRow) → FirstPass → Option (List SystemAlertData)
  unfolding from_rows
  second_pass sys none p = none
  second_pass sys (some rows) p = from_rows (recent_stats sys.id p.oldest rows) p.valid

  pub finish : List SystemAlertData → Option (List SystemAlertData) → List SystemAlertData × Bool
  finish immediate none = (immediate, false)
  finish immediate (some alerts) = (append immediate (transitions o s alerts), true)

  -- The alerts that goroutines are started for, and whether the handler returns nil.
  unfoldable pub handle_alerts :
      AlertedSystem
      → CombinedData
      → Option (List StatsRow)
      → List CachedAlertData
      → List SystemAlertData × Bool
  unfolding finish
  handle_alerts sys combined rows [] = ([], true)
  handle_alerts sys combined rows (a ∷ alerts) =
      let p = first_pass o sys combined (a ∷ alerts) in finish p.immediate (second_pass sys rows p)

  unfoldable pub handle_system_alerts :
      AlertedSystem
      → CombinedData
      → Option (List StatsRow)
      → AlertManager
      → AlertManager × List SystemAlertData × Bool
  handle_system_alerts sys combined rows am =
      let (cache', alerts) = get_alerts_excluding_names sys.id ("Status" ∷ []) am.db am.cache in
      let (started, ok) = handle_alerts sys combined rows alerts in
      (record am { cache = cache' }, started, ok)

-- `strings.ToLower` of the names that reach it.
unfoldable pub lower_name : String → String
lower_name name = if name == "Memory" then "memory" else "disk usage"

-- `decimals` is `Sprintf` of "%.2f", and `print` that of an integer.
module _ (decimals : Float → String) (print : ℕ → String) where
  unfoldable pub system_message : SystemAlertData → AlertMessageData
  unfolding lower_name
  system_message alert =
      let name : String = if alert.name == "Disk" then "Disk usage" else alert.name in
      let title_name : String = if name == "CPU" then name else lower_name name in
      let side : String = if alert.triggered then " above threshold" else " below threshold" in
      let label : String = if ltb 1 alert.min then "minutes" else "minute" in
      let descriptor = if alert.descriptor == "" then name else alert.descriptor in
      record {
        user_id = alert.alert_data.user_id;
        system_id = alert.system_id;
        title = alert.system_name ++ " " ++ title_name ++ side;
        message =
            descriptor
            ++ " averaged "
            ++ decimals alert.val
            ++ alert.unit
            ++ " for the previous "
            ++ print alert.min
            ++ " "
            ++ label
            ++ ".";
        link = "system" ∷ alert.system_id ∷ [];
        link_text = "View " ++ alert.system_name;
      }

  unfoldable pub send_system_alert : SystemAlertData → AlertManager → AlertManager
  unfolding system_message
  send_system_alert alert am =
      let (am', saved) = set_alert_triggered alert.alert_data alert.triggered am in
      if saved then record am' { sent = system_message alert ∷ am'.sent } else am'
