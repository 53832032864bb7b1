-- ===== src/Alerts/System/Sums.antt =====
-- internal/alerts/alerts_system.go: the sums over the rows in an alert's window, in double and in single
-- precision, and the change that the average makes to an alert.
use homemonit.Base.{
  ℕ, ◌-◌, String, Bool, true, false, not, ◌&&◌, Option, none, some, List, [], ◌∷◌, ◌==◌, string_key,
  nat_key, ltb, if◌then◌else◌, lookup, insert, Float, FloatOps, SingleOps,
}
use Prim.Native.String.{◌++◌}
use homemonit.Records.Tables.{StatsRow}
use homemonit.Alerts.System.Values.{
  SystemAlertFsStats, SystemAlertStats, StatsFields, SystemAlertData, field_or, unmarshal,
  one_fifth_more, counted,
}

module _ (s : SingleOps) where
  unfoldable pub add_sum : String → Float → List (String × Float) → List (String × Float)
  unfolding field_or
  add_sum key pct sums = insert key (s.add (field_or 0 (lookup key sums)) pct) sums

  -- The greatest sum, with the descriptor of its key.
  unfoldable pub max_sum : List (String × Float) → Float × String → Float × String
  max_sum [] best = best
  max_sum ((key, sum) ∷ rest) best =
      max_sum rest (if s.lt best.0 sum then (sum, "Usage of " ++ key) else best)

  unfoldable pub enough : SystemAlertData → Bool
  enough alert = s.le (s.div (s.of_nat alert.min) one_fifth_more) (s.of_nat alert.count)

module _ (o : FloatOps) (s : SingleOps) where
  unfoldable pub add_fs_sums :
      List (String × SystemAlertFsStats) → List (String × Float) → List (String × Float)
  add_fs_sums [] sums = sums
  add_fs_sums ((key, fs) ∷ rest) sums =
      let pct = s.single (o.mul (o.div fs.disk_used fs.disk_total) (o.of_nat 100)) in
      add_fs_sums rest (if o.lt 0 fs.disk_total then add_sum s key pct sums else sums)

  -- One alert at one row: the body of the inner loop after the reset of the first round.
  unfoldable pub add_stats : ℕ → SystemAlertStats → SystemAlertData → SystemAlertData
  unfolding add_sum add_fs_sums
  add_stats creation stats alert =
      if ltb creation alert.time
      then alert
      else if alert.name == "CPU"
      then counted (record alert { val = o.add alert.val stats.cpu })
      else if alert.name == "Memory"
      then counted (record alert { val = o.add alert.val stats.mem })
      else if alert.name == "Disk"
      then counted (record alert {
        map_sums =
            add_fs_sums stats.extra_fs (add_sum s "root" (s.single stats.disk) alert.map_sums);
      })
      else alert

  unfoldable pub add_to_all :
      Bool → ℕ → SystemAlertStats → List SystemAlertData → List SystemAlertData
  unfolding add_stats
  add_to_all first creation stats [] = []
  add_to_all first creation stats (alert ∷ alerts) =
      add_stats creation stats (if first then record alert { val = 0 } else alert)
      ∷ add_to_all first creation stats alerts

  -- The loop over the rows; none where a text is not parsed.
  unfoldable pub accumulate :
      (String → Option StatsFields)
      → Bool
      → List StatsRow
      → SystemAlertStats
      → List SystemAlertData
      → Option (List SystemAlertData)
  unfolding add_to_all unmarshal
  accumulate parse first [] stats alerts = some alerts
  accumulate parse first (row ∷ rows) stats alerts = elim (parse row.stats) [
    | none ↦ none
    | some fields ↦
        let stats' = unmarshal fields stats in
        accumulate parse false rows stats' (add_to_all first (row.created - 10_000) stats' alerts)
  ]

  unfoldable pub averaged : SystemAlertData → SystemAlertData
  unfolding max_sum
  averaged alert =
      let (max, descriptor) = max_sum s alert.map_sums (0, alert.descriptor) in
      if alert.name == "Disk"
      then record alert {
        val = s.double (s.div max (s.of_nat alert.count));
        descriptor = descriptor;
      }
      else record alert { val = o.div alert.val (o.of_nat alert.count) }

  -- The last loop: the alerts that change their trigger state.
  unfoldable pub transition : SystemAlertData → Option SystemAlertData
  unfolding averaged enough
  transition before =
      let alert = averaged before in
      if not (enough s alert)
      then none
      else if not alert.triggered && o.lt alert.threshold alert.val
      then some (record alert { triggered = true })
      else if alert.triggered && o.le alert.val alert.threshold
      then some (record alert { triggered = false })
      else none

  unfoldable pub transitions : List SystemAlertData → List SystemAlertData
  unfolding transition
  transitions [] = []
  transitions (alert ∷ alerts) = elim (transition alert) [
    | none ↦ transitions alerts
    | some sent ↦ sent ∷ transitions alerts
  ]
