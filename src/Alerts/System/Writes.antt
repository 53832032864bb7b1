-- ===== src/Alerts/System/Writes.antt =====
-- What a message of a system alert leaves behind: the written trigger state, and a quiet handler.
use homemonit.Base.{
  ℕ, String, true, false, ◌≡◌, ◌⊎◌, inl, inr, refl, Option, some, List, [], ◌∷◌, string_key, lookup,
  lookup-insert, Float, FloatOps, SingleOps, Option-cases, Bool-cases, keep, arith,
}
use homemonit.Records.Tables.{StatsRow}
use homemonit.Entities.{CombinedData}
use homemonit.Alerts.Cache.{AlertRecord, CachedAlertData, populate_from_record}
use homemonit.Alerts.Status.{AlertManager, set_alert_triggered}
use homemonit.Alerts.Status.Delivery.{Inv, set_alert_triggered-Inv, set_alert_triggered_found}
use homemonit.Alerts.System.{
  SystemAlertData, StatsFields, AlertedSystem, current_value, unchanged, new_alert, valued,
  first_pass, accumulate_some, from_rows, transitions, recent_stats, reaching, second_pass, finish,
  handle_alerts, system_message, send_system_alert,
}

-- Sending a message keeps the cache a mirror of the collection, and the pending alerts as they were.
pub send_system_alert-Inv :
    (decimals : Float → String) (print : ℕ → String) (alert : SystemAlertData) (am : AlertManager)
    → Inv am
    → Inv (send_system_alert decimals print alert am)
unfolding send_system_alert
send_system_alert-Inv decimals print alert am v =
    let w = set_alert_triggered-Inv alert.alert_data alert.triggered am v in
    elim (Bool-cases (set_alert_triggered alert.alert_data alert.triggered am).1) [
      | inl saved ↦
          rw (saved, send_system_alert)
            (record {
              table = w.table;
              coherent = w.coherent;
              stores = w.stores;
              once = w.once;
              keyed = w.keyed;
            })
      | inr lost ↦ rw (lost, send_system_alert) w
    ]

module _ (o : FloatOps) (s : SingleOps) (parse : String → Option StatsFields) (sys : AlertedSystem)
    (combined : CombinedData) (rows : Option (List StatsRow)) where
  -- The trigger state is the one that the current value asks for.
  abbrev pub Fits : CachedAlertData → Float → Type 0
  Fits a val = unchanged o a.triggered val a.value ≡ true

  first_pass-Fits :
      (a : CachedAlertData) (val : Float)
      → current_value o a.name combined ≡ some val
      → Fits a val
      → first_pass o sys combined (a ∷ [])
        ≡ record { immediate = []; valid = []; oldest = sys.updated }
  unfolding first_pass valued
  first_pass-Fits a val e fits = ground (arith, e, fits)

  from_rows-nil : (found : List StatsRow) → from_rows o s parse found [] ≡ some []
  unfolding from_rows accumulate_some reaching keep
  from_rows-nil [] = refl
  from_rows-nil (row ∷ found) = refl

  handle_alerts-Fits :
      (a : CachedAlertData) (val : Float)
      → current_value o a.name combined ≡ some val
      → Fits a val
      → (handle_alerts o s parse sys combined rows (a ∷ [])).0 ≡ []
  unfolding handle_alerts finish second_pass transitions
  handle_alerts-Fits a val e fits = elim (Option-cases rows) [
    | inl lost ↦ ground (arith, lost, first_pass-Fits a val e fits)
    | inr (found, f) ↦ ground (
      arith,
      f,
      first_pass-Fits a val e fits,
      from_rows-nil (recent_stats sys.id sys.updated found),
    )
  ]

  -- The message about an alert on its current value marks its row with the new state, is logged, and
  -- the same values start no further message about the marked row. The row exists and can be written,
  -- and the value is on one side of the threshold (it is a number).
  pub send_system_alert_settles :
      (decimals : Float → String) (print : ℕ → String) (r : AlertRecord) (val : Float)
      (am : AlertManager)
      → Inv am
      → lookup r.id am.db.rows ≡ some r
      → am.db.readable ≡ true
      → am.db.writable ≡ true
      → current_value o r.name combined ≡ some val
      → (o.lt r.value val ≡ true) ⊎ (o.le val r.value ≡ true × o.lt r.value val ≡ false)
      → let a = populate_from_record r in
        let alert = record (new_alert sys a val) { triggered = o.lt a.value val } in
        let am' = send_system_alert decimals print alert am in
        let r' = record r { triggered = o.lt r.value val } in
        (lookup r.id am'.db.rows ≡ some r')
        × (am'.sent ≡ system_message decimals print alert ∷ am.sent)
        × ((handle_alerts o s parse sys combined rows (populate_from_record r' ∷ [])).0 ≡ [])
  unfolding send_system_alert populate_from_record new_alert unchanged
  send_system_alert_settles decimals print r val am v e ok ok' current side =
      let a = populate_from_record r in
      let t = o.lt r.value val in
      let r' = record r { triggered = t } in
      ground (
        arith,
        e,
        set_alert_triggered_found a t am r ok ok' e,
        lookup-insert r.id r.id r' am.db.rows,
        string_key.test_iff r.id r.id,
        side,
        handle_alerts-Fits (populate_from_record r') val current,
      )
