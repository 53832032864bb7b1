-- ===== src/Alerts/Status/Pause.antt =====
-- `CancelPendingStatusAlerts`: what pausing a system drops.
use homemonit.Base.{
  String, ◌≡◌, refl, none, some, List, [], ◌∷◌, ◌==◌, string_key, if◌then◌else◌, lookup,
  lookup-erase, IsMap, arith, Option-cases, inl, inr,
}
use homemonit.Alerts.Status.{
  AlertInfo, AlertManager, cancel_pending_alert, cancel_all, cancel_pending_status_alerts,
}

lookup-cancel :
    (key i : String) (am : AlertManager)
    → lookup i (cancel_pending_alert key am).0.pending
      ≡ (if key == i then none else lookup i am.pending)
unfolding cancel_pending_alert
lookup-cancel key i am = elim (Option-cases (lookup key am.pending)) [
  | inl e ↦ ground (arith, e, string_key.test_iff key i)
  | inr (info, e) ↦ ground (arith, e, lookup-erase key i am.pending)
]

cancel-rest :
    (key : String) (am : AlertManager)
    → let am' = (cancel_pending_alert key am).0 in
      (am'.sent ≡ am.sent) × (am'.db ≡ am.db) × (am'.cache ≡ am.cache)
unfolding cancel_pending_alert
cancel-rest key am = ground arith

lookup-cancel_all :
    (system i : String) (entries : List (String × AlertInfo)) (am : AlertManager)
    → IsMap entries
    → lookup i (cancel_all system entries am).pending ≡ elim (lookup i entries) [
      | none ↦ lookup i am.pending
      | some info ↦ if info.alert_data.system_id == system then none else lookup i am.pending
    ]
unfolding cancel_all lookup
lookup-cancel_all system i [] am m = refl
lookup-cancel_all system i ((key, info) ∷ rest) am m =
    let hit = info.alert_data.system_id == system in
    ground (
      arith,
      lookup-cancel_all system i rest (cancel_pending_alert key am).0 m.1,
      lookup-cancel_all system i rest am m.1,
      lookup-cancel key i am,
      string_key.test_iff key i,
    )

cancel_all-rest :
    (system : String) (entries : List (String × AlertInfo)) (am : AlertManager)
    → let am' = cancel_all system entries am in
      (am'.sent ≡ am.sent) × (am'.db ≡ am.db) × (am'.cache ≡ am.cache)
unfolding cancel_all
cancel_all-rest system [] am = (refl, refl, refl)
cancel_all-rest system ((key, info) ∷ rest) am = ground (
  arith,
  cancel_all-rest system rest (cancel_pending_alert key am).0,
  cancel_all-rest system rest am,
  cancel-rest key am,
)

-- Pausing a system drops its pending alerts and only those, and sends and writes nothing.
pub cancel_pending_status_alerts_exact :
    (system i : String) (am : AlertManager)
    → IsMap am.pending
    → let am' = cancel_pending_status_alerts system am in
      (lookup i am'.pending ≡ elim (lookup i am.pending) [
        | none ↦ none
        | some info ↦ if info.alert_data.system_id == system then none else some info
      ])
      × (am'.sent ≡ am.sent)
      × (am'.db ≡ am.db)
      × (am'.cache ≡ am.cache)
unfolding cancel_pending_status_alerts
cancel_pending_status_alerts_exact system i am m =
    let (p, q, r) = cancel_all-rest system am.pending am in
    (ground (arith, lookup-cancel_all system i am.pending am m), p, q, r)
