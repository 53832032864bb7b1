-- ===== src/Hub/Systems/Alerting.antt =====
-- What the hooks of the `systems` collection do to the alerts of a system that is paused.
use homemonit.Base.{
  ℕ, String, Bool, true, false, ◌&&◌, ◌≡◌, inl, inr, refl, ◌∙◌, none, some, List, [], ◌∷◌, ◌==◌,
  string_key, if◌then◌else◌, lookup, insert, lookup-insert, All, All-weaken, IsMap, Option-cases,
  Bool-cases, arith,
}
use homemonit.Alerts.Cache.{AlertRecord, update}
use homemonit.Alerts.Cache.Coherence.{IsTable}
use homemonit.Alerts.Status.{AlertManager, cancel_pending_status_alerts}
use homemonit.Alerts.Status.Delivery.{Inv}
use homemonit.Alerts.Status.Steps.{Step, Reach, here, next, Reach-trans}
use homemonit.Alerts.Status.Pause.{cancel_pending_status_alerts_exact}
use homemonit.Hub.Systems.{SystemRecord, get_system}
use homemonit.Hub.Systems.Hooks.{
  Hub, Outside, deactivate_each, deactivate_alerts, on_record_update,
  on_record_after_update_success, status_changed, save_system,
}

abbrev off : AlertRecord → AlertRecord
off r = record r { triggered = false }

abbrev saved : AlertRecord → AlertManager → AlertManager
saved r am = record am {
  db = record am.db { rows = insert r.id r am.db.rows };
  cache = update r am.cache;
}

abbrev hit : String → AlertRecord → Bool
hit id r = r.system == id && r.triggered

-- The rows that are still to come are as they were found.
abbrev Found : AlertManager → List (String × AlertRecord) → Type 0
Found am = All (λ entry. lookup entry.0 am.db.rows ≡ some entry.1)

saved-Found :
    (r : AlertRecord) (am : AlertManager) (rows : List (String × AlertRecord))
    → lookup r.id rows ≡ none
    → Found am rows
    → Found (saved r am) rows
unfolding lookup
saved-Found r am [] new h = tt
saved-Found r am ((key, old) ∷ rows) new h = (
  ground (
    arith,
    h.0,
    new,
    lookup-insert r.id key r am.db.rows,
    string_key.test_iff r.id key,
    string_key.test_iff key r.id,
  ),
  saved-Found r am rows (ground (arith, new)) h.1,
)

abbrev deactivated : String → AlertRecord → AlertManager → AlertManager
deactivated id r am = if hit id r then saved (off r) am else am

deactivated-Found :
    (id : String) (r : AlertRecord) (am : AlertManager) (rows : List (String × AlertRecord))
    → lookup r.id rows ≡ none
    → Found am rows
    → Found (deactivated id r am) rows
deactivated-Found id r am rows new h = elim (Bool-cases (hit id r)) [
  | inl e ↦ rw e (saved-Found (off r) am rows new h)
  | inr e ↦ rw e h
]

deactivated-Reach :
    (id : String) (r : AlertRecord) (am : AlertManager)
    → lookup r.id am.db.rows ≡ some r
    → Reach am (deactivated id r am)
deactivated-Reach id r am e = elim (Bool-cases (hit id r)) [
  | inl f ↦ rw f (next here (Step.save am (off r) (λ old g. ground (arith, e, g))))
  | inr f ↦ rw f here
]

deactivate_each-Reach :
    (id : String) (rows : List (String × AlertRecord)) (am : AlertManager)
    → IsTable rows
    → Found am rows
    → Reach am (deactivate_each id rows am)
unfolding deactivate_each
deactivate_each-Reach id [] am t h = here
deactivate_each-Reach id ((key, r) ∷ rows) am t h =
    let am' = deactivated id r am in
    let new : lookup r.id rows ≡ none = ground (arith, t) in
    Reach-trans (deactivated-Reach id r am (ground (arith, h.0, t)))
      (deactivate_each-Reach id rows am' t.2 (deactivated-Found id r am rows new h.1))

-- What a table holds after the loop, for each id.
lookup-deactivate_each :
    (id i : String) (rows : List (String × AlertRecord)) (am : AlertManager)
    → IsTable rows
    → lookup i (deactivate_each id rows am).db.rows ≡ elim (lookup i rows) [
      | none ↦ lookup i am.db.rows
      | some r ↦ if hit id r then some (off r) else lookup i am.db.rows
    ]
unfolding deactivate_each lookup
lookup-deactivate_each id i [] am t = refl
lookup-deactivate_each id i ((key, r) ∷ rows) am t =
    let am' = deactivated id r am in
    ground (
      arith,
      t,
      lookup-deactivate_each id i rows am' t.2,
      hit id r,
      lookup-insert r.id i (off r) am.db.rows,
      string_key.test_iff key i,
    )

deactivate_each-rest :
    (id : String) (rows : List (String × AlertRecord)) (am : AlertManager)
    → let am' = deactivate_each id rows am in (am'.pending ≡ am.pending) × (am'.sent ≡ am.sent)
unfolding deactivate_each
deactivate_each-rest id [] am = (refl, refl)
deactivate_each-rest id ((key, r) ∷ rows) am =
    ground (arith, deactivate_each-rest id rows (deactivated id r am), hit id r)

-- Each entry of a table is found under its key.
table-Found :
    (rows : List (String × AlertRecord))
    → IsTable rows
    → All (λ entry. lookup entry.0 rows ≡ some entry.1) rows
unfolding lookup
table-Found [] t = tt
table-Found ((key, r) ∷ rows) t = (
  ground (arith, string_key.test_iff key key),
  All-weaken _ _ rows (λ entry h. ground (arith, h, t, string_key.test_iff key entry.0))
      (table-Found rows t.2),
)

pub deactivate_alerts-Reach :
    (id : String) (am : AlertManager) → IsTable am.db.rows → Reach am (deactivate_alerts id am)
unfolding deactivate_alerts
deactivate_alerts-Reach id am t = elim (Bool-cases (am.db.readable && am.db.writable)) [
  | inl ok ↦ rw ok (deactivate_each-Reach id am.db.rows am t (table-Found am.db.rows t))
  | inr broken ↦ rw broken here
]

pub deactivate_alerts-rest :
    (id : String) (am : AlertManager)
    → let am' = deactivate_alerts id am in (am'.pending ≡ am.pending) × (am'.sent ≡ am.sent)
unfolding deactivate_alerts
deactivate_alerts-rest id am = elim (Bool-cases (am.db.readable && am.db.writable)) [
  | inl ok ↦ rw ok (deactivate_each-rest id am.db.rows am)
  | inr broken ↦ rw broken (refl, refl)
]

deactivate_alerts_open :
    (id : String) (am : AlertManager)
    → am.db.readable ≡ true
    → am.db.writable ≡ true
    → deactivate_alerts id am ≡ deactivate_each id am.db.rows am
unfolding deactivate_alerts
deactivate_alerts_open id am ok ok' = ground (arith, ok, ok')

-- The alerts of the system are marked as not triggered, where the database can be read and written.
deactivate_alerts_exact :
    (id i : String) (am : AlertManager)
    → IsTable am.db.rows
    → am.db.readable ≡ true
    → am.db.writable ≡ true
    → let am' = deactivate_alerts id am in
      (lookup i am'.db.rows ≡ elim (lookup i am.db.rows) [
        | none ↦ none
        | some r ↦ some (if r.system == id then off r else r)
      ])
      × (am'.pending ≡ am.pending)
      × (am'.sent ≡ am.sent)
deactivate_alerts_exact id i am t ok ok' =
    let rest = deactivate_each-rest id am.db.rows am in
    rw (deactivate_alerts_open id am ok ok')
      (ground (arith, lookup-deactivate_each id i am.db.rows am t), rest.0, rest.1)

pub paused_alerts :
    (out : Outside) (now : ℕ) (r : SystemRecord) (hub : Hub)
    → r.status ≡ "paused"
    → (save_system out now r hub).alerts
      ≡ cancel_pending_status_alerts r.id (deactivate_alerts r.id hub.alerts)
unfolding save_system on_record_after_update_success status_changed on_record_update
paused_alerts out now r hub e = elim (Option-cases (get_system r.id hub.manager)) [
  | inl f ↦ ground (arith, e, f, string_key.test_iff r.status "paused")
  | inr (known, f) ↦ ground (arith, e, f, string_key.test_iff r.status "paused")
]

-- When a system is paused, its rows of alerts are marked as not triggered and its pending alerts are
-- dropped; the rows and the pending alerts of the other systems stay as they are, and nothing is sent.
-- The database can be read and written.
pub save_system-paused :
    (out : Outside) (now : ℕ) (r : SystemRecord) (hub : Hub) (i : String)
    → Inv hub.alerts
    → r.status ≡ "paused"
    → hub.alerts.db.readable ≡ true
    → hub.alerts.db.writable ≡ true
    → let am = (save_system out now r hub).alerts in
      (lookup i am.db.rows ≡ elim (lookup i hub.alerts.db.rows) [
        | none ↦ none
        | some a ↦ some (if a.system == r.id then record a { triggered = false } else a)
      ])
      × (lookup i am.pending ≡ elim (lookup i hub.alerts.pending) [
        | none ↦ none
        | some info ↦ if info.alert_data.system_id == r.id then none else some info
      ])
      × (am.sent ≡ hub.alerts.sent)
save_system-paused out now r hub i v e ok ok' =
    let am = hub.alerts in
    let (rows, pending, sent) = deactivate_alerts_exact r.id i am v.table ok ok' in
    let am' = deactivate_alerts r.id am in
    let once : IsMap am'.pending = rw pending v.once in
    let (pending', sent', db', cache') = cancel_pending_status_alerts_exact r.id i am' once in
    let same = paused_alerts out now r hub e in
    rw same (ground (arith, rows, db'), ground (arith, pending, pending'), sent' ∙ sent)
