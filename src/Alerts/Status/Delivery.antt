-- ===== src/Alerts/Status/Delivery.antt =====
-- What a timer's callback does: when it sends a message, and what it leaves behind.
use homemonit.Base.{
  ℕ, ◌+◌, String, Bool, true, false, ◌≡◌, ◌≢◌, inl, inr, none, some, ◌∷◌, string_key, ◌==◌, lookup,
  insert, erase, lookup-insert, lookup-erase, IsMap, insert-IsMap, erase-IsMap, arith, Option-cases,
  Bool-cases,
}
use homemonit.Alerts.Cache.{AlertRecord, CachedAlertData, populate_from_record, update, refresh}
use homemonit.Alerts.Cache.Coherence.{Coherent, IsTable, update-Coherent}
use homemonit.Alerts.Cache.Tables.{insert-IsTable, lookup-id}
use homemonit.Alerts.Cache.Reads.{AllStores, update-AllStores}
use homemonit.Alerts.Status.{
  AlertInfo, AlertManager, set_alert_triggered, send_status_alert, status_message,
  process_pending_alert, schedule_pending_status_alert, cancel_pending_alert,
}

-- The cache mirrors the collection, and a pending alert is kept under its own id.
pub record Inv (am : AlertManager) : Type 0 where
  pub table : IsTable am.db.rows
  pub coherent : Coherent am.db.rows am.cache
  pub stores : AllStores am.cache
  pub once : IsMap am.pending
  pub keyed :
      (i : String) (info : AlertInfo) → lookup i am.pending ≡ some info → info.alert_data.id ≡ i

-- Writing the trigger state of an alert whose row exists.
pub set_alert_triggered_found :
    (a : CachedAlertData) (t : Bool) (am : AlertManager) (r : AlertRecord)
    → am.db.readable ≡ true
    → am.db.writable ≡ true
    → lookup a.id am.db.rows ≡ some r
    → let r' = record r { triggered = t } in
      set_alert_triggered a t am ≡ (
        record am {
          db = record am.db { rows = insert r.id r' am.db.rows };
          cache = update r' am.cache;
        },
        true,
      )
unfolding set_alert_triggered
set_alert_triggered_found a t am r ok ok' e = ground (arith, ok, ok', e)

-- A write of the trigger state keeps the invariant, whether it succeeds or not.
pub set_alert_triggered-Inv :
    (a : CachedAlertData) (t : Bool) (am : AlertManager)
    → Inv am
    → Inv (set_alert_triggered a t am).0
unfolding set_alert_triggered
set_alert_triggered-Inv a t am v = elim (Option-cases (lookup a.id am.db.rows)) [
  | inl e ↦ ground (arith, e)
  | inr (r, e) ↦
      let r' = record r { triggered = t } in
      let same = lookup-id a.id am.db.rows r v.table e in
      let inv : Inv (record am {
        db = record am.db { rows = insert r.id r' am.db.rows };
        cache = update r' am.cache;
      }) =
        record {
          table = insert-IsTable r' am.db.rows v.table;
          coherent =
              update-Coherent r' am.db.rows am.cache (λ old f. ground (arith, e, f, same))
                v.coherent;
          stores = update-AllStores r' am.cache v.stores;
          once = v.once;
          keyed = v.keyed;
        } in
      elim (Bool-cases am.db.readable) [
        | inr broken ↦ ground (arith, broken)
        | inl ok ↦ elim (Bool-cases am.db.writable) [
          | inr broken ↦ ground (arith, broken, ok, e)
          | inl ok' ↦ rw (set_alert_triggered_found a t am r ok ok' e) inv
        ]
      ]
]

pub send_status_alert-Inv :
    (status name : String) (a : CachedAlertData) (am : AlertManager)
    → Inv am
    → Inv (send_status_alert status name a am).0
unfolding send_status_alert
send_status_alert-Inv status name a am v =
    let w = set_alert_triggered-Inv a (status == "down") am v in
    elim (Bool-cases (set_alert_triggered a (status == "down") am).1) [
      | inl saved ↦
          rw (saved, send_status_alert)
            (record {
              table = w.table;
              coherent = w.coherent;
              stores = w.stores;
              once = w.once;
              keyed = w.keyed;
            })
      | inr lost ↦ rw (lost, send_status_alert) w
    ]

-- Removing one pending alert keeps the invariant.
pub erase-Inv :
    (id : String) (am : AlertManager) → Inv am → Inv (record am { pending = erase id am.pending })
erase-Inv id am v = record {
  table = v.table;
  coherent = v.coherent;
  stores = v.stores;
  once = erase-IsMap id am.pending v.once;
  keyed = λ i info e. v.keyed i info (ground (arith, e, lookup-erase id i am.pending));
}

pub cancel_pending_alert-Inv :
    (id : String) (am : AlertManager) → Inv am → Inv (cancel_pending_alert id am).0
unfolding cancel_pending_alert
cancel_pending_alert-Inv id am v = elim (Option-cases (lookup id am.pending)) [
  | inl e ↦ ground (arith, e)
  | inr (info, e) ↦ rw (e, cancel_pending_alert) (erase-Inv id am v)
]

pub schedule-Inv :
    (name : String) (a : CachedAlertData) (d : ℕ) (am : AlertManager)
    → Inv am
    → Inv (schedule_pending_status_alert name a d am).0
unfolding schedule_pending_status_alert
schedule-Inv name a d am v = elim (Option-cases (lookup a.id am.pending)) [
  | inr (info, e) ↦ ground (arith, e)
  | inl e ↦
      let info : AlertInfo = record {
        system_name = name;
        alert_data = a;
        expire_time = am.now + d;
        timer = true;
      } in
      rw (e, schedule_pending_status_alert)
        (record {
          table = v.table;
          coherent = v.coherent;
          stores = v.stores;
          once = insert-IsMap a.id info am.pending v.once;
          keyed = λ i old f. ground (
            arith,
            f,
            v.keyed i old,
            lookup-insert a.id i info am.pending,
            string_key.test_iff a.id i,
          );
        })
]

process_pending_none :
    (id : String) (am : AlertManager)
    → lookup id am.pending ≡ none
    → process_pending_alert id am ≡ am
unfolding process_pending_alert
process_pending_none id am e = ground (arith, e)

pub process_pending_alert-Inv :
    (id : String) (am : AlertManager) → Inv am → Inv (process_pending_alert id am)
unfolding process_pending_alert
process_pending_alert-Inv id am v = elim (Option-cases (lookup id am.pending)) [
  | inl e ↦ rw (e, process_pending_alert) v
  | inr (info, e) ↦
      let am' = record am { pending = erase id am.pending } in
      let w = erase-Inv id am v in
      elim (Option-cases (refresh info.alert_data am.cache)) [
        | inl f ↦ ground (arith, e, f, w)
        | inr (a, f) ↦
            ground (arith, e, f, w, send_status_alert-Inv "down" info.system_name a am' w)
      ]
]

-- A waiting alert, and the row that it stands for in the collection.
pub record Waiting (id : String) (am : AlertManager) (info : AlertInfo) (r : AlertRecord)
    : Type 0 where
  pub waits : lookup id am.pending ≡ some info
  pub named : id ≢ ""
  pub placed : info.alert_data.system_id ≢ ""
  pub row : lookup id am.db.rows ≡ some r
  pub kept : r.system ≡ info.alert_data.system_id

refresh-row :
    (id : String) (am : AlertManager) (info : AlertInfo) (r : AlertRecord)
    → Inv am
    → Waiting id am info r
    → refresh info.alert_data am.cache ≡ some (populate_from_record r)
unfolding refresh
refresh-row id am info r v w =
    let key = v.keyed id info w.waits in
    ground (
      arith,
      key,
      w.named,
      w.row,
      w.kept,
      string_key.test_iff info.alert_data.id "",
      v.coherent info.alert_data.system_id info.alert_data.id w.placed,
      string_key.test_iff r.system info.alert_data.system_id,
    )

-- A timer that runs out sends one "down" message and marks the row, if the row is not marked yet and
-- can be written.
pub process_pending_alert_sends :
    (id : String) (am : AlertManager) (info : AlertInfo) (r : AlertRecord)
    → Inv am
    → Waiting id am info r
    → r.triggered ≡ false
    → am.db.readable ≡ true
    → am.db.writable ≡ true
    → let am' = process_pending_alert id am in
      (am'.sent ≡ status_message "down" info.system_name (populate_from_record r) ∷ am.sent)
      × (lookup id am'.db.rows ≡ some (record r { triggered = true }))
      × (lookup id am'.pending ≡ none)
unfolding process_pending_alert send_status_alert populate_from_record
process_pending_alert_sends id am info r v w idle ok ok' =
    let same = lookup-id id am.db.rows r v.table w.row in
    let am0 = record am { pending = erase id am.pending } in
    let r' = record r { triggered = true } in
    ground (
      arith,
      same,
      idle,
      w.waits,
      w.row,
      refresh-row id am info r v w,
      set_alert_triggered_found (populate_from_record r) true am0 r ok ok',
      lookup-insert r.id id r' am.db.rows,
      lookup-erase id id am.pending,
      string_key.test_iff id id,
      string_key.test_iff r.id id,
    )

-- It sends nothing and writes nothing where the row is marked already.
pub process_pending_alert_quiet :
    (id : String) (am : AlertManager) (info : AlertInfo) (r : AlertRecord)
    → Inv am
    → Waiting id am info r
    → r.triggered ≡ true
    → process_pending_alert id am ≡ record am { pending = erase id am.pending }
unfolding process_pending_alert populate_from_record
process_pending_alert_quiet id am info r v w marked =
    ground (arith, w.waits, marked, refresh-row id am info r v w)

-- A callback sends the same whatever the deadline of the pending alert and the time are: neither is
-- looked at again.
pub process_pending_alert_ignores_deadline :
    (id : String) (am : AlertManager) (info : AlertInfo) (deadline now : ℕ)
    → lookup id am.pending ≡ some info
    → let late = record am {
      pending = insert id (record info { expire_time = deadline }) am.pending;
      now = now;
    } in
      ((process_pending_alert id late).sent ≡ (process_pending_alert id am).sent)
      × ((process_pending_alert id late).db ≡ (process_pending_alert id am).db)
unfolding process_pending_alert send_status_alert set_alert_triggered
process_pending_alert_ignores_deadline id am info deadline now e =
    let moved = record info { expire_time = deadline } in
    ground (arith, e, lookup-insert id id moved am.pending, string_key.test_iff id id)
