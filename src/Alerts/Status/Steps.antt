-- ===== src/Alerts/Status/Steps.antt =====
-- The alert manager among its callers: every interleaving of status changes, timers, their callbacks,
-- messages of system alerts, reads and writes of the collection and the shutdown.
use homemonit.Base.{
  ℕ, ◌+◌, ◌≤◌, String, Bool, true, false, ◌≡◌, inl, inr, some, List, [], ◌∷◌, ◌++◌, ◌==◌,
  string_key, if◌then◌else◌, lookup, insert, erase, lookup-insert, insert-IsMap, arith, Bool-cases,
  Float,
}
use homemonit.Alerts.Cache.{
  AlertRecord, CachedAlertData, update, delete, get_alerts_by_name, get_system_alerts,
}
use homemonit.Alerts.Cache.Coherence.{update-Coherent, delete-Coherent}
use homemonit.Alerts.Cache.Tables.{insert-IsTable, erase-IsTable}
use homemonit.Alerts.Cache.Reads.{
  update-AllStores, delete-AllStores, get_system_alerts-Coherent, get_system_alerts-AllStores,
}
use homemonit.Alerts.Status.{
  AlertInfo, AlertManager, delay_of, schedule_pending_status_alert, handle_system_down,
  cancel_pending_alert, handle_alert_up, handle_system_up, handle_status_alerts, cancel_all,
  cancel_pending_status_alerts, process_pending_alert, stop,
}
use homemonit.Alerts.System.{SystemAlertData, send_system_alert}
use homemonit.Alerts.System.Writes.{send_system_alert-Inv}
use homemonit.Alerts.Status.Delivery.{
  Inv, schedule-Inv, cancel_pending_alert-Inv, send_status_alert-Inv, process_pending_alert-Inv,
}

handle_system_down-Inv :
    (name : String) (alerts : List CachedAlertData) (am : AlertManager)
    → Inv am
    → Inv (handle_system_down name alerts am)
unfolding handle_system_down
handle_system_down-Inv name [] am v = v
handle_system_down-Inv name (a ∷ alerts) am v =
    handle_system_down-Inv name alerts (schedule_pending_status_alert name a (delay_of a) am).0
      (schedule-Inv name a (delay_of a) am v)

handle_alert_up-Inv :
    (name : String) (a : CachedAlertData) (am : AlertManager)
    → Inv am
    → Inv (handle_alert_up name a am)
unfolding handle_alert_up
handle_alert_up-Inv name a am v =
    let am' = (cancel_pending_alert a.id am).0 in
    let w = cancel_pending_alert-Inv a.id am v in
    ground (arith, w, send_status_alert-Inv "up" name a am' w)

handle_system_up-Inv :
    (name : String) (alerts : List CachedAlertData) (am : AlertManager)
    → Inv am
    → Inv (handle_system_up name alerts am)
unfolding handle_system_up
handle_system_up-Inv name [] am v = v
handle_system_up-Inv name (a ∷ alerts) am v =
    handle_system_up-Inv name alerts (handle_alert_up name a am) (handle_alert_up-Inv name a am v)

read-Inv :
    (id name : String) (am : AlertManager)
    → Inv am
    → Inv (record am { cache = (get_alerts_by_name id name am.db am.cache).0 })
unfolding get_alerts_by_name
read-Inv id name am v = record {
  table = v.table;
  coherent = get_system_alerts-Coherent id am.db am.cache v.table v.coherent;
  stores = get_system_alerts-AllStores id am.db am.cache v.stores;
  once = v.once;
  keyed = v.keyed;
}

handle_status_alerts-Inv :
    (status id name : String) (am : AlertManager)
    → Inv am
    → Inv (handle_status_alerts status id name am)
unfolding handle_status_alerts
handle_status_alerts-Inv status id name am v =
    let read = get_alerts_by_name id "Status" am.db am.cache in
    let am' = record am { cache = read.0 } in
    let w = read-Inv id "Status" am v in
    ground (arith, handle_system_down-Inv name read.1 am' w, handle_system_up-Inv name read.1 am' w)

cancel_all-Inv :
    (system : String) (entries : List (String × AlertInfo)) (am : AlertManager)
    → Inv am
    → Inv (cancel_all system entries am)
unfolding cancel_all
cancel_all-Inv system [] am v = v
cancel_all-Inv system ((key, info) ∷ rest) am v =
    cancel_all-Inv system rest
      (if info.alert_data.system_id == system then (cancel_pending_alert key am).0 else am)
      (ground (arith, cancel_pending_alert-Inv key am v))

pub data Step : AlertManager → AlertManager → Type 0 where
  -- the status of a system changed
  status : (am : AlertManager) (s id name : String) → Step am (handle_status_alerts s id name am)
  -- a system was paused
  pause : (am : AlertManager) (system : String) → Step am (cancel_pending_status_alerts system am)
  -- a timer ran out: its callback is started
  fire :
      (am : AlertManager) (id : String) (info : AlertInfo)
      → lookup id am.pending ≡ some info
      → info.timer ≡ true
      → info.expire_time ≤ am.now
      → Step am (record am {
        pending = insert id (record info { timer = false }) am.pending;
        callbacks = id ∷ am.callbacks;
      })
  -- a callback that was started runs
  run :
      (am : AlertManager) (id : String) (before after : List String)
      → am.callbacks ≡ before ++ id ∷ after
      → Step am (process_pending_alert id (record am { callbacks = before ++ after }))
  wait : (am : AlertManager) (d : ℕ) → Step am (record am { now = am.now + d })
  -- the alerts of a system are read, which loads them where the cache has none of the system
  load :
      (am : AlertManager) (id : String)
      → Step am (record am { cache = (get_system_alerts id am.db am.cache).0 })
  -- a goroutine sends the message of a system alert
  message :
      (am : AlertManager) (decimals : Float → String) (print : ℕ → String) (alert : SystemAlertData)
      → Step am (send_system_alert decimals print alert am)
  -- a row is created, or saved without being moved to another system
  save :
      (am : AlertManager) (r : AlertRecord)
      → ((old : AlertRecord) → lookup r.id am.db.rows ≡ some old → old.system ≡ r.system)
      → Step am (record am {
        db = record am.db { rows = insert r.id r am.db.rows };
        cache = update r am.cache;
      })
  remove :
      (am : AlertManager) (r : AlertRecord)
      → lookup r.id am.db.rows ≡ some r
      → Step am (record am {
        db = record am.db { rows = erase r.id am.db.rows };
        cache = delete r am.cache;
      })
  -- the database comes and goes
  outage :
      (am : AlertManager) (r w : Bool)
      → Step am (record am { db = record am.db { readable = r; writable = w } })
  shutdown : (am : AlertManager) → Step am (stop am)

pub data Reach (s : AlertManager) : AlertManager → Type 0 where
  here : Reach s s
  next : {t u : AlertManager} → Reach s t → Step t u → Reach s u

-- Two histories, one after the other.
pub Reach-trans : {s t u : AlertManager} → Reach s t → Reach t u → Reach s u
Reach-trans p here = p
Reach-trans p (next q step) = next (Reach-trans p q) step

fire-Inv :
    (am : AlertManager) (id : String) (info : AlertInfo)
    → lookup id am.pending ≡ some info
    → Inv am
    → Inv (record am {
      pending = insert id (record info { timer = false }) am.pending;
      callbacks = id ∷ am.callbacks;
    })
fire-Inv am id info e v =
    let fired = record info { timer = false } in
    record {
      table = v.table;
      coherent = v.coherent;
      stores = v.stores;
      once = insert-IsMap id fired am.pending v.once;
      keyed = λ i old f. ground (
        arith,
        f,
        v.keyed i old,
        v.keyed id info e,
        lookup-insert id i fired am.pending,
        string_key.test_iff id i,
      );
    }

stop-Inv : (am : AlertManager) → Inv am → Inv (stop am)
unfolding stop lookup
stop-Inv am v = elim (Bool-cases am.stopped) [
  | inl e ↦ ground (arith, e, v)
  | inr e ↦
      rw (e, stop)
        (record {
          table = v.table;
          coherent = v.coherent;
          stores = v.stores;
          once = tt;
          keyed = λ i info f. cc;
        })
]

-- Every step keeps the invariant.
pub Step-Inv : {s t : AlertManager} → Step s t → Inv s → Inv t
unfolding cancel_pending_status_alerts
Step-Inv (status am s id name) v = handle_status_alerts-Inv s id name am v
Step-Inv (pause am system) v = cancel_all-Inv system am.pending am v
Step-Inv (fire am id info e on due) v = fire-Inv am id info e v
Step-Inv (run am id before after e) v =
    process_pending_alert-Inv id (record am { callbacks = before ++ after })
      (record {
        table = v.table;
        coherent = v.coherent;
        stores = v.stores;
        once = v.once;
        keyed = v.keyed;
      })
Step-Inv (wait am d) v = record {
  table = v.table;
  coherent = v.coherent;
  stores = v.stores;
  once = v.once;
  keyed = v.keyed;
}
Step-Inv (load am id) v = record {
  table = v.table;
  coherent = get_system_alerts-Coherent id am.db am.cache v.table v.coherent;
  stores = get_system_alerts-AllStores id am.db am.cache v.stores;
  once = v.once;
  keyed = v.keyed;
}
Step-Inv (message am decimals print alert) v = send_system_alert-Inv decimals print alert am v
Step-Inv (save am r stays) v = record {
  table = insert-IsTable r am.db.rows v.table;
  coherent = update-Coherent r am.db.rows am.cache stays v.coherent;
  stores = update-AllStores r am.cache v.stores;
  once = v.once;
  keyed = v.keyed;
}
Step-Inv (remove am r found) v = record {
  table = erase-IsTable r.id am.db.rows v.table;
  coherent = delete-Coherent r am.db.rows am.cache found v.coherent;
  stores = delete-AllStores r am.cache v.stores;
  once = v.once;
  keyed = v.keyed;
}
Step-Inv (outage am r w) v = record {
  table = v.table;
  coherent = v.coherent;
  stores = v.stores;
  once = v.once;
  keyed = v.keyed;
}
Step-Inv (shutdown am) v = stop-Inv am v

-- After any history of steps the cache still mirrors the collection and each pending alert is kept
-- under its own id, once.
pub Reach-Inv : {s t : AlertManager} → Inv s → Reach s t → Inv t
Reach-Inv v here = v
Reach-Inv v (next r st) = Step-Inv st (Reach-Inv v r)
