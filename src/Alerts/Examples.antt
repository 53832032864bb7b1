-- ===== src/Alerts/Examples.antt =====
-- One system with one status alert: the theorems on the alerts at concrete states, and runs.
use homemonit.Base.{
  String, true, false, ◌≡◌, refl, none, some, List, [], ◌∷◌, string_key, lookup, arith,
}
use homemonit.Alerts.Cache.{
  AlertRecord, AlertsDb, AlertsCache, populate_from_record, update_all, populate_from_db,
}
use homemonit.Alerts.Cache.Coherence.{Coherent, IsTable, populate_from_db-Coherent}
use homemonit.Alerts.Cache.Reads.{AllStores, update-AllStores}
use homemonit.Alerts.Status.{
  AlertInfo, AlertManager, SystemRow, status_message, handle_status_alerts,
  cancel_pending_status_alerts, process_pending_alert,
}
use homemonit.Alerts.Status.Flap.{flap_silent}
use homemonit.Alerts.Status.Deadlines.{Waits}
use homemonit.Alerts.Status.Delivery.{Inv, Waiting, process_pending_alert_sends}
use homemonit.Alerts.Status.Steps.{Step, Reach, Reach-Inv}
use homemonit.Alerts.Status.Restart.{
  restore_pending_status_alerts, restore_pending_status_alerts_complete,
}

abbrev row : AlertRecord
row = record {
  id = "a1";
  system = "s1";
  user = "u1";
  name = "Status";
  value = 0;
  triggered = false;
  min = 3;
}

abbrev db : AlertsDb
db = record { rows = ("a1", row) ∷ []; readable = true; writable = true }

abbrev empty : AlertsCache
empty = record { store = []; populated = false }

abbrev cache : AlertsCache
cache = (populate_from_db true db empty).0

abbrev idle : AlertManager
idle = record {
  db = db;
  cache = cache;
  pending = [];
  callbacks = [];
  sent = [];
  stopped = false;
  now = 0;
}

abbrev info : AlertInfo
info = record {
  system_name = "web";
  alert_data = populate_from_record row;
  expire_time = 180_000_000_000;
  timer = true;
}

abbrev waiting : AlertManager
waiting = record idle { pending = ("a1", info) ∷ [] }

db-IsTable : IsTable db.rows
unfolding lookup
db-IsTable = (refl, refl, tt)

cache-Coherent : Coherent db.rows cache
cache-Coherent = (populate_from_db-Coherent db empty db-IsTable refl).0

cache-AllStores : AllStores cache
unfolding populate_from_db update_all lookup
cache-AllStores = update-AllStores row empty (λ s m e. cc)

idle-Inv : Inv idle
unfolding lookup
idle-Inv = record {
  table = db-IsTable;
  coherent = cache-Coherent;
  stores = cache-AllStores;
  once = tt;
  keyed = λ i a e. cc;
}

waiting-Inv : Inv waiting
unfolding lookup populate_from_record
waiting-Inv = record {
  table = db-IsTable;
  coherent = cache-Coherent;
  stores = cache-AllStores;
  once = (refl, tt);
  keyed = λ i a e. ground (arith, e, string_key.test_iff "a1" i);
}

waiting-Waiting : Waiting "a1" waiting info row
unfolding lookup populate_from_record
waiting-Waiting = record {
  waits = refl;
  named = λ e. cc;
  placed = λ e. cc;
  row = refl;
  kept = refl;
}

flap_silent_example :
    let am' = handle_status_alerts "up" "s1" "web" (handle_status_alerts "down" "s1" "web" idle) in
    (am'.sent ≡ idle.sent) × (am'.db ≡ idle.db)
flap_silent_example = flap_silent "s1" "web" idle cache-AllStores

process_pending_alert_sends_example :
    let am' = process_pending_alert "a1" waiting in
    (am'.sent ≡ status_message "down" "web" (populate_from_record row) ∷ [])
    × (lookup "a1" am'.db.rows ≡ some (record row { triggered = true }))
    × (lookup "a1" am'.pending ≡ none)
process_pending_alert_sends_example =
    process_pending_alert_sends "a1" waiting info row waiting-Inv waiting-Waiting refl refl refl

Reach-Inv_example :
    Inv (cancel_pending_status_alerts "s1" (handle_status_alerts "down" "s1" "web" idle))
Reach-Inv_example = Reach-Inv idle-Inv (
    Reach.next (Reach.next Reach.here (Step.status idle "down" "s1" "web"))
      (Step.pause (handle_status_alerts "down" "s1" "web" idle) "s1"))

abbrev systems : List (String × SystemRow)
systems = ("s1", record { name = "web"; status = "down" }) ∷ []

restore_pending_status_alerts_complete_example :
    let am' = (restore_pending_status_alerts systems idle).0 in
    Waits (λ a. a ≡ populate_from_record row) "a1" idle am' × (am'.sent ≡ []) × (am'.db ≡ db)
unfolding lookup
restore_pending_status_alerts_complete_example =
    restore_pending_status_alerts_complete systems idle "a1" row
      (record { name = "web"; status = "down" }) db-IsTable cache-Coherent refl refl refl refl refl
      refl refl
