-- ===== src/Alerts/Status.antt =====
-- internal/alerts/alerts_status.go, and `setAlertTriggered` and `SendAlert` of alerts.go.
-- The state is the alert manager with the collection that it writes. `sent` is the log of the calls
-- of `SendAlert`, newest first; whether the chat service takes a message changes nothing here.
-- A timer's callback is its own goroutine: `callbacks` are those that were started and have not run.
pub mod Flap
pub mod Deadlines
pub mod Delivery
pub mod Steps
pub mod Pause
pub mod Restart
use homemonit.Base.{
  ℕ, ◌+◌, ◌*◌, String, Bool, true, false, not, ◌&&◌, ◌||◌, Option, none, some, List, [], ◌∷◌, ◌==◌,
  string_key, leb, if◌then◌else◌, lookup, insert, erase,
}
use Prim.Native.String.{◌++◌}
use homemonit.Alerts.Cache.{
  AlertRecord, AlertsDb, AlertsCache, CachedAlertData, update, populate_from_db, get_alert,
  get_alerts_by_name, refresh,
}

pub record AlertInfo : Type 0 where
  pub system_name : String
  pub alert_data : CachedAlertData
  pub expire_time : ℕ
  pub timer : Bool  -- a timer was set and not stopped

pub record AlertMessageData : Type 0 where
  pub user_id : String
  pub system_id : String
  pub title : String
  pub message : String
  pub link : List String  -- the path that `MakeLink` appends to the hub's address
  pub link_text : String

-- A row of the `systems` collection, as far as the alerts read it.
pub record SystemRow : Type 0 where
  pub name : String
  pub status : String

pub record AlertManager : Type 0 where
  pub db : AlertsDb
  pub cache : AlertsCache
  pub pending : List (String × AlertInfo)
  pub callbacks : List String
  pub sent : List AlertMessageData
  pub stopped : Bool  -- `stopOnce` was used
  pub now : ℕ  -- nanoseconds

abbrev pub minute : ℕ
minute = 60_000_000_000

-- max(1, min) minutes.
unfoldable pub delay_of : CachedAlertData → ℕ
delay_of a = if leb a.min 1 then minute else a.min * minute

-- `timer.Stop` on every pending alert, and the removal of each.
unfoldable pub stop : AlertManager → AlertManager
stop am = if am.stopped then am else record am { pending = []; stopped = true }

pub schedule_found :
    String → CachedAlertData → ℕ → Option AlertInfo → AlertManager → AlertManager × Bool
schedule_found name a delay (some info) am = (am, false)
schedule_found name a delay none am = (
  record am {
    pending =
        insert a.id
          (record {
            system_name = name;
            alert_data = a;
            expire_time = am.now + delay;
            timer = true;
          })
          am.pending;
  },
  true,
)

-- True where the alert was scheduled, false where one was pending.
unfoldable pub schedule_pending_status_alert :
    String → CachedAlertData → ℕ → AlertManager → AlertManager × Bool
unfolding schedule_found
schedule_pending_status_alert name a delay am =
    schedule_found name a delay (lookup a.id am.pending) am

unfoldable pub handle_system_down : String → List CachedAlertData → AlertManager → AlertManager
handle_system_down name [] am = am
handle_system_down name (a ∷ alerts) am =
    handle_system_down name alerts (schedule_pending_status_alert name a (delay_of a) am).0

-- `setAlertTriggered`: false where the row is not found or not saved. The save runs the cache's hook.
set_found : Bool → Option AlertRecord → AlertManager → AlertManager × Bool
set_found t none am = (am, false)
set_found t (some row) am =
    let row' = record row { triggered = t } in
    if am.db.writable
    then (
      record am {
        db = record am.db { rows = insert row'.id row' am.db.rows };
        cache = update row' am.cache;
      },
      true,
    )
    else (am, false)

unfoldable pub set_alert_triggered : CachedAlertData → Bool → AlertManager → AlertManager × Bool
unfolding set_found
set_alert_triggered a t am =
    if am.db.readable then set_found t (lookup a.id am.db.rows) am else (am, false)

unfoldable pub status_message : String → String → CachedAlertData → AlertMessageData
status_message status name a =
    let emoji : String = if status == "up" then "✅" else "🔴" in
    let message = "Connection to " ++ name ++ " is " ++ status ++ " " in
    record {
      user_id = a.user_id;
      system_id = a.system_id;
      title = message ++ emoji;
      message = message;
      link = "system" ∷ a.system_id ∷ [];
      link_text = "View " ++ name;
    }

-- `SendAlert` is only reached where the trigger state was written.
unfoldable pub send_status_alert :
    String → String → CachedAlertData → AlertManager → AlertManager × Bool
send_status_alert status name a am =
    let (am', saved) = set_alert_triggered a (status == "down") am in
    if saved
    then (record am' { sent = status_message status name a ∷ am'.sent }, true)
    else (am', false)

unfoldable pub cancel_pending_alert : String → AlertManager → AlertManager × Bool
cancel_pending_alert id am = elim (lookup id am.pending) [
  | none ↦ (am, false)
  | some info ↦ (record am { pending = erase id am.pending }, true)
]

-- One round of the loop of `handleSystemUp`.
unfoldable pub handle_alert_up : String → CachedAlertData → AlertManager → AlertManager
handle_alert_up name a am =
    let (am', cancelled) = cancel_pending_alert a.id am in
    if cancelled
    then am'
    else if not a.triggered
    then am'
    else (send_status_alert "up" name a am').0

unfoldable pub handle_system_up : String → List CachedAlertData → AlertManager → AlertManager
handle_system_up name [] am = am
handle_system_up name (a ∷ alerts) am = handle_system_up name alerts (handle_alert_up name a am)

unfoldable pub handle_status_alerts : String → String → String → AlertManager → AlertManager
handle_status_alerts status id name am =
    let (cache', alerts) = get_alerts_by_name id "Status" am.db am.cache in
    let am' = record am { cache = cache' } in
    if not (status == "up") && not (status == "down")
    then am
    else if status == "down"
    then handle_system_down name alerts am'
    else handle_system_up name alerts am'

-- `Range` over the pending alerts: those of the system are cancelled.
cancel_all : String → List (String × AlertInfo) → AlertManager → AlertManager
cancel_all system [] am = am
cancel_all system ((key, info) ∷ rest) am =
    cancel_all system rest
      (if info.alert_data.system_id == system then (cancel_pending_alert key am).0 else am)

unfoldable pub cancel_pending_status_alerts : String → AlertManager → AlertManager
unfolding cancel_all
cancel_pending_status_alerts system am = cancel_all system am.pending am

process_refreshed : AlertInfo → Option CachedAlertData → AlertManager → AlertManager
process_refreshed info none am = am
process_refreshed info (some a) am =
    if a.triggered then am else (send_status_alert "down" info.system_name a am).0

process_loaded : String → Option AlertInfo → AlertManager → AlertManager
unfolding process_refreshed
process_loaded id none am = am
process_loaded id (some info) am =
    let am' = record am { pending = erase id am.pending } in
    process_refreshed info (refresh info.alert_data am'.cache) am'

-- The body of the timer's callback.
unfoldable pub process_pending_alert : String → AlertManager → AlertManager
unfolding process_loaded
process_pending_alert id am = process_loaded id (lookup id am.pending) am
