-- ===== src/Hub/Systems/Hooks.antt =====
-- internal/hub/systems/system_manager.go: the hooks on the `systems` collection. The saves of the
-- collection call them: `OnRecordUpdate` before a row is written, and the others when the write is
-- committed. The collections and the alert manager are part of the state.
use homemonit.Base.{
  ℕ, String, Bool, false, ◌&&◌, ◌||◌, Option, none, some, List, [], ◌∷◌, ◌==◌, string_key,
  if◌then◌else◌, insert, erase, FloatOps, SingleOps,
}
use mathlib.Core.List.{◌++◌}
use homemonit.Records.Tables.{StatsRow}
use homemonit.Records.Stats.{Stats}
use homemonit.Entities.{Details, Container, empty_info}
use homemonit.Alerts.Cache.{AlertRecord, update}
use homemonit.Alerts.Status.{AlertManager, handle_status_alerts, cancel_pending_status_alerts}
use homemonit.Alerts.System.{SystemAlertData, StatsFields, AlertedSystem, handle_system_alerts}
use homemonit.Hub.Systems.{
  System, SystemManager, SystemRecord, blank, modify, get_system, remove_system, add_record,
}

-- A row of the `containers` collection.
pub record ContainerRow : Type 0 where
  pub id : String
  pub system : String
  pub name : String
  pub image : String
  pub ports : String
  pub status : String
  pub health : ℕ
  pub cpu : ℕ
  pub memory : ℕ
  pub net : ℕ
  pub updated : ℕ

-- A row of the `system_details` collection.
pub record DetailsRow : Type 0 where
  pub details : Details  -- without the interval
  pub system : String
  pub updated : ℕ

pub record Hub : Type 0 where
  pub manager : SystemManager
  pub rows : List (String × SystemRecord)
  pub system_stats : List StatsRow
  pub container_stats : List StatsRow
  pub containers : List (String × ContainerRow)
  pub system_details : List (String × DetailsRow)
  pub alerts : AlertManager
  pub started : List SystemAlertData  -- the goroutines of `sendSystemAlert` that have not run

-- What the hub uses of code that is not its own.
pub record Outside : Type 0 where
  pub floats : FloatOps
  pub singles : SingleOps
  pub parse : String → Option StatsFields
  pub encode_stats : Stats → String
  pub encode_containers : List Container → String

-- The loop of `deactivateAlerts` over the rows that its query finds, where the saves succeed.
unfoldable pub deactivate_each : String → List (String × AlertRecord) → AlertManager → AlertManager
deactivate_each id [] am = am
deactivate_each id ((key, r) ∷ rows) am =
    let r' = record r { triggered = false } in
    let saved = record am {
      db = record am.db { rows = insert r.id r' am.db.rows };
      cache = update r' am.cache;
    } in
    deactivate_each id rows (if r.system == id && r.triggered then saved else am)

unfoldable pub deactivate_alerts : String → AlertManager → AlertManager
unfolding deactivate_each
deactivate_alerts id am =
    if am.db.readable && am.db.writable then deactivate_each id am.db.rows am else am

unfoldable pub on_record_create : SystemRecord → SystemRecord
on_record_create r = record r { info = empty_info; status = "pending" }

unfoldable pub on_record_after_create_success : SystemRecord → Hub → Hub
on_record_after_create_success r hub = record hub {
  manager = (add_record r (blank r.id) hub.manager).0;
}

unfoldable pub on_record_update : SystemRecord → SystemRecord
on_record_update r = if r.status == "paused" then record r { info = empty_info } else r

unfoldable pub on_record_after_delete_success : SystemRecord → Hub → Hub
on_record_after_delete_success r hub = record hub { manager = (remove_system r.id hub.manager).0 }

abbrev pub paused_now : SystemRecord → Hub → Hub
paused_now r hub = record hub {
  alerts = cancel_pending_status_alerts r.id (deactivate_alerts r.id hub.alerts);
}

-- The status became pending: a connected system is updated at once, any other is added anew.
unfoldable pub pending_now : SystemRecord → Option (ℕ × System) → Hub → Hub
pending_now r none hub = record hub {
  manager = (add_record r (blank r.id) hub.manager).0;
  alerts = deactivate_alerts r.id hub.alerts;
}
pending_now r (some (h, sys)) hub = elim sys.ws_conn [
  | none ↦ record hub {
    manager = (add_record r (blank r.id) hub.manager).0;
    alerts = deactivate_alerts r.id hub.alerts;
  }
  | some conn ↦ record hub { manager = record hub.manager { updates = h ∷ hub.manager.updates } }
]

module _ (out : Outside) where
  -- The status of a known system became another one than paused or pending.
  abbrev pub system_alerts : SystemRecord → System → Hub → Hub
  system_alerts r sys hub =
      let alerted : AlertedSystem = record { id = r.id; name = r.name; updated = r.updated } in
      let (am, started, ok) =
        handle_system_alerts out.floats out.singles out.parse alerted sys.received
          (if hub.alerts.db.readable then some hub.system_stats else none) hub.alerts in
      record hub { alerts = am; started = started ++ hub.started }

  abbrev pub crossed : String → String → Bool
  crossed old new = (new == "down" && old == "up") || (new == "up" && old == "down")

  unfoldable pub active_now : SystemRecord → Option (ℕ × System) → Hub → Hub
  active_now r none hub = record hub { manager = (add_record r (blank r.id) hub.manager).0 }
  active_now r (some (h, sys)) hub =
      let hub' = if r.status == "up" then system_alerts r sys hub else hub in
      if crossed sys.status r.status
      then record hub' { alerts = handle_status_alerts r.status r.id r.name hub'.alerts }
      else hub'

  abbrev pub set_status : String → Option (ℕ × System) → Hub → Hub
  set_status status none hub = hub
  set_status status (some (h, sys)) hub = record hub {
    manager = modify (λ sys. record sys { status = status }) h hub.manager;
  }

  -- `known` is what the store had, with the status before the change.
  unfoldable pub status_changed : SystemRecord → Option (ℕ × System) → Hub → Hub
  unfolding pending_now active_now
  status_changed r known hub =
      let hub' = set_status r.status known hub in
      if r.status == "paused"
      then paused_now r hub'
      else if r.status == "pending"
      then pending_now r known hub'
      else active_now r known hub'

  unfoldable pub on_record_after_update_success : SystemRecord → Hub → Hub
  unfolding status_changed
  on_record_after_update_success r hub = status_changed r (get_system r.id hub.manager) hub

  -- A save of a row that the database takes, with the hooks on it.
  unfoldable pub save_system : ℕ → SystemRecord → Hub → Hub
  unfolding on_record_update
  save_system now r hub =
      let r' = record (on_record_update r) { updated = now } in
      on_record_after_update_success r' (record hub { rows = insert r'.id r' hub.rows })

  unfoldable pub create_system : ℕ → SystemRecord → Hub → Hub
  unfolding on_record_create
  create_system now r hub =
      let r' = record (on_record_create r) { updated = now } in
      on_record_after_create_success r' (record hub { rows = insert r'.id r' hub.rows })

  unfoldable pub delete_system : SystemRecord → Hub → Hub
  delete_system r hub = on_record_after_delete_success r (record hub { rows = erase r.id hub.rows })
