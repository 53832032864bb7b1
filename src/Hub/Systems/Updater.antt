-- ===== src/Hub/Systems/Updater.antt =====
-- internal/hub/systems/system.go: the updater of a system, which asks the agent for its data and
-- writes the records made from it.
pub mod Deprecated
pub mod SetDown
pub mod Failures
use homemonit.Base.{
  ℕ, ◌+◌, ◌%◌, ◌^◌, String, Bool, true, false, not, ◌&&◌, ◌||◌, Option, none, some, List, [], ◌∷◌,
  ◌==◌, string_key, nat_key, if◌then◌else◌, lookup, insert, FloatOps,
}
use homemonit.Records.Stats.{Stats}
use homemonit.Entities.{Details, Container, CombinedData}
use homemonit.Hub.Systems.{
  System, SystemManager, SystemRecord, modify, remove_system, close_web_socket_connection,
}
use homemonit.Hub.Systems.Hooks.{Hub, Outside, ContainerRow, DetailsRow, save_system}
use homemonit.Hub.Systems.Updater.Deprecated.{migrate_deprecated_fields}

-- What a round of the updater meets: the time in milliseconds, the connection, what the answer of the
-- agent leaves in `sys.data`, whether the agent answers a ping, whether the database takes the
-- transaction or the save, and the ids of new rows.
pub record Round : Type 0 where
  pub now : ℕ
  pub connected : Bool
  pub answer : Option CombinedData
  pub ping : Bool
  pub commit : Bool
  pub stats_id : String
  pub container_stats_id : String

abbrev pub at_manager : (SystemManager → SystemManager) → Hub → Hub
at_manager f hub = record hub { manager = f hub.manager }

-- `getRecord`, with the removal of a system whose row is gone.
unfoldable pub get_record : String → Hub → Hub × Option SystemRecord
get_record id hub = elim (lookup id hub.rows) [
  | none ↦ (at_manager (λ m. (remove_system id m).0) hub, none)
  | some r ↦ (hub, some r)
]

unfoldable pub fetch_data_from_agent : Round → ℕ → System → Hub → Hub × Option CombinedData
fetch_data_from_agent t h sys hub = elim sys.ws_conn [
  | none ↦ (hub, none)
  | some conn ↦ if not t.connected then (hub, none) else elim t.answer [
    | none ↦ (at_manager (close_web_socket_connection sys.ws_conn) hub, none)
    | some received ↦
        (at_manager (modify (λ sys. record sys { received = received }) h) hub, some received)
  ]
]

unfoldable pub net_bytes : FloatOps → Container → ℕ
net_bytes o c =
    let sum = (c.bandwidth.0 + c.bandwidth.1) % 2 ^ 64 in
    let mega = o.of_nat 1_024 in
    if sum == 0
    then o.to_nat (o.mul (o.mul (o.add c.network_sent c.network_recv) mega) mega)
    else sum

unfoldable pub container_row : FloatOps → ℕ → String → Container → ContainerRow
unfolding net_bytes
container_row o now system c = record {
  id = c.id;
  system = system;
  name = c.name;
  image = c.image;
  ports = c.ports;
  status = c.status;
  health = c.health;
  cpu = c.cpu;
  memory = c.mem;
  net = net_bytes o c;
  updated = now;
}

-- One statement: INSERT … ON CONFLICT(id) DO UPDATE.
unfoldable pub create_container_records :
    FloatOps
    → ℕ
    → String
    → List Container
    → List (String × ContainerRow)
    → List (String × ContainerRow)
unfolding container_row
create_container_records o now system [] rows = rows
create_container_records o now system (c ∷ containers) rows =
    create_container_records o now system containers
      (insert c.id (container_row o now system c) rows)

-- UPDATE of the row with the system's id, or INSERT where there is none.
unfoldable pub create_system_details_record :
    ℕ → String → Details → List (String × DetailsRow) → List (String × DetailsRow)
create_system_details_record now system details rows =
    insert system (record { details = details; system = system; updated = now }) rows

module _ (out : Outside) where
  add_stats_row : Round → String → CombinedData → Hub → Hub
  add_stats_row t id received hub = record hub {
    system_stats =
        record {
          id = t.stats_id;
          system = id;
          type = "1m";
          created = t.now;
          stats = out.encode_stats received.stats;
        }
        ∷ hub.system_stats;
  }

  add_containers : Round → String → List Container → Hub → Hub
  add_containers t id [] hub = hub
  add_containers t id (c ∷ containers) hub = record hub {
    containers =
        if c.id == ""
        then hub.containers
        else create_container_records out.floats t.now id (c ∷ containers) hub.containers;
    container_stats =
        record {
          id = t.container_stats_id;
          system = id;
          type = "1m";
          created = t.now;
          stats = out.encode_containers (c ∷ containers);
        }
        ∷ hub.container_stats;
  }

  add_details : Round → String → Option Details → Hub → Hub
  add_details t id none hub = hub
  add_details t id (some details) hub = record hub {
    system_details = create_system_details_record t.now id details hub.system_details;
  }

  create_for : Round → CombinedData → Hub × Option SystemRecord → Hub × Bool
  create_for t received (hub, none) = (hub, false)
  create_for t received (hub, some r) =
      let with_rows =
        add_details t r.id received.details
          (add_containers t r.id received.containers (add_stats_row t r.id received hub)) in
      if t.commit
      then (
        save_system out t.now (record r { status = "up"; info = received.info }) with_rows,
        true,
      )
      else (hub, false)

  -- The transaction of `createRecords`; the hook on the update of the row runs when it is committed.
  unfoldable pub create_records : Round → String → CombinedData → Hub → Hub × Bool
  unfolding create_for add_stats_row add_containers add_details get_record
  create_records t id received hub = create_for t received (get_record id hub)

  handle_paused : Round → System → Hub → Hub
  handle_paused t sys hub =
      let removed = at_manager (λ m. (remove_system sys.id m).0) hub in
      elim sys.ws_conn [ none ↦ removed | some conn ↦ if t.ping then hub else removed ]

  -- `detailsFetched.Store(true)`, where the data had details.
  details_stored : Option Details → ℕ → Hub → Hub
  details_stored none h hub = hub
  details_stored (some details) h hub =
      at_manager (modify (λ sys. record sys { details_fetched = true }) h) hub

  store_received : Round → ℕ → System → Hub × Option CombinedData → Hub × Bool
  unfolding details_stored
  store_received t h sys (hub, none) = (hub, false)
  store_received t h sys (hub, some answer) =
      let received = migrate_deprecated_fields out.floats answer (not sys.details_fetched) in
      let migrated = at_manager (modify (λ sys. record sys { received = received }) h) hub in
      let (hub', ok) = create_records t sys.id received migrated in
      if ok then (details_stored received.details h hub', true) else (hub', false)

  unfoldable pub update : Round → ℕ → System → Hub → Hub × Bool
  unfolding handle_paused store_received fetch_data_from_agent
  update t h sys hub =
      if sys.status == "paused"
      then (handle_paused t sys hub, true)
      else store_received t h sys (fetch_data_from_agent t h sys hub)

  down_row : Round → Hub × Option SystemRecord → Hub
  down_row t (hub, none) = hub
  down_row t (hub, some r) =
      if t.commit then save_system out t.now (record r { status = "down" }) hub else hub

  unfoldable pub set_down : Round → System → Hub → Hub
  unfolding down_row get_record
  set_down t sys hub =
      if sys.status == "down" || sys.status == "paused"
      then hub
      else down_row t (get_record sys.id hub)

  -- The tick of the updater, and the jitter. `setDown` reads the status again.
  tick_found : Round → ℕ → Option System → Hub → Hub
  tick_found t h none hub = hub
  tick_found t h (some sys) hub =
      let (hub', ok) = update t h sys hub in
      if ok
      then hub'
      else elim (lookup h hub'.manager.heap) [ none ↦ hub' | some sys' ↦ set_down t sys' hub' ]

  unfoldable pub tick : Round → ℕ → Hub → Hub
  unfolding tick_found
  tick t h hub = tick_found t h (lookup h hub.manager.heap) hub

  -- What `StartUpdater` does before its loop.
  unfoldable pub start_updater : Round → ℕ → Hub → Hub
  start_updater t h hub = elim (lookup h hub.manager.heap) [
    | none ↦ hub
    | some sys ↦ if not (sys.status == "paused") && not sys.cancelled then tick t h hub else hub
  ]

  -- The branch of the loop for `downChan`.
  unfoldable pub connection_lost : Round → ℕ → Hub → Hub
  connection_lost t h hub = elim (lookup h hub.manager.heap) [
    | none ↦ hub
    | some sys ↦ set_down t sys (at_manager (modify (λ sys. record sys { ws_conn = none }) h) hub)
  ]
