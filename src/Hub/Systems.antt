-- ===== src/Hub/Systems.antt =====
-- internal/hub/systems/system_manager.go, with the `systems` collection and the alert manager that its
-- hooks call. A `*System` is a pointer into a heap, since the store, the updater and the hooks share
-- it; a WebSocket connection is a number, and `closed` are those on which `Close` was called.
-- `updaters` are the systems on which `StartUpdater` was started, and `updates` the goroutines that
-- run `update` once. The hooks run one at a time.
pub mod Hooks
pub mod Updater
pub mod Live
pub mod Removal
pub mod View
pub mod Refinement
pub mod Alerting
pub mod Outage
pub mod Saves
pub mod Disconnect
mod Examples
use homemonit.Base.{
  ℕ, ◌+◌, String, Bool, true, false, not, ◌&&◌, ◌||◌, Option, none, some, List, [], ◌∷◌, ◌==◌,
  string_key, nat_key, if◌then◌else◌, lookup, insert, erase,
}
use homemonit.Entities.{Info, CombinedData, empty_data}

pub record System : Type 0 where
  pub id : String
  pub host : String
  pub port : String
  pub status : String
  pub received : CombinedData  -- `data`
  pub cancelled : Bool  -- `cancel` was called
  pub ws_conn : Option ℕ
  pub agent_version : String
  pub details_fetched : Bool

pub record SystemManager : Type 0 where
  pub systems : List (String × ℕ)
  pub heap : List (ℕ × System)
  pub next : ℕ
  pub updaters : List ℕ
  pub updates : List ℕ
  pub closed : List ℕ

-- A row of the `systems` collection. `updated` is in milliseconds.
pub record SystemRecord : Type 0 where
  pub id : String
  pub name : String
  pub host : String
  pub port : String
  pub status : String
  pub info : Info
  pub updated : ℕ

pub data AddError : Type 0 where
  system_exists missing_fields : AddError

unfoldable pub new_system_manager : SystemManager
new_system_manager = record {
  systems = [];
  heap = [];
  next = 0;
  updaters = [];
  updates = [];
  closed = [];
}

-- A new pointer.
unfoldable pub alloc : System → SystemManager → SystemManager × ℕ
alloc sys m = (record m { heap = insert m.next sys m.heap; next = m.next + 1 }, m.next)

abbrev pub blank : String → System
blank id = record {
  id = id;
  host = "";
  port = "";
  status = "";
  received = empty_data;
  cancelled = false;
  ws_conn = none;
  agent_version = "";
  details_fetched = false;
}

modify_found : (System → System) → ℕ → Option System → SystemManager → SystemManager
modify_found f h none m = m
modify_found f h (some sys) m = record m { heap = insert h (f sys) m.heap }

-- A write through a pointer.
unfoldable pub modify : (System → System) → ℕ → SystemManager → SystemManager
unfolding modify_found
modify f h m = modify_found f h (lookup h m.heap) m

unfoldable pub has : String → SystemManager → Bool
has id m = elim (lookup id m.systems) [ none ↦ false | some h ↦ true ]

-- `GetOk` of the store.
unfoldable pub get_system : String → SystemManager → Option (ℕ × System)
get_system id m = elim (lookup id m.systems) [
  | none ↦ none
  | some h ↦ elim (lookup h m.heap) [ none ↦ none | some sys ↦ some (h, sys) ]
]

add_found : ℕ → Option System → SystemManager → SystemManager × Option AddError
add_found h none m = (m, some missing_fields)
add_found h (some sys) m =
    if has sys.id m
    then (m, some system_exists)
    else if sys.id == "" || sys.host == ""
    then (m, some missing_fields)
    else (
      record m {
        heap = insert h (record sys { received = empty_data }) m.heap;
        systems = insert sys.id h m.systems;
        updaters = h ∷ m.updaters;
      },
      none,
    )

unfoldable pub add_system : ℕ → SystemManager → SystemManager × Option AddError
unfolding add_found has
add_system h m = add_found h (lookup h m.heap) m

unfoldable pub close_web_socket_connection : Option ℕ → SystemManager → SystemManager
close_web_socket_connection none m = m
close_web_socket_connection (some c) m = record m { closed = c ∷ m.closed }

remove_found : String → Option (ℕ × System) → SystemManager → SystemManager × Bool
remove_found id none m = (m, false)
remove_found id (some (h, sys)) m =
    let m' = close_web_socket_connection sys.ws_conn m in
    (
      record m' {
        heap = insert h (record sys { cancelled = true }) m.heap;
        systems = erase id m.systems;
      },
      true,
    )

-- False where the system is not found.
unfoldable pub remove_system : String → SystemManager → SystemManager × Bool
unfolding remove_found close_web_socket_connection get_system
remove_system id m = remove_found id (get_system id m) m

-- `AddRecord` on a system that is allocated after the removal of the one in the store.
unfoldable pub add_record : SystemRecord → System → SystemManager → SystemManager × Option AddError
unfolding alloc
add_record r sys m =
    let m' = if has r.id m then (remove_system r.id m).0 else m in
    let filled = record sys { status = r.status; host = r.host; port = r.port } in
    let (m'', h) = alloc filled m' in add_system h m''

unfoldable pub add_web_socket :
    String → ℕ → String → Option SystemRecord → SystemManager → SystemManager × Bool
add_web_socket version conn id none m = (m, false)
add_web_socket version conn id (some r) m =
    let sys = record (blank id) { ws_conn = some conn; agent_version = version } in
    let (m', err) = add_record r sys m in elim err [ none ↦ (m', true) | some e ↦ (m', false) ]

-- `none` for the row is an error of `FindRecordById`.
unfoldable pub add_web_socket_system :
    String → String → ℕ → Option SystemRecord → SystemManager → SystemManager × Bool
unfolding add_web_socket
add_web_socket_system id version conn row m = add_web_socket version conn id row m

-- The goroutine of `Initialize`, on the rows that its query gives.
unfoldable pub add_all : List SystemRecord → SystemManager → SystemManager
unfolding alloc
add_all [] m = m
add_all (r ∷ rows) m =
    let sys = record (blank r.id) { host = r.host; port = r.port; status = r.status } in
    let (m', h) = alloc sys m in add_all rows (add_system h m').0

unfoldable pub not_paused : List (String × SystemRecord) → List SystemRecord
not_paused [] = []
not_paused ((id, r) ∷ rows) = if r.status == "paused" then not_paused rows else r ∷ not_paused rows

-- `none` is a failure of the query.
unfoldable pub initialize :
    Option (List (String × SystemRecord)) → SystemManager → SystemManager × Bool
unfolding add_all not_paused
initialize none m = (m, false)
initialize (some rows) m = (add_all (not_paused rows) m, true)
