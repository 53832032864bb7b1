-- ===== src/Hub/Systems/Examples.antt =====
-- One system with a status alert: the theorems on the systems manager at concrete states, and runs.
use homemonit.Base.{
  Occurs, ◌+◌, ◌*◌, ◌/◌, true, false, ◌≡◌, refl, none, some, List, [], ◌∷◌, string_key, nat_key,
  lookup, insert, erase, All, ltb, leb, FloatOps, SingleOps,
}
use homemonit.Entities.{empty_info}
use homemonit.Alerts.Cache.{AlertRecord, AlertsDb, AlertsCache, update_all, populate_from_db}
use homemonit.Alerts.Cache.Coherence.{IsTable, populate_from_db-Coherent}
use homemonit.Alerts.Cache.Reads.{AllStores, update-AllStores}
use homemonit.Alerts.Status.{AlertManager}
use homemonit.Alerts.Status.Deadlines.{Waits}
use homemonit.Alerts.Status.Delivery.{Inv}
use homemonit.Hub.Systems.{
  System, SystemManager, SystemRecord, new_system_manager, blank, get_system, add_record,
  remove_system, add_web_socket_system, add_system,
}
use homemonit.Hub.Systems.Hooks.{
  Hub, Outside, save_system, create_system, on_record_after_create_success,
}
use homemonit.Hub.Systems.Live.{new_system_manager-Live}
use homemonit.Hub.Systems.View.{view}
use homemonit.Hub.Systems.Refinement.{Event, run, spec_run, Implements, run-Implements}
use homemonit.Hub.Systems.Alerting.{save_system-paused}
use homemonit.Hub.Systems.Outage.{outage_silent}
use homemonit.Hub.Systems.Saves.{Outcome, save_system-Outcome}
use homemonit.Hub.Systems.Disconnect.{alerts_about, connection_lost_schedules}
use homemonit.Hub.Systems.Updater.{Round, connection_lost}

-- Floats that are whole numbers.
abbrev whole : FloatOps
whole = record {
  add = λ a b. a + b;
  sub = λ a b. a;
  mul = λ a b. a * b;
  div = λ a b. a / b;
  max = λ a b. a;
  lt = ltb;
  le = leb;
  round = λ a. a;
  of_nat = λ a. a;
  to_nat = λ a. a;
}

abbrev single : SingleOps
single = record {
  single = λ a. a;
  double = λ a. a;
  add = λ a b. a + b;
  div = λ a b. a / 2;
  lt = ltb;
  le = leb;
  of_nat = λ a. a;
}

abbrev out : Outside
out = record {
  floats = whole;
  singles = single;
  parse = λ text. none;
  encode_stats = λ s. "stats";
  encode_containers = λ c. "containers";
}

abbrev alert : AlertRecord
alert = record {
  id = "a1";
  system = "s1";
  user = "u1";
  name = "Status";
  value = 0;
  triggered = true;
  min = 3;
}

abbrev db : AlertsDb
db = record { rows = ("a1", alert) ∷ []; readable = true; writable = true }

abbrev empty : AlertsCache
empty = record { store = []; populated = false }

abbrev am : AlertManager
am = record {
  db = db;
  cache = (populate_from_db true db empty).0;
  pending = [];
  callbacks = [];
  sent = [];
  stopped = false;
  now = 0;
}

db-IsTable : IsTable db.rows
unfolding lookup
db-IsTable = (refl, refl, tt)

am-AllStores : AllStores am.cache
unfolding populate_from_db update_all lookup
am-AllStores = update-AllStores alert empty (λ s m e. cc)

am-Inv : Inv am
unfolding lookup
am-Inv = record {
  table = db-IsTable;
  coherent = (populate_from_db-Coherent db empty db-IsTable refl).0;
  stores = am-AllStores;
  once = tt;
  keyed = λ i info e. cc;
}

abbrev row : SystemRecord
row = record {
  id = "s1";
  name = "web";
  host = "10.0.0.2";
  port = "45876";
  status = "up";
  info = empty_info;
  updated = 0;
}

abbrev sys : System
sys = record (blank "s1") { host = "10.0.0.2"; port = "45876"; status = "up"; ws_conn = some 7 }

abbrev manager : SystemManager
manager = record {
  systems = ("s1", 0) ∷ [];
  heap = (0, sys) ∷ [];
  next = 1;
  updaters = 0 ∷ [];
  updates = [];
  closed = [];
}

abbrev hub : Hub
hub = record {
  manager = manager;
  rows = ("s1", row) ∷ [];
  system_stats = [];
  container_stats = [];
  containers = [];
  system_details = [];
  alerts = am;
  started = [];
}

abbrev fresh : Hub
fresh = record hub { manager = new_system_manager; rows = [] }

abbrev history : List Event
history =
    Event.created 1 row
    ∷ Event.joined "0.1" 7 row
    ∷ Event.updated 2 (record row { status = "paused" })
    ∷ Event.deleted row
    ∷ []

run-Implements_example :
    Implements (run out history fresh).manager (spec_run history (view new_system_manager))
run-Implements_example = run-Implements out history fresh new_system_manager-Live

-- Two connections of one agent, one after the other: only the updater of the second is live.
abbrev twice : List Event
twice = Event.created 1 row ∷ Event.joined "0.1" 7 row ∷ Event.joined "0.1" 8 row ∷ []

abbrev second : System
second = record sys { ws_conn = some 8; agent_version = "0.1" }

three_updaters : (run out twice fresh).manager.updaters ≡ 2 ∷ 1 ∷ 0 ∷ []
unfolding run create_system add_web_socket_system add_record remove_system add_system
    on_record_after_create_success new_system_manager lookup insert erase
three_updaters = refl

save_system-paused_example :
    let am' = (save_system out 5 (record row { status = "paused" }) hub).alerts in
    (lookup "a1" am'.db.rows ≡ some (record alert { triggered = false }))
    × (lookup "a1" am'.pending ≡ none)
    × (am'.sent ≡ [])
unfolding lookup
save_system-paused_example =
    save_system-paused out 5 (record row { status = "paused" }) hub "a1" am-Inv refl refl refl

outage_silent_example :
    let hub' =
      save_system out 6
        (record row { status = "up" })
        (save_system out 5 (record row { status = "down" }) hub) in
    (hub'.alerts.sent ≡ []) × (hub'.alerts.db ≡ db)
unfolding get_system lookup
outage_silent_example = outage_silent out 5 6 row hub 0 sys am-AllStores refl refl

save_system-Outcome_example :
    let am' = (save_system out 5 (record row { status = "down" }) hub).alerts in
    Inv am' × Outcome (record row { status = "down" }) hub "a1" am'
save_system-Outcome_example =
    save_system-Outcome out 5 (record row { status = "down" }) hub "a1" am-Inv

abbrev silent_round : Round
silent_round = record {
  now = 9;
  connected = true;
  answer = none;
  ping = false;
  commit = true;
  stats_id = "r1";
  container_stats_id = "r2";
}

connection_lost_schedules_example :
    let hub' = connection_lost out silent_round 0 hub in
    (lookup "s1" hub'.rows ≡ some (record row { status = "down"; updated = 9 }))
    × (get_system "s1" hub'.manager ≡ some (0, record sys { status = "down"; ws_conn = none }))
    × All
        (λ a. Waits (λ b. Occurs b (alerts_about "s1" am)) a.id am hub'.alerts)
        (alerts_about "s1" am)
unfolding get_system lookup
connection_lost_schedules_example =
    connection_lost_schedules out silent_round 0 hub sys row refl refl refl refl refl refl
