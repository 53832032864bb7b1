-- ===== src/Alerts/Cache.antt =====
-- internal/alerts/alerts_cache.go, with the `alerts` collection that it mirrors.
-- The framework's thread-safe store is a map; a pointer to an inner store is read and written back.
pub mod Coherence
pub mod Reads
pub mod Tables
use homemonit.Base.{
  ℕ, ◌%◌, String, Bool, true, false, not, ◌&&◌, Option, none, some, List, [], ◌∷◌, ◌==◌, string_key,
  if◌then◌else◌, keep, lookup, insert, erase, Float,
}

-- A row of the `alerts` collection. `min` is the 64-bit pattern of the number.
pub record AlertRecord : Type 0 where
  pub id : String
  pub system : String
  pub user : String
  pub name : String
  pub value : Float
  pub triggered : Bool
  pub min : ℕ

-- The collection, keyed by the rows' ids, and whether its queries and its saves succeed.
pub record AlertsDb : Type 0 where
  pub rows : List (String × AlertRecord)
  pub readable : Bool
  pub writable : Bool

pub record CachedAlertData : Type 0 where
  pub id : String
  pub system_id : String
  pub user_id : String
  pub name : String
  pub value : Float
  pub triggered : Bool
  pub min : ℕ  -- uint8

abbrev pub SystemStore : Type 0
SystemStore = List (String × CachedAlertData)

pub record AlertsCache : Type 0 where
  pub store : List (String × SystemStore)
  pub populated : Bool

unfoldable pub populate_from_record : AlertRecord → CachedAlertData
populate_from_record r = record {
  id = r.id;
  system_id = r.system;
  user_id = r.user;
  name = r.name;
  value = r.value;
  triggered = r.triggered;
  min = r.min % 256;
}

unfoldable pub new_alerts_cache : AlertsCache
new_alerts_cache = record { store = []; populated = false }

unfoldable pub store_or_new : Option SystemStore → SystemStore
store_or_new none = []
store_or_new (some s) = s

unfoldable pub update : AlertRecord → AlertsCache → AlertsCache
update r c =
    let system_store = store_or_new (lookup r.system c.store) in
    let filled = insert r.id (populate_from_record r) system_store in
    if r.system == "" then c else record c { store = insert r.system filled c.store }

-- `Remove` on the inner store, if there is one.
unfoldable pub remove_from : AlertRecord → Option SystemStore → AlertsCache → AlertsCache
remove_from r none c = c
remove_from r (some s) c = record c { store = insert r.system (erase r.id s) c.store }

unfoldable pub delete : AlertRecord → AlertsCache → AlertsCache
unfolding remove_from
delete r c = if r.system == "" then c else remove_from r (lookup r.system c.store) c

-- The loop of `PopulateFromDB`.
unfoldable pub update_all : List (String × AlertRecord) → AlertsCache → AlertsCache
update_all [] c = c
update_all ((i, r) ∷ rows) c = update_all rows (update r c)

-- The Boolean is false where the query failed.
unfoldable pub populate_from_db : Bool → AlertsDb → AlertsCache → AlertsCache × Bool
populate_from_db force db c =
    let loaded = update_all db.rows (record c { store = [] }) in
    if not force && c.populated
    then (c, true)
    else if db.readable
    then (record loaded { populated = true }, true)
    else (c, false)

-- SELECT * FROM alerts WHERE system = id.
unfoldable pub rows_of_system : String → List (String × AlertRecord) → List (String × AlertRecord)
rows_of_system id = keep (λ row. row.1.system == id)

unfoldable pub fill_store : List (String × AlertRecord) → SystemStore → SystemStore
fill_store [] s = s
fill_store ((i, r) ∷ rows) s = fill_store rows (insert r.id (populate_from_record r) s)

unfoldable pub values : SystemStore → List CachedAlertData
values [] = []
values ((i, a) ∷ s) = a ∷ values s

lazy_load :
    String → AlertsDb → AlertsCache → Option SystemStore → AlertsCache × List CachedAlertData
lazy_load id db c (some s) = (c, values s)
lazy_load id db c none =
    let s = fill_store (rows_of_system id db.rows) [] in
    if db.readable then (record c { store = insert id s c.store }, values s) else (c, [])

unfoldable pub get_system_alerts :
    String → AlertsDb → AlertsCache → AlertsCache × List CachedAlertData
unfolding lazy_load values
get_system_alerts id db c = lazy_load id db c (lookup id c.store)

unfoldable pub find_in : String → Option SystemStore → Option CachedAlertData
find_in id none = none
find_in id (some s) = lookup id s

unfoldable pub get_alert : String → String → AlertsCache → Option CachedAlertData
unfolding find_in
get_alert system_id alert_id c = find_in alert_id (lookup system_id c.store)

unfoldable pub get_alerts_by_name :
    String → String → AlertsDb → AlertsCache → AlertsCache × List CachedAlertData
get_alerts_by_name system_id name db c =
    let (c', all) = get_system_alerts system_id db c in (c', keep (λ a. a.name == name) all)

unfoldable pub listed : String → List String → Bool
listed name [] = false
listed name (x ∷ xs) = if x == name then true else listed name xs

unfoldable pub get_alerts_excluding_names :
    String → List String → AlertsDb → AlertsCache → AlertsCache × List CachedAlertData
unfolding listed
get_alerts_excluding_names system_id excluded db c =
    let (c', all) = get_system_alerts system_id db c in
    (c', keep (λ a. not (listed a.name excluded)) all)

unfoldable pub refresh : CachedAlertData → AlertsCache → Option CachedAlertData
refresh a c = if a.id == "" then none else get_alert a.system_id a.id c
