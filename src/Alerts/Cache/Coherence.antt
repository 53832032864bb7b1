-- ===== src/Alerts/Cache/Coherence.antt =====
-- The alerts cache agrees with the collection: each hook of alerts_cache.go keeps it so.
use homemonit.Base.{
  String, true, ◌≡◌, ◌≢◌, refl, Option, none, some, List, [], ◌∷◌, ◌==◌, string_key, if◌then◌else◌,
  lookup, insert, erase, lookup-insert, lookup-erase, arith, Option-cases, inl, inr,
}
use homemonit.Alerts.Cache.{
  AlertRecord, AlertsDb, AlertsCache, CachedAlertData, populate_from_record, store_or_new, update,
  delete, update_all, populate_from_db, get_alert,
}

-- What the collection says of alert `i` of system `s`.
abbrev pub row_of : String → Option AlertRecord → Option CachedAlertData
row_of s none = none
row_of s (some r) = if r.system == s then some (populate_from_record r) else none

abbrev pub Coherent : List (String × AlertRecord) → AlertsCache → Type 0
Coherent rows c = (s i : String) → s ≢ "" → get_alert s i c ≡ row_of s (lookup i rows)

pub get_alert-update :
    (r : AlertRecord) (c : AlertsCache) (s i : String)
    → get_alert s i (update r c) ≡ (
        if r.system == ""
        then get_alert s i c
        else if r.system == s
        then (if r.id == i then some (populate_from_record r) else get_alert s i c)
        else get_alert s i c)
unfolding get_alert update store_or_new lookup
get_alert-update r c s i = ground (
  arith,
  string_key.test_iff r.system s,
  lookup-insert r.system s
      (insert r.id (populate_from_record r) (store_or_new (lookup r.system c.store))) c.store,
  lookup-insert r.id i (populate_from_record r) (store_or_new (lookup r.system c.store)),
)

pub get_alert-delete :
    (r : AlertRecord) (c : AlertsCache) (s i : String)
    → get_alert s i (delete r c) ≡ (
        if r.system == ""
        then get_alert s i c
        else if r.system == s
        then (if r.id == i then none else get_alert s i c)
        else get_alert s i c)
unfolding get_alert delete
get_alert-delete r c s i = elim (Option-cases (lookup r.system c.store)) [
  | inl e ↦ ground (arith, e, string_key.test_iff r.system s)
  | inr (m, e) ↦ ground (
    arith,
    e,
    string_key.test_iff r.system s,
    lookup-insert r.system s (erase r.id m) c.store,
    lookup-erase r.id i m,
  )
]

-- The save of a row and the cache's hook on it keep the two in agreement, unless the save moves an
-- alert to another system.
pub update-Coherent :
    (r : AlertRecord) (rows : List (String × AlertRecord)) (c : AlertsCache)
    → ((old : AlertRecord) → lookup r.id rows ≡ some old → old.system ≡ r.system)
    → Coherent rows c
    → Coherent (insert r.id r rows) (update r c)
update-Coherent r rows c stays h s i ne = elim (Option-cases (lookup r.id rows)) [
  | inl e ↦ ground (
    arith,
    e,
    h s i ne,
    get_alert-update r c s i,
    lookup-insert r.id i r rows,
    string_key.test_iff r.system s,
    string_key.test_iff r.system "",
    string_key.test_iff r.id i,
  )
  | inr (old, e) ↦ ground (
    arith,
    e,
    stays old e,
    h s i ne,
    get_alert-update r c s i,
    lookup-insert r.id i r rows,
    string_key.test_iff r.system s,
    string_key.test_iff r.system "",
    string_key.test_iff r.id i,
  )
]

-- The deletion of a row and the cache's hook on it keep the table and the cache in agreement.
pub delete-Coherent :
    (r : AlertRecord) (rows : List (String × AlertRecord)) (c : AlertsCache)
    → lookup r.id rows ≡ some r
    → Coherent rows c
    → Coherent (erase r.id rows) (delete r c)
delete-Coherent r rows c found h s i ne = ground (
  arith,
  found,
  h s i ne,
  get_alert-delete r c s i,
  lookup-erase r.id i rows,
  string_key.test_iff r.system s,
  string_key.test_iff r.system "",
  string_key.test_iff r.id i,
)

-- A table whose key is the id of its rows, each once.
abbrev pub IsTable : List (String × AlertRecord) → Type 0
IsTable [] = Unit {0}
IsTable ((i, r) ∷ rows) = (r.id ≡ i) × (lookup i rows ≡ none) × IsTable rows

pub get_alert-update_all :
    (rows : List (String × AlertRecord)) (c : AlertsCache) (s i : String)
    → s ≢ ""
    → IsTable rows
    → get_alert s i (update_all rows c)
      ≡ elim (row_of s (lookup i rows)) [ some a ↦ some a | none ↦ get_alert s i c ]
unfolding update_all lookup
get_alert-update_all [] c s i ne t = refl
get_alert-update_all ((j, r) ∷ rows) c s i ne t = ground (
  arith,
  get_alert-update_all rows (update r c) s i ne t.2,
  get_alert-update r c s i,
  string_key.test_iff r.system s,
  string_key.test_iff r.system "",
  string_key.test_iff j i,
)

-- A forced load that succeeds brings the cache into agreement, whatever it held.
pub populate_from_db-Coherent :
    (db : AlertsDb) (c : AlertsCache)
    → IsTable db.rows
    → db.readable ≡ true
    → Coherent db.rows (populate_from_db true db c).0 × ((populate_from_db true db c).1 ≡ true)
unfolding populate_from_db get_alert lookup
populate_from_db-Coherent db c t h = (
  λ s i ne. ground (arith, h, get_alert-update_all db.rows (record c { store = [] }) s i ne t),
  ground arith,
)

-- An update that meets no store of its system makes one that hides every other alert of the system.
pub update_hides_others :
    (r : AlertRecord) (c : AlertsCache) (i : String)
    → r.system ≢ ""
    → lookup r.system c.store ≡ none
    → r.id ≢ i
    → get_alert r.system i (update r c) ≡ none
unfolding get_alert
update_hides_others r c i ne missing other = ground (
  arith,
  get_alert-update r c r.system i,
  string_key.test_iff r.system "",
  string_key.test_iff r.id i,
)
