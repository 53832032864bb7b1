-- ===== src/Alerts/Cache/Reads.antt =====
-- What the reads of alerts_cache.go return, the lazy load included.
use homemonit.Base.{
  String, true, ◌≡◌, ◌≢◌, ◌↔◌, refl, none, some, List, [], ◌∷◌, ◌==◌, string_key, lookup, insert,
  erase, keep, lookup-insert, lookup-erase, arith, Option-cases, inl, inr, Occurs, All, Bool,
}
use homemonit.Alerts.Cache.{
  AlertRecord, AlertsDb, AlertsCache, CachedAlertData, SystemStore, populate_from_record,
  rows_of_system, fill_store, values, get_system_alerts, get_alert, get_alerts_by_name, update,
  store_or_new, delete,
}
use homemonit.Alerts.Cache.Coherence.{Coherent, IsTable, row_of}

-- A store whose key is the id of its alerts, each once.
abbrev pub IsStore : SystemStore → Type 0
IsStore [] = Unit {0}
IsStore ((i, a) ∷ m) = (a.id ≡ i) × (lookup i m ≡ none) × IsStore m

pub insert-IsStore : (a : CachedAlertData) (m : SystemStore) → IsStore m → IsStore (insert a.id a m)
unfolding insert lookup
insert-IsStore a [] h = (refl, refl, tt)
insert-IsStore a ((j, b) ∷ m) h = ground (
  arith,
  insert-IsStore a m h.2,
  lookup-insert a.id j a m,
  string_key.test_iff a.id j,
  string_key.test_iff j a.id,
)

pub fill_store-IsStore :
    (rows : List (String × AlertRecord)) (m : SystemStore) → IsStore m → IsStore (fill_store rows m)
unfolding fill_store populate_from_record
fill_store-IsStore [] m h = h
fill_store-IsStore ((i, r) ∷ rows) m h =
    fill_store-IsStore rows (insert r.id (populate_from_record r) m)
      (insert-IsStore (populate_from_record r) m h)

lookup-fill_store :
    (s i : String) (rows : List (String × AlertRecord)) (m : SystemStore)
    → IsTable rows
    → lookup i (fill_store (rows_of_system s rows) m)
      ≡ elim (row_of s (lookup i rows)) [ some a ↦ some a | none ↦ lookup i m ]
unfolding fill_store rows_of_system keep lookup
lookup-fill_store s i [] m t = refl
lookup-fill_store s i ((j, r) ∷ rows) m t = ground (
  arith,
  lookup-fill_store s i rows m t.2,
  lookup-fill_store s i rows (insert r.id (populate_from_record r) m) t.2,
  lookup-insert r.id i (populate_from_record r) m,
  string_key.test_iff r.system s,
  string_key.test_iff j i,
)

lookup-Occurs :
    (i : String) (a : CachedAlertData) (m : SystemStore) → lookup i m ≡ some a → Occurs a (values m)
unfolding lookup values
lookup-Occurs i a [] h = cc
lookup-Occurs i a ((j, b) ∷ m) h = ground (arith, lookup-Occurs i a m)

Occurs-lookup :
    (a : CachedAlertData) (m : SystemStore)
    → IsStore m
    → Occurs a (values m)
    → lookup a.id m ≡ some a
unfolding lookup values
Occurs-lookup a [] s h = absurd h
Occurs-lookup a ((j, b) ∷ m) s (inl e) = ground (arith, string_key.test_iff j a.id)
Occurs-lookup a ((j, b) ∷ m) s (inr o) =
    ground (arith, Occurs-lookup a m s.2 o, string_key.test_iff j a.id)

-- Every inner store is keyed by the ids of its alerts.
abbrev pub AllStores : AlertsCache → Type 0
AllStores c = (s : String) (m : SystemStore) → lookup s c.store ≡ some m → IsStore m

-- A read keeps a coherent cache coherent, whether it loads the system's store, finds it there, or
-- fails.
pub get_system_alerts-Coherent :
    (s : String) (db : AlertsDb) (c : AlertsCache)
    → IsTable db.rows
    → Coherent db.rows c
    → Coherent db.rows (get_system_alerts s db c).0
unfolding get_system_alerts get_alert lookup
get_system_alerts-Coherent s db c tab h t i nt = elim (Option-cases (lookup s c.store)) [
  | inl e ↦ ground (
    arith,
    e,
    h t i nt,
    string_key.test_iff s t,
    lookup-insert s t (fill_store (rows_of_system s db.rows) []) c.store,
    lookup-fill_store t i db.rows [] tab,
  )
  | inr (m, e) ↦ ground (arith, e, h t i nt)
]

-- So does it keep the inner stores keyed by the ids of their alerts.
pub get_system_alerts-AllStores :
    (s : String) (db : AlertsDb) (c : AlertsCache)
    → AllStores c
    → AllStores (get_system_alerts s db c).0
unfolding get_system_alerts lookup
get_system_alerts-AllStores s db c st t m f = elim (Option-cases (lookup s c.store)) [
  | inl e ↦ ground (
    arith,
    e,
    f,
    st t m,
    string_key.test_iff s t,
    lookup-insert s t (fill_store (rows_of_system s db.rows) []) c.store,
    fill_store-IsStore (rows_of_system s db.rows) [] tt,
  )
  | inr (n, e) ↦ ground (arith, e, f, st t m)
]

values-row_of :
    (s : String) (db : AlertsDb) (c : AlertsCache) (a : CachedAlertData)
    → IsTable db.rows
    → db.readable ≡ true
    → s ≢ ""
    → Coherent db.rows c
    → AllStores c
    → Occurs a (get_system_alerts s db c).1 ↔ (row_of s (lookup a.id db.rows) ≡ some a)
unfolding get_system_alerts get_alert lookup
values-row_of s db c a tab ok ns h st = elim (Option-cases (lookup s c.store)) [
  | inl e ↦
      let m = fill_store (rows_of_system s db.rows) [] in
      let same = lookup-fill_store s a.id db.rows [] tab in
      ground (
        arith,
        e,
        same,
        lookup-Occurs a.id a m,
        Occurs-lookup a m (fill_store-IsStore (rows_of_system s db.rows) [] tt),
      )
  | inr (m, e) ↦
      ground (arith, e, h s a.id ns, lookup-Occurs a.id a m, Occurs-lookup a m (st s m e))
]

-- The alerts that a read of a system returns are those that its rows hold, no more and no fewer.
pub get_system_alerts_exact :
    (s : String) (db : AlertsDb) (c : AlertsCache) (a : CachedAlertData)
    → IsTable db.rows
    → db.readable ≡ true
    → s ≢ ""
    → Coherent db.rows c
    → AllStores c
    → Occurs a (get_system_alerts s db c).1 ↔ (
        (r : AlertRecord) × (lookup a.id db.rows ≡ some r)
        × (r.system ≡ s)
        × (populate_from_record r ≡ a))
get_system_alerts_exact s db c a tab ok ns h st = (
  λ o. elim (Option-cases (lookup a.id db.rows)) [
    | inl e ↦ ground (arith, e, (values-row_of s db c a tab ok ns h st).0 o)
    | inr (r, e) ↦ (
      r,
      e,
      ground
          (arith, e, (values-row_of s db c a tab ok ns h st).0 o, string_key.test_iff r.system s),
      ground (arith, e, (values-row_of s db c a tab ok ns h st).0 o),
    )
  ],
  λ (r, e, f, g).
      (values-row_of s db c a tab ok ns h st).1
        (ground (arith, e, f, g, string_key.test_iff r.system s)),
)

-- The ids of a store's alerts are distinct, also among those that pass a test.
abbrev pub DistinctIds : List CachedAlertData → Type 0
DistinctIds [] = Unit {0}
DistinctIds (a ∷ alerts) = All (λ b. a.id ≢ b.id) alerts × DistinctIds alerts

absent-All :
    (p : CachedAlertData → Bool) (a : CachedAlertData) (m : SystemStore)
    → IsStore m
    → lookup a.id m ≡ none
    → All (λ b. a.id ≢ b.id) (keep p (values m))
unfolding keep lookup values
absent-All p a [] s h = tt
absent-All p a ((j, b) ∷ m) s h = ground (arith, absent-All p a m s.2, string_key.test_iff j a.id)

pub values-DistinctIds :
    (p : CachedAlertData → Bool) (m : SystemStore) → IsStore m → DistinctIds (keep p (values m))
unfolding keep values
values-DistinctIds p [] s = tt
values-DistinctIds p ((j, b) ∷ m) s =
    ground (arith, values-DistinctIds p m s.2, absent-All p b m s.2)

keep-nil : (p : CachedAlertData → Bool) → keep p [] ≡ []
unfolding keep
keep-nil p = refl

pub get_alerts_by_name-DistinctIds :
    (s name : String) (db : AlertsDb) (c : AlertsCache)
    → AllStores c
    → DistinctIds (get_alerts_by_name s name db c).1
unfolding get_alerts_by_name get_system_alerts keep
get_alerts_by_name-DistinctIds s name db c st = elim (Option-cases (lookup s c.store)) [
  | inl e ↦
      let full =
        values-DistinctIds (λ a. a.name == name) (fill_store (rows_of_system s db.rows) [])
          (fill_store-IsStore (rows_of_system s db.rows) [] tt) in
      ground (arith, e, full)
  | inr (m, e) ↦ rw (e, get_alerts_by_name) (values-DistinctIds (λ a. a.name == name) m (st s m e))
]

-- Reading a system again returns the same alerts and leaves the cache as it is.
pub get_alerts_by_name_again :
    (s name : String) (db : AlertsDb) (c : AlertsCache)
    → get_alerts_by_name s name db (get_alerts_by_name s name db c).0
      ≡ get_alerts_by_name s name db c
unfolding get_alerts_by_name get_system_alerts
get_alerts_by_name_again s name db c = ground (
  arith,
  lookup-insert s s (fill_store (rows_of_system s db.rows) []) c.store,
  string_key.test_iff s s,
)

pub update-AllStores : (r : AlertRecord) (c : AlertsCache) → AllStores c → AllStores (update r c)
unfolding update store_or_new populate_from_record
update-AllStores r c st s m e = elim (Option-cases (lookup r.system c.store)) [
  | inl f ↦
      let s0 : SystemStore = insert r.id (populate_from_record r) [] in
      ground (
        arith,
        f,
        st s m,
        lookup-insert r.system s s0 c.store,
        insert-IsStore (populate_from_record r) [] tt,
      )
  | inr (old, f) ↦
      let s1 : SystemStore = insert r.id (populate_from_record r) old in
      ground (
        arith,
        f,
        st s m,
        lookup-insert r.system s s1 c.store,
        insert-IsStore (populate_from_record r) old (st r.system old f),
      )
]

lookup-erase-none :
    (i j : String) (m : SystemStore) → lookup i m ≡ none → lookup i (erase j m) ≡ none
lookup-erase-none i j m h = ground (arith, h, lookup-erase j i m)

erase-IsStore : (i : String) (m : SystemStore) → IsStore m → IsStore (erase i m)
unfolding erase
erase-IsStore i [] h = tt
erase-IsStore i ((j, b) ∷ m) h = ground (arith, erase-IsStore i m h.2, lookup-erase-none j i m h.1)

pub delete-AllStores : (r : AlertRecord) (c : AlertsCache) → AllStores c → AllStores (delete r c)
unfolding delete
delete-AllStores r c st s m e = elim (Option-cases (lookup r.system c.store)) [
  | inl f ↦ ground (arith, f, st s m)
  | inr (old, f) ↦ ground (
    arith,
    f,
    st s m,
    lookup-insert r.system s (erase r.id old) c.store,
    erase-IsStore r.id old (st r.system old f),
  )
]
