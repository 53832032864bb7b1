-- ===== src/Alerts/Status/Restart.antt =====
-- internal/alerts/alerts_status.go: what the hub does with the status alerts when it starts.
use homemonit.Base.{
  sym, ap, All-weaken, All, Option-cases, String, Bool, true, false, not, ◌&&◌, ◌≡◌, ◌≢◌, refl,
  subst, Option, none, some, List, [], ◌∷◌, ◌==◌, string_key, if◌then◌else◌, lookup, arith, ◌∙◌,
  Occurs, Bool-cases, inl, inr,
}
use homemonit.Alerts.Cache.{
  AlertRecord, AlertsCache, CachedAlertData, populate_from_record, populate_from_db, get_alert,
}
use homemonit.Alerts.Cache.Coherence.{Coherent, IsTable, populate_from_db-Coherent}
use homemonit.Alerts.Status.{
  AlertInfo, AlertManager, SystemRow, delay_of, schedule_pending_status_alert, set_found,
}
use homemonit.Alerts.Cache.Tables.{lookup-id}
use homemonit.Alerts.Status.Flap.{lookup-schedule}
use homemonit.Alerts.Status.Deadlines.{Waits, Waits-after, kept-Waits}

-- A row of the query's result.
pub record PendingStatusAlert : Type 0 where
  pub alert_id : String
  pub system_id : String
  pub system_name : String

of_system :
    String
    → AlertRecord
    → Option SystemRow
    → String
    → List PendingStatusAlert
    → List PendingStatusAlert
of_system id r none status rest = rest
of_system id r (some s) status rest =
    if s.status == status
    then record { alert_id = id; system_id = r.system; system_name = s.name } ∷ rest
    else rest

-- SELECT … FROM alerts a JOIN systems s ON a.system = s.id
-- WHERE a.name = 'Status' AND a.triggered = t AND s.status = status.
unfoldable pub status_alerts :
    Bool
    → String
    → List (String × SystemRow)
    → List (String × AlertRecord)
    → List PendingStatusAlert
unfolding of_system
status_alerts t status systems [] = []
status_alerts t status systems ((id, r) ∷ rows) =
    let rest = status_alerts t status systems rows in
    if r.name == "Status" && (if t then r.triggered else not r.triggered)
    then of_system id r (lookup r.system systems) status rest
    else rest

restore_found : PendingStatusAlert → Option CachedAlertData → AlertManager → AlertManager
restore_found item none am = am
restore_found item (some a) am =
    (schedule_pending_status_alert item.system_name a (delay_of a) am).0

unfoldable pub restore_each : List PendingStatusAlert → AlertManager → AlertManager
unfolding restore_found
restore_each [] am = am
restore_each (item ∷ items) am =
    restore_each items (restore_found item (get_alert item.system_id item.alert_id am.cache) am)

-- False where the query failed.
unfoldable pub restore_pending_status_alerts :
    List (String × SystemRow) → AlertManager → AlertManager × Bool
restore_pending_status_alerts systems am =
    let pending = status_alerts false "down" systems am.db.rows in
    let am' = record am { cache = (populate_from_db false am.db am.cache).0 } in
    if am.db.readable then (restore_each pending am', true) else (am, false)

-- The loop of `resolveStatusAlerts`: it stops at the first row that is not found or not saved.
unfoldable pub resolve_each : List PendingStatusAlert → AlertManager → AlertManager × Bool
unfolding set_found
resolve_each [] am = (am, true)
resolve_each (item ∷ items) am =
    let (am', saved) = set_found false (lookup item.alert_id am.db.rows) am in
    let rest = resolve_each items am' in if saved then rest else (am', false)

unfoldable pub resolve_status_alerts :
    List (String × SystemRow) → AlertManager → AlertManager × Bool
resolve_status_alerts systems am =
    if am.db.readable
    then resolve_each (status_alerts true "up" systems am.db.rows) am
    else (am, false)

Occurs-status_alerts :
    (systems : List (String × SystemRow)) (rows : List (String × AlertRecord)) (i : String)
    (r : AlertRecord) (s : SystemRow)
    → lookup i rows ≡ some r
    → r.name ≡ "Status"
    → r.triggered ≡ false
    → lookup r.system systems ≡ some s
    → s.status ≡ "down"
    → Occurs
        (record { alert_id = i; system_id = r.system; system_name = s.name })
        (status_alerts false "down" systems rows)
unfolding status_alerts lookup
Occurs-status_alerts systems [] i r s e n t f d = cc
Occurs-status_alerts systems ((j, q) ∷ rows) i r s e n t f d = ground (
  arith,
  e,
  n,
  t,
  f,
  d,
  Occurs-status_alerts systems rows i r s,
  string_key.test_iff j i,
  string_key.test_iff q.name "Status",
  string_key.test_iff s.status "down",
)

restore_found-keeps :
    (item : PendingStatusAlert) (o : Option CachedAlertData) (am : AlertManager) (j : String)
    (info : AlertInfo)
    → lookup j am.pending ≡ some info
    → lookup j (restore_found item o am).pending ≡ some info
unfolding restore_found
restore_found-keeps item none am j info e = e
restore_found-keeps item (some a) am j info e =
    ground (arith, e, lookup-schedule item.system_name a (delay_of a) am j)

restore_each-keeps :
    (items : List PendingStatusAlert) (am : AlertManager) (j : String) (info : AlertInfo)
    → lookup j am.pending ≡ some info
    → lookup j (restore_each items am).pending ≡ some info
unfolding restore_each
restore_each-keeps [] am j info h = h
restore_each-keeps (item ∷ items) am j info h =
    let o = get_alert item.system_id item.alert_id am.cache in
    restore_each-keeps items (restore_found item o am) j info
      (restore_found-keeps item o am j info h)

restore_found-rest :
    (item : PendingStatusAlert) (o : Option CachedAlertData) (am : AlertManager)
    → let am' = restore_found item o am in
      (am'.sent ≡ am.sent) × (am'.db ≡ am.db) × (am'.cache ≡ am.cache)
unfolding restore_found schedule_pending_status_alert
restore_found-rest item none am = (refl, refl, refl)
restore_found-rest item (some a) am = ground arith

restore_each-rest :
    (items : List PendingStatusAlert) (am : AlertManager)
    → let am' = restore_each items am in
      (am'.sent ≡ am.sent) × (am'.db ≡ am.db) × (am'.cache ≡ am.cache)
unfolding restore_each
restore_each-rest [] am = (refl, refl, refl)
restore_each-rest (item ∷ items) am =
    let o = get_alert item.system_id item.alert_id am.cache in
    let (p, q, r) = restore_each-rest items (restore_found item o am) in
    let (p', q', r') = restore_found-rest item o am in (p ∙ p', q ∙ q', r ∙ r')

cached_after :
    (x : PendingStatusAlert) (b : CachedAlertData) (am : AlertManager)
    → (schedule_pending_status_alert x.system_name b (delay_of b) am).0.cache ≡ am.cache
unfolding restore_found
cached_after x b am = (restore_found-rest x (some b) am).2

known_id :
    (systems : List (String × SystemRow)) (k : String) (s : SystemRow)
    → lookup "" systems ≡ none
    → lookup k systems ≡ some s
    → k ≢ ""
known_id systems k s z e empty = cc

of_system-systems :
    (id : String) (r : AlertRecord) (found : Option SystemRow) (status : String)
    (rest : List PendingStatusAlert) (systems : List (String × SystemRow))
    → lookup r.system systems ≡ found
    → lookup "" systems ≡ none
    → All (λ x. x.system_id ≢ "") rest
    → All (λ x. x.system_id ≢ "") (of_system id r found status rest)
unfolding of_system
of_system-systems id r none status rest systems e z h = h
of_system-systems id r (some s) status rest systems e z h = elim (Bool-cases (s.status == status)) [
  | inr f ↦ rw f h
  | inl f ↦ rw f (known_id systems r.system s z e, h)
]

-- Whatever the cache has for an item is an alert that `From` holds of.
abbrev Gives : (CachedAlertData → Type 0) → AlertsCache → PendingStatusAlert → Type 0
Gives From c x = (b : CachedAlertData) → get_alert x.system_id x.alert_id c ≡ some b → From b

restore_each-Waits :
    (From : CachedAlertData → Type 0) (c : AlertsCache) (items : List PendingStatusAlert)
    (am : AlertManager) (item : PendingStatusAlert) (a : CachedAlertData)
    → am.cache ≡ c
    → All (Gives From c) items
    → Occurs item items
    → get_alert item.system_id item.alert_id c ≡ some a
    → Waits From a.id am (restore_each items am)
unfolding restore_each
restore_each-Waits From c [] am item a k g o e = absurd o
restore_each-Waits From c (x ∷ items) am item a k g (inl same) e =
    let here : get_alert x.system_id x.alert_id c ≡ some a = rw (← same) e in
    let found : get_alert x.system_id x.alert_id am.cache ≡ some a = rw k here in
    let mid = (schedule_pending_status_alert x.system_name a (delay_of a) am).0 in
    rw (found, restore_found)
      (Waits-after From x.system_name a am (restore_each items mid) a.id (g.0 a here) (
        kept-Waits From x.system_name a am (restore_each items mid)
          (λ info h. restore_each-keeps items mid a.id info h)))
restore_each-Waits From c (x ∷ items) am item a k g (inr later) e =
    elim (Option-cases (get_alert x.system_id x.alert_id am.cache)) [
      | inl none_left ↦
          rw (none_left, restore_found) (restore_each-Waits From c items am item a k g.1 later e)
      | inr (b, found) ↦
          let mid = (schedule_pending_status_alert x.system_name b (delay_of b) am).0 in
          let same = (restore_found-rest x (some b) am).2 in
          rw (found, restore_found)
            (Waits-after From x.system_name b am (restore_each items mid) a.id
              (g.0 b (rw (← k) found))
              (restore_each-Waits From c items mid item a (cached_after x b am ∙ k) g.1 later e))
    ]

status_alerts-systems :
    (t : Bool) (status : String) (systems : List (String × SystemRow))
    (rows : List (String × AlertRecord))
    → lookup "" systems ≡ none
    → All (λ x. x.system_id ≢ "") (status_alerts t status systems rows)
unfolding status_alerts
status_alerts-systems t status systems [] z = tt
status_alerts-systems t status systems ((id, r) ∷ rows) z =
    let rest = status_alerts-systems t status systems rows z in
    let later = status_alerts t status systems rows in
    elim (Bool-cases (r.name == "Status" && (if t then r.triggered else not r.triggered))) [
      | inr e ↦ rw e rest
      | inl e ↦
          rw e (of_system-systems id r (lookup r.system systems) status later systems refl z rest)
    ]

populate-Coherent :
    (am : AlertManager)
    → IsTable am.db.rows
    → am.db.readable ≡ true
    → Coherent am.db.rows am.cache
    → Coherent am.db.rows (populate_from_db false am.db am.cache).0
unfolding populate_from_db
populate-Coherent am t ok h = elim (Bool-cases am.cache.populated) [
  | inl full ↦ ground (arith, full, h)
  | inr new ↦ ground (arith, new, ok, (populate_from_db-Coherent am.db am.cache t ok).0)
]

restore_readable :
    (systems : List (String × SystemRow)) (am : AlertManager)
    → am.db.readable ≡ true
    → restore_pending_status_alerts systems am ≡ (
      restore_each
          (status_alerts false "down" systems am.db.rows)
          (record am { cache = (populate_from_db false am.db am.cache).0 }),
      true,
    )
unfolding restore_pending_status_alerts
restore_readable systems am ok = ground (arith, ok)

own_Waits :
    (r : AlertRecord) (i : String) (am am' : AlertManager) (c : AlertsCache)
    → Waits (λ b. b.id ≡ i → b ≡ populate_from_record r) i (record am { cache = c }) am'
    → Waits (λ a. a ≡ populate_from_record r) i am am'
own_Waits r i am am' c w = record {
  info = w.info;
  pending = w.pending;
  since = elim w.since [
    | inl old ↦ inl old
    | inr (gone, from, same, timer, at) ↦ inr (gone, from same, same, timer, at)
  ];
}

-- What a coherent cache gives under an id of the table.
row_of-same :
    (rows : List (String × AlertRecord)) (c : AlertsCache) (i system k : String) (r : AlertRecord)
    (b : CachedAlertData)
    → IsTable rows
    → Coherent rows c
    → lookup i rows ≡ some r
    → system ≢ ""
    → get_alert system k c ≡ some b
    → b.id ≡ i
    → b ≡ populate_from_record r
unfolding populate_from_record
row_of-same rows c i system k r b t h e n g same =
    let coherent = h system k n in
    elim (Option-cases (lookup k rows)) [
      | inl gone ↦ absurd (ground (arith, g, coherent, gone))
      | inr (q, found) ↦
          let key = lookup-id k rows q t found in
          let own : b ≡ populate_from_record q =
            ground (arith, g, coherent, found, q.system == system) in
          let one : k ≡ i = sym key ∙ ap (λ x. x.id) (sym own) ∙ same in
          let row : lookup i rows ≡ some q = rw (← one) found in own ∙ ground (arith, row, e)
    ]

-- After a restart with a readable database, whose alerts are keyed by their ids and are what the cache
-- has, every status alert that is not triggered, of a system that is down, waits: as before, if it was
-- pending, and else with its row's values and a timer that ends the row's minutes later, and one minute
-- at least. Nothing is sent and no row is written. No system has the empty id.
pub restore_pending_status_alerts_complete :
    (systems : List (String × SystemRow)) (am : AlertManager) (i : String) (r : AlertRecord)
    (s : SystemRow)
    → IsTable am.db.rows
    → Coherent am.db.rows am.cache
    → am.db.readable ≡ true
    → lookup "" systems ≡ none
    → lookup i am.db.rows ≡ some r
    → r.name ≡ "Status"
    → r.triggered ≡ false
    → lookup r.system systems ≡ some s
    → s.status ≡ "down"
    → let am' = (restore_pending_status_alerts systems am).0 in
      Waits (λ a. a ≡ populate_from_record r) i am am' × (am'.sent ≡ am.sent) × (am'.db ≡ am.db)
unfolding populate_from_record
restore_pending_status_alerts_complete systems am i r s t h ok z e n f g d =
    let start = record am { cache = (populate_from_db false am.db am.cache).0 } in
    let items = status_alerts false "down" systems am.db.rows in
    let item : PendingStatusAlert = record {
      alert_id = i;
      system_id = r.system;
      system_name = s.name;
    } in
    let coherent = populate-Coherent am t ok h in
    let ne : r.system ≢ "" = known_id systems r.system s z g in
    let cached : get_alert r.system i start.cache ≡ some (populate_from_record r) =
      ground (arith, coherent r.system i ne, e, string_key.test_iff r.system r.system) in
    let same = lookup-id i am.db.rows r t e in
    let From : CachedAlertData → Type 0 = λ b. b.id ≡ i → b ≡ populate_from_record r in
    let gives =
      All-weaken (λ x. x.system_id ≢ "") (Gives From start.cache) items
        (λ x ns b found own.
          row_of-same am.db.rows start.cache i x.system_id x.alert_id r b t coherent e ns found own)
        (status_alerts-systems false "down" systems am.db.rows z) in
    let w =
      restore_each-Waits From start.cache items start item (populate_from_record r) refl gives
        (Occurs-status_alerts systems am.db.rows i r s e n f g d) cached in
    let (p, q, c) = restore_each-rest items start in
    rw (restore_readable systems am ok) (
      own_Waits r i am (restore_each items start) start.cache
          (subst (λ k. Waits From k start (restore_each items start)) same w),
      p,
      q,
    )
