-- ===== src/Alerts/Status/Flap.antt =====
-- A system that goes down and comes back before the delay has passed: no alert is sent.
use homemonit.Base.{
  ℕ, ◌+◌, ◌==◌, String, true, ◌≡◌, ◌≢◌, refl, ◌∙◌, none, some, List, [], ◌∷◌, string_key,
  if◌then◌else◌, lookup, erase, lookup-insert, lookup-erase, All, arith, Option-cases, inl, inr,
}
use homemonit.Alerts.Cache.{CachedAlertData, get_alerts_by_name}
use homemonit.Alerts.Cache.Reads.{
  AllStores, DistinctIds, get_alerts_by_name-DistinctIds, get_alerts_by_name_again,
}
use homemonit.Alerts.Status.{
  AlertInfo, AlertManager, delay_of, schedule_pending_status_alert, handle_system_down,
  cancel_pending_alert, handle_alert_up, handle_system_up, handle_status_alerts,
}

-- The alert with this id waits for its delay.
abbrev pub IsPending : String → AlertManager → Type 0
IsPending id am = (info : AlertInfo) × (lookup id am.pending ≡ some info)

-- What scheduling does to one id: a pending alert keeps its deadline.
pub lookup-schedule :
    (name : String) (a : CachedAlertData) (d : ℕ) (am : AlertManager) (j : String)
    → lookup j (schedule_pending_status_alert name a d am).0.pending ≡ elim (lookup j am.pending) [
      | some info ↦ some info
      | none ↦
          if a.id == j
          then some (record {
            system_name = name;
            alert_data = a;
            expire_time = am.now + d;
            timer = true;
          })
          else none
    ]
unfolding schedule_pending_status_alert
lookup-schedule name a d am j = elim (Option-cases (lookup a.id am.pending)) [
  | inl e ↦ ground (
    arith,
    e,
    string_key.test_iff a.id j,
    lookup-insert a.id j
        (record { system_name = name; alert_data = a; expire_time = am.now + d; timer = true })
        am.pending,
  )
  | inr (info, e) ↦ ground (arith, e, string_key.test_iff a.id j)
]

-- The first deadline stands: an alert that is pending is not moved by a system that goes down again.
pub handle_system_down-keeps :
    (name : String) (alerts : List CachedAlertData) (am : AlertManager) (j : String)
    (info : AlertInfo)
    → lookup j am.pending ≡ some info
    → lookup j (handle_system_down name alerts am).pending ≡ some info
unfolding handle_system_down
handle_system_down-keeps name [] am j info h = h
handle_system_down-keeps name (a ∷ alerts) am j info h =
    handle_system_down-keeps name alerts (schedule_pending_status_alert name a (delay_of a) am).0 j
      info (ground (arith, h, lookup-schedule name a (delay_of a) am j))

pub schedule-IsPending :
    (name : String) (a : CachedAlertData) (d : ℕ) (am : AlertManager)
    → IsPending a.id (schedule_pending_status_alert name a d am).0
schedule-IsPending name a d am = elim (Option-cases (lookup a.id am.pending)) [
  | inl e ↦ (
    record { system_name = name; alert_data = a; expire_time = am.now + d; timer = true },
    ground (arith, e, lookup-schedule name a d am a.id, string_key.test_iff a.id a.id),
  )
  | inr (info, e) ↦ (info, ground (arith, e, lookup-schedule name a d am a.id))
]

-- Every alert of the system waits once the system is down.
pub handle_system_down-IsPending :
    (name : String) (alerts : List CachedAlertData) (am : AlertManager)
    → All (λ a. IsPending a.id (handle_system_down name alerts am)) alerts
unfolding handle_system_down
handle_system_down-IsPending name [] am = tt
handle_system_down-IsPending name (a ∷ alerts) am =
    let am' = (schedule_pending_status_alert name a (delay_of a) am).0 in
    let (info, e) = schedule-IsPending name a (delay_of a) am in
    (
      (info, handle_system_down-keeps name alerts am' a.id info e),
      handle_system_down-IsPending name alerts am',
    )

schedule-rest :
    (name : String) (a : CachedAlertData) (d : ℕ) (am : AlertManager)
    → let am' = (schedule_pending_status_alert name a d am).0 in
      (am'.sent ≡ am.sent) × (am'.db ≡ am.db) × (am'.cache ≡ am.cache)
unfolding schedule_pending_status_alert
schedule-rest name a d am = ground arith

-- Going down touches nothing but the pending alerts.
pub handle_system_down-rest :
    (name : String) (alerts : List CachedAlertData) (am : AlertManager)
    → let am' = handle_system_down name alerts am in
      (am'.sent ≡ am.sent) × (am'.db ≡ am.db) × (am'.cache ≡ am.cache)
unfolding handle_system_down
handle_system_down-rest name [] am = (refl, refl, refl)
handle_system_down-rest name (a ∷ alerts) am =
    let am' = (schedule_pending_status_alert name a (delay_of a) am).0 in
    let (p, q, r) = handle_system_down-rest name alerts am' in
    let (p', q', r') = schedule-rest name a (delay_of a) am in (p ∙ p', q ∙ q', r ∙ r')

alert_up_pending :
    (name : String) (a : CachedAlertData) (am : AlertManager)
    → IsPending a.id am
    → handle_alert_up name a am ≡ record am { pending = erase a.id am.pending }
unfolding handle_alert_up cancel_pending_alert
alert_up_pending name a am (info, e) = ground (arith, e)

still_pending :
    (a : CachedAlertData) (am : AlertManager) (alerts : List CachedAlertData)
    → All (λ b. a.id ≢ b.id) alerts
    → All (λ b. IsPending b.id am) alerts
    → All (λ b. IsPending b.id (record am { pending = erase a.id am.pending })) alerts
still_pending a am [] d h = tt
still_pending a am (b ∷ alerts) d ((info, e), hs) = (
  (info, ground (arith, e, d.0, lookup-erase a.id b.id am.pending, string_key.test_iff a.id b.id)),
  still_pending a am alerts d.1 hs,
)

-- A system that comes up while all its alerts wait: each is dropped, and nothing else happens.
pub handle_system_up_quiet :
    (name : String) (alerts : List CachedAlertData) (am : AlertManager)
    → DistinctIds alerts
    → All (λ a. IsPending a.id am) alerts
    → let am' = handle_system_up name alerts am in
      (am'.sent ≡ am.sent) × (am'.db ≡ am.db) × (am'.cache ≡ am.cache)
unfolding handle_system_up
handle_system_up_quiet name [] am d h = (refl, refl, refl)
handle_system_up_quiet name (a ∷ alerts) am d h =
    rw (alert_up_pending name a am h.0, handle_system_up)
      (handle_system_up_quiet name alerts (record am { pending = erase a.id am.pending }) d.1
        (still_pending a am alerts d.0 h.1))

abbrev flap : String → String → AlertManager → AlertManager
flap id name am = handle_status_alerts "up" id name (handle_status_alerts "down" id name am)

flap_lem :
    (id name : String) (am : AlertManager)
    → let (cache', alerts) = get_alerts_by_name id "Status" am.db am.cache in
      flap id name am
      ≡ handle_system_up name alerts (handle_system_down name alerts (record am { cache = cache' }))
unfolding handle_status_alerts
flap_lem id name am =
    let (cache', alerts) = get_alerts_by_name id "Status" am.db am.cache in
    let (p, q, r) = handle_system_down-rest name alerts (record am { cache = cache' }) in
    let again = get_alerts_by_name_again id "Status" am.db am.cache in ground (arith, q, r, again)

-- A system that goes down and comes up again before a delay has passed sends no message and writes
-- no trigger state, whatever was pending before.
pub flap_silent :
    (id name : String) (am : AlertManager)
    → AllStores am.cache
    → let am' = handle_status_alerts "up" id name (handle_status_alerts "down" id name am) in
      (am'.sent ≡ am.sent) × (am'.db ≡ am.db)
flap_silent id name am st =
    let (cache', alerts) = get_alerts_by_name id "Status" am.db am.cache in
    let start = record am { cache = cache' } in
    let (p, q, r) = handle_system_down-rest name alerts start in
    let (p', q', r') =
      handle_system_up_quiet name alerts (handle_system_down name alerts start)
        (get_alerts_by_name-DistinctIds id "Status" am.db am.cache st)
        (handle_system_down-IsPending name alerts start) in
    rw (flap_lem id name am) (p' ∙ p, q' ∙ q)
