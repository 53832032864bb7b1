-- ===== src/Hub/Systems/Outage.antt =====
-- The systems manager with the alert manager behind it: what an outage of a system does.
use homemonit.Base.{
  ℕ, String, Bool, false, ◌≡◌, ◌≢◌, ◌⊎◌, inl, inr, refl, ◌∙◌, none, some, ◌==◌, string_key, nat_key,
  if◌then◌else◌, lookup, lookup-insert, Option-cases, Bool-cases, arith,
}
use homemonit.Alerts.Cache.{get_system_alerts, get_alerts_by_name, get_alerts_excluding_names}
use homemonit.Alerts.Cache.Coherence.{IsTable}
use homemonit.Alerts.Cache.Reads.{AllStores, get_alerts_by_name_again}
use homemonit.Alerts.Status.{AlertManager, handle_status_alerts}
use homemonit.Alerts.Status.Flap.{flap_silent, handle_system_down-rest}
use homemonit.Alerts.Status.Steps.{Step, Reach, here, next}
use homemonit.Alerts.System.{handle_system_alerts}
use homemonit.Hub.Systems.{System, SystemManager, SystemRecord, get_system, modify}
use homemonit.Hub.Systems.Hooks.{
  Hub, Outside, on_record_update, on_record_after_update_success, status_changed, save_system,
  crossed, system_alerts, deactivate_alerts,
}
use homemonit.Hub.Systems.Alerting.{deactivate_alerts-Reach, paused_alerts}

pub differs : {s t : String} → (s == t) ≡ false → s ≡ t → ⊥
differs {s} {t} p e = ground (arith, string_key.test_iff s t)

-- What a system that went down has loaded is not loaded again.
load_again :
    (id name : String) (am : AlertManager)
    → let am' = handle_status_alerts "down" id name am in
      record am' { cache = (get_system_alerts id am'.db am'.cache).0 } ≡ am'
unfolding handle_status_alerts get_alerts_by_name
load_again id name am =
    let (cache', alerts) = get_alerts_by_name id "Status" am.db am.cache in
    let (p, q, r) = handle_system_down-rest name alerts (record am { cache = cache' }) in
    let again = get_alerts_by_name_again id "Status" am.db am.cache in ground (arith, q, r, again)

module _ (out : Outside) where
  -- The handler of system alerts loads the cache and starts goroutines; it changes nothing else.
  system_alerts-load :
      (r : SystemRecord) (sys : System) (hub : Hub)
      → (system_alerts out r sys hub).alerts
        ≡ record hub.alerts { cache = (get_system_alerts r.id hub.alerts.db hub.alerts.cache).0 }
  unfolding handle_system_alerts get_alerts_excluding_names
  system_alerts-load r sys hub = refl

  -- The alert manager after the save of a system that the store has, on the statuses up and down.
  pub active_alerts :
      (now : ℕ) (r : SystemRecord) (hub : Hub) (h : ℕ) (sys : System)
      → get_system r.id hub.manager ≡ some (h, sys)
      → r.status ≢ "paused"
      → r.status ≢ "pending"
      → let loaded =
          if r.status == "up"
          then record hub.alerts {
            cache = (get_system_alerts r.id hub.alerts.db hub.alerts.cache).0;
          }
          else hub.alerts in
        (save_system out now r hub).alerts ≡ (
          if crossed out sys.status r.status
          then handle_status_alerts r.status r.id r.name loaded
          else loaded)
  unfolding save_system on_record_after_update_success status_changed on_record_update
  active_alerts now r hub h sys e p q =
      let r' = record r { updated = now } in
      ground (
        arith,
        e,
        p,
        q,
        string_key.test_iff r.status "paused",
        string_key.test_iff r.status "pending",
        system_alerts-load r' sys hub,
        r.status == "up",
      )

  pub get_system-modify :
      (f : System → System) (id : String) (m : SystemManager) (h : ℕ) (sys : System)
      → get_system id m ≡ some (h, sys)
      → get_system id (modify f h m) ≡ some (h, f sys)
  unfolding get_system modify
  get_system-modify f id m h sys e = elim (Option-cases (lookup id m.systems)) [
    | inl missing ↦ ground (arith, e, missing)
    | inr (i, found) ↦ elim (Option-cases (lookup i m.heap)) [
      | inl missing ↦ ground (arith, e, found, missing)
      | inr (sys', g) ↦
          ground (arith, e, found, g, lookup-insert h h (f sys) m.heap, nat_key.test_iff h h)
    ]
  ]

  pub active_manager :
      (now : ℕ) (r : SystemRecord) (hub : Hub) (h : ℕ) (sys : System)
      → get_system r.id hub.manager ≡ some (h, sys)
      → r.status ≢ "paused"
      → r.status ≢ "pending"
      → (save_system out now r hub).manager
        ≡ modify (λ sys. record sys { status = r.status }) h hub.manager
  unfolding save_system on_record_after_update_success status_changed on_record_update
  active_manager now r hub h sys e p q = ground (
    arith,
    e,
    p,
    q,
    string_key.test_iff r.status "paused",
    string_key.test_iff r.status "pending",
    r.status == "up",
  )

  abbrev with_status : String → SystemRecord → SystemRecord
  with_status status r = record r { status = status }

  -- A system whose row goes down and comes up again before a timer ends: no message on its status is
  -- sent and no trigger state is written, whatever was pending before. Each inner store of the cache
  -- is keyed by the ids of its alerts, and the manager knows the system as up.
  pub outage_silent :
      (t t' : ℕ) (r : SystemRecord) (hub : Hub) (h : ℕ) (sys : System)
      → AllStores hub.alerts.cache
      → get_system r.id hub.manager ≡ some (h, sys)
      → sys.status ≡ "up"
      → let hub' =
          save_system out t'
            (record r { status = "up" })
            (save_system out t (record r { status = "down" }) hub) in
        (hub'.alerts.sent ≡ hub.alerts.sent) × (hub'.alerts.db ≡ hub.alerts.db)
  outage_silent t t' r hub h sys st e is_up =
      let down = record r { status = "down" } in
      let up = record r { status = "up" } in
      let hub1 = save_system out t down hub in
      let a1 = active_alerts t down hub h sys e (λ f. cc) (λ f. cc) in
      let m1 = active_manager t down hub h sys e (λ f. cc) (λ f. cc) in
      let e1 : get_system r.id hub1.manager ≡ some (h, record sys { status = "down" }) =
        rw m1
          (get_system-modify (λ sys. record sys { status = "down" }) r.id hub.manager h sys e) in
      let a2 = active_alerts t' up hub1 h (record sys { status = "down" }) e1 (λ f. cc) (λ f. cc) in
      let down_am = handle_status_alerts "down" r.id r.name hub.alerts in
      let a1' : hub1.alerts ≡ down_am = a1 ∙ rw is_up refl in
      rw (a2, a1', load_again r.id r.name hub.alerts) (flap_silent r.id r.name hub.alerts st)

  pub unknown_alerts :
      (now : ℕ) (r : SystemRecord) (hub : Hub)
      → get_system r.id hub.manager ≡ none
      → r.status ≢ "paused"
      → r.status ≢ "pending"
      → (save_system out now r hub).alerts ≡ hub.alerts
  unfolding save_system on_record_after_update_success status_changed on_record_update
  unknown_alerts now r hub e p q = ground (
    arith,
    e,
    p,
    q,
    string_key.test_iff r.status "paused",
    string_key.test_iff r.status "pending",
  )

  pub pending_alerts :
      (now : ℕ) (r : SystemRecord) (hub : Hub)
      → r.status ≡ "pending"
      → ((save_system out now r hub).alerts ≡ hub.alerts)
        ⊎ ((save_system out now r hub).alerts ≡ deactivate_alerts r.id hub.alerts)
  unfolding save_system on_record_after_update_success status_changed on_record_update
  pending_alerts now r hub p =
      let apart : (r.status == "paused") ≡ false = rw p refl in
      elim (Option-cases (get_system r.id hub.manager)) [
        | inl e ↦ inr (ground (arith, e, p, apart, string_key.test_iff r.status "pending"))
        | inr ((h, sys), e) ↦ elim (Option-cases sys.ws_conn) [
          | inl f ↦ inr (ground (arith, e, f, p, apart, string_key.test_iff r.status "pending"))
          | inr (conn, f) ↦
              inl (ground (arith, e, f, p, apart, string_key.test_iff r.status "pending"))
        ]
      ]

  active-Reach :
      (r : SystemRecord) (b c : Bool) (am : AlertManager)
      → let loaded =
          if b then record am { cache = (get_system_alerts r.id am.db am.cache).0 } else am in
        Reach am (if c then handle_status_alerts r.status r.id r.name loaded else loaded)
  active-Reach r b c am =
      let loaded =
        if b then record am { cache = (get_system_alerts r.id am.db am.cache).0 } else am in
      let read : Reach am loaded = elim (Bool-cases b) [
        | inl e ↦ rw e (next here (Step.load am r.id))
        | inr e ↦ rw e here
      ] in
      elim (Bool-cases c) [
        | inl e ↦ rw e (next read (Step.status loaded r.status r.id r.name))
        | inr e ↦ rw e read
      ]

  -- What the save of a row does to the alert manager is a history of its steps.
  pub save_system-Reach :
      (now : ℕ) (r : SystemRecord) (hub : Hub)
      → IsTable hub.alerts.db.rows
      → Reach hub.alerts (save_system out now r hub).alerts
  save_system-Reach now r hub t = elim (Bool-cases (r.status == "paused")) [
    | inl p ↦
        let reset = deactivate_alerts-Reach r.id hub.alerts t in
        rw (paused_alerts out now r hub ((string_key.test_iff r.status "paused").0 p))
          (next reset (Step.pause (deactivate_alerts r.id hub.alerts) r.id))
    | inr p ↦ elim (Bool-cases (r.status == "pending")) [
      | inl q ↦ elim (pending_alerts now r hub ((string_key.test_iff r.status "pending").0 q)) [
        | inl same ↦ rw same here
        | inr reset ↦ rw reset (deactivate_alerts-Reach r.id hub.alerts t)
      ]
      | inr q ↦
          let not_paused : r.status ≢ "paused" = λ f. absurd (differs p f) in
          let not_pending : r.status ≢ "pending" = λ f. absurd (differs q f) in
          elim (Option-cases (get_system r.id hub.manager)) [
            | inl e ↦ rw (unknown_alerts now r hub e not_paused not_pending) here
            | inr ((h, sys), e) ↦
                rw (active_alerts now r hub h sys e not_paused not_pending)
                  (active-Reach r (r.status == "up") (crossed out sys.status r.status) hub.alerts)
          ]
    ]
  ]
