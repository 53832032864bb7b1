-- ===== src/Hub/Systems/Disconnect.antt =====
-- What the updater does when the agent's connection is lost, and when a round fails.
use homemonit.Base.{
  List, Occurs, All-weaken, ℕ, String, true, false, ◌||◌, ◌≡◌, inl, inr, refl, ◌∙◌, ap, none, some,
  ◌==◌, string_key, nat_key, lookup, insert, lookup-insert, All, Option-cases, arith,
}
use homemonit.Alerts.Cache.{CachedAlertData, get_alerts_by_name}
use homemonit.Alerts.Status.{AlertManager, handle_status_alerts}
use homemonit.Alerts.Status.Deadlines.{Waits, handle_system_down-Waits}
use homemonit.Hub.Systems.{System, SystemRecord, get_system, modify}
use homemonit.Hub.Systems.Hooks.{
  Hub, Outside, on_record_update, on_record_after_update_success, status_changed, save_system,
}
use homemonit.Hub.Systems.Updater.{Round, set_down, connection_lost}
use homemonit.Hub.Systems.Outage.{active_alerts, active_manager, get_system-modify}

-- The status alerts of a system, as the cache gives them.
abbrev pub alerts_about : String → AlertManager → List CachedAlertData
alerts_about id am = (get_alerts_by_name id "Status" am.db am.cache).1

module _ (out : Outside) where
  set_down_found :
      (t : Round) (sys : System) (hub : Hub) (r : SystemRecord)
      → sys.status ≡ "up"
      → lookup sys.id hub.rows ≡ some r
      → t.commit ≡ true
      → set_down out t sys hub ≡ save_system out t.now (record r { status = "down" }) hub
  unfolding set_down
  set_down_found t sys hub r is_up row ok =
      let apart : (sys.status == "down" || sys.status == "paused") ≡ false = rw is_up refl in
      ground (arith, apart, row, ok)

  down-Waits :
      (id name : String) (am : AlertManager)
      → let alerts = alerts_about id am in
        All
          (λ a. Waits (λ b. Occurs b alerts) a.id am (handle_status_alerts "down" id name am))
          alerts
  unfolding handle_status_alerts
  down-Waits id name am =
      let (cache', alerts) = get_alerts_by_name id "Status" am.db am.cache in
      All-weaken _ _ alerts (λ a w. record { info = w.info; pending = w.pending; since = w.since })
        (handle_system_down-Waits name alerts (record am { cache = cache' }))

  down_row :
      (now : ℕ) (r : SystemRecord) (hub : Hub)
      → (save_system out now (record r { status = "down" }) hub).rows
        ≡ insert r.id (record r { status = "down"; updated = now }) hub.rows
  unfolding save_system on_record_after_update_success status_changed on_record_update
  down_row now r hub = elim (Option-cases (get_system r.id hub.manager)) [
    | inl e ↦ ground (arith, e)
    | inr ((h, sys), e) ↦ ground (arith, e, sys.status == "up")
  ]

  abbrev dropped : Round → ℕ → Hub → Hub
  dropped t h hub = record hub {
    manager = modify (λ sys. record sys { ws_conn = none }) h hub.manager;
  }

  connection_lost-set_down :
      (t : Round) (h : ℕ) (hub : Hub) (sys : System)
      → lookup h hub.manager.heap ≡ some sys
      → connection_lost out t h hub ≡ set_down out t sys (dropped t h hub)
  unfolding connection_lost
  connection_lost-set_down t h hub sys e = ground (arith, e)

  -- The connection of a system that is up is lost: its row and the store say that it is down. Each of
  -- its status alerts waits: as before, if it was pending, and else for one of these alerts of the same
  -- id, with a timer that ends the alert's minutes later, and one minute at least. The manager knows the
  -- system, and its row exists under its id and is written.
  pub connection_lost_schedules :
      (t : Round) (h : ℕ) (hub : Hub) (sys : System) (r : SystemRecord)
      → lookup h hub.manager.heap ≡ some sys
      → get_system sys.id hub.manager ≡ some (h, sys)
      → sys.status ≡ "up"
      → lookup sys.id hub.rows ≡ some r
      → r.id ≡ sys.id
      → t.commit ≡ true
      → let hub' = connection_lost out t h hub in
        (lookup sys.id hub'.rows ≡ some (record r { status = "down"; updated = t.now }))
        × (get_system sys.id hub'.manager
            ≡ some (h, record sys { status = "down"; ws_conn = none }))
        × All
            (λ a.
              Waits (λ b. Occurs b (alerts_about sys.id hub.alerts)) a.id hub.alerts hub'.alerts)
            (alerts_about sys.id hub.alerts)
  connection_lost_schedules t h hub sys r e known is_up row same ok =
      let hub0 = dropped t h hub in
      let down = record r { status = "down" } in
      let gone = record sys { ws_conn = none } in
      let cut : System → System = λ sys. record sys { ws_conn = none } in
      let known1 = get_system-modify out cut sys.id hub.manager h sys known in
      let known0 : get_system r.id hub0.manager ≡ some (h, gone) =
        ap (λ i. get_system i hub0.manager) same ∙ known1 in
      let alerts = active_alerts out t.now down hub0 h gone known0 (λ f. cc) (λ f. cc) in
      let manager = active_manager out t.now down hub0 h gone known0 (λ f. cc) (λ f. cc) in
      let crossing : (save_system out t.now down hub0).alerts
          ≡ handle_status_alerts "down" r.id r.name hub.alerts =
        alerts ∙ rw is_up refl in
      let down_alerts : All
          (λ a.
            Waits (λ b. Occurs b (alerts_about sys.id hub.alerts)) a.id hub.alerts
              (save_system out t.now down hub0).alerts)
          (alerts_about sys.id hub.alerts) =
        rw (crossing, same) (down-Waits sys.id r.name hub.alerts) in
      rw (connection_lost-set_down t h hub sys e, set_down_found t sys hub0 r is_up row ok)
        (
          rw (down_row t.now r hub0) (
              ground (
                arith,
                same,
                string_key.test_iff r.id sys.id,
                lookup-insert r.id sys.id (record r { status = "down"; updated = t.now }) hub.rows,
              )),
          rw manager (
              get_system-modify out (λ sys. record sys { status = "down" }) sys.id hub0.manager h
                gone known1),
          down_alerts,
        )
