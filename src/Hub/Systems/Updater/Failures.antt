-- ===== src/Hub/Systems/Updater/Failures.antt =====
-- A round of the updater that fails writes no records of metrics.
use homemonit.Base.{
  ℕ, String, Bool, true, false, ◌||◌, ◌≡◌, inl, inr, refl, ◌∙◌, Option, none, some, List, ◌==◌,
  string_key, nat_key, if◌then◌else◌, lookup, insert, Option-cases,
}
use homemonit.Alerts.Status.{AlertManager, handle_status_alerts}
use homemonit.Alerts.System.{SystemAlertData}
use homemonit.Hub.Systems.{System, SystemManager, SystemRecord, get_system}
use homemonit.Hub.Systems.Hooks.{
  Hub, Outside, on_record_update, on_record_after_update_success, status_changed, save_system,
  pending_now, active_now, paused_now, set_status, system_alerts, crossed,
}
use homemonit.Hub.Systems.Updater.{Round, get_record, set_down, down_row}

-- The four collections that rounds write are the same.
pub record SameTables (a b : Hub) : Type 0 where
  pub stats : a.system_stats ≡ b.system_stats
  pub container_stats : a.container_stats ≡ b.container_stats
  pub containers : a.containers ≡ b.containers
  pub details : a.system_details ≡ b.system_details

SameTables-trans : {a b c : Hub} → SameTables a b → SameTables b c → SameTables a c
SameTables-trans p q = record {
  stats = p.stats ∙ q.stats;
  container_stats = p.container_stats ∙ q.container_stats;
  containers = p.containers ∙ q.containers;
  details = p.details ∙ q.details;
}

-- A hub that differs elsewhere.
elsewhere :
    (m : SystemManager) (am : AlertManager) (started : List SystemAlertData) (h : Hub)
    → SameTables (record h { manager = m; alerts = am; started = started }) h
elsewhere m am started h = record {
  stats = refl;
  container_stats = refl;
  containers = refl;
  details = refl;
}

unchanged : (h : Hub) → SameTables h h
unchanged h = record { stats = refl; container_stats = refl; containers = refl; details = refl }

if-SameTables :
    (b : Bool) (x y c : Hub) → SameTables x c → SameTables y c → SameTables (if b then x else y) c
if-SameTables true x y c p q = p
if-SameTables false x y c p q = q

module _ (out : Outside) where
  pending_now-SameTables :
      (r : SystemRecord) (known : Option (ℕ × System)) (hub : Hub)
      → SameTables (pending_now r known hub) hub
  unfolding pending_now
  pending_now-SameTables r none hub = elsewhere _ _ _ hub
  pending_now-SameTables r (some (h, sys)) hub = elim (Option-cases sys.ws_conn) [
    | inl e ↦ rw e (elsewhere _ _ _ hub)
    | inr (conn, e) ↦ rw e (elsewhere _ _ _ hub)
  ]

  active_now-SameTables :
      (r : SystemRecord) (known : Option (ℕ × System)) (hub : Hub)
      → SameTables (active_now out r known hub) hub
  unfolding active_now
  active_now-SameTables r none hub = elsewhere _ _ _ hub
  active_now-SameTables r (some (h, sys)) hub =
      let loaded = if r.status == "up" then system_alerts out r sys hub else hub in
      let same : SameTables loaded hub =
        if-SameTables (r.status == "up") (system_alerts out r sys hub) hub hub (elsewhere _ _ _ hub)
          (unchanged hub) in
      if-SameTables (crossed out sys.status r.status)
        (record loaded { alerts = handle_status_alerts r.status r.id r.name loaded.alerts }) loaded
        hub
        (record {
          stats = same.stats;
          container_stats = same.container_stats;
          containers = same.containers;
          details = same.details;
        })
        same

  set_status-SameTables :
      (status : String) (known : Option (ℕ × System)) (hub : Hub)
      → SameTables (set_status out status known hub) hub
  set_status-SameTables status none hub = unchanged hub
  set_status-SameTables status (some (h, sys)) hub = elsewhere _ _ _ hub

  status_changed-SameTables :
      (r : SystemRecord) (known : Option (ℕ × System)) (hub : Hub)
      → SameTables (status_changed out r known hub) hub
  unfolding status_changed
  status_changed-SameTables r known hub =
      let hub' = set_status out r.status known hub in
      SameTables-trans
        (if-SameTables (r.status == "paused") (paused_now r hub')
          (if r.status == "pending" then pending_now r known hub' else active_now out r known hub')
          hub' (elsewhere _ _ _ hub')
          (if-SameTables (r.status == "pending") (pending_now r known hub')
            (active_now out r known hub') hub' (pending_now-SameTables r known hub')
            (active_now-SameTables r known hub')))
        (set_status-SameTables r.status known hub)

  save_system-SameTables :
      (now : ℕ) (r : SystemRecord) (hub : Hub) → SameTables (save_system out now r hub) hub
  unfolding save_system on_record_after_update_success
  save_system-SameTables now r hub =
      let r' = record (on_record_update r) { updated = now } in
      let s =
        status_changed-SameTables r' (get_system r'.id hub.manager)
          (record hub { rows = insert r'.id r' hub.rows }) in
      record {
        stats = s.stats;
        container_stats = s.container_stats;
        containers = s.containers;
        details = s.details;
      }

  get_record-SameTables : (id : String) (hub : Hub) → SameTables (get_record id hub).0 hub
  unfolding get_record
  get_record-SameTables id hub = elim (Option-cases (lookup id hub.rows)) [
    | inl e ↦ rw (get_record, e) (elsewhere _ _ _ hub)
    | inr (r, e) ↦ rw (get_record, e) (unchanged hub)
  ]

  down_row-SameTables :
      (t : Round) (found : Hub × Option SystemRecord) → SameTables (down_row out t found) found.0
  unfolding down_row
  down_row-SameTables t (hub, none) = unchanged hub
  down_row-SameTables t (hub, some r) =
      if-SameTables t.commit (save_system out t.now (record r { status = "down" }) hub) hub hub
        (save_system-SameTables t.now (record r { status = "down" }) hub) (unchanged hub)

  pub set_down-SameTables :
      (t : Round) (sys : System) (hub : Hub) → SameTables (set_down out t sys hub) hub
  unfolding set_down
  set_down-SameTables t sys hub =
      if-SameTables (sys.status == "down" || sys.status == "paused") hub
        (down_row out t (get_record sys.id hub)) hub (unchanged hub)
        (SameTables-trans (down_row-SameTables t (get_record sys.id hub))
          (get_record-SameTables sys.id hub))
