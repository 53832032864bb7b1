-- ===== src/Hub/Systems/Saves.antt =====
-- internal/hub/systems/system_manager.go: what the save of a row of systems does to the alerts, by its
-- status and the status that the manager has of the system.
use homemonit.Base.{
  ℕ, String, true, false, ◌≡◌, ◌≢◌, ◌⊎◌, inl, inr, refl, sym, ◌∙◌, Option, none, some, ◌==◌,
  string_key, if◌then◌else◌, lookup, IsMap, Option-cases, Bool-cases, arith,
}
use homemonit.Alerts.Cache.{get_system_alerts}
use homemonit.Alerts.Status.{AlertInfo, AlertManager, handle_status_alerts}
use homemonit.Alerts.Status.Delivery.{Inv}
use homemonit.Alerts.Status.Pause.{cancel_pending_status_alerts_exact}
use homemonit.Alerts.Status.Steps.{Reach-Inv}
use homemonit.Hub.Systems.{System, SystemRecord, get_system}
use homemonit.Hub.Systems.Hooks.{Hub, Outside, save_system, crossed, deactivate_alerts}
use homemonit.Hub.Systems.Alerting.{deactivate_alerts-rest, paused_alerts}
use homemonit.Hub.Systems.Outage.{
  differs, active_alerts, unknown_alerts, pending_alerts, save_system-Reach,
}

abbrev pub Turns : String → String → Type 0
Turns old new = (old ≡ "up" × new ≡ "down") ⊎ (old ≡ "down" × new ≡ "up")

-- The row turns the system over, as the manager knows it.
pub record IsTurned (r : SystemRecord) (hub : Hub) : Type 0 where
  pub place : ℕ
  pub sys : System
  pub known : get_system r.id hub.manager ≡ some (place, sys)
  pub turns : Turns sys.status r.status

-- The alerts of a system that is up are read first.
abbrev pub read : SystemRecord → AlertManager → AlertManager
read r am =
    if r.status == "up" then record am { cache = (get_system_alerts r.id am.db am.cache).0 } else am

abbrev pub dropped : String → Option AlertInfo → Option AlertInfo
dropped id none = none
dropped id (some info) = if info.alert_data.system_id == id then none else some info

-- What becomes of the pending alert `i` and of the messages.
pub data Outcome (r : SystemRecord) (hub : Hub) (i : String) (am : AlertManager) : Type 0 where
  pausing :
      r.status ≡ "paused"
      → lookup i am.pending ≡ dropped r.id (lookup i hub.alerts.pending)
      → am.sent ≡ hub.alerts.sent
      → Outcome r hub i am
  turning :
      IsTurned r hub
      → am ≡ handle_status_alerts r.status r.id r.name (read r hub.alerts)
      → Outcome r hub i am
  quiet :
      r.status ≢ "paused"
      → (IsTurned r hub → ⊥)
      → am.pending ≡ hub.alerts.pending
      → am.sent ≡ hub.alerts.sent
      → Outcome r hub i am

read-rest :
    (r : SystemRecord) (am : AlertManager)
    → ((read r am).pending ≡ am.pending) × ((read r am).sent ≡ am.sent)
read-rest r am = ground (arith, r.status == "up")

pending_not_turned : (r : SystemRecord) (hub : Hub) → r.status ≡ "pending" → IsTurned r hub → ⊥
pending_not_turned r hub p t = elim t.turns [
  | inl u ↦ let down = u.1 in cc
  | inr u ↦ let up = u.1 in cc
]

module _ (out : Outside) where
  crossed-Turns : (old new : String) → crossed out old new ≡ true → Turns old new
  crossed-Turns old new e = ground (
    arith,
    e,
    string_key.test_iff new "down",
    string_key.test_iff old "up",
    string_key.test_iff new "up",
    string_key.test_iff old "down",
  )

  not_crossed : (old new : String) → crossed out old new ≡ false → Turns old new → ⊥
  not_crossed old new e (inl t) =
      ground (arith, e, t, string_key.test_iff new "down", string_key.test_iff old "up")
  not_crossed old new e (inr t) =
      ground (arith, e, t, string_key.test_iff new "up", string_key.test_iff old "down")

  paused-Outcome :
      (now : ℕ) (r : SystemRecord) (hub : Hub) (i : String)
      → Inv hub.alerts
      → r.status ≡ "paused"
      → Outcome r hub i (save_system out now r hub).alerts
  paused-Outcome now r hub i v p =
      let (pending, sent) = deactivate_alerts-rest r.id hub.alerts in
      let am' = deactivate_alerts r.id hub.alerts in
      let once : IsMap am'.pending = rw pending v.once in
      let (pending', sent', db', cache') = cancel_pending_status_alerts_exact r.id i am' once in
      rw (paused_alerts out now r hub p)
        (Outcome.pausing p (ground (arith, pending, pending', dropped)) (sent' ∙ sent))

  active-Outcome :
      (now : ℕ) (r : SystemRecord) (hub : Hub) (i : String)
      → r.status ≢ "paused"
      → r.status ≢ "pending"
      → Outcome r hub i (save_system out now r hub).alerts
  active-Outcome now r hub i p q = elim (Option-cases (get_system r.id hub.manager)) [
    | inl e ↦
        rw (unknown_alerts out now r hub e p q)
          (Outcome.quiet p (λ t. ground (arith, e, t)) refl refl)
    | inr ((h, sys), e) ↦
        let am = active_alerts out now r hub h sys e p q in
        elim (Bool-cases (crossed out sys.status r.status)) [
          | inl c ↦
              let turned : IsTurned r hub = record {
                place = h;
                sys = sys;
                known = e;
                turns = crossed-Turns sys.status r.status c;
              } in
              Outcome.turning turned (am ∙ rw c refl)
          | inr c ↦
              let not_turned : IsTurned r hub → ⊥ = λ t.
                let same : t.sys.status ≡ sys.status = ground (arith, e, t.known) in
                not_crossed sys.status r.status c (rw (sym same) t.turns) in
              let (pending, sent) = read-rest r hub.alerts in
              rw (am, c) (Outcome.quiet p not_turned pending sent)
        ]
  ]

  pending-Outcome :
      (now : ℕ) (r : SystemRecord) (hub : Hub) (i : String)
      → r.status ≡ "pending"
      → Outcome r hub i (save_system out now r hub).alerts
  pending-Outcome now r hub i p =
      let not_paused : r.status ≢ "paused" = λ f. cc in
      let not_turned = pending_not_turned r hub p in
      elim (pending_alerts out now r hub p) [
        | inl same ↦ rw same (Outcome.quiet not_paused not_turned refl refl)
        | inr reset ↦
            let (pending, sent) = deactivate_alerts-rest r.id hub.alerts in
            rw reset (Outcome.quiet not_paused not_turned pending sent)
      ]

  -- The save of a row of systems, whatever its status, keeps the alert manager well formed: each alert
  -- that the cache has or lacks is as the table of alerts says, and each pending alert is kept under its
  -- own id, once. A pause drops the pending alerts of the system and no others, and sends nothing. A row
  -- that turns the system from up to down or back, as the manager knows it, runs the handler of status
  -- alerts, after the system's alerts are read where it is up. Any other save leaves the pending alerts
  -- as they are and sends nothing.
  pub save_system-Outcome :
      (now : ℕ) (r : SystemRecord) (hub : Hub) (i : String)
      → Inv hub.alerts
      → let am = (save_system out now r hub).alerts in Inv am × Outcome r hub i am
  save_system-Outcome now r hub i v =
      let kept = Reach-Inv v (save_system-Reach out now r hub v.table) in
      elim (Bool-cases (r.status == "paused")) [
        | inl p ↦ (kept, paused-Outcome now r hub i v ((string_key.test_iff r.status "paused").0 p))
        | inr p ↦ elim (Bool-cases (r.status == "pending")) [
          | inl q ↦
              (kept, pending-Outcome now r hub i ((string_key.test_iff r.status "pending").0 q))
          | inr q ↦ (
            kept,
            active-Outcome now r hub i (λ f. absurd (differs p f)) (λ f. absurd (differs q f)),
          )
        ]
      ]
