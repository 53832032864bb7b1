-- ===== src/Alerts/Status/Deadlines.antt =====
-- internal/alerts/alerts_status.go: when the timer of a pending alert ends.
use homemonit.Base.{
  ℕ, ◌+◌, ◌*◌, String, true, ◌≡◌, ◌⊎◌, inl, inr, refl, ◌∙◌, none, some, List, [], ◌∷◌, ◌==◌,
  string_key, sym, ltb, leb, if◌then◌else◌, lookup, All, Occurs, All-Occurs-every, Option-cases,
  Bool-cases, arith,
}
use homemonit.Alerts.Cache.{CachedAlertData}
use homemonit.Alerts.Status.{
  AlertInfo, AlertManager, delay_of, schedule_pending_status_alert, handle_system_down,
}
use homemonit.Alerts.Status.Flap.{lookup-schedule, schedule-IsPending, handle_system_down-keeps}

-- The deadline of an alert that starts to wait: its minutes later, and a minute at least.
abbrev pub deadline : ℕ → ℕ → ℕ
deadline now min = now + (if ltb min 1 then 1 else min) * 60_000_000_000

-- Between two states of the alert manager, the alert with this id waits: as it did before, or, when it
-- did not, for an alert that `From` holds of, with a timer that ends after the alert's minutes.
pub record Waits (From : CachedAlertData → Type 0) (id : String) (am am' : AlertManager)
    : Type 0 where
  pub info : AlertInfo
  pub pending : lookup id am'.pending ≡ some info
  pub since :
      (lookup id am.pending ≡ some info)
      ⊎ ((lookup id am.pending ≡ none)
          × From info.alert_data
          × (info.alert_data.id ≡ id)
          × (info.timer ≡ true)
          × (info.expire_time ≡ deadline am.now info.alert_data.min))

abbrev pub scheduled : String → CachedAlertData → AlertManager → AlertInfo
scheduled name a am = record {
  system_name = name;
  alert_data = a;
  expire_time = deadline am.now a.min;
  timer = true;
}

delay : (a : CachedAlertData) → delay_of a ≡ (if ltb a.min 1 then 1 else a.min) * 60_000_000_000
unfolding delay_of
delay a = ground (arith, leb a.min 1)

pub lookup-scheduled :
    (name : String) (a : CachedAlertData) (am : AlertManager) (j : String)
    → let am' = (schedule_pending_status_alert name a (delay_of a) am).0 in
      (am'.now ≡ am.now)
      × (lookup j am'.pending ≡ elim (lookup j am.pending) [
        | some info ↦ some info
        | none ↦ if a.id == j then some (scheduled name a am) else none
      ])
unfolding schedule_pending_status_alert
lookup-scheduled name a am j =
    (ground arith, ground (arith, lookup-schedule name a (delay_of a) am j, delay a))

pub Waits-scheduled :
    (From : CachedAlertData → Type 0) (name : String) (a : CachedAlertData) (am am' : AlertManager)
    (j : String)
    → From a
    → a.id ≡ j
    → lookup j am.pending ≡ none
    → lookup j am'.pending ≡ some (scheduled name a am)
    → Waits From j am am'
Waits-scheduled From name a am am' j f e n h = record {
  info = scheduled name a am;
  pending = h;
  since = inr (n, f, e, refl, refl);
}

-- The waiting of a later stretch, from a state in which an alert has been scheduled.
pub Waits-after :
    (From : CachedAlertData → Type 0) (name : String) (a : CachedAlertData) (am am' : AlertManager)
    (j : String)
    → From a
    → Waits From j (schedule_pending_status_alert name a (delay_of a) am).0 am'
    → Waits From j am am'
Waits-after From name a am am' j f w =
    let mid = (schedule_pending_status_alert name a (delay_of a) am).0 in
    let (clock, step) = lookup-scheduled name a am j in
    elim (Option-cases (lookup j am.pending)) [
      | inr (info, e) ↦
          let kept : lookup j mid.pending ≡ some info = ground (arith, step, e) in
          elim w.since [
            | inl old ↦ record {
              info = w.info;
              pending = w.pending;
              since = inl (ground (arith, e, kept, old));
            }
            | inr (gone, from, same, timer, at) ↦ absurd (ground (arith, kept, gone))
          ]
      | inl e ↦ elim w.since [
        | inl old ↦ elim (Bool-cases (a.id == j)) [
          | inl t ↦
              Waits-scheduled From name a am am' j f ((string_key.test_iff a.id j).0 t) e
                (w.pending ∙ sym old ∙ ground (arith, step, e, t))
          | inr t ↦ absurd (ground (arith, step, e, t, old))
        ]
        | inr (gone, from, same, timer, at) ↦ record {
          info = w.info;
          pending = w.pending;
          since = inr (e, from, same, timer, rw (sym clock) at);
        }
      ]
    ]

-- What is scheduled and then kept.
pub kept-Waits :
    (From : CachedAlertData → Type 0) (name : String) (a : CachedAlertData) (am am' : AlertManager)
    → let mid = (schedule_pending_status_alert name a (delay_of a) am).0 in
      ((info : AlertInfo)
        → lookup a.id mid.pending ≡ some info
        → lookup a.id am'.pending ≡ some info)
      → Waits From a.id mid am'
kept-Waits From name a am am' keeps =
    let (info, e) = schedule-IsPending name a (delay_of a) am in
    record { info = info; pending = keeps info e; since = inl e }

-- A system that goes down: each of its alerts waits.
down-Waits :
    (From : CachedAlertData → Type 0) (name : String) (alerts : List CachedAlertData)
    (am : AlertManager) (a : CachedAlertData)
    → ((b : CachedAlertData) → Occurs b alerts → From b)
    → Occurs a alerts
    → Waits From a.id am (handle_system_down name alerts am)
unfolding handle_system_down
down-Waits From name [] am a f o = absurd o
down-Waits From name (b ∷ alerts) am a f o =
    let mid = (schedule_pending_status_alert name b (delay_of b) am).0 in
    let down = handle_system_down name alerts mid in
    Waits-after From name b am down a.id (f b (inl refl)) (elim o [
      | inl here ↦
          rw here (kept-Waits From name b am down (handle_system_down-keeps name alerts mid b.id))
      | inr later ↦ down-Waits From name alerts mid a (λ c h. f c (inr h)) later
    ])

pub handle_system_down-Waits :
    (name : String) (alerts : List CachedAlertData) (am : AlertManager)
    → All (λ a. Waits (λ b. Occurs b alerts) a.id am (handle_system_down name alerts am)) alerts
handle_system_down-Waits name alerts am =
    All-Occurs-every (λ a. Waits (λ b. Occurs b alerts) a.id am (handle_system_down name alerts am))
      alerts (λ a. down-Waits (λ b. Occurs b alerts) name alerts am a (λ b o. o))
