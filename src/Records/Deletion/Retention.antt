-- ===== src/Records/Deletion/Retention.antt =====
-- What the deletions by age keep.
use homemonit.Base.{
  ℕ, ◌+◌, ◌<◌, String, Bool, true, false, not, ◌≡◌, ◌↔◌, inl, inr, refl, ◌∙◌, List, [], ◌∷◌,
  string_key, Occurs, Occurs-keep, Bool-cases, keep, arith,
}
use homemonit.Records.Tables.{
  StatsRow, Tables, Statement, delete_system_stats, delete_container_stats,
}
use homemonit.Records.Deletion.{
  record_data, is_old, delete_beyond, busy_users, delete_old_system_stats,
  delete_old_systemd_service_records, delete_old_container_records, delete_old_quiet_hours,
  delete_each, delete_old_alerts_history, delete_old_records,
}

-- The row is of a type whose retention period has passed.
abbrev pub Expired : ℕ → List (String × ℕ) → StatsRow → Type 0
Expired now rules row =
    (rule : String × ℕ) × Occurs rule rules × (row.type ≡ rule.0) × (row.created + rule.1 < now)

is_old→Expired :
    (now : ℕ) (rules : List (String × ℕ)) (row : StatsRow)
    → is_old now rules row ≡ true
    → Expired now rules row
unfolding is_old
is_old→Expired now [] row h = cc
is_old→Expired now ((type, retention) ∷ rest) row h = elim (Bool-cases (is_old now rest row)) [
  | inl later ↦ let (rule, o, e, l) = is_old→Expired now rest row later in (rule, inr o, e, l)
  | inr no_later ↦ (
    (type, retention),
    inl refl,
    ground (arith, no_later, string_key.test_iff row.type type),
    ground (arith, no_later),
  )
]

Expired→is_old :
    (now : ℕ) (rules : List (String × ℕ)) (row : StatsRow) (rule : String × ℕ)
    → Occurs rule rules
    → row.type ≡ rule.0
    → row.created + rule.1 < now
    → is_old now rules row ≡ true
unfolding is_old
Expired→is_old now [] row rule o e l = absurd o
Expired→is_old now ((type, retention) ∷ rest) row rule (inl same) e l =
    ground (arith, string_key.test_iff row.type type)
Expired→is_old now ((type, retention) ∷ rest) row rule (inr o) e l =
    ground (arith, Expired→is_old now rest row rule o)

kept_row :
    (now : ℕ) (rules : List (String × ℕ)) (row : StatsRow) (rows : List StatsRow)
    → Occurs row (keep (λ r. not (is_old now rules r)) rows)
      ↔ (Occurs row rows × ¬ Expired now rules row)
kept_row now rules row rows = (
  λ o.
      let (inside, young) = (Occurs-keep (λ r. not (is_old now rules r)) row rows).0 o in
      (inside, λ (rule, i, e, l). ground (arith, young, Expired→is_old now rules row rule i e l)),
  λ (inside, young). (Occurs-keep (λ r. not (is_old now rules r)) row rows).1 (
    inside,
    elim (Bool-cases (is_old now rules row)) [
      | inl old ↦ absurd (young (is_old→Expired now rules row old))
      | inr new ↦ rw new
    ],
  ),
)

-- The tables of statistics are the same.
abbrev SameStats : Tables → Tables → Type 0
SameStats t u = (u.system_stats ≡ t.system_stats) × (u.container_stats ≡ t.container_stats)

history_each-SameStats :
    (fails : Statement → Bool) (n : ℕ) (users : List String) (t : Tables)
    → SameStats t (delete_each fails n users t).0
unfolding delete_each
history_each-SameStats fails n [] t = (refl, refl)
history_each-SameStats fails n (user ∷ users) t = ground (
  arith,
  history_each-SameStats fails n users
      (record t { alerts_history = delete_beyond n user t.alerts_history }),
)

history-SameStats :
    (fails : Statement → Bool) (n m : ℕ) (t : Tables)
    → SameStats t (delete_old_alerts_history fails n m t).0
unfolding delete_old_alerts_history
history-SameStats fails n m t =
    ground
      (arith, history_each-SameStats fails n (busy_users m t.alerts_history t.alerts_history []) t)

services-SameStats :
    (fails : Statement → Bool) (now : ℕ) (t : Tables)
    → SameStats t (delete_old_systemd_service_records fails now t).0
unfolding delete_old_systemd_service_records
services-SameStats fails now t = ground arith

containers-SameStats :
    (fails : Statement → Bool) (now : ℕ) (t : Tables)
    → SameStats t (delete_old_container_records fails now t).0
unfolding delete_old_container_records
containers-SameStats fails now t = ground arith

quiet_hours-SameStats :
    (fails : Statement → Bool) (now : ℕ) (t : Tables)
    → SameStats t (delete_old_quiet_hours fails now t).0
unfolding delete_old_quiet_hours
quiet_hours-SameStats fails now t = ground arith

others-SameStats :
    (fails : Statement → Bool) (now : ℕ) (t : Tables)
    → SameStats (delete_old_system_stats fails now t).0 (delete_old_records fails now t)
unfolding delete_old_records
others-SameStats fails now t =
    let t1 = (delete_old_system_stats fails now t).0 in
    let t2 = (delete_old_container_records fails now t1).0 in
    let t3 = (delete_old_systemd_service_records fails now t2).0 in
    let t4 = (delete_old_alerts_history fails 200 250 t3).0 in
    let (p, p') = containers-SameStats fails now t1 in
    let (q, q') = services-SameStats fails now t2 in
    let (r, r') = history-SameStats fails 200 250 t3 in
    let (s, s') = quiet_hours-SameStats fails now t4 in (s ∙ r ∙ q ∙ p, s' ∙ r' ∙ q' ∙ p')

stats_kept :
    (fails : Statement → Bool) (now : ℕ) (t : Tables)
    → fails delete_system_stats ≡ false
    → fails delete_container_stats ≡ false
    → let young = keep (λ r. not (is_old now record_data r)) in
      let t' = (delete_old_system_stats fails now t).0 in
      (t'.system_stats ≡ young t.system_stats) × (t'.container_stats ≡ young t.container_stats)
unfolding delete_old_system_stats
stats_kept fails now t h k = ground (arith, h, k)

-- The clean-up keeps a row of statistics exactly when the retention period of its type has not
-- passed, in both tables, where neither deletion is refused.
pub delete_old_records_stats :
    (fails : Statement → Bool) (now : ℕ) (t : Tables) (row : StatsRow)
    → fails delete_system_stats ≡ false
    → fails delete_container_stats ≡ false
    → let t' = delete_old_records fails now t in
      (Occurs row t'.system_stats ↔ (Occurs row t.system_stats × ¬ Expired now record_data row))
      × (Occurs row t'.container_stats
          ↔ (Occurs row t.container_stats × ¬ Expired now record_data row))
delete_old_records_stats fails now t row h k =
    let (p, q) = others-SameStats fails now t in
    let (u, v) = stats_kept fails now t h k in
    rw (p, q, u, v)
      (kept_row now record_data row t.system_stats, kept_row now record_data row t.container_stats)
