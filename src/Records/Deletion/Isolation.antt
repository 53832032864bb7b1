-- ===== src/Records/Deletion/Isolation.antt =====
-- A refused deletion does not stop the later ones.
use homemonit.Base.{
  ℕ, ◌-◌, ◌*◌, ◌≤◌, String, Bool, false, not, ◌≡◌, ◌↔◌, refl, sym, ap, subst, ◌∙◌, List, [], ◌∷◌,
  Occurs, Occurs-keep, keep, ltb, arith,
}
use homemonit.Records.Tables.{Tables, Statement, UpdatedRow, delete_containers, delete_services}
use homemonit.Records.Deletion.{
  minute, delete_beyond, busy_users, delete_old_system_stats, delete_old_systemd_service_records,
  delete_old_container_records, delete_old_quiet_hours, delete_each, delete_old_alerts_history,
  delete_old_records,
}

abbrev SameUpdated : Tables → Tables → Type 0
SameUpdated t u = (u.containers ≡ t.containers) × (u.systemd_services ≡ t.systemd_services)

history_each-SameUpdated :
    (fails : Statement → Bool) (n : ℕ) (users : List String) (t : Tables)
    → SameUpdated t (delete_each fails n users t).0
unfolding delete_each
history_each-SameUpdated fails n [] t = (refl, refl)
history_each-SameUpdated fails n (user ∷ users) t = ground (
  arith,
  history_each-SameUpdated fails n users
      (record t { alerts_history = delete_beyond n user t.alerts_history }),
)

history-SameUpdated :
    (fails : Statement → Bool) (n m : ℕ) (t : Tables)
    → SameUpdated t (delete_old_alerts_history fails n m t).0
unfolding delete_old_alerts_history
history-SameUpdated fails n m t =
    ground (
      arith,
      history_each-SameUpdated fails n (busy_users m t.alerts_history t.alerts_history []) t,
    )

stats-SameUpdated :
    (fails : Statement → Bool) (now : ℕ) (t : Tables)
    → SameUpdated t (delete_old_system_stats fails now t).0
unfolding delete_old_system_stats
stats-SameUpdated fails now t = ground arith

quiet_hours-SameUpdated :
    (fails : Statement → Bool) (now : ℕ) (t : Tables)
    → SameUpdated t (delete_old_quiet_hours fails now t).0
unfolding delete_old_quiet_hours
quiet_hours-SameUpdated fails now t = ground arith

abbrev fresh : ℕ → List UpdatedRow → List UpdatedRow
fresh oldest = keep (λ r. not (ltb r.updated oldest))

fresh_row :
    (oldest : ℕ) (row : UpdatedRow) (rows : List UpdatedRow)
    → Occurs row (fresh oldest rows) ↔ (Occurs row rows × (oldest ≤ row.updated))
fresh_row oldest row rows = ground (arith, Occurs-keep (λ r. not (ltb r.updated oldest)) row rows)

containers_kept :
    (fails : Statement → Bool) (now : ℕ) (t : Tables)
    → fails delete_containers ≡ false
    → let t' = (delete_old_container_records fails now t).0 in
      (t'.containers ≡ fresh (now - 10 * minute) t.containers)
      × (t'.systemd_services ≡ t.systemd_services)
unfolding delete_old_container_records
containers_kept fails now t h = ground (arith, h)

services_kept :
    (fails : Statement → Bool) (now : ℕ) (t : Tables)
    → fails delete_services ≡ false
    → let t' = (delete_old_systemd_service_records fails now t).0 in
      (t'.containers ≡ t.containers)
      × (t'.systemd_services ≡ fresh (now - 20 * minute) t.systemd_services)
unfolding delete_old_systemd_service_records
services_kept fails now t h = ground (arith, h)

-- Containers that were not updated for ten minutes and services that were not for twenty are
-- deleted, and no others, whatever other deletion is refused before or after.
pub delete_old_records_isolated :
    (fails : Statement → Bool) (now : ℕ) (t : Tables) (row : UpdatedRow)
    → fails delete_containers ≡ false
    → fails delete_services ≡ false
    → let t' = delete_old_records fails now t in
      (Occurs row t'.containers ↔ (Occurs row t.containers × (now - 10 * minute ≤ row.updated)))
      × (Occurs row t'.systemd_services
          ↔ (Occurs row t.systemd_services × (now - 20 * minute ≤ row.updated)))
unfolding delete_old_records
delete_old_records_isolated fails now t row h k =
    let t1 = (delete_old_system_stats fails now t).0 in
    let t2 = (delete_old_container_records fails now t1).0 in
    let t3 = (delete_old_systemd_service_records fails now t2).0 in
    let t4 = (delete_old_alerts_history fails 200 250 t3).0 in
    let (p, p') = stats-SameUpdated fails now t in
    let (q, q') = containers_kept fails now t1 h in
    let (r, r') = services_kept fails now t2 k in
    let (s, s') = history-SameUpdated fails 200 250 t3 in
    let (u, u') = quiet_hours-SameUpdated fails now t4 in
    let at_containers = u ∙ s ∙ r ∙ q ∙ ap (fresh (now - 10 * minute)) p in
    let at_services = u' ∙ s' ∙ r' ∙ ap (fresh (now - 20 * minute)) (q' ∙ p') in
    (
      subst
          (λ rows. Occurs row rows ↔ (Occurs row t.containers × (now - 10 * minute ≤ row.updated)))
          (sym at_containers) (fresh_row (now - 10 * minute) row t.containers),
      subst
          (λ rows.
            Occurs row rows ↔ (Occurs row t.systemd_services × (now - 20 * minute ≤ row.updated)))
          (sym at_services) (fresh_row (now - 20 * minute) row t.systemd_services),
    )
