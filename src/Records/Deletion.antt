-- ===== src/Records/Deletion.antt =====
-- internal/records/records_deletion.go. Each function returns the tables and whether it went
-- through; `fails` says which statements the database refuses.
pub mod Retention
pub mod Isolation
pub mod History
pub mod Users
use homemonit.Base.{
  ℕ, suc, zero, ◌-◌, ◌*◌, String, Bool, true, false, not, ◌&&◌, ◌||◌, List, [], ◌∷◌, ◌==◌,
  string_key, ltb, leb, if◌then◌else◌, keep, length, map,
}
use homemonit.Records.Tables.{
  StatsRow, UpdatedRow, HistoryRow, QuietRow, Tables, Statement, delete_system_stats,
  delete_container_stats, delete_containers, delete_services, count_history, delete_history,
  delete_quiet_hours,
}

abbrev pub minute : ℕ
minute = 60_000

abbrev pub hour : ℕ
hour = 3_600_000

-- (record type, retention period)
abbrev pub record_data : List (String × ℕ)
record_data =
    ("1m", hour)
    ∷ ("10m", 12 * hour)
    ∷ ("20m", 24 * hour)
    ∷ ("120m", 7 * (24 * hour))
    ∷ ("480m", 30 * (24 * hour))
    ∷ []

-- The joined condition: (type = 't' AND created < now - retention) OR …. No time is below zero, so a
-- difference that stops at zero matches nothing, as a time before the epoch would.
unfoldable pub is_old : ℕ → List (String × ℕ) → StatsRow → Bool
is_old now [] row = false
is_old now ((type, retention) ∷ rest) row =
    (row.type == type && ltb row.created (now - retention)) || is_old now rest row

unfoldable pub delete_old_system_stats : (Statement → Bool) → ℕ → Tables → Tables × Bool
delete_old_system_stats fails now t =
    let keep_new = keep (λ row. not (is_old now record_data row)) in
    let t1 = record t { system_stats = keep_new t.system_stats } in
    let t2 = record t1 { container_stats = keep_new t1.container_stats } in
    if fails delete_system_stats
    then (t, false)
    else if fails delete_container_stats
    then (t1, false)
    else (t2, true)

unfoldable pub delete_old_systemd_service_records : (Statement → Bool) → ℕ → Tables → Tables × Bool
delete_old_systemd_service_records fails now t = if fails delete_services then (t, false) else (
  record t {
    systemd_services = keep (λ row. not (ltb row.updated (now - 20 * minute))) t.systemd_services;
  },
  true,
)

unfoldable pub delete_old_container_records : (Statement → Bool) → ℕ → Tables → Tables × Bool
delete_old_container_records fails now t = if fails delete_containers then (t, false) else (
  record t { containers = keep (λ row. not (ltb row.updated (now - 10 * minute))) t.containers },
  true,
)

unfoldable pub delete_old_quiet_hours : (Statement → Bool) → ℕ → Tables → Tables × Bool
delete_old_quiet_hours fails now t = if fails delete_quiet_hours then (t, false) else (
  record t {
    quiet_hours = keep (λ row. not (row.type == "one-time" && ltb row.end now)) t.quiet_hours;
  },
  true,
)

unfoldable pub of_user : String → List HistoryRow → List HistoryRow
of_user user = keep (λ row. row.user == user)

unfoldable pub listed : String → List String → Bool
listed x [] = false
listed x (y ∷ ys) = y == x || listed x ys

-- SELECT user … GROUP BY user HAVING count > n: each user once.
unfoldable pub busy_users : ℕ → List HistoryRow → List HistoryRow → List String → List String
busy_users n all [] seen = []
busy_users n all (row ∷ rows) seen =
    let rest = busy_users n all rows (row.user ∷ seen) in
    if not (listed row.user seen) && ltb n (length (of_user row.user all))
    then row.user ∷ rest
    else rest

-- ORDER BY created DESC; rows of one time stay in the table's order.
unfoldable pub place : HistoryRow → List HistoryRow → List HistoryRow
place row [] = row ∷ []
place row (first ∷ rest) =
    let later = place row rest in
    if leb first.created row.created then row ∷ first ∷ rest else first ∷ later

unfoldable pub newest_first : List HistoryRow → List HistoryRow
newest_first [] = []
newest_first (row ∷ rows) = place row (newest_first rows)

unfoldable pub limit : ℕ → List HistoryRow → List HistoryRow
limit zero rows = []
limit (suc n) [] = []
limit (suc n) (row ∷ rows) = row ∷ limit n rows

unfoldable pub newest_ids : ℕ → String → List HistoryRow → List String
unfolding newest_first limit of_user
newest_ids n user rows = map (λ row. row.id) (limit n (newest_first (of_user user rows)))

-- DELETE … WHERE user = u AND id NOT IN (SELECT id … WHERE user = u ORDER BY created DESC LIMIT n).
unfoldable pub delete_beyond : ℕ → String → List HistoryRow → List HistoryRow
delete_beyond n user rows =
    let ids = newest_ids n user rows in
    keep (λ row. not (row.user == user && not (listed row.id ids))) rows

unfoldable pub delete_each : (Statement → Bool) → ℕ → List String → Tables → Tables × Bool
delete_each fails n [] t = (t, true)
delete_each fails n (user ∷ users) t =
    let rest =
      delete_each fails n users
        (record t { alerts_history = delete_beyond n user t.alerts_history }) in
    if fails (delete_history user) then (t, false) else rest

unfoldable pub delete_old_alerts_history : (Statement → Bool) → ℕ → ℕ → Tables → Tables × Bool
delete_old_alerts_history fails count_to_keep count_before_deletion t =
    let users = busy_users count_before_deletion t.alerts_history t.alerts_history [] in
    if fails count_history then (t, false) else delete_each fails count_to_keep users t

-- The five deletions run one after the other; an error is logged and does not stop the next.
unfoldable pub delete_old_records : (Statement → Bool) → ℕ → Tables → Tables
delete_old_records fails now t =
    let t1 = (delete_old_system_stats fails now t).0 in
    let t2 = (delete_old_container_records fails now t1).0 in
    let t3 = (delete_old_systemd_service_records fails now t2).0 in
    let t4 = (delete_old_alerts_history fails 200 250 t3).0 in
    (delete_old_quiet_hours fails now t4).0
