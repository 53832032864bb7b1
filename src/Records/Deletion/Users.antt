-- ===== src/Records/Deletion/Users.antt =====
-- The deletion of old alerts history over all users, and which rows it spares.
use homemonit.Base.{
  ℕ, zero, suc, ◌≤◌, String, Bool, true, false, not, ◌&&◌, ◌≡◌, ◌≢◌, inl, inr, refl, sym, subst,
  List, [], ◌∷◌, ◌==◌, string_key, if◌then◌else◌, keep, length, Occurs, All-Occurs, Occurs-keep,
  ltb, Bool-cases, arith,
}
use Prim.Native.Nat.{min}
use homemonit.Records.Tables.{HistoryRow, Tables, Statement, count_history, delete_history}
use homemonit.Records.Deletion.{
  of_user, listed, busy_users, newest_first, limit, newest_ids, delete_beyond, delete_each,
  delete_old_alerts_history,
}
use homemonit.Records.Deletion.History.{
  DistinctRows, IsDescending, ids_of, keep-DistinctRows, newest_first-DistinctRows,
  newest_first-IsDescending, Occurs-newest_first, length-of_user-delete_beyond,
  of_user-delete_beyond_other, of_user-delete_beyond,
}

listed-busy_users :
    (m : ℕ) (u : String) (all rows : List HistoryRow) (seen : List String)
    → listed u (busy_users m all rows seen)
      ≡ (ltb 0 (length (of_user u rows)) && (not (listed u seen) && ltb m (length (of_user u all))))
unfolding busy_users listed of_user keep
listed-busy_users m u all [] seen = refl
listed-busy_users m u all (row ∷ rows) seen =
    ground (arith, listed-busy_users m u all rows (row.user ∷ seen), string_key.test_iff row.user u)

length-delete_each :
    (fails : Statement → Bool) (n : ℕ) (users : List String) (t : Tables) (u : String)
    → ((s : Statement) → fails s ≡ false)
    → DistinctRows t.alerts_history
    → length (of_user u (delete_each fails n users t).0.alerts_history) ≡ (
        if listed u users
        then min n (length (of_user u t.alerts_history))
        else length (of_user u t.alerts_history))
unfolding delete_each listed
length-delete_each fails n [] t u ok d = refl
length-delete_each fails n (user ∷ users) t u ok d =
    let t' = record t { alerts_history = delete_beyond n user t.alerts_history } in
    let d' : DistinctRows t'.alerts_history =
      unfold delete_beyond in
      keep-DistinctRows
        (λ row. not (row.user == user && not (listed row.id (newest_ids n user t.alerts_history))))
        t.alerts_history d in
    let rest = length-delete_each fails n users t' u ok d' in
    elim (Bool-cases (user == u)) [
      | inl same ↦ ground (
        arith,
        same,
        ok (delete_history user),
        string_key.test_iff user u,
        rest,
        length-of_user-delete_beyond n user t.alerts_history d,
      )
      | inr other ↦ ground (
        arith,
        other,
        ok (delete_history user),
        string_key.test_iff user u,
        rest,
        of_user-delete_beyond_other n user u t.alerts_history,
      )
    ]

-- After a deletion in which nothing is refused, from rows with distinct ids and with a trigger that is
-- not below the number to keep, a user who had more rows than the trigger has as many as are to be
-- kept, and every other user has as many as before.
pub length-delete_old_alerts_history :
    (fails : Statement → Bool) (n m : ℕ) (t : Tables) (u : String)
    → ((s : Statement) → fails s ≡ false)
    → DistinctRows t.alerts_history
    → n ≤ m
    → let before = length (of_user u t.alerts_history) in
      length (of_user u (delete_old_alerts_history fails n m t).0.alerts_history)
      ≡ (if ltb m before then n else before)
unfolding delete_old_alerts_history listed
length-delete_old_alerts_history fails n m t u ok d h =
    let users = busy_users m t.alerts_history t.alerts_history [] in
    ground (
      arith,
      ok count_history,
      length-delete_each fails n users t u ok d,
      listed-busy_users m u t.alerts_history t.alerts_history [],
    )

newer :
    (n : ℕ) (rows : List HistoryRow) (a b : HistoryRow)
    → DistinctRows rows
    → IsDescending rows
    → Occurs a rows
    → Occurs b rows
    → listed a.id (ids_of n rows) ≡ true
    → listed b.id (ids_of n rows) ≡ false
    → b.created ≤ a.created
unfolding listed limit
newer zero rows a b d s oa ob la lb = cc
newer (suc n) [] a b d s oa ob la lb = absurd oa
newer (suc n) (r ∷ rows) a b d s (inl ea) (inl eb) la lb = ground (arith, ea, eb)
newer (suc n) (r ∷ rows) a b d s (inl ea) (inr ob) la lb =
    let older = All-Occurs (λ q. q.created ≤ r.created) b rows s.0 ob in ground (arith, ea, older)
newer (suc n) (r ∷ rows) a b d s (inr oa) (inl eb) la lb =
    ground (arith, eb, lb, string_key.test_iff r.id b.id)
newer (suc n) (r ∷ rows) a b d s (inr oa) (inr ob) la lb =
    let apart = All-Occurs (λ q. q.id ≢ r.id) a rows d.0 oa in
    ground (arith, la, lb, apart, string_key.test_iff r.id a.id, newer n rows a b d.1 s.1 oa ob)

-- A row of the user that is deleted is no newer than any row of the user that stays.
pub delete_beyond_oldest :
    (n : ℕ) (user : String) (rows : List HistoryRow) (a b : HistoryRow)
    → DistinctRows rows
    → Occurs a (of_user user (delete_beyond n user rows))
    → Occurs b (of_user user rows)
    → ¬ Occurs b (of_user user (delete_beyond n user rows))
    → b.created ≤ a.created
unfolding of_user newest_ids
delete_beyond_oldest n user rows a b d oa ob gone =
    let mine = of_user user rows in
    let sorted = newest_first mine in
    let distinct =
      newest_first-DistinctRows mine (keep-DistinctRows (λ r. r.user == user) rows d) in
    let same = of_user-delete_beyond n user rows in
    let chosen = λ (r : HistoryRow). listed r.id (newest_ids n user rows) in
    let (ina, la) = (Occurs-keep chosen a mine).0 (subst (Occurs a) same oa) in
    let lb : listed b.id (newest_ids n user rows) ≡ false = elim (Bool-cases (chosen b)) [
      | inl yes_b ↦
          absurd (gone (subst (Occurs b) (sym same) ((Occurs-keep chosen b mine).1 (ob, yes_b))))
      | inr no_b ↦ no_b
    ] in
    newer n sorted a b distinct (newest_first-IsDescending mine) (Occurs-newest_first a mine ina)
      (Occurs-newest_first b mine ob) la lb
