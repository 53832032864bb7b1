-- ===== src/Alerts/System/Once.antt =====
-- How often the handler of system alerts sends a message about one alert.
use homemonit.Base.{
  ℕ, ◌+◌, ◌-◌, ◌≤◌, String, Bool, true, false, ◌≡◌, inl, inr, refl, Option, none, some, List, [],
  ◌∷◌, ◌==◌, string_key, if◌then◌else◌, keep, FloatOps, SingleOps, Option-cases, arith, ltb, ◌∙◌,
}
use mathlib.Core.List.{◌++◌}
use homemonit.Records.Tables.{StatsRow}
use homemonit.Entities.{CombinedData}
use homemonit.Alerts.Cache.{CachedAlertData}
use homemonit.Alerts.System.{
  SystemAlertData, SystemAlertStats, StatsFields, AlertedSystem, FirstPass, current_value,
  new_alert, valued, first_pass, add_stats, add_to_all, accumulate, accumulate_some, from_rows,
  averaged, transition, transitions, recent_stats, reaching, second_pass, handle_alerts, unmarshal,
  no_stats,
}

abbrev pub tally {ℓ} : {A : Type ℓ} → (A → Bool) → List A → ℕ
tally p [] = 0
tally p (x ∷ xs) = if p x then 1 + tally p xs else tally p xs

tally-append {ℓ} :
    {A : Type ℓ} (p : A → Bool) (xs ys : List A) → tally p (xs ++ ys) ≡ tally p xs + tally p ys
tally-append p [] ys = omega arith
tally-append p (x ∷ xs) ys = ground (arith, tally-append p xs ys)

tally-keep-le {ℓ} : {A : Type ℓ} (p q : A → Bool) (xs : List A) → tally p (keep q xs) ≤ tally p xs
unfolding keep
tally-keep-le p q [] = omega arith
tally-keep-le p q (x ∷ xs) = ground (arith, tally-keep-le p q xs)

-- The alert, or the message, is about the row of the id.
abbrev pub about : String → SystemAlertData → Bool
about id alert = alert.alert_data.id == id

abbrev pub has_id : String → CachedAlertData → Bool
has_id id a = a.id == id

module _ (o : FloatOps) (s : SingleOps) (id : String) where
  first_pass-once :
      (sys : AlertedSystem) (combined : CombinedData) (xs : List CachedAlertData)
      → let p = first_pass o sys combined xs in
        tally (about id) p.immediate + tally (about id) p.valid ≤ tally (has_id id) xs
  unfolding first_pass valued new_alert
  first_pass-once sys combined [] = omega arith
  first_pass-once sys combined (a ∷ xs) =
      ground (arith, first_pass-once sys combined xs, current_value o a.name combined)

  about-add_stats :
      (creation : ℕ) (stats : SystemAlertStats) (alert : SystemAlertData)
      → about id (add_stats o s creation stats alert) ≡ about id alert
  unfolding add_stats
  about-add_stats creation stats alert = ground arith

  add_to_all-same :
      (first : Bool) (creation : ℕ) (stats : SystemAlertStats) (xs : List SystemAlertData)
      → tally (about id) (add_to_all o s first creation stats xs) ≡ tally (about id) xs
  unfolding add_to_all
  add_to_all-same first creation stats [] = refl
  add_to_all-same first creation stats (x ∷ xs) =
      let reset = if first then record x { val = 0 } else x in
      ground (arith, add_to_all-same first creation stats xs, about-add_stats creation stats reset)

  accumulate-same :
      (parse : String → Option StatsFields) (first : Bool) (rows : List StatsRow)
      (stats : SystemAlertStats) (xs ys : List SystemAlertData)
      → accumulate o s parse first rows stats xs ≡ some ys
      → tally (about id) ys ≡ tally (about id) xs
  unfolding accumulate
  accumulate-same parse first [] stats xs ys e = ground (arith, e)
  accumulate-same parse first (row ∷ rows) stats xs ys e = elim (Option-cases (parse row.stats)) [
    | inl lost ↦ ground (arith, e, lost)
    | inr (fields, found) ↦
        let stats' = unmarshal fields stats in
        let creation = row.created - 10_000 in
        accumulate-same parse false rows stats' (add_to_all o s first creation stats' xs) ys
          (ground (arith, e, found))
        ∙ add_to_all-same first creation stats' xs
  ]

  accumulate_some-le :
      (parse : String → Option StatsFields) (found : List StatsRow) (xs ys : List SystemAlertData)
      → accumulate_some o s parse found xs ≡ some ys
      → tally (about id) ys ≤ tally (about id) xs
  unfolding accumulate_some
  accumulate_some-le parse found [] ys e = ground (arith, e)
  accumulate_some-le parse found (x ∷ xs) ys e =
      omega (arith, accumulate-same parse true found no_stats (x ∷ xs) ys e)

  reaching-le :
      (oldest : ℕ) (xs : List SystemAlertData)
      → tally (about id) (reaching oldest xs) ≤ tally (about id) xs
  unfolding reaching
  reaching-le oldest xs = tally-keep-le (about id) (λ alert. ltb oldest alert.time) xs

  from_rows-le :
      (parse : String → Option StatsFields) (found : List StatsRow) (xs ys : List SystemAlertData)
      → from_rows o s parse found xs ≡ some ys
      → tally (about id) ys ≤ tally (about id) xs
  unfolding from_rows
  from_rows-le parse [] xs ys e = ground (arith, e)
  from_rows-le parse (row ∷ rows) xs ys e = omega (
    arith,
    accumulate_some-le parse (row ∷ rows) (reaching row.created xs) ys e,
    reaching-le row.created xs,
  )

  second_pass-le :
      (parse : String → Option StatsFields) (sys : AlertedSystem) (rows : Option (List StatsRow))
      (p : FirstPass) (ys : List SystemAlertData)
      → second_pass o s parse sys rows p ≡ some ys
      → tally (about id) ys ≤ tally (about id) p.valid
  unfolding second_pass
  second_pass-le parse sys none p ys e = ground (arith, e)
  second_pass-le parse sys (some rows) p ys e =
      from_rows-le parse (recent_stats sys.id p.oldest rows) p.valid ys e

  transitions-le :
      (xs : List SystemAlertData) → tally (about id) (transitions o s xs) ≤ tally (about id) xs
  unfolding transitions transition averaged
  transitions-le [] = omega arith
  transitions-le (x ∷ xs) = ground (arith, transitions-le xs, transition o s x)

-- The handler starts no more messages about an alert than the list of alerts has entries of its id,
-- those sent at once and those sent after the average together.
pub handle_alerts-once :
    (o : FloatOps) (s : SingleOps) (parse : String → Option StatsFields) (sys : AlertedSystem)
    (combined : CombinedData) (rows : Option (List StatsRow)) (alerts : List CachedAlertData)
    (id : String)
    → tally (about id) (handle_alerts o s parse sys combined rows alerts).0
      ≤ tally (has_id id) alerts
unfolding handle_alerts
handle_alerts-once o s parse sys combined rows [] id = omega arith
handle_alerts-once o s parse sys combined rows (a ∷ alerts) id =
    let p = first_pass o sys combined (a ∷ alerts) in
    let once = first_pass-once o s id sys combined (a ∷ alerts) in
    elim (Option-cases (second_pass o s parse sys rows p)) [
      | inl lost ↦ ground (arith, lost, once)
      | inr (ys, e) ↦ ground (
        arith,
        e,
        once,
        second_pass-le o s id parse sys rows p ys e,
        transitions-le o s id ys,
        tally-append (about id) p.immediate (transitions o s ys),
      )
    ]
