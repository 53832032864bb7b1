-- ===== src/Alerts/System/Passes.antt =====
-- Which alerts the handler of system alerts sends, and why.
use homemonit.Base.{
  ℕ, ◌-◌, ◌*◌, ltb, ◌≤◌, String, Bool, true, false, not, ◌≡◌, ◌⊎◌, inl, inr, refl, Option, none,
  some, List, [], ◌∷◌, string_key, if◌then◌else◌, Occurs, All, All-keep, All-append, All-weaken,
  All-both, Float, FloatOps, SingleOps, Option-cases, Bool-cases, arith,
}
use homemonit.Records.Tables.{StatsRow}
use homemonit.Entities.{CombinedData}
use homemonit.Alerts.Cache.{CachedAlertData}
use homemonit.Alerts.System.Averages.{
  IsAveraged, transitions-IsAveraged, second_pass-IsSummed, first_pass-IsFresh,
}
use homemonit.Alerts.System.{
  field_or, SystemAlertData, SystemAlertStats, StatsFields, AlertedSystem, FirstPass, current_value,
  unchanged, new_alert, valued, first_pass, finish, add_stats, add_to_all, accumulate, averaged,
  from_rows, accumulate_some, no_stats, unmarshal, enough, transition, transitions, recent_stats,
  reaching, second_pass, handle_alerts,
}

module _ (o : FloatOps) (s : SingleOps) (sys : AlertedSystem) (alerts : List CachedAlertData) where
  -- The message is about one of the alerts.
  pub record Stems (alert : SystemAlertData) : Type 0 where
    pub from : Occurs alert.alert_data alerts
    pub same_name : alert.name ≡ alert.alert_data.name
    pub same_threshold : alert.threshold ≡ alert.alert_data.value
    pub same_system : alert.system_id ≡ sys.id
    pub watched : (alert.name ≡ "CPU") ⊎ (alert.name ≡ "Memory") ⊎ (alert.name ≡ "Disk")

  -- It is sent at once: the value no longer stands where the trigger state says.
  pub record IsImmediate (alert : SystemAlertData) : Type 0 where
    pub stems : Stems alert
    pub one_minute : alert.min ≡ 1
    pub due : unchanged o alert.alert_data.triggered alert.val alert.threshold ≡ false
    pub state : alert.triggered ≡ o.lt alert.threshold alert.val

  -- It is still to be averaged.
  pub record IsValid (alert : SystemAlertData) : Type 0 where
    pub stems : Stems alert
    pub minutes : 2 ≤ alert.min
    pub since : alert.time ≡ sys.updated - alert.min * 60_000
    pub state : alert.triggered ≡ alert.alert_data.triggered

  -- It is sent after the average of enough rows has crossed the threshold.
  pub record IsTransition (alert : SystemAlertData) : Type 0 where
    pub stems : Stems alert
    pub minutes : 2 ≤ alert.min
    pub since : alert.time ≡ sys.updated - alert.min * 60_000
    pub counted : enough s alert ≡ true
    pub flipped : alert.triggered ≡ not alert.alert_data.triggered
    pub above : alert.triggered ≡ true → o.lt alert.threshold alert.val ≡ true
    pub below : alert.triggered ≡ false → o.le alert.val alert.threshold ≡ true

  add_stats-IsValid :
      (creation : ℕ) (stats : SystemAlertStats) (alert : SystemAlertData)
      → IsValid alert
      → IsValid (add_stats o s creation stats alert)
  unfolding add_stats
  add_stats-IsValid creation stats alert v = ground (arith, v)

  reset-IsValid :
      (first : Bool) (alert : SystemAlertData)
      → IsValid alert
      → IsValid (if first then record alert { val = 0 } else alert)
  reset-IsValid true alert v = ground (arith, v)
  reset-IsValid false alert v = v

  add_to_all-IsValid :
      (first : Bool) (creation : ℕ) (stats : SystemAlertStats) (xs : List SystemAlertData)
      → All IsValid xs
      → All IsValid (add_to_all o s first creation stats xs)
  unfolding add_to_all
  add_to_all-IsValid first creation stats [] v = tt
  add_to_all-IsValid first creation stats (x ∷ xs) v = (
    add_stats-IsValid creation stats (if first then record x { val = 0 } else x)
        (reset-IsValid first x v.0),
    add_to_all-IsValid first creation stats xs v.1,
  )

  accumulate-IsValid :
      (parse : String → Option StatsFields) (first : Bool) (rows : List StatsRow)
      (stats : SystemAlertStats) (xs ys : List SystemAlertData)
      → All IsValid xs
      → accumulate o s parse first rows stats xs ≡ some ys
      → All IsValid ys
  unfolding accumulate
  accumulate-IsValid parse first [] stats xs ys v e = ground (arith, e, v)
  accumulate-IsValid parse first (row ∷ rows) stats xs ys v e =
      elim (Option-cases (parse row.stats)) [
        | inl lost ↦ ground (arith, e, lost)
        | inr (fields, found) ↦
            let stats' = unmarshal fields stats in
            accumulate-IsValid parse false rows stats'
              (add_to_all o s first (row.created - 10_000) stats' xs) ys
              (add_to_all-IsValid first (row.created - 10_000) stats' xs v)
              (ground (arith, e, found))
      ]

  accumulate_some-IsValid :
      (parse : String → Option StatsFields) (found : List StatsRow) (xs ys : List SystemAlertData)
      → All IsValid xs
      → accumulate_some o s parse found xs ≡ some ys
      → All IsValid ys
  unfolding accumulate_some
  accumulate_some-IsValid parse found [] ys v e = ground (arith, e)
  accumulate_some-IsValid parse found (x ∷ xs) ys v e =
      accumulate-IsValid parse true found no_stats (x ∷ xs) ys v e

  from_rows-IsValid :
      (parse : String → Option StatsFields) (found : List StatsRow) (xs ys : List SystemAlertData)
      → All IsValid xs
      → from_rows o s parse found xs ≡ some ys
      → All IsValid ys
  unfolding from_rows reaching
  from_rows-IsValid parse [] xs ys v e = ground (arith, e)
  from_rows-IsValid parse (row ∷ rows) xs ys v e =
      accumulate_some-IsValid parse (row ∷ rows) (reaching row.created xs) ys
        (All-keep IsValid (λ alert. ltb row.created alert.time) xs v) e

  second_pass-IsValid :
      (parse : String → Option StatsFields) (rows : Option (List StatsRow)) (p : FirstPass)
      (ys : List SystemAlertData)
      → All IsValid p.valid
      → second_pass o s parse sys rows p ≡ some ys
      → All IsValid ys
  unfolding second_pass
  second_pass-IsValid parse none p ys v e = ground (arith, e)
  second_pass-IsValid parse (some rows) p ys v e =
      from_rows-IsValid parse (recent_stats sys.id p.oldest rows) p.valid ys v e

  transition-IsTransition :
      (alert sent : SystemAlertData)
      → IsValid alert
      → transition o s alert ≡ some sent
      → IsTransition sent
  unfolding transition averaged enough
  transition-IsTransition alert sent v e = ground (arith, e, v)

  transitions-IsTransition :
      (xs : List SystemAlertData) → All IsValid xs → All IsTransition (transitions o s xs)
  unfolding transitions
  transitions-IsTransition [] v = tt
  transitions-IsTransition (x ∷ xs) v = elim (Option-cases (transition o s x)) [
    | inl e ↦ rw (e, transitions) (transitions-IsTransition xs v.1)
    | inr (sent, e) ↦
        rw (e, transitions) (transition-IsTransition x sent v.0 e, transitions-IsTransition xs v.1)
  ]

  -- What the first loop collects.
  pub record Sound (p : FirstPass) : Type 0 where
    pub immediate : All IsImmediate p.immediate
    pub valid : All IsValid p.valid

  watched_name :
      (name : String) (combined : CombinedData) (val : Float)
      → current_value o name combined ≡ some val
      → (name ≡ "CPU") ⊎ (name ≡ "Memory") ⊎ (name ≡ "Disk")
  unfolding current_value
  watched_name name combined val e = ground (
    arith,
    e,
    string_key.test_iff name "CPU",
    string_key.test_iff name "Memory",
    string_key.test_iff name "Disk",
  )

  new_alert-Stems :
      (combined : CombinedData) (a : CachedAlertData) (val : Float)
      → Occurs a alerts
      → current_value o a.name combined ≡ some val
      → Stems (new_alert sys a val)
  unfolding new_alert
  new_alert-Stems combined a val occurs e = record {
    from = occurs;
    same_name = refl;
    same_threshold = refl;
    same_system = refl;
    watched = watched_name a.name combined val e;
  }

  valued-Sound :
      (a : CachedAlertData) (v : Option Float) (rest : FirstPass)
      → ((val : Float) → v ≡ some val → Stems (new_alert sys a val))
      → Sound rest
      → Sound (valued o sys a v rest)
  unfolding valued new_alert
  valued-Sound a none rest stems r = r
  valued-Sound a (some val) rest stems r =
      let t = stems val refl in
      elim (Bool-cases (unchanged o a.triggered val a.value)) [
        | inl same ↦ rw (same, valued) r
        | inr due ↦ ground (arith, due, r, t)
      ]

  first_pass-Sound :
      (combined : CombinedData) (xs : List CachedAlertData)
      → ((a : CachedAlertData) → Occurs a xs → Occurs a alerts)
      → Sound (first_pass o sys combined xs)
  unfolding first_pass
  first_pass-Sound combined [] among = record { immediate = tt; valid = tt }
  first_pass-Sound combined (a ∷ xs) among =
      valued-Sound a (current_value o a.name combined) (first_pass o sys combined xs)
        (λ val e. new_alert-Stems combined a val (among a (inl refl)) e)
        (first_pass-Sound combined xs (λ b h. among b (inr h)))

-- The rows that the query gives.
abbrev pub queried :
    FloatOps
    → AlertedSystem
    → CombinedData
    → Option (List StatsRow)
    → List CachedAlertData
    → List StatsRow
queried o sys combined rows alerts =
    recent_stats sys.id (first_pass o sys combined alerts).oldest (field_or [] rows)

second_pass-IsAveraged :
    (o : FloatOps) (s : SingleOps) (parse : String → Option StatsFields) (sys : AlertedSystem)
    (combined : CombinedData) (rows : Option (List StatsRow)) (alerts : List CachedAlertData)
    (ys : List SystemAlertData)
    → second_pass o s parse sys rows (first_pass o sys combined alerts) ≡ some ys
    → All (IsAveraged o s parse (queried o sys combined rows alerts)) (transitions o s ys)
unfolding second_pass field_or
second_pass-IsAveraged o s parse sys combined none alerts ys e = ground (arith, e)
second_pass-IsAveraged o s parse sys combined (some rows) alerts ys e =
    let p = first_pass o sys combined alerts in
    transitions-IsAveraged o s parse (recent_stats sys.id p.oldest rows) ys
      (second_pass-IsSummed o s parse sys rows p ys (first_pass-IsFresh o s sys combined alerts) e)

-- Every alert sent is about one of the system's alerts on CPU, memory or disk usage. Either it is
-- sent at once, with one minute to watch and a value that its trigger state denies. Or it is sent
-- after its rows: its value is the average over the rows that the query gives and that lie in the
-- window of its minutes, enough of them were counted, the average lies on the new side of the
-- threshold, and the state is turned over. The average is the sum over the count; on disk usage, the
-- greatest of the sums of the file systems, in single precision. Where the query or the parser fails,
-- only those of the first kind are sent.
pub handle_alerts-IsSound :
    (o : FloatOps) (s : SingleOps) (parse : String → Option StatsFields) (sys : AlertedSystem)
    (combined : CombinedData) (rows : Option (List StatsRow)) (alerts : List CachedAlertData)
    → let (sent, ok) = handle_alerts o s parse sys combined rows alerts in
      let found = queried o sys combined rows alerts in
      All
        (λ x.
          IsImmediate o s sys alerts x
          ⊎ (IsTransition o s sys alerts x × IsAveraged o s parse found x))
        sent
      × (ok ≡ false → All (IsImmediate o s sys alerts) sent)
unfolding handle_alerts
handle_alerts-IsSound o s parse sys combined rows [] = (tt, λ e. tt)
handle_alerts-IsSound o s parse sys combined rows (a ∷ alerts) =
    let all = a ∷ alerts in
    let p = first_pass o sys combined all in
    let sound = first_pass-Sound o s sys all combined all (λ b h. h) in
    elim (Option-cases (second_pass o s parse sys rows p)) [
      | inl lost ↦
          rw (lost, finish)
            (All-weaken _ _ p.immediate (λ x h. inl h) sound.immediate, λ e. sound.immediate)
      | inr (ys, e) ↦
          let averaged = second_pass-IsValid o s sys all parse rows p ys sound.valid e in
          rw (e, finish)
            (
              All-append _ p.immediate (transitions o s ys)
                  (All-weaken _ _ p.immediate (λ x h. inl h) sound.immediate)
                  (All-both _ _ _ (transitions o s ys) (λ x t m. inr (t, m))
                    (transitions-IsTransition o s sys all ys averaged)
                    (second_pass-IsAveraged o s parse sys combined rows all ys e)),
              λ f. cc,
            )
    ]
