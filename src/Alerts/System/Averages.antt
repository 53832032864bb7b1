-- ===== src/Alerts/System/Averages.antt =====
-- internal/alerts/alerts_system.go: the average that an alert is given, from the rows in its window.
use homemonit.Base.{
  ◌<◌, ap, sym, ◌∙◌, String, Bool, ◌≡◌, inl, inr, refl, Option, none, some, List, [], ◌∷◌, ◌==◌,
  string_key, if◌then◌else◌, All, All-keep, map, ltb, Float, FloatOps, SingleOps, Option-cases,
  arith,
}
use Prim.Native.String.{◌++◌}
use homemonit.Records.Tables.{StatsRow}
use homemonit.Alerts.System.{
  SystemAlertData, StatsFields, new_alert, valued, first_pass, current_value, unchanged,
  AlertedSystem, FirstPass, max_sum, averaged, transition, transitions, accumulate_some, from_rows,
  no_stats, reaching, recent_stats, second_pass,
}
use homemonit.Alerts.Cache.{CachedAlertData}
use homemonit.Entities.{CombinedData}
use homemonit.Alerts.System.Window.{Moment, moments, window_sums, reset, accumulate-window_sums}

-- An alert before its first row.
abbrev pub fresh : SystemAlertData → SystemAlertData
fresh alert = record alert { val = 0; count = 0; map_sums = [] }

-- As the first loop leaves it for the second.
abbrev pub IsFresh : SystemAlertData → Type 0
IsFresh alert = (alert.count ≡ 0) × (alert.map_sums ≡ [])

module _ (s : SingleOps) where
  unfoldable pub greatest : List (String × Float) → Float → Float
  greatest [] best = best
  greatest ((key, sum) ∷ rest) best = greatest rest (if s.lt best sum then sum else best)

  max_sum-greatest :
      (sums : List (String × Float)) (best : Float) (descriptor : String)
      → (max_sum s sums (best, descriptor)).0 ≡ greatest sums best
  unfolding max_sum greatest
  max_sum-greatest [] best descriptor = refl
  max_sum-greatest ((key, sum) ∷ rest) best descriptor =
      ground (
        arith,
        max_sum-greatest rest sum ("Usage of " ++ key),
        max_sum-greatest rest best descriptor,
      )

module _ (o : FloatOps) (s : SingleOps) where
  -- The sum over the count; of a disk alert, the greatest of the sums, in single precision.
  unfoldable pub mean : SystemAlertData → Float
  unfolding greatest
  mean alert =
      if alert.name == "Disk"
      then s.double (s.div (greatest s alert.map_sums 0) (s.of_nat alert.count))
      else o.div alert.val (o.of_nat alert.count)

  averaged-mean : (alert : SystemAlertData) → (averaged o s alert).val ≡ mean alert
  unfolding averaged mean
  averaged-mean alert = ground (arith, max_sum-greatest s alert.map_sums 0 alert.descriptor)

  abbrev marked : Float → String → Bool → SystemAlertData → SystemAlertData
  marked val descriptor triggered alert = record alert {
    val = val;
    descriptor = descriptor;
    triggered = triggered;
  }

  transition-shape :
      (alert sent : SystemAlertData)
      → transition o s alert ≡ some sent
      → sent ≡ marked (averaged o s alert).val sent.descriptor sent.triggered alert
  unfolding transition averaged
  transition-shape alert sent e = ground (arith, e)

  window_sums-marked :
      (ms : List Moment) (alert : SystemAlertData) (val : Float) (descriptor : String)
      (triggered : Bool)
      → let summed = window_sums o s ms (fresh alert) in
        window_sums o s ms (fresh (marked val descriptor triggered alert))
        ≡ marked summed.val descriptor triggered summed
  unfolding window_sums
  window_sums-marked ms alert val descriptor triggered = ground arith

  module _ (parse : String → Option StatsFields) (found : List StatsRow) where
    -- The alert holds the sums over the rows in its window, from the first one on.
    pub record IsSummed (alert : SystemAlertData) : Type 0 where
      pub ms : List Moment
      pub read : moments parse found no_stats ≡ some ms
      pub sums : alert ≡ window_sums o s ms (fresh alert)

    -- Its value is the average over the rows in its window, and it counts those rows, on 8 bits.
    pub record IsAveraged (alert : SystemAlertData) : Type 0 where
      pub ms : List Moment
      pub read : moments parse found no_stats ≡ some ms
      pub count : alert.count ≡ (window_sums o s ms (fresh alert)).count
      pub average : alert.val ≡ mean (window_sums o s ms (fresh alert))

    IsSummed-reset :
        (ms : List Moment) (alert : SystemAlertData)
        → moments parse found no_stats ≡ some ms
        → IsFresh alert
        → IsSummed (window_sums o s ms (reset o s alert))
    unfolding window_sums
    IsSummed-reset ms alert e f = record { ms = ms; read = e; sums = ground (arith, f) }

    IsSummed-map :
        (ms : List Moment) (xs : List SystemAlertData)
        → moments parse found no_stats ≡ some ms
        → All IsFresh xs
        → All IsSummed (map (window_sums o s ms) (map (reset o s) xs))
    IsSummed-map ms [] e f = tt
    IsSummed-map ms (x ∷ xs) e f = (IsSummed-reset ms x e f.0, IsSummed-map ms xs e f.1)

    transition-IsAveraged :
        (alert sent : SystemAlertData)
        → IsSummed alert
        → transition o s alert ≡ some sent
        → IsAveraged sent
    unfolding mean
    transition-IsAveraged alert sent v e =
        let val = (averaged o s alert).val in
        let same = window_sums-marked v.ms alert val sent.descriptor sent.triggered in
        record {
          ms = v.ms;
          read = v.read;
          count = rw (transition-shape alert sent e, same) (ap (λ a. a.count) v.sums);
          average = rw (transition-shape alert sent e, same) (averaged-mean alert ∙ ap mean v.sums);
        }

    pub transitions-IsAveraged :
        (xs : List SystemAlertData) → All IsSummed xs → All IsAveraged (transitions o s xs)
    unfolding transitions
    transitions-IsAveraged [] v = tt
    transitions-IsAveraged (x ∷ xs) v = elim (Option-cases (transition o s x)) [
      | inl e ↦ rw (e, transitions) (transitions-IsAveraged xs v.1)
      | inr (sent, e) ↦
          rw (e, transitions) (transition-IsAveraged x sent v.0 e, transitions-IsAveraged xs v.1)
    ]

    IsFresh-Small : (xs : List SystemAlertData) → All IsFresh xs → All (λ x. x.count < 256) xs
    IsFresh-Small [] h = tt
    IsFresh-Small (x ∷ xs) h = (ground (arith, h.0.0), IsFresh-Small xs h.1)

    accumulate_some-IsSummed :
        (row : StatsRow) (rows : List StatsRow) (xs ys : List SystemAlertData)
        → found ≡ row ∷ rows
        → All IsFresh xs
        → accumulate_some o s parse (row ∷ rows) xs ≡ some ys
        → All IsSummed ys
    unfolding accumulate_some
    accumulate_some-IsSummed row rows [] ys r h e = ground (arith, e)
    accumulate_some-IsSummed row rows (x ∷ xs) ys r h e =
        let sums =
          accumulate-window_sums o s parse row rows no_stats (x ∷ xs) (IsFresh-Small (x ∷ xs) h) in
        elim (Option-cases (moments parse (row ∷ rows) no_stats)) [
          | inl lost ↦ ground (arith, lost, sums, e)
          | inr (ms, read) ↦
              let out : map (window_sums o s ms) (map (reset o s) (x ∷ xs)) ≡ ys =
                ground (arith, read, sums, e) in
              rw (sym out) (IsSummed-map ms (x ∷ xs) (rw (r) read) h)
        ]

  from_rows-IsSummed :
      (parse : String → Option StatsFields) (found : List StatsRow) (xs ys : List SystemAlertData)
      → All IsFresh xs
      → from_rows o s parse found xs ≡ some ys
      → All (IsSummed parse found) ys
  unfolding from_rows reaching
  from_rows-IsSummed parse [] xs ys h e = ground (arith, e)
  from_rows-IsSummed parse (row ∷ rows) xs ys h e =
      accumulate_some-IsSummed parse (row ∷ rows) row rows (reaching row.created xs) ys refl
        (All-keep IsFresh (λ alert. ltb row.created alert.time) xs h) e

  pub second_pass-IsSummed :
      (parse : String → Option StatsFields) (sys : AlertedSystem) (rows : List StatsRow)
      (p : FirstPass) (ys : List SystemAlertData)
      → All IsFresh p.valid
      → second_pass o s parse sys (some rows) p ≡ some ys
      → All (IsSummed parse (recent_stats sys.id p.oldest rows)) ys
  unfolding second_pass
  second_pass-IsSummed parse sys rows p ys h e =
      from_rows-IsSummed parse (recent_stats sys.id p.oldest rows) p.valid ys h e

  valued-IsFresh :
      (sys : AlertedSystem) (a : CachedAlertData) (v : Option Float) (rest : FirstPass)
      → All IsFresh rest.valid
      → All IsFresh (valued o sys a v rest).valid
  unfolding valued new_alert
  valued-IsFresh sys a none rest h = h
  valued-IsFresh sys a (some val) rest h =
      ground (arith, h, unchanged o a.triggered val a.value, new_alert sys a val)

  pub first_pass-IsFresh :
      (sys : AlertedSystem) (combined : CombinedData) (xs : List CachedAlertData)
      → All IsFresh (first_pass o sys combined xs).valid
  unfolding first_pass
  first_pass-IsFresh sys combined [] = tt
  first_pass-IsFresh sys combined (a ∷ xs) =
      valued-IsFresh sys a (current_value o a.name combined) (first_pass o sys combined xs)
        (first_pass-IsFresh sys combined xs)
