-- ===== src/Alerts/System/Window.antt =====
-- What the loop over the rows of statistics sums up for an alert: the rows in the alert's window.
use homemonit.Base.{
  ℕ, ◌+◌, ◌-◌, ◌%◌, ◌<◌, String, true, false, ◌≡◌, inl, inr, refl, Option, none, some, List, [],
  ◌∷◌, ◌==◌, string_key, if◌then◌else◌, keep, length, map, All, leb, Float, FloatOps, SingleOps,
  Option-cases, arith,
}
use mathlib.Core.Option
use homemonit.Records.Tables.{StatsRow}
use homemonit.Alerts.System.{
  SystemAlertData, SystemAlertStats, StatsFields, add_sum, add_fs_sums, add_stats, add_to_all,
  accumulate, unmarshal,
}

-- A row as the loop sees it: ten seconds before its creation, and the statistics read up to it.
abbrev pub Moment : Type 0
Moment = ℕ × SystemAlertStats

unfoldable pub moments :
    (String → Option StatsFields) → List StatsRow → SystemAlertStats → Option (List Moment)
moments parse [] stats = some []
moments parse (row ∷ rows) stats = elim (parse row.stats) [
  | none ↦ none
  | some fields ↦
      let stats' = unmarshal fields stats in
      elim (moments parse rows stats') [
        | none ↦ none
        | some later ↦ some ((row.created - 10_000, stats') ∷ later)
      ]
]

abbrev pub inside : SystemAlertData → List Moment → List Moment
inside alert = keep (λ m. leb alert.time m.0)

unfoldable pub fold_moments {ℓ} : {A : Type ℓ} → (A → SystemAlertStats → A) → A → List Moment → A
fold_moments f a [] = a
fold_moments f a (m ∷ ms) = fold_moments f (f a m.1) ms

module _ (o : FloatOps) (s : SingleOps) where
  abbrev pub add_disk : List (String × Float) → SystemAlertStats → List (String × Float)
  add_disk sums stats = add_fs_sums o s stats.extra_fs (add_sum s "root" (s.single stats.disk) sums)

  -- The sums over the window, which start at what the alert holds.
  unfoldable pub window_sums : List Moment → SystemAlertData → SystemAlertData
  window_sums ms alert =
      let ins = inside alert ms in
      if alert.name == "CPU"
      then record alert {
        val = fold_moments (λ v st. o.add v st.cpu) alert.val ins;
        count = (alert.count + length ins) % 256;
      }
      else if alert.name == "Memory"
      then record alert {
        val = fold_moments (λ v st. o.add v st.mem) alert.val ins;
        count = (alert.count + length ins) % 256;
      }
      else if alert.name == "Disk"
      then record alert {
        map_sums = fold_moments add_disk alert.map_sums ins;
        count = (alert.count + length ins) % 256;
      }
      else alert

  window_sums-cons :
      (m : Moment) (ms : List Moment) (alert : SystemAlertData)
      → alert.count < 256
      → window_sums ms (add_stats o s m.0 m.1 alert) ≡ window_sums (m ∷ ms) alert
  unfolding window_sums add_stats fold_moments keep
  window_sums-cons m ms alert small = ground arith

  add_stats-small :
      (creation : ℕ) (stats : SystemAlertStats) (alert : SystemAlertData)
      → alert.count < 256
      → (add_stats o s creation stats alert).count < 256
  unfolding add_stats
  add_stats-small creation stats alert small = ground arith

  abbrev Small : SystemAlertData → Type 0
  Small alert = alert.count < 256

  add_to_all-Small :
      (creation : ℕ) (stats : SystemAlertStats) (xs : List SystemAlertData)
      → All Small xs
      → All Small (add_to_all o s false creation stats xs)
  unfolding add_to_all
  add_to_all-Small creation stats [] h = tt
  add_to_all-Small creation stats (x ∷ xs) h =
      (add_stats-small creation stats x h.0, add_to_all-Small creation stats xs h.1)

  window_sums-all :
      (m : Moment) (ms : List Moment) (xs : List SystemAlertData)
      → All Small xs
      → map (window_sums ms) (add_to_all o s false m.0 m.1 xs) ≡ map (window_sums (m ∷ ms)) xs
  unfolding add_to_all
  window_sums-all m ms [] h = refl
  window_sums-all m ms (x ∷ xs) h =
      ground (arith, window_sums-cons m ms x h.0, window_sums-all m ms xs h.1)

  window_sums-nil : (xs : List SystemAlertData) → All Small xs → map (window_sums []) xs ≡ xs
  unfolding window_sums fold_moments keep
  window_sums-nil [] h = refl
  window_sums-nil (x ∷ xs) h = ground (arith, window_sums-nil xs h.1)

  accumulate-later :
      (parse : String → Option StatsFields) (rows : List StatsRow) (stats : SystemAlertStats)
      (xs : List SystemAlertData)
      → All Small xs
      → accumulate o s parse false rows stats xs
        ≡ Option.map (λ ms. map (window_sums ms) xs) (moments parse rows stats)
  unfolding accumulate moments
  accumulate-later parse [] stats xs h = ground (arith, window_sums-nil xs h)
  accumulate-later parse (row ∷ rows) stats xs h = elim (Option-cases (parse row.stats)) [
    | inl lost ↦ ground (arith, lost)
    | inr (fields, found) ↦
        let stats' = unmarshal fields stats in
        let creation = row.created - 10_000 in
        let later =
          accumulate-later parse rows stats' (add_to_all o s false creation stats' xs)
            (add_to_all-Small creation stats' xs h) in
        elim (Option-cases (moments parse rows stats')) [
          | inl lost ↦ ground (arith, found, lost, later)
          | inr (ms, e) ↦
              ground (arith, found, e, later, window_sums-all (creation, stats') ms xs h)
        ]
  ]

  abbrev pub reset : SystemAlertData → SystemAlertData
  reset alert = record alert { val = 0 }

  add_to_all-reset :
      (creation : ℕ) (stats : SystemAlertStats) (xs : List SystemAlertData)
      → add_to_all o s true creation stats xs ≡ add_to_all o s false creation stats (map reset xs)
  unfolding add_to_all
  add_to_all-reset creation stats [] = refl
  add_to_all-reset creation stats (x ∷ xs) = ground (arith, add_to_all-reset creation stats xs)

  map-reset-Small : (xs : List SystemAlertData) → All Small xs → All Small (map reset xs)
  map-reset-Small [] h = tt
  map-reset-Small (x ∷ xs) h = (h.0, map-reset-Small xs h.1)

  -- The loops over the rows and the alerts do what each alert asks for by itself: the sums start at 0
  -- and go over the rows of the alert's window in their order, and the count is the number of those
  -- rows, on 8 bits. They fail where the text of a row is not parsed, and only there. There is a row,
  -- and the counts start below 256.
  pub accumulate-window_sums :
      (parse : String → Option StatsFields) (row : StatsRow) (rows : List StatsRow)
      (stats : SystemAlertStats) (xs : List SystemAlertData)
      → All (λ x. x.count < 256) xs
      → accumulate o s parse true (row ∷ rows) stats xs
        ≡ Option.map (λ ms. map (window_sums ms) (map reset xs)) (moments parse (row ∷ rows) stats)
  unfolding accumulate
  accumulate-window_sums parse row rows stats xs h =
      let later = accumulate-later parse (row ∷ rows) stats (map reset xs) (map-reset-Small xs h) in
      elim (Option-cases (parse row.stats)) [
        | inl lost ↦ ground (arith, lost, later)
        | inr (fields, found) ↦
            let stats' = unmarshal fields stats in
            ground (arith, found, later, add_to_all-reset (row.created - 10_000) stats' xs)
      ]
