-- ===== src/Records/Averages/Peaks.antt =====
-- The byte counts of an averaged record: the mean, and the peak over the records.
use homemonit.Base.{
  ℕ, ◌+◌, ◌*◌, ◌/◌, ◌^◌, ◌≤◌, ◌<◌, ◌≡◌, refl, ◌∙◌, List, [], ◌∷◌, length, All, FloatOps, arith,
}
use Prim.Native.Nat.{max}
use mathlib.Core.Path.{ap₂}
use native.Mathlib.Nat.{div-le_of_le-mul}
use homemonit.Records.Stats.{Stats}
use homemonit.Records.Sums.{
  Totals, u64, no_totals, add_scalars, add_peaks, add_maps, add_record, add_records,
}
use homemonit.Records.Averages.{average_totals, average_system_stats_slice}

-- Both counts of the record, and its own peaks, stay below the bound.
abbrev pub Within : ℕ → Stats → Type 0
Within m r = (r.bandwidth.0 ≤ m) × (r.max_bandwidth.0 ≤ m)

-- The bytes that the records sent, with no wrap.
abbrev pub sent : List Stats → ℕ
sent [] = 0
sent (r ∷ records) = r.bandwidth.0 + sent records

add_record_bandwidth :
    (o : FloatOps) (t : Totals) (r : Stats)
    → let u = (add_record o t r).sum in
      (u.max_bandwidth.0 ≡ max (max t.sum.max_bandwidth.0 r.max_bandwidth.0) r.bandwidth.0)
      × (u.bandwidth.0 ≡ u64 (t.sum.bandwidth.0 + r.bandwidth.0))
unfolding add_record add_maps add_peaks add_scalars
add_record_bandwidth o t r = (refl, refl)

-- The peak of the totals is the least bound of what they started with and of every record.
totals_peak :
    (o : FloatOps) (t : Totals) (records : List Stats)
    → let p = (add_records o t records).sum.max_bandwidth.0 in
      (t.sum.max_bandwidth.0 ≤ p) × All (Within p) records
unfolding add_records
totals_peak o t [] = (omega arith, tt)
totals_peak o t (r ∷ records) =
    let (first, rest) = totals_peak o (add_record o t r) records in
    let (e, f) = add_record_bandwidth o t r in
    (omega (arith, first, e), ((omega (arith, first, e), omega (arith, first, e)), rest))

totals_peak_least :
    (o : FloatOps) (t : Totals) (records : List Stats) (m : ℕ)
    → t.sum.max_bandwidth.0 ≤ m
    → All (Within m) records
    → (add_records o t records).sum.max_bandwidth.0 ≤ m
unfolding add_records
totals_peak_least o t [] m h a = h
totals_peak_least o t (r ∷ records) m h a =
    let (e, f) = add_record_bandwidth o t r in
    totals_peak_least o (add_record o t r) records m (omega (arith, e, a.0)) a.1

totals_sent-le :
    (o : FloatOps) (t : Totals) (records : List Stats)
    → (add_records o t records).sum.bandwidth.0 ≤ t.sum.bandwidth.0 + sent records
unfolding add_records
totals_sent-le o t [] = omega arith
totals_sent-le o t (r ∷ records) =
    let (e, f) = add_record_bandwidth o t r in
    omega (arith, totals_sent-le o (add_record o t r) records, f)

totals_sent :
    (o : FloatOps) (t : Totals) (records : List Stats)
    → t.sum.bandwidth.0 + sent records < 2 ^ 64
    → (add_records o t records).sum.bandwidth.0 ≡ t.sum.bandwidth.0 + sent records
unfolding add_records
totals_sent o t [] h = omega arith
totals_sent o t (r ∷ records) h =
    let (e, f) = add_record_bandwidth o t r in
    let wraps_not : u64 (t.sum.bandwidth.0 + r.bandwidth.0) ≡ t.sum.bandwidth.0 + r.bandwidth.0 =
      omega (arith, h) in
    omega (
      arith,
      totals_sent o (add_record o t r) records (omega (arith, f, wraps_not, h)),
      f,
      wraps_not,
    )

sent_bound :
    (m : ℕ) (records : List Stats) → All (Within m) records → sent records ≤ length records * m
sent_bound m [] a = omega arith
sent_bound m (r ∷ records) a = omega (arith, a.0, sent_bound m records a.1)

average_bandwidth :
    (o : FloatOps) (r : Stats) (rs : List Stats)
    → let n = length (r ∷ rs) in
      let result = average_system_stats_slice o (r ∷ rs) in
      let total = (add_records o no_totals (r ∷ rs)).sum in
      (result.bandwidth.0 ≡ total.bandwidth.0 / o.to_nat (o.of_nat n))
      × (result.max_bandwidth.0 ≡ total.max_bandwidth.0)
unfolding average_system_stats_slice average_totals
average_bandwidth o r rs = (refl, refl)

-- The peak of sent bytes of an averaged record is exactly the largest count or peak of sent bytes among
-- the records.
pub average_peak_exact :
    (o : FloatOps) (records : List Stats) (m : ℕ)
    → let p = (average_system_stats_slice o records).max_bandwidth.0 in
      All (Within p) records × (All (Within m) records → p ≤ m)
unfolding average_system_stats_slice average_totals
average_peak_exact o [] m = (tt, λ a. omega arith)
average_peak_exact o (r ∷ rs) m =
    let (g, a) = totals_peak o no_totals (r ∷ rs) in
    (a, totals_peak_least o no_totals (r ∷ rs) m (omega arith))

-- If a float gives the number of records back, the mean count of sent bytes is their total over that
-- number where the total fits in 64 bits, and it is never above the peak, also where it does not fit.
pub average_mean :
    (o : FloatOps) (r : Stats) (rs : List Stats)
    → let records = r ∷ rs in
      let result = average_system_stats_slice o records in
      o.to_nat (o.of_nat (length records)) ≡ length records
      → (sent records < 2 ^ 64 → result.bandwidth.0 ≡ sent records / length records)
        × (result.bandwidth.0 ≤ result.max_bandwidth.0)
average_mean o r rs exact =
    let (e, f) = average_bandwidth o r rs in
    let (g, a) = totals_peak o no_totals (r ∷ rs) in
    let total = (add_records o no_totals (r ∷ rs)).sum in
    let bound = sent_bound total.max_bandwidth.0 (r ∷ rs) a in
    let below = totals_sent-le o no_totals (r ∷ rs) in
    let divided : total.bandwidth.0 / length (r ∷ rs) ≤ total.max_bandwidth.0 =
      div-le_of_le-mul (length (r ∷ rs)) (omega (arith, bound, below)) in
    (
      λ fits.
          let whole : total.bandwidth.0 ≡ sent (r ∷ rs) =
            omega (arith, totals_sent o no_totals (r ∷ rs) (omega (arith, fits))) in
          e ∙ ap₂ ◌/◌ whole exact,
      rw (e, f, exact) divided,
    )
