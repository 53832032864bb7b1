-- ===== src/Agent/Deltas/Intervals.antt =====
-- The deltas of an interval against those of its keys one at a time.
use homemonit.Base.{
  ℕ, ◌-◌, ◌≤◌, ◌<◌, ◌^◌, ◌≡◌, refl, Option, none, some, List, [], ◌∷◌, Key, lookup, insert,
  lookup-insert, IsMap, arith,
}
use homemonit.Agent.Deltas.{
  DeltaTracker, set, delta, delta_of, delta_entry, deltas, deltas_from, cycle, previous,
}

abbrev entry_or : Option ℕ → Option ℕ → Option ℕ → Option ℕ
entry_or none old result = result
entry_or (some value) old result = some (delta_entry value old)

lookup-deltas_from :
    {K : Type 0} ⦃key : Key K⦄ (id : K) (before current result : List (K × ℕ))
    → IsMap current
    → lookup id (deltas_from before current result)
      ≡ entry_or (lookup id current) (lookup id before) (lookup id result)
unfolding deltas_from lookup
lookup-deltas_from id before [] result m = refl
lookup-deltas_from ⦃key⦄ id before ((j, v) ∷ rest) result m =
    let new = delta_entry v (lookup j before) in
    ground (
      arith,
      lookup-deltas_from id before rest (insert j new result) m.1,
      lookup-insert j id new result,
      key.test_iff j id,
      m.0,
      lookup id before,
      lookup j before,
    )

-- Where no key is held twice, the map of all deltas has exactly the keys that were set in the interval, each with the delta that
-- its key has by itself; a key that was not set has the delta 0.
pub lookup-deltas :
    {K : Type 0} ⦃key : Key K⦄ (id : K) (t : DeltaTracker K)
    → IsMap t.current
    → ((v : ℕ) → lookup id t.current ≡ some v → lookup id (deltas t) ≡ some (delta id t))
      × (lookup id t.current ≡ none → (lookup id (deltas t) ≡ none) × (delta id t ≡ 0))
unfolding deltas delta delta_of delta_entry lookup
lookup-deltas id t m =
    let all = lookup-deltas_from id t.previous t.current [] m in
    (λ v e. ground (arith, e, all, lookup id t.previous), λ e. ground (arith, e, all))

-- A value set in one interval and one of 64 bits that is not below it, set in the next, have their
-- exact difference as the delta, and the first is the previous value.
pub delta-cycle :
    {K : Type 0} ⦃key : Key K⦄ (id : K) (old new : ℕ) (t : DeltaTracker K)
    → old ≤ new
    → new < 2 ^ 64
    → let t' = set id new (cycle (set id old t)) in
      (delta id t' ≡ new - old) × (previous id t' ≡ some old)
unfolding delta delta_of set cycle previous lookup insert
delta-cycle ⦃key⦄ id old new t le lt =
    let found = lookup-insert id id old t.current in
    (ground (arith, found, key.test_iff id id, le, lt), ground (arith, found, key.test_iff id id))
