-- ===== src/Agent/Deltas.antt =====
-- agent/deltatracker/deltatracker.go, at the type of its only use: values of 64 bits.
pub mod Intervals
use homemonit.Base.{ℕ, ◌+◌, ◌-◌, ◌%◌, ◌^◌, Option, none, some, List, [], ◌∷◌, Key, lookup, insert}

pub record DeltaTracker {ℓ} (K : Type ℓ) : Type ℓ where
  pub current : List (K × ℕ)
  pub previous : List (K × ℕ)

-- The difference of two values of 64 bits, which wraps around.
abbrev pub sub64 : ℕ → ℕ → ℕ
sub64 a b = (a + 2 ^ 64 - b) % 2 ^ 64

delta_of : Option ℕ → Option ℕ → ℕ
delta_of none old = 0
delta_of (some value) none = 0
delta_of (some value) (some old) = sub64 value old

delta_entry : ℕ → Option ℕ → ℕ
delta_entry value none = 0
delta_entry value (some old) = sub64 value old

module _ {ℓ} {K : Type ℓ} ⦃key : Key K⦄ where
  abbrev pub new_delta_tracker : DeltaTracker K
  new_delta_tracker = record { current = []; previous = [] }

  unfoldable pub set : K → ℕ → DeltaTracker K → DeltaTracker K
  set id value t = record t { current = insert id value t.current }

  unfoldable pub previous : K → DeltaTracker K → Option ℕ
  previous id t = lookup id t.previous

  unfoldable pub delta : K → DeltaTracker K → ℕ
  unfolding delta_of
  delta id t = delta_of (lookup id t.current) (lookup id t.previous)

  unfoldable pub deltas_from : List (K × ℕ) → List (K × ℕ) → List (K × ℕ) → List (K × ℕ)
  unfolding delta_entry
  deltas_from previous [] result = result
  deltas_from previous (entry ∷ rest) result =
      deltas_from previous rest
        (insert entry.0 (delta_entry entry.1 (lookup entry.0 previous)) result)

  -- All deltas of the interval.
  unfoldable pub deltas : DeltaTracker K → List (K × ℕ)
  deltas t = deltas_from t.previous t.current []

  unfoldable pub cycle : DeltaTracker K → DeltaTracker K
  cycle t = record t { current = []; previous = t.current }
