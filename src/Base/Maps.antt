-- ===== src/Base/Maps.antt =====
-- Go maps and the store type of the framework, as association lists. A write replaces the entry of
-- its key or appends one, so a map that starts empty never holds a key twice.
use mathlib.Core.Path.{◌≡◌, refl}
use mathlib.Core.List.{List, [], ◌∷◌}
use mathlib.Core.Option.{Option, none, some}
use native.Mathlib.Omega.{arith}
use homemonit.Base.Tests.{Key, ◌==◌, if◌then◌else◌}

module _ {ℓ κ} {K : Type ℓ} {V : Type κ} ⦃key : Key K⦄ where
  unfoldable pub lookup : K → List (K × V) → Option V
  lookup k [] = none
  lookup k (entry ∷ rest) = if entry.0 == k then some entry.1 else lookup k rest

  unfoldable pub insert : K → V → List (K × V) → List (K × V)
  insert k v [] = (k, v) ∷ []
  insert k v (entry ∷ rest) =
      let kept = insert k v rest in if entry.0 == k then (k, v) ∷ rest else entry ∷ kept

  unfoldable pub erase : K → List (K × V) → List (K × V)
  erase k [] = []
  erase k (entry ∷ rest) = let kept = erase k rest in if entry.0 == k then kept else entry ∷ kept

  -- What a write does to a later read, of any key.
  pub lookup-insert :
      (written asked : K) (v : V) (m : List (K × V))
      → lookup asked (insert written v m) ≡ (if written == asked then some v else lookup asked m)
  unfolding lookup insert
  lookup-insert written asked v [] = refl
  lookup-insert written asked v ((i, w) ∷ rest) =
      let same = lookup-insert written asked v rest in
      ground (arith, same, key.test_iff i written, key.test_iff written asked, key.test_iff i asked)

  pub lookup-erase :
      (gone asked : K) (m : List (K × V))
      → lookup asked (erase gone m) ≡ (if gone == asked then none else lookup asked m)
  unfolding lookup erase
  lookup-erase gone asked [] = ground arith
  lookup-erase gone asked ((i, w) ∷ rest) =
      let same = lookup-erase gone asked rest in
      ground (arith, same, key.test_iff i gone, key.test_iff gone asked, key.test_iff i asked)

  -- No key is held twice.
  abbrev pub IsMap : List (K × V) → Type κ
  IsMap [] = Unit
  IsMap ((j, w) ∷ m) = (lookup j m ≡ none) × IsMap m

  pub insert-IsMap : (k : K) (v : V) (m : List (K × V)) → IsMap m → IsMap (insert k v m)
  unfolding insert lookup
  insert-IsMap k v [] h = (refl, tt)
  insert-IsMap k v ((j, w) ∷ m) h =
      ground
        (arith, insert-IsMap k v m h.1, lookup-insert k j v m, key.test_iff k j, key.test_iff j k)

  pub erase-IsMap : (k : K) (m : List (K × V)) → IsMap m → IsMap (erase k m)
  unfolding erase
  erase-IsMap k [] h = tt
  erase-IsMap k ((j, w) ∷ m) h = ground (arith, erase-IsMap k m h.1, lookup-erase k j m)

-- The values in the order of the list, which stands for a walk through the map.
unfoldable pub map_values {ℓ κ} : {K : Type ℓ} {V : Type κ} → List (K × V) → List V
map_values [] = []
map_values (entry ∷ rest) = entry.1 ∷ map_values rest
