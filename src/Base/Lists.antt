-- ===== src/Base/Lists.antt =====
-- Lists measured by native numbers, and predicates and tests over all their elements.
use Prim.Native.Nat.{ℕ, suc, ◌+◌, ◌≤◌}
use mathlib.Core.Path.{◌≡◌, refl, sym, subst}
use mathlib.Core.Logic.{◌⊎◌, ◌↔◌, inl, inr}
use mathlib.Core.Bool.{Bool, true, ◌&&◌}
use mathlib.Core.List.{List, [], ◌∷◌, ◌++◌}
use native.Mathlib.Omega.{arith}
use homemonit.Base.Tests.{if◌then◌else◌, Bool-cases}

module _ {ℓ} {A : Type ℓ} where
  abbrev pub length : List A → ℕ
  length [] = 0
  length (x ∷ xs) = suc (length xs)

  pub length-append : (xs ys : List A) → length (xs ++ ys) ≡ length xs + length ys
  length-append [] ys = omega arith
  length-append (x ∷ xs) ys = omega (arith, length-append xs ys)

  -- The elements that pass a test, in their order.
  unfoldable pub keep : (A → Bool) → List A → List A
  keep p [] = []
  keep p (x ∷ xs) = if p x then x ∷ keep p xs else keep p xs

  pub length-keep-le : (p : A → Bool) (xs : List A) → length (keep p xs) ≤ length xs
  unfolding keep
  length-keep-le p [] = omega arith
  length-keep-le p (x ∷ xs) = ground (arith, length-keep-le p xs)

-- Every element satisfies the predicate.
abbrev pub All {ℓ κ} : {A : Type ℓ} (P : A → Type κ) (elements : List A) → Type κ
All P [] = Unit
All P (first ∷ others) = P first × All P others

-- Membership by recursion.
abbrev pub Occurs : {A : Type 0} → A → List A → Type 0
Occurs a [] = ⊥
Occurs a (x ∷ xs) = (a ≡ x) ⊎ Occurs a xs

pub Occurs-keep :
    {A : Type 0} (p : A → Bool) (x : A) (xs : List A)
    → Occurs x (keep p xs) ↔ (Occurs x xs × (p x ≡ true))
unfolding keep
Occurs-keep p x [] = (λ o. absurd o, λ h. absurd h.0)
Occurs-keep p x (y ∷ ys) = ground (arith, Occurs-keep p x ys)

pub All-Occurs {κ} :
    {A : Type 0} (P : A → Type κ) (x : A) (xs : List A) → All P xs → Occurs x xs → P x
All-Occurs P x [] h o = absurd o
All-Occurs P x (y ∷ ys) h (inl e) = subst P (sym e) h.0
All-Occurs P x (y ∷ ys) h (inr o) = All-Occurs P x ys h.1 o

pub All-keep {ℓ κ} :
    {A : Type ℓ} (P : A → Type κ) (p : A → Bool) (xs : List A) → All P xs → All P (keep p xs)
unfolding keep
All-keep P p [] h = tt
All-keep P p (x ∷ xs) h = elim (Bool-cases (p x)) [
  | inl t ↦ rw (t, keep) (h.0, All-keep P p xs h.1)
  | inr f ↦ rw (f, keep) (All-keep P p xs h.1)
]

-- Tests that agree on the elements keep the same.
pub keep-congr {ℓ} :
    {A : Type ℓ} (p q : A → Bool) (xs : List A) → All (λ x. p x ≡ q x) xs → keep p xs ≡ keep q xs
unfolding keep
keep-congr p q [] h = refl
keep-congr p q (x ∷ xs) h = ground (arith, h.0, keep-congr p q xs h.1)

pub keep-keep {ℓ} :
    {A : Type ℓ} (p q : A → Bool) (xs : List A) → keep p (keep q xs) ≡ keep (λ x. q x && p x) xs
unfolding keep
keep-keep p q [] = refl
keep-keep p q (x ∷ xs) = ground (arith, keep-keep p q xs)

pub All-every {ℓ κ} : {A : Type ℓ} (P : A → Type κ) (xs : List A) → ((x : A) → P x) → All P xs
All-every P [] h = tt
All-every P (x ∷ xs) h = (h x, All-every P xs h)

pub All-append {ℓ κ} :
    {A : Type ℓ} (P : A → Type κ) (xs ys : List A) → All P xs → All P ys → All P (xs ++ ys)
All-append P [] ys h h' = h'
All-append P (x ∷ xs) ys h h' = (h.0, All-append P xs ys h.1 h')

pub All-weaken {ℓ κ κ'} :
    {A : Type ℓ} (P : A → Type κ) (Q : A → Type κ') (xs : List A)
    → ((x : A) → P x → Q x)
    → All P xs
    → All Q xs
All-weaken P Q [] f h = tt
All-weaken P Q (x ∷ xs) f h = (f x h.0, All-weaken P Q xs f h.1)

pub All-both {ℓ κ κ' κ''} :
    {A : Type ℓ} (P : A → Type κ) (Q : A → Type κ') (R : A → Type κ'') (xs : List A)
    → ((x : A) → P x → Q x → R x)
    → All P xs
    → All Q xs
    → All R xs
All-both P Q R [] f g h = tt
All-both P Q R (x ∷ xs) f g h = (f x g.0 h.0, All-both P Q R xs f g.1 h.1)

pub All-Occurs-every :
    {A : Type 0} (P : A → Type 0) (xs : List A) → ((x : A) → Occurs x xs → P x) → All P xs
All-Occurs-every P [] h = tt
All-Occurs-every P (x ∷ xs) h = (h x (inl refl), All-Occurs-every P xs (λ y o. h y (inr o)))
