-- ===== src/Agent/Nics/Selection.antt =====
-- The names that a list of interfaces selects.
use homemonit.Base.{
  String, Bool, true, false, not, ◌&&◌, ◌||◌, ◌≡◌, inl, inr, refl, ◌∙◌, List, [], ◌∷◌, string_key,
  ◌==◌, if◌then◌else◌, Bool-cases, arith,
}
use homemonit.Agent.Nics.{
  NicConfig, listed, contains, add_nic, add_nics, new_nic_config, any_match, is_valid_nic,
}

-- The name is listed or matches a listed pattern that has a wildcard.
abbrev pub selects : (String → String → Bool) → String → List String → Bool
selects matches name [] = false
selects matches name (nic ∷ nics) =
    (not (nic == "") && (nic == name || (contains nic "*" && matches nic name)))
    || selects matches name nics

-- What a configuration selects, apart from its mode.
abbrev held : (String → String → Bool) → String → NicConfig → Bool
held matches name cfg =
    listed name cfg.nics || (cfg.has_wildcards && any_match matches name cfg.nics)

-- Patterns with a wildcard are only held where the flag says so.
abbrev IsMarked : Bool → List String → Type 0
IsMarked flag [] = Unit {0}
IsMarked flag (nic ∷ nics) = (contains nic "*" ≡ true → flag ≡ true) × IsMarked flag nics

IsMarked-weaken :
    (flag more : Bool) (nics : List String) → IsMarked flag nics → IsMarked (flag || more) nics
IsMarked-weaken flag more [] h = tt
IsMarked-weaken flag more (nic ∷ nics) h =
    (λ c. ground (arith, c, h.0), IsMarked-weaken flag more nics h.1)

any_match-listed :
    (matches : String → String → Bool) (name nic : String) (nics : List String)
    → listed nic nics ≡ true
    → contains nic "*" ≡ true
    → matches nic name ≡ true
    → any_match matches name nics ≡ true
unfolding listed any_match
any_match-listed matches name nic [] l c m = cc
any_match-listed matches name nic (x ∷ xs) l c m =
    ground (arith, l, c, m, any_match-listed matches name nic xs, string_key.test_iff x nic)

any_match-flag :
    (matches : String → String → Bool) (name : String) (flag : Bool) (nics : List String)
    → IsMarked flag nics
    → any_match matches name nics ≡ true
    → flag ≡ true
unfolding any_match
any_match-flag matches name flag [] h a = cc
any_match-flag matches name flag (x ∷ xs) h a =
    ground (arith, a, h.0, any_match-flag matches name flag xs h.1)

listed-flag :
    (nic : String) (flag : Bool) (nics : List String)
    → IsMarked flag nics
    → listed nic nics ≡ true
    → contains nic "*" ≡ true
    → flag ≡ true
unfolding listed
listed-flag nic flag [] h l c = cc
listed-flag nic flag (x ∷ xs) h l c =
    ground (arith, l, c, h.0, listed-flag nic flag xs h.1, string_key.test_iff x nic)

listed_again :
    (nic name : String) (nics : List String)
    → listed nic nics ≡ true
    → nic ≡ name
    → listed name nics ≡ true
listed_again nic name nics l e = cc

held-add_nic :
    (matches : String → String → Bool) (name nic : String) (cfg : NicConfig)
    → IsMarked cfg.has_wildcards cfg.nics
    → let cfg' = add_nic nic cfg in
      (held matches name cfg' ≡ (held matches name cfg || selects matches name (nic ∷ [])))
      × (cfg'.is_blacklist ≡ cfg.is_blacklist)
      × IsMarked cfg'.has_wildcards cfg'.nics
unfolding add_nic listed any_match
held-add_nic matches name nic cfg h =
    let weak = IsMarked-weaken cfg.has_wildcards (contains nic "*") cfg.nics h in
    (
      ground (
        arith,
        any_match-flag matches name cfg.has_wildcards cfg.nics h,
        listed-flag nic cfg.has_wildcards cfg.nics h,
        any_match-listed matches name nic cfg.nics,
        listed_again nic name cfg.nics,
        string_key.test_iff nic name,
      ),
      ground arith,
      elim (Bool-cases (nic == "")) [
        | inl t ↦ rw t h
        | inr t ↦ elim (Bool-cases (listed nic cfg.nics)) [
          | inl l ↦ rw (t, l) weak
          | inr l ↦ rw (t, l) ((λ c. ground (arith, c)), weak)
        ]
      ],
    )

held-add_nics :
    (matches : String → String → Bool) (name : String) (nics : List String) (cfg : NicConfig)
    → IsMarked cfg.has_wildcards cfg.nics
    → let cfg' = add_nics nics cfg in
      (held matches name cfg' ≡ (held matches name cfg || selects matches name nics))
      × (cfg'.is_blacklist ≡ cfg.is_blacklist)
unfolding add_nics
held-add_nics matches name [] cfg h = (ground arith, refl)
held-add_nics matches name (nic ∷ nics) cfg h =
    let (first, mode, mark) = held-add_nic matches name nic cfg h in
    let (rest, modes) = held-add_nics matches name nics (add_nic nic cfg) mark in
    (ground (arith, first, rest), modes ∙ mode)

-- The decision of the code in terms of what a configuration holds.
is_valid_nic-held :
    (matches : String → String → Bool) (name : String) (cfg : NicConfig)
    → is_valid_nic matches name cfg
      ≡ (if held matches name cfg then not cfg.is_blacklist else cfg.is_blacklist)
unfolding is_valid_nic listed any_match
is_valid_nic-held matches name cfg = ground (arith, cfg.nics)

-- A list of interfaces without a leading '-' lets a name through exactly when the name is listed or
-- matches a listed pattern that has a '*'; with the '-' it lets exactly the other names through. Empty
-- parts of the list and repeated ones make no difference.
pub is_valid_nic_exact :
    (matches : String → String → Bool) (name : String) (nics : List String)
    → (is_valid_nic matches name (new_nic_config false nics) ≡ selects matches name nics)
      × (is_valid_nic matches name (new_nic_config true nics) ≡ not (selects matches name nics))
unfolding new_nic_config listed
is_valid_nic_exact matches name nics =
    let white : NicConfig = record { nics = []; is_blacklist = false; has_wildcards = false } in
    let black : NicConfig = record { nics = []; is_blacklist = true; has_wildcards = false } in
    let (same, mode) = held-add_nics matches name nics white tt in
    let (same', mode') = held-add_nics matches name nics black tt in
    (
      ground (arith, same, mode, is_valid_nic-held matches name (add_nics nics white)),
      ground (arith, same', mode', is_valid_nic-held matches name (add_nics nics black)),
    )
