-- ===== src/Agent/Nics.antt =====
-- agent/network.go: which network interfaces are watched. `matches` is `path.Match` of a pattern and a
-- name, false where the pattern is malformed.
pub mod Selection
use homemonit.Base.{
  ℕ, String, Bool, true, false, not, ◌&&◌, ◌||◌, Option, none, some, List, [], ◌∷◌, string_key,
  ◌==◌, nat_beq, if◌then◌else◌,
}
use text.Mathlib.Text.{starts_with, find?}

pub record IoCounters : Type 0 where
  pub name : String
  pub bytes_sent : ℕ
  pub bytes_recv : ℕ

pub record NicConfig : Type 0 where
  pub nics : List String
  pub is_blacklist : Bool
  pub has_wildcards : Bool

unfoldable pub listed : String → List String → Bool
listed name [] = false
listed name (nic ∷ nics) = nic == name || listed name nics

unfoldable pub contains : String → String → Bool
contains s t = elim (find? s t) [ none ↦ false | some i ↦ true ]

-- `newNicConfig` after the value is split at its commas and each part trimmed; `minus` says that the
-- value began with '-', which is cut off first.
unfoldable pub add_nic : String → NicConfig → NicConfig
add_nic nic cfg = if nic == "" then cfg else record cfg {
  nics = if listed nic cfg.nics then cfg.nics else nic ∷ cfg.nics;
  has_wildcards = cfg.has_wildcards || contains nic "*";
}

unfoldable pub add_nics : List String → NicConfig → NicConfig
add_nics [] cfg = cfg
add_nics (nic ∷ nics) cfg = add_nics nics (add_nic nic cfg)

unfoldable pub new_nic_config : Bool → List String → NicConfig
new_nic_config minus nics =
    add_nics nics (record { nics = []; is_blacklist = minus; has_wildcards = false })

module _ (matches : String → String → Bool) where
  -- Some pattern with a wildcard matches the name.
  unfoldable pub any_match : String → List String → Bool
  any_match name [] = false
  any_match name (pattern ∷ patterns) =
      (contains pattern "*" && matches pattern name) || any_match name patterns

  unfoldable pub is_valid_nic : String → NicConfig → Bool
  is_valid_nic name cfg =
      let none_listed : Bool = elim cfg.nics [ [] ↦ true | nic ∷ nics ↦ false ] in
      if none_listed
      then cfg.is_blacklist
      else if listed name cfg.nics
      then not cfg.is_blacklist
      else if not cfg.has_wildcards
      then cfg.is_blacklist
      else if any_match name cfg.nics
      then not cfg.is_blacklist
      else cfg.is_blacklist

  abbrev pub auto_skipped : IoCounters → Bool
  auto_skipped v =
      starts_with v.name "lo"
      || starts_with v.name "docker"
      || starts_with v.name "br-"
      || starts_with v.name "veth"
      || starts_with v.name "bond"
      || starts_with v.name "cali"
      || nat_beq v.bytes_recv 0
      || nat_beq v.bytes_sent 0

  unfoldable pub skip_network_interface : IoCounters → Option NicConfig → Bool
  skip_network_interface v none = auto_skipped v
  skip_network_interface v (some cfg) =
      if not (is_valid_nic v.name cfg)
      then true
      else if not cfg.is_blacklist
      then false
      else auto_skipped v
