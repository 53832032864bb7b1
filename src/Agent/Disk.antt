-- ===== src/Agent/Disk.antt =====
-- agent/disk.go: which device carries a file system. A walk through the map of counters takes the
-- devices in an order that Go leaves open; here it is the order of the list.
pub mod Choice
pub mod Discovery
pub mod Io
mod Examples
use mathlib.Core.List.{◌++◌ as append}
use homemonit.Base.{
  ℕ, ◌+◌, ◌-◌, ◌%◌, ◌^◌, String, Bool, true, false, not, ◌&&◌, ◌||◌, Option, none, some, List, [],
  ◌∷◌, ◌==◌, string_key, ltb, leb, nat_beq, if◌then◌else◌, trim_space, base, has_prefix, has_suffix,
  split_underscores, less,
}

-- `disk.IOCountersStat`, as far as it is read.
pub record IoCountersStat : Type 0 where
  pub name : String
  pub label : String
  pub read_bytes : ℕ
  pub write_bytes : ℕ
  pub read_time : ℕ
  pub write_time : ℕ
  pub io_time : ℕ
  pub weighted_io : ℕ
  pub read_count : ℕ
  pub write_count : ℕ

-- `disk.PartitionStat`, as far as it is read.
pub record PartitionStat : Type 0 where
  pub device : String
  pub mountpoint : String

-- A device and the custom name after "__", which may be missing.
unfoldable pub parse_filesystem_entry : String → String × String
parse_filesystem_entry entry =
    let parts = split_underscores (trim_space entry) in
    if parts.found
    then (trim_space parts.before, trim_space parts.after)
    else (trim_space entry, "")

unfoldable pub extra_filesystem_partition_info : PartitionStat → String × String
unfolding parse_filesystem_entry
extra_filesystem_partition_info p =
    let device = trim_space p.device in
    let (folder_device, custom_name) = parse_filesystem_entry (base p.mountpoint) in
    (if device == "" then folder_device else device, custom_name)

unfoldable pub is_docker_special_mountpoint : String → Bool
is_docker_special_mountpoint mountpoint =
    mountpoint == "/etc/hosts" || mountpoint == "/etc/resolv.conf" || mountpoint == "/etc/hostname"

unfoldable pub normalize_device_name : String → String
normalize_device_name value = let name = base (trim_space value) in if name == "." then "" else name

unfoldable pub prefix_related : String → String → Bool
prefix_related a b =
    if a == "" || b == "" || a == b then false else has_prefix a b || has_prefix b a

pub record IoMatchCandidate : Type 0 where
  pub name : String
  pub bytes : ℕ
  pub ops : ℕ

unfoldable pub candidate : IoCountersStat → IoMatchCandidate
candidate d = record {
  name = d.name;
  bytes = (d.read_bytes + d.write_bytes) % 2 ^ 64;
  ops = (d.read_count + d.write_count) % 2 ^ 64;
}

-- The first of two candidates takes the place of the second.
unfoldable pub beats : IoMatchCandidate → IoMatchCandidate → Bool
beats c best =
    ltb best.bytes c.bytes
    || (nat_beq c.bytes best.bytes && ltb best.ops c.ops)
    || (nat_beq c.bytes best.bytes && nat_beq c.ops best.ops && less c.name best.name)

unfoldable pub best_of : IoMatchCandidate → List IoMatchCandidate → IoMatchCandidate
best_of best [] = best
best_of best (c ∷ candidates) = best_of (if beats c best then c else best) candidates

unfoldable pub is_exact : String → IoCountersStat → Bool
is_exact filesystem d =
    normalize_device_name d.name == filesystem
    || (not (d.label == "") && normalize_device_name d.label == filesystem)

unfoldable pub is_related : String → IoCountersStat → Bool
unfolding prefix_related
is_related filesystem d =
    prefix_related (normalize_device_name d.name) filesystem
    || (not (d.label == "") && prefix_related (normalize_device_name d.label) filesystem)

pick : List IoMatchCandidate → Option String
pick [] = none
pick (c ∷ candidates) = some (best_of c candidates).name

-- The walk of `findIoDevice` with the candidates found before.
unfoldable pub find_from : String → List IoCountersStat → List IoMatchCandidate → Option String
unfolding pick
find_from filesystem [] candidates = pick candidates
find_from filesystem (d ∷ devices) candidates =
    let next =
      if is_related filesystem d then append candidates (candidate d ∷ []) else candidates in
    let rest = find_from filesystem devices next in
    if is_exact filesystem d then some d.name else rest

unfoldable pub find_io_device : String → List IoCountersStat → Option String
unfolding find_from
find_io_device filesystem devices =
    let name = normalize_device_name filesystem in
    if name == "" then none else find_from name devices []

unfoldable pub most_active_from : IoMatchCandidate → List IoCountersStat → IoMatchCandidate
most_active_from best [] = best
most_active_from best (d ∷ devices) =
    most_active_from (if best.name == "" || beats (candidate d) best then candidate d else best)
      devices

-- The empty text where there are no devices.
unfoldable pub most_active_io_device : List IoCountersStat → String
most_active_io_device devices =
    (most_active_from (record { name = ""; bytes = 0; ops = 0 }) devices).name

unfoldable pub filesystem_matches_partition_setting : String → PartitionStat → Bool
unfolding prefix_related
filesystem_matches_partition_setting setting p =
    let filesystem = trim_space setting in
    let fs_name = normalize_device_name filesystem in
    let part_name = normalize_device_name p.device in
    if filesystem == ""
    then false
    else if p.mountpoint == filesystem
    then true
    else if fs_name == "" || part_name == ""
    then false
    else if fs_name == part_name
    then true
    else prefix_related part_name fs_name

unfoldable pub within_usage_tolerance : ℕ → ℕ → ℕ → Bool
within_usage_tolerance a b tolerance =
    if leb b a then leb (a - b) tolerance else leb (b - a) tolerance
