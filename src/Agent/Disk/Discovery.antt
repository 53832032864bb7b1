-- ===== src/Agent/Disk/Discovery.antt =====
-- agent/disk.go: which file systems are tracked, and under which key. What the operating system is
-- asked is an argument, such as the usage of a mount point (none on an error). Paths are those of Unix.
pub mod Startup
pub mod Keys
use homemonit.Base.{
  ℕ, ◌+◌, String, Bool, true, false, not, ◌&&◌, ◌||◌, Option, none, some, List, [], ◌∷◌, ◌==◌,
  string_key, nat_beq, if◌then◌else◌, lookup, insert, erase, map_values, base, has_prefix,
  has_suffix, Float,
}
use homemonit.Agent.Disk.{
  IoCountersStat, PartitionStat, parse_filesystem_entry, extra_filesystem_partition_info,
  is_docker_special_mountpoint, find_io_device, most_active_io_device,
  filesystem_matches_partition_setting, within_usage_tolerance,
}

-- An entry of `fsStats`, as far as the agent itself reads it. The time 0 is the zero time.
pub record TrackedFs : Type 0 where
  pub root : Bool
  pub mountpoint : String
  pub name : String
  pub time : ℕ
  pub total_read : ℕ
  pub total_write : ℕ
  pub disk_total : Float
  pub disk_used : Float
  pub disk_read_ps : Float
  pub disk_write_ps : Float
  pub disk_read_bytes : ℕ
  pub disk_write_bytes : ℕ
  pub disk_io_stats : List Float

abbrev pub tracked : Bool → String → String → TrackedFs
tracked root mountpoint name = record {
  root = root;
  mountpoint = mountpoint;
  name = name;
  time = 0;
  total_read = 0;
  total_write = 0;
  disk_total = 0;
  disk_used = 0;
  disk_read_ps = 0;
  disk_write_ps = 0;
  disk_read_bytes = 0;
  disk_write_bytes = 0;
  disk_io_stats = 0 ∷ 0 ∷ 0 ∷ 0 ∷ 0 ∷ 0 ∷ [];
}

abbrev pub FsTable : Type 0
FsTable = List (String × TrackedFs)

pub record FsRegistrationContext : Type 0 where
  pub filesystem : String
  pub is_windows : Bool
  pub ef_path : String
  pub disk_io_counters : List (String × IoCountersStat)

pub record UsageStat : Type 0 where
  pub total : ℕ
  pub used : ℕ
  pub used_percent : Float

-- What a run of `initializeDiskInfo` shares, without the agent.
pub record DiskDiscovery : Type 0 where
  pub root_mount_point : String
  pub partitions : List PartitionStat
  pub usage_fn : String → Option UsageStat
  pub ctx : FsRegistrationContext

unfoldable pub devices : FsRegistrationContext → List IoCountersStat
devices ctx = map_values ctx.disk_io_counters

unfoldable pub mapped : String → FsRegistrationContext → Bool
mapped key ctx = elim (lookup key ctx.disk_io_counters) [ none ↦ false | some d ↦ true ]

abbrev pub found_or : String → Option String → String
found_or key none = key
found_or key (some name) = name

-- The key of a root file system: a device of the counters where one is found.
unfoldable pub root_key : String → FsRegistrationContext → String
root_key key ctx = if mapped key ctx then key else elim (find_io_device key (devices ctx)) [
  | some name ↦ name
  | none ↦
      if ctx.filesystem == ""
      then key
      else found_or key (find_io_device ctx.filesystem (devices ctx))
]

-- The device that the folder of a mount under /extra-filesystems names.
unfoldable pub folder_key : String → String → FsRegistrationContext → String
folder_key key mountpoint ctx =
    let (folder_device, custom_name) = parse_filesystem_entry (base mountpoint) in
    if has_prefix mountpoint ctx.ef_path && not (folder_device == "")
    then found_or key (find_io_device folder_device (devices ctx))
    else key

unfoldable pub extra_key : String → String → FsRegistrationContext → String
unfolding folder_key
extra_key key mountpoint ctx =
    let named = folder_key key mountpoint ctx in
    if mapped key ctx
    then key
    else if mapped named ctx
    then named
    else found_or named (find_io_device named (devices ctx))

unfoldable pub fs_key : String → String → Bool → FsRegistrationContext → String
unfolding root_key extra_key mapped
fs_key device mountpoint root ctx =
    let key = if ctx.is_windows then device else base device in
    if root then root_key key ctx else extra_key key mountpoint ctx

-- none where the key is taken.
unfoldable pub register_filesystem_stats :
    FsTable → String → String → Bool → String → FsRegistrationContext → Option (String × TrackedFs)
unfolding fs_key
register_filesystem_stats existing device mountpoint root custom_name ctx =
    let key = fs_key device mountpoint root ctx in
    elim (lookup key existing) [
      | some fs ↦ none
      | none ↦ some (key, tracked root mountpoint custom_name)
    ]

unfoldable pub add_fs_stat :
    FsRegistrationContext → String → String → Bool → String → FsTable → FsTable
unfolding register_filesystem_stats
add_fs_stat ctx device mountpoint root custom_name fs_stats =
    elim (register_filesystem_stats fs_stats device mountpoint root custom_name ctx) [
      | none ↦ fs_stats
      | some entry ↦ insert entry.0 entry.1 fs_stats
    ]

-- The partition that FILESYSTEM names.
unfoldable pub setting_partition : String → List PartitionStat → Option PartitionStat
setting_partition filesystem [] = none
setting_partition filesystem (p ∷ partitions) =
    if filesystem_matches_partition_setting filesystem p
    then some p
    else setting_partition filesystem partitions

-- The table, and whether a root was added.
unfoldable pub add_configured_root_fs : DiskDiscovery → FsTable → FsTable × Bool
unfolding setting_partition
add_configured_root_fs d fs_stats =
    if d.ctx.filesystem == ""
    then (fs_stats, false)
    else elim (setting_partition d.ctx.filesystem d.partitions) [
      | some p ↦ (add_fs_stat d.ctx p.device p.mountpoint true "" fs_stats, true)
      | none ↦ elim (find_io_device d.ctx.filesystem (devices d.ctx)) [
        | some key ↦ (insert key (tracked true d.root_mount_point "") fs_stats, true)
        | none ↦ (fs_stats, false)
      ]
    ]

unfoldable pub is_root_fallback_partition : PartitionStat → String → Bool
is_root_fallback_partition p root_mount_point =
    p.mountpoint == root_mount_point
    || (is_docker_special_mountpoint p.mountpoint && has_prefix p.device "/dev")

unfoldable pub add_partition_root_fs : DiskDiscovery → String → String → FsTable → FsTable × Bool
add_partition_root_fs d device mountpoint fs_stats =
    elim (find_io_device (base device) (devices d.ctx)) [
      | none ↦ (fs_stats, false)
      | some fs ↦ (add_fs_stat d.ctx fs mountpoint true "" fs_stats, true)
    ]

unfoldable pub add_last_resort_root_fs : DiskDiscovery → FsTable → FsTable
add_last_resort_root_fs d fs_stats =
    let active = most_active_io_device (devices d.ctx) in
    let mount : String = base d.root_mount_point in
    let fallback : String = elim (lookup mount fs_stats) [ none ↦ mount | some fs ↦ "root" ] in
    insert (if active == "" then fallback else active) (tracked true d.root_mount_point "") fs_stats

unfoldable pub find_partition_by_filesystem_setting :
    String → List PartitionStat → Option PartitionStat
find_partition_by_filesystem_setting filesystem [] = none
find_partition_by_filesystem_setting filesystem (p ∷ partitions) =
    if has_suffix p.device filesystem || p.mountpoint == filesystem
    then some p
    else find_partition_by_filesystem_setting filesystem partitions

unfoldable pub add_configured_extra_fs_entry : DiskDiscovery → String → String → FsTable → FsTable
add_configured_extra_fs_entry d filesystem custom_name fs_stats =
    elim (find_partition_by_filesystem_setting filesystem d.partitions) [
      | some p ↦ add_fs_stat d.ctx p.device p.mountpoint false custom_name fs_stats
      | none ↦ elim (d.usage_fn filesystem) [
        | some usage ↦ add_fs_stat d.ctx (base filesystem) filesystem false custom_name fs_stats
        | none ↦ fs_stats
      ]
    ]

-- The entries of EXTRA_FILESYSTEMS, split at the commas.
unfoldable pub add_configured_extra_filesystems : DiskDiscovery → List String → FsTable → FsTable
add_configured_extra_filesystems d [] fs_stats = fs_stats
add_configured_extra_filesystems d (entry ∷ entries) fs_stats =
    let (filesystem, custom_name) = parse_filesystem_entry entry in
    add_configured_extra_filesystems d entries
      (add_configured_extra_fs_entry d filesystem custom_name fs_stats)

-- `dir` is `filepath.Dir` of the mount point.
unfoldable pub add_partition_extra_fs :
    (String → String) → DiskDiscovery → PartitionStat → FsTable → FsTable
add_partition_extra_fs dir d p fs_stats =
    let (device, custom_name) = extra_filesystem_partition_info p in
    if dir p.mountpoint == d.ctx.ef_path
    then add_fs_stat d.ctx device p.mountpoint false custom_name fs_stats
    else fs_stats
