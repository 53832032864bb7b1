-- ===== src/Agent/Disk/Discovery/Startup.antt =====
-- agent/disk.go: `initializeDiskInfo`, with the folders of /extra-filesystems, the last resort for the
-- root and the removal of file systems that show the root again.
use homemonit.Base.{
  ◌*◌, String, Bool, false, not, ◌&&◌, ◌||◌, Option, none, some, List, [], ◌∷◌, ◌==◌, string_key,
  nat_beq, if◌then◌else◌, keep, map_values,
}
use Prim.Native.String.{◌++◌}
use homemonit.Agent.Disk.{PartitionStat, parse_filesystem_entry, within_usage_tolerance}
use homemonit.Agent.Disk.Discovery.{
  TrackedFs, FsTable, UsageStat, DiskDiscovery, add_fs_stat, add_configured_root_fs,
  is_root_fallback_partition, add_partition_root_fs, add_last_resort_root_fs,
  add_configured_extra_filesystems, add_partition_extra_fs,
}

unfoldable pub is_mounted : String → List TrackedFs → Bool
is_mounted mountpoint [] = false
is_mounted mountpoint (fs ∷ rest) = fs.mountpoint == mountpoint || is_mounted mountpoint rest

-- `existing` are the file systems before the loop.
unfoldable pub add_folders : DiskDiscovery → List TrackedFs → List String → FsTable → FsTable
unfolding is_mounted
add_folders d existing [] fs_stats = fs_stats
add_folders d existing (folder_name ∷ folder_names) fs_stats =
    let mountpoint = d.ctx.ef_path ++ "/" ++ folder_name in
    let (device, custom_name) = parse_filesystem_entry folder_name in
    add_folders d existing folder_names (
      if is_mounted mountpoint existing
      then fs_stats
      else add_fs_stat d.ctx device mountpoint false custom_name fs_stats)

unfoldable pub add_extra_filesystem_folders : DiskDiscovery → List String → FsTable → FsTable
add_extra_filesystem_folders d folder_names fs_stats =
    add_folders d (map_values fs_stats) folder_names fs_stats

-- The loop over the partitions, with `hasRoot`.
unfoldable pub add_partitions :
    (String → String) → DiskDiscovery → List PartitionStat → FsTable × Bool → FsTable × Bool
add_partitions dir d [] (fs_stats, has_root) = (fs_stats, has_root)
add_partitions dir d (p ∷ partitions) (fs_stats, has_root) =
    let (fs_stats', has_root') =
      if not has_root && is_root_fallback_partition p d.root_mount_point
      then add_partition_root_fs d p.device p.mountpoint fs_stats
      else (fs_stats, has_root) in
    add_partitions dir d partitions (add_partition_extra_fs dir d p fs_stats', has_root')

unfoldable pub has_same_disk_usage : Option UsageStat → Option UsageStat → Bool
has_same_disk_usage none b = false
has_same_disk_usage (some a) none = false
has_same_disk_usage (some a) (some b) =
    let tolerance = 16 * 1_024 * 1_024 in
    not (nat_beq a.total 0)
    && not (nat_beq b.total 0)
    && within_usage_tolerance a.total b.total tolerance
    && within_usage_tolerance a.used b.used tolerance

-- The mount point of a root, the empty text where there is none.
unfoldable pub root_of : FsTable → String
root_of [] = ""
root_of ((name, fs) ∷ rest) = if fs.root then fs.mountpoint else root_of rest

unfoldable pub prune_duplicate_root_extra_filesystems :
    (String → Option UsageStat) → FsTable → FsTable
unfolding has_same_disk_usage
prune_duplicate_root_extra_filesystems usage fs_stats =
    let root = root_of fs_stats in
    let same : String × TrackedFs → Bool =
      λ entry. has_same_disk_usage (usage root) (usage entry.1.mountpoint) in
    if root == "" then fs_stats else keep (λ entry. entry.1.root || not (same entry)) fs_stats

-- The entries of EXTRA_FILESYSTEMS, none where it is not set.
unfoldable pub add_extra : DiskDiscovery → Option (List String) → FsTable → FsTable
add_extra d none fs_stats = fs_stats
add_extra d (some entries) fs_stats = add_configured_extra_filesystems d entries fs_stats

-- The folders of /extra-filesystems, none where it is not read.
unfoldable pub add_found_folders : DiskDiscovery → Option (List String) → FsTable → FsTable
add_found_folders d none fs_stats = fs_stats
add_found_folders d (some names) fs_stats = add_extra_filesystem_folders d names fs_stats

unfoldable pub initialize_disk_info :
    (String → String)
    → DiskDiscovery
    → Option (List String)
    → Option (List String)
    → FsTable
    → FsTable
unfolding add_partitions
initialize_disk_info dir d extra_filesystems folders fs_stats =
    let (configured, has_root) = add_configured_root_fs d fs_stats in
    let (partitioned, has_root') =
      add_partitions dir d d.partitions (add_extra d extra_filesystems configured, has_root) in
    let folded = add_found_folders d folders partitioned in
    prune_duplicate_root_extra_filesystems d.usage_fn
      (if has_root' then folded else add_last_resort_root_fs d folded)
