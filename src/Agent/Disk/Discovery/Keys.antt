-- ===== src/Agent/Disk/Discovery/Keys.antt =====
-- The table of file systems at the start of the agent: one entry per key, and at most one root.
use homemonit.Base.{
  ℕ, ◌+◌, ◌≤◌, String, Bool, true, false, not, ◌&&◌, ◌||◌, ◌≡◌, inl, inr, refl, Option, none, some,
  List, [], ◌∷◌, ◌==◌, string_key, if◌then◌else◌, lookup, insert, keep, map_values, base,
  Option-cases, Bool-cases, arith,
}
use Prim.Native.String.{◌++◌}
use homemonit.Agent.Disk.{
  PartitionStat, most_active_io_device, find_io_device, parse_filesystem_entry,
  extra_filesystem_partition_info,
}
use homemonit.Agent.Disk.Discovery.{
  TrackedFs, FsTable, UsageStat, DiskDiscovery, FsRegistrationContext, devices, fs_key, tracked,
  register_filesystem_stats, add_fs_stat, setting_partition, add_configured_root_fs,
  is_root_fallback_partition, add_partition_root_fs, add_last_resort_root_fs,
  find_partition_by_filesystem_setting, add_configured_extra_fs_entry,
  add_configured_extra_filesystems, add_partition_extra_fs,
}
use homemonit.Agent.Disk.Discovery.Startup.{
  is_mounted, add_folders, add_extra_filesystem_folders, add_partitions, has_same_disk_usage,
  prune_duplicate_root_extra_filesystems, root_of, add_extra, add_found_folders,
  initialize_disk_info,
}

-- The number of root file systems.
unfoldable pub roots : FsTable → ℕ
roots [] = 0
roots ((name, fs) ∷ rest) = (if fs.root then 1 else 0) + roots rest

roots-insert :
    (key : String) (fs : TrackedFs) (t : FsTable)
    → roots (insert key fs t) ≤ roots t + (if fs.root then 1 else 0)
unfolding roots insert
roots-insert key fs [] = omega arith
roots-insert key fs ((name, old) ∷ rest) = ground (arith, roots-insert key fs rest)

roots-keep : (p : String × TrackedFs → Bool) (t : FsTable) → roots (keep p t) ≤ roots t
unfolding roots keep
roots-keep p [] = omega arith
roots-keep p ((name, fs) ∷ rest) = ground (arith, roots-keep p rest)

roots-add_fs_stat :
    (ctx : FsRegistrationContext) (device mountpoint : String) (root : Bool) (custom_name : String)
    (t : FsTable)
    → roots (add_fs_stat ctx device mountpoint root custom_name t)
      ≤ roots t + (if root then 1 else 0)
unfolding add_fs_stat register_filesystem_stats
roots-add_fs_stat ctx device mountpoint root custom_name t =
    let key = fs_key device mountpoint root ctx in
    elim (Option-cases (lookup key t)) [
      | inl e ↦ ground (arith, e, roots-insert key (tracked root mountpoint custom_name) t)
      | inr (fs, e) ↦ ground (arith, e)
    ]

-- The table holds a root only if `hasRoot` says so, and one at most.
pub record AtMostOne (t : FsTable) (has_root : Bool) : Type 0 where
  pub one : roots t ≤ 1
  pub known : has_root ≡ false → roots t ≡ 0

roots-extra_entry :
    (d : DiskDiscovery) (filesystem custom_name : String) (t : FsTable)
    → roots (add_configured_extra_fs_entry d filesystem custom_name t) ≤ roots t
unfolding add_configured_extra_fs_entry
roots-extra_entry d filesystem custom_name t =
    elim (Option-cases (find_partition_by_filesystem_setting filesystem d.partitions)) [
      | inr (p, e) ↦
          ground (arith, e, roots-add_fs_stat d.ctx p.device p.mountpoint false custom_name t)
      | inl e ↦ elim (Option-cases (d.usage_fn filesystem)) [
        | inr (u, f) ↦
            ground (
              arith,
              e,
              f,
              roots-add_fs_stat d.ctx (base filesystem) filesystem false custom_name t,
            )
        | inl f ↦ ground (arith, e, f)
      ]
    ]

roots-extra :
    (d : DiskDiscovery) (entries : List String) (t : FsTable)
    → roots (add_configured_extra_filesystems d entries t) ≤ roots t
unfolding add_configured_extra_filesystems
roots-extra d [] t = omega arith
roots-extra d (entry ∷ entries) t =
    let (filesystem, custom_name) = parse_filesystem_entry entry in
    omega (
      arith,
      roots-extra d entries (add_configured_extra_fs_entry d filesystem custom_name t),
      roots-extra_entry d filesystem custom_name t,
    )

roots-partition_extra :
    (dir : String → String) (d : DiskDiscovery) (p : PartitionStat) (t : FsTable)
    → roots (add_partition_extra_fs dir d p t) ≤ roots t
unfolding add_partition_extra_fs
roots-partition_extra dir d p t =
    let (device, custom_name) = extra_filesystem_partition_info p in
    ground (arith, roots-add_fs_stat d.ctx device p.mountpoint false custom_name t)

roots-folders :
    (d : DiskDiscovery) (existing : List TrackedFs) (names : List String) (t : FsTable)
    → roots (add_folders d existing names t) ≤ roots t
unfolding add_folders
roots-folders d existing [] t = omega arith
roots-folders d existing (name ∷ names) t =
    let mountpoint = d.ctx.ef_path ++ "/" ++ name in
    let (device, custom_name) = parse_filesystem_entry name in
    let added = add_fs_stat d.ctx device mountpoint false custom_name t in
    let next = if is_mounted mountpoint existing then t else added in
    let step : roots next ≤ roots t = elim (Bool-cases (is_mounted mountpoint existing)) [
      | inl e ↦ rw e (omega arith)
      | inr e ↦ rw e (omega (arith, roots-add_fs_stat d.ctx device mountpoint false custom_name t))
    ] in
    omega (arith, roots-folders d existing names next, step)

configured-AtMostOne :
    (d : DiskDiscovery) → let (t, has_root) = add_configured_root_fs d [] in AtMostOne t has_root
unfolding add_configured_root_fs roots insert
configured-AtMostOne d = elim (Bool-cases (d.ctx.filesystem == "")) [
  | inl e ↦ rw (add_configured_root_fs, e) (record { one = omega arith; known = λ f. refl })
  | inr e ↦ elim (Option-cases (setting_partition d.ctx.filesystem d.partitions)) [
    | inr (p, f) ↦
        rw (add_configured_root_fs, e, f)
          (record {
            one = omega (arith, roots-add_fs_stat d.ctx p.device p.mountpoint true "" []);
            known = λ g. cc;
          })
    | inl f ↦ elim (Option-cases (find_io_device d.ctx.filesystem (devices d.ctx))) [
      | inr (key, g) ↦
          rw (add_configured_root_fs, e, f, g) (record { one = omega arith; known = λ h. cc })
      | inl g ↦
          rw (add_configured_root_fs, e, f, g) (record { one = omega arith; known = λ h. refl })
    ]
  ]
]

partition_root-AtMostOne :
    (d : DiskDiscovery) (device mountpoint : String) (t : FsTable)
    → AtMostOne t false
    → let (t', has_root) = add_partition_root_fs d device mountpoint t in AtMostOne t' has_root
unfolding add_partition_root_fs
partition_root-AtMostOne d device mountpoint t v =
    elim (Option-cases (find_io_device (base device) (devices d.ctx))) [
      | inl e ↦ rw (add_partition_root_fs, e) v
      | inr (fs, e) ↦
          let none_yet = v.known refl in
          rw (add_partition_root_fs, e)
            (record {
              one = omega (arith, none_yet, roots-add_fs_stat d.ctx fs mountpoint true "" t);
              known = λ g. cc;
            })
    ]

fewer-AtMostOne :
    (t t' : FsTable) (has_root : Bool)
    → roots t' ≤ roots t
    → AtMostOne t has_root
    → AtMostOne t' has_root
fewer-AtMostOne t t' has_root le v = record {
  one = omega (arith, le, v.one);
  known = λ e. omega (arith, le, v.known e);
}

partitions-AtMostOne :
    (dir : String → String) (d : DiskDiscovery) (ps : List PartitionStat) (t : FsTable)
    (has_root : Bool)
    → AtMostOne t has_root
    → let (t', has_root') = add_partitions dir d ps (t, has_root) in AtMostOne t' has_root'
unfolding add_partitions
partitions-AtMostOne dir d [] t has_root v = v
partitions-AtMostOne dir d (p ∷ ps) t has_root v =
    let tries = not has_root && is_root_fallback_partition p d.root_mount_point in
    elim (Bool-cases tries) [
      | inr e ↦
          rw (add_partitions, e)
            (partitions-AtMostOne dir d ps (add_partition_extra_fs dir d p t) has_root (
              fewer-AtMostOne t (add_partition_extra_fs dir d p t) has_root
                (roots-partition_extra dir d p t) v))
      | inl e ↦
          let found = add_partition_root_fs d p.device p.mountpoint t in
          let t' = add_partition_extra_fs dir d p found.0 in
          let unknown : has_root ≡ false = ground (arith, e) in
          rw (add_partitions, e)
            (partitions-AtMostOne dir d ps t' found.1 (
              fewer-AtMostOne found.0 t' found.1 (roots-partition_extra dir d p found.0)
                (partition_root-AtMostOne d p.device p.mountpoint t (rw (← unknown) v))))
    ]

roots-add_extra :
    (d : DiskDiscovery) (entries : Option (List String)) (t : FsTable)
    → roots (add_extra d entries t) ≤ roots t
unfolding add_extra
roots-add_extra d none t = omega arith
roots-add_extra d (some entries) t = roots-extra d entries t

roots-found_folders :
    (d : DiskDiscovery) (folders : Option (List String)) (t : FsTable)
    → roots (add_found_folders d folders t) ≤ roots t
unfolding add_found_folders add_extra_filesystem_folders
roots-found_folders d none t = omega arith
roots-found_folders d (some names) t = roots-folders d (map_values t) names t

last_resort-roots :
    (d : DiskDiscovery) (t : FsTable) → roots t ≡ 0 → roots (add_last_resort_root_fs d t) ≤ 1
unfolding add_last_resort_root_fs
last_resort-roots d t e =
    let active = most_active_io_device (devices d.ctx) in
    let mount : String = base d.root_mount_point in
    let fallback : String = elim (lookup mount t) [ none ↦ mount | some fs ↦ "root" ] in
    omega (
      arith,
      e,
      roots-insert (if active == "" then fallback else active) (tracked true d.root_mount_point "")
          t,
    )

last_resort-one :
    (d : DiskDiscovery) (t : FsTable) (has_root : Bool)
    → AtMostOne t has_root
    → roots (if has_root then t else add_last_resort_root_fs d t) ≤ 1
last_resort-one d t true v = v.one
last_resort-one d t false v = let none_yet = v.known refl in last_resort-roots d t none_yet

roots-prune :
    (usage : String → Option UsageStat) (t : FsTable)
    → roots (prune_duplicate_root_extra_filesystems usage t) ≤ roots t
unfolding prune_duplicate_root_extra_filesystems
roots-prune usage t =
    let same : String × TrackedFs → Bool =
      λ entry. has_same_disk_usage (usage (root_of t)) (usage entry.1.mountpoint) in
    elim (Bool-cases (root_of t == "")) [
      | inl e ↦ rw (prune_duplicate_root_extra_filesystems, e) (omega arith)
      | inr e ↦
          rw (prune_duplicate_root_extra_filesystems, e)
            (roots-keep (λ entry. entry.1.root || not (same entry)) t)
    ]

-- At the start of the agent at most one file system is taken for the root, whatever the variables, the
-- partitions, the counters and the folders are.
pub initialize_disk_info-one_root :
    (dir : String → String) (d : DiskDiscovery) (entries folders : Option (List String))
    → roots (initialize_disk_info dir d entries folders []) ≤ 1
unfolding initialize_disk_info
initialize_disk_info-one_root dir d entries folders =
    let (configured, has_root) = add_configured_root_fs d [] in
    let extended = add_extra d entries configured in
    let (partitioned, has_root') = add_partitions dir d d.partitions (extended, has_root) in
    let folded = add_found_folders d folders partitioned in
    let start =
      fewer-AtMostOne configured extended has_root (roots-add_extra d entries configured)
        (configured-AtMostOne d) in
    let walked = partitions-AtMostOne dir d d.partitions extended has_root start in
    let last =
      fewer-AtMostOne partitioned folded has_root' (roots-found_folders d folders partitioned)
        walked in
    omega (
      arith,
      roots-prune d.usage_fn (if has_root' then folded else add_last_resort_root_fs d folded),
      last_resort-one d folded has_root' last,
    )

-- The root partition of which the device is tracked as an extra file system already: no root is added,
-- and the table stays as it is, but the answer is that a root was added.
pub add_partition_root_fs_taken :
    (d : DiskDiscovery) (device mountpoint fs : String) (old : TrackedFs) (t : FsTable)
    → find_io_device (base device) (devices d.ctx) ≡ some fs
    → lookup (fs_key fs mountpoint true d.ctx) t ≡ some old
    → add_partition_root_fs d device mountpoint t ≡ (t, true)
unfolding add_partition_root_fs add_fs_stat register_filesystem_stats
add_partition_root_fs_taken d device mountpoint fs old t e f = ground (arith, e, f)
