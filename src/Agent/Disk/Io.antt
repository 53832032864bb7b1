-- ===== src/Agent/Disk/Io.antt =====
-- agent/disk.go: the usage of the tracked file systems and the rates of their devices. A time is in
-- nanoseconds, 0 is the zero time, and the clock stands still within a call. What the operating system
-- answers is an argument, none on an error.
pub mod Snapshots
pub mod Rates
pub mod Sleeping
use homemonit.Base.{
  ℕ, ◌+◌, ◌-◌, ◌*◌, ◌/◌, ◌%◌, ◌^◌, String, Bool, true, false, not, ◌&&◌, ◌||◌, Option, none, some,
  List, [], ◌∷◌, string_key, nat_key, ltb, leb, nat_beq, if◌then◌else◌, lookup, insert, map_values,
  Float, FloatOps, two_decimals,
}
use mathlib.Core.List.{◌++◌}
use homemonit.Records.Stats.{Stats}
use homemonit.Agent.Deltas.{sub64}
use homemonit.Agent.Disk.{IoCountersStat}
use homemonit.Agent.Disk.Discovery.{TrackedFs, FsTable, UsageStat}

pub record PrevDisk : Type 0 where
  pub read_bytes : ℕ
  pub write_bytes : ℕ
  pub read_time : ℕ
  pub write_time : ℕ
  pub io_time : ℕ
  pub weighted_io : ℕ
  pub read_count : ℕ
  pub write_count : ℕ
  pub at : ℕ

unfoldable pub prev_disk_from_counter : IoCountersStat → ℕ → PrevDisk
prev_disk_from_counter d t = record {
  read_bytes = d.read_bytes;
  write_bytes = d.write_bytes;
  read_time = d.read_time;
  write_time = d.write_time;
  io_time = d.io_time;
  weighted_io = d.weighted_io;
  read_count = d.read_count;
  write_count = d.write_count;
  at = t;
}

-- The part of the agent that the disks use.
pub record DiskState : Type 0 where
  pub fs_stats : FsTable
  pub fs_names : List String
  pub disk_prev : List (ℕ × List (String × PrevDisk))
  pub last_disk_usage_update : ℕ
  pub disk_usage_cache_duration : ℕ

-- The counters of a tracked device as its baseline; the others stay as they are.
unfoldable pub initialize_entries :
    ℕ → List (String × IoCountersStat) → FsTable → FsTable × List String
initialize_entries now counters [] = ([], [])
initialize_entries now counters ((device, stats) ∷ rest) =
    let (rest', names) = initialize_entries now counters rest in
    elim (lookup device counters) [
      | none ↦ ((device, stats) ∷ rest', names)
      | some d ↦ (
        (
          device,
          record stats { time = now; total_read = d.read_bytes; total_write = d.write_bytes },
        )
            ∷ rest',
        device ∷ names,
      )
    ]

unfoldable pub initialize_disk_io_stats : ℕ → List (String × IoCountersStat) → DiskState → DiskState
unfolding initialize_entries
initialize_disk_io_stats now counters a =
    let (fs_stats, names) = initialize_entries now counters a.fs_stats in
    record a { fs_stats = fs_stats; fs_names = names }

-- `uint64` of the milliseconds between two times.
unfoldable pub ms_elapsed : ℕ → ℕ → ℕ
ms_elapsed now at =
    if leb at now then (now - at) / 1_000_000 else (2 ^ 64 - (at - now) / 1_000_000) % 2 ^ 64

-- Without a snapshot of the interval: the baseline of the file system, or the counters themselves.
seed : TrackedFs → IoCountersStat → ℕ → PrevDisk
seed stats d now =
    if nat_beq stats.time 0
    then prev_disk_from_counter d now
    else record (prev_disk_from_counter d stats.time) {
      read_bytes = stats.total_read;
      write_bytes = stats.total_write;
    }

unfoldable pub prev_or_seed : Option PrevDisk → TrackedFs → IoCountersStat → ℕ → PrevDisk
unfolding seed
prev_or_seed none stats d now = seed stats d now
prev_or_seed (some prev) stats d now = prev

-- Bytes in a second.
unfoldable pub disk_rate : ℕ → ℕ → ℕ → ℕ
disk_rate new old ms = sub64 new old * 1_000 % 2 ^ 64 / ms

module _ (o : FloatOps) where
  unfoldable pub bytes_to_megabytes : Float → Float
  bytes_to_megabytes b = two_decimals o (o.div b (o.of_nat 1_048_576))

  unfoldable pub bytes_to_gigabytes : ℕ → Float
  bytes_to_gigabytes b = two_decimals o (o.div (o.of_nat b) (o.of_nat 1_073_741_824))

  share : ℕ → ℕ → ℕ → Float
  share new old ms =
      two_decimals o (o.mul (o.div (o.of_nat (sub64 new old)) (o.of_nat ms)) (o.of_nat 100))

  await : ℕ → ℕ → Float
  await time count =
      if ltb 0 count then two_decimals o (o.div (o.of_nat time) (o.of_nat count)) else 0

  -- Read time, write time, utilization, the two awaits and the weighted time.
  unfoldable pub io_stats : IoCountersStat → PrevDisk → ℕ → List Float
  unfolding share await
  io_stats d prev ms =
      share d.read_time prev.read_time ms
      ∷ share d.write_time prev.write_time ms
      ∷ share d.io_time prev.io_time ms
      ∷ await (sub64 d.read_time prev.read_time) (sub64 d.read_count prev.read_count)
      ∷ await (sub64 d.write_time prev.write_time) (sub64 d.write_count prev.write_count)
      ∷ share d.weighted_io prev.weighted_io ms
      ∷ []

  unfoldable pub with_rates : ℕ → IoCountersStat → PrevDisk → ℕ → TrackedFs → TrackedFs
  unfolding disk_rate bytes_to_megabytes io_stats
  with_rates now d prev ms stats =
      let read = disk_rate d.read_bytes prev.read_bytes ms in
      let write = disk_rate d.write_bytes prev.write_bytes ms in
      record stats {
        time = now;
        total_read = d.read_bytes;
        total_write = d.write_bytes;
        disk_read_ps = bytes_to_megabytes (o.of_nat read);
        disk_write_ps = bytes_to_megabytes (o.of_nat write);
        disk_read_bytes = read;
        disk_write_bytes = write;
        disk_io_stats = io_stats d prev ms;
      }

  -- The statistics of the system take those of the root.
  unfoldable pub root_rates : TrackedFs → Stats → Stats
  root_rates stats s =
      if stats.root
      then record s {
        disk_read_ps = stats.disk_read_ps;
        disk_write_ps = stats.disk_write_ps;
        disk_io = (stats.disk_read_bytes, stats.disk_write_bytes);
        disk_io_stats = stats.disk_io_stats;
      }
      else s

  unfoldable pub invalid : TrackedFs → Bool
  invalid stats =
      o.lt (o.of_nat 50_000) stats.disk_read_ps || o.lt (o.of_nat 50_000) stats.disk_write_ps

  -- A device of which the file system is tracked, with the snapshot of the interval before.
  unfoldable pub measure :
      ℕ
      → List (String × IoCountersStat)
      → IoCountersStat
      → PrevDisk
      → TrackedFs
      → DiskState × Stats
      → DiskState × Stats
  unfolding with_rates root_rates invalid
  measure now counters d prev stats (a, s) =
      let ms = ms_elapsed now prev.at in
      let measured = with_rates now d prev ms stats in
      if ltb ms 100
      then (a, s)
      else if invalid measured
      then (initialize_disk_io_stats now counters a, s)
      else (record a { fs_stats = insert d.name measured a.fs_stats }, root_rates measured s)

  abbrev pub snapshots : ℕ → DiskState → List (String × PrevDisk)
  snapshots interval a = elim (lookup interval a.disk_prev) [ none ↦ [] | some m ↦ m ]

  abbrev pub with_snapshot : ℕ → String → PrevDisk → DiskState → DiskState
  with_snapshot interval name p a = record a {
    disk_prev = insert interval (insert name p (snapshots interval a)) a.disk_prev;
  }

  -- One round of the loop over the counters.
  unfoldable pub device_round :
      ℕ
      → ℕ
      → List (String × IoCountersStat)
      → String
      → IoCountersStat
      → DiskState × Stats
      → DiskState × Stats
  unfolding measure
  device_round interval now counters name d (a, s) = elim (lookup d.name a.fs_stats) [
    | none ↦ (a, s)
    | some stats ↦
        let prev = prev_or_seed (lookup name (snapshots interval a)) stats d now in
        measure now counters d prev stats
          (with_snapshot interval name (prev_disk_from_counter d now) a, s)
  ]

  unfoldable pub device_rounds :
      ℕ
      → ℕ
      → List (String × IoCountersStat)
      → List (String × IoCountersStat)
      → DiskState × Stats
      → DiskState × Stats
  unfolding device_round
  device_rounds interval now counters [] r = r
  device_rounds interval now counters ((name, d) ∷ rest) r =
      device_rounds interval now counters rest (device_round interval now counters name d r)

  unfoldable pub update_disk_io :
      ℕ → ℕ → Option (List (String × IoCountersStat)) → DiskState → Stats → DiskState × Stats
  unfolding device_rounds
  update_disk_io interval now none a s = (a, s)
  update_disk_io interval now (some counters) a s =
      let started = record a { disk_prev = insert interval (snapshots interval a) a.disk_prev } in
      device_rounds interval now counters counters (started, s)

  -- The usage of one file system.
  unfoldable pub with_usage : Option UsageStat → TrackedFs → TrackedFs
  with_usage none stats = record stats {
    disk_total = 0;
    disk_used = 0;
    total_read = 0;
    total_write = 0;
  }
  with_usage (some u) stats = record stats {
    disk_total = bytes_to_gigabytes u.total;
    disk_used = bytes_to_gigabytes u.used;
  }

  root_usage : Option UsageStat → TrackedFs → Stats → Stats
  root_usage none stats s = s
  root_usage (some u) stats s =
      if stats.root
      then record s {
        disk_total = bytes_to_gigabytes u.total;
        disk_used = bytes_to_gigabytes u.used;
        disk_pct = two_decimals o u.used_percent;
      }
      else s

  unfoldable pub usage_rounds :
      (String → Option UsageStat) → Bool → FsTable → Stats → FsTable × Stats
  unfolding with_usage root_usage
  usage_rounds usage cached [] s = ([], s)
  usage_rounds usage cached ((name, stats) ∷ rest) s =
      let answer = usage stats.mountpoint in
      let skip = cached && not stats.root in
      let (rest', s') =
        usage_rounds usage cached rest (if skip then s else root_usage answer stats s) in
      ((name, if skip then stats else with_usage answer stats) ∷ rest', s')

  unfoldable pub cache_extra_fs : ℕ → DiskState → Bool
  cache_extra_fs now a =
      ltb 0 a.disk_usage_cache_duration
      && not (nat_beq a.last_disk_usage_update 0)
      && ltb (now - a.last_disk_usage_update) a.disk_usage_cache_duration

  unfoldable pub update_disk_usage :
      (String → Option UsageStat) → ℕ → DiskState → Stats → DiskState × Stats
  unfolding usage_rounds cache_extra_fs
  update_disk_usage usage now a s =
      let cached = cache_extra_fs now a in
      let (fs_stats, s') = usage_rounds usage cached a.fs_stats s in
      (
        record a {
          fs_stats = fs_stats;
          last_disk_usage_update = if cached then a.last_disk_usage_update else now;
        },
        s',
      )
