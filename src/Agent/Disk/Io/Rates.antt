-- ===== src/Agent/Disk/Io/Rates.antt =====
-- agent/disk.go: the rates of a device that is tracked.
use homemonit.Base.{
  ℕ, ◌+◌, ◌-◌, ◌*◌, ◌/◌, ◌%◌, ◌^◌, ◌≤◌, ◌<◌, String, false, ◌≡◌, refl, ◌∙◌, some, List, string_key,
  nat_key, ltb, if◌then◌else◌, lookup, insert, lookup-insert, Float, FloatOps, arith,
}
use homemonit.Records.Stats.{Stats}
use homemonit.Agent.Deltas.{sub64}
use homemonit.Agent.Disk.{IoCountersStat}
use homemonit.Agent.Disk.Discovery.{TrackedFs}
use homemonit.Agent.Disk.Io.{
  PrevDisk, DiskState, prev_disk_from_counter, ms_elapsed, prev_or_seed, disk_rate, with_rates,
  bytes_to_megabytes, root_rates, invalid, measure, snapshots, with_snapshot, device_round,
}

module _ (o : FloatOps) where
  ms_elapsed-exact : (now at : ℕ) → at ≤ now → ms_elapsed now at ≡ (now - at) / 1_000_000
  unfolding ms_elapsed
  ms_elapsed-exact now at le = ground (arith, le)

  disk_rate-exact :
      (new old ms : ℕ)
      → old ≤ new
      → new * 1_000 < 2 ^ 64
      → disk_rate new old ms ≡ (new - old) * 1_000 / ms
  unfolding disk_rate
  disk_rate-exact new old ms le small =
      let same : sub64 new old * 1_000 % 2 ^ 64 ≡ (new - old) * 1_000 = omega (arith, le, small) in
      rw same refl

  measure-valid :
      (now : ℕ) (counters : List (String × IoCountersStat)) (d : IoCountersStat) (prev : PrevDisk)
      (stats : TrackedFs) (a : DiskState) (s : Stats)
      → ltb (ms_elapsed now prev.at) 100 ≡ false
      → let fs = with_rates o now d prev (ms_elapsed now prev.at) stats in
        invalid o fs ≡ false
        → measure o now counters d prev stats (a, s)
          ≡ (record a { fs_stats = insert d.name fs a.fs_stats }, root_rates o fs s)
  unfolding measure
  measure-valid now counters d prev stats a s enough valid = rw (measure, enough, valid) refl

  device_round-known :
      (interval now : ℕ) (counters : List (String × IoCountersStat)) (name : String)
      (d : IoCountersStat) (a : DiskState) (s : Stats) (stats : TrackedFs) (prev : PrevDisk)
      → lookup d.name a.fs_stats ≡ some stats
      → lookup name (snapshots o interval a) ≡ some prev
      → device_round o interval now counters name d (a, s)
        ≡ measure o now counters d prev stats
            (with_snapshot o interval name (prev_disk_from_counter d now) a, s)
  unfolding device_round prev_or_seed
  device_round-known interval now counters name d a s stats prev e f = rw (device_round, e, f) refl

  root_rates-read :
      (fs : TrackedFs) (s : Stats) (stats : TrackedFs)
      → fs.root ≡ stats.root
      → root_rates o fs s ≡ (
          if stats.root
          then record s {
            disk_read_ps = fs.disk_read_ps;
            disk_write_ps = fs.disk_write_ps;
            disk_io = (fs.disk_read_bytes, fs.disk_write_bytes);
            disk_io_stats = fs.disk_io_stats;
          }
          else s)
  unfolding root_rates
  root_rates-read fs s stats e = ground (arith, e)

  -- Bytes are read or written: what they are in a second, and in megabytes.
  abbrev pub IsRate : ℕ → ℕ → ℕ → ℕ → Float → Type 0
  IsRate old new ms rate megabytes =
      (rate ≡ (new - old) * 1_000 / ms) × (megabytes ≡ bytes_to_megabytes o (o.of_nat rate))

  -- A file system that has just been measured.
  pub record IsMeasured (now ms : ℕ) (d : IoCountersStat) (prev : PrevDisk) (stats fs : TrackedFs)
      : Type 0 where
    pub read : IsRate prev.read_bytes d.read_bytes ms fs.disk_read_bytes fs.disk_read_ps
    pub write : IsRate prev.write_bytes d.write_bytes ms fs.disk_write_bytes fs.disk_write_ps
    pub baseline : (fs.total_read ≡ d.read_bytes) × (fs.total_write ≡ d.write_bytes)
    pub at : fs.time ≡ now
    pub same_root : fs.root ≡ stats.root

  with_rates-IsMeasured :
      (now : ℕ) (d : IoCountersStat) (prev : PrevDisk) (stats : TrackedFs)
      → prev.at ≤ now
      → prev.read_bytes ≤ d.read_bytes
      → prev.write_bytes ≤ d.write_bytes
      → d.read_bytes * 1_000 < 2 ^ 64
      → d.write_bytes * 1_000 < 2 ^ 64
      → IsMeasured now
          ((now - prev.at) / 1_000_000)
          d
          prev
          stats
          (with_rates o now d prev (ms_elapsed now prev.at) stats)
  unfolding with_rates
  with_rates-IsMeasured now d prev stats late r w r' w' =
      let ms = ms_elapsed now prev.at in
      let same = ms_elapsed-exact now prev.at late in
      record {
        read = (disk_rate-exact d.read_bytes prev.read_bytes ms r r' ∙ rw same refl, refl);
        write = (disk_rate-exact d.write_bytes prev.write_bytes ms w w' ∙ rw same refl, refl);
        baseline = (refl, refl);
        at = refl;
        same_root = refl;
      }

  -- A tracked device with a snapshot of the interval that is at least 100 ms old, of which the
  -- counters of bytes did not go back, are less than 2^64 / 1000, and give rates that are valid. Both
  -- rates are those of the bytes since the snapshot, and the baseline of the file system moves on to
  -- both counters. The statistics of the system take the rates of the root, and of no other.
  pub device_round-rate :
      (interval now : ℕ) (counters : List (String × IoCountersStat)) (name : String)
      (d : IoCountersStat) (a : DiskState) (s : Stats) (stats : TrackedFs) (prev : PrevDisk)
      → lookup d.name a.fs_stats ≡ some stats
      → lookup name (snapshots o interval a) ≡ some prev
      → prev.at + 100_000_000 ≤ now
      → prev.read_bytes ≤ d.read_bytes
      → prev.write_bytes ≤ d.write_bytes
      → d.read_bytes * 1_000 < 2 ^ 64
      → d.write_bytes * 1_000 < 2 ^ 64
      → invalid o (with_rates o now d prev (ms_elapsed now prev.at) stats) ≡ false
      → let (a', s') = device_round o interval now counters name d (a, s) in
        (fs : TrackedFs) × (lookup d.name a'.fs_stats ≡ some fs)
        × IsMeasured now ((now - prev.at) / 1_000_000) d prev stats fs
        × (s' ≡ (
            if stats.root
            then record s {
              disk_read_ps = fs.disk_read_ps;
              disk_write_ps = fs.disk_write_ps;
              disk_io = (fs.disk_read_bytes, fs.disk_write_bytes);
              disk_io_stats = fs.disk_io_stats;
            }
            else s))
  unfolding root_rates
  device_round-rate interval now counters name d a s stats prev e f late r w r' w' valid =
      let ms = ms_elapsed now prev.at in
      let fs = with_rates o now d prev ms stats in
      let b = with_snapshot o interval name (prev_disk_from_counter d now) a in
      let same = ms_elapsed-exact now prev.at (omega (arith, late)) in
      let enough : ltb ms 100 ≡ false = ground (arith, same, late) in
      let measured = with_rates-IsMeasured now d prev stats (omega (arith, late)) r w r' w' in
      let known = device_round-known interval now counters name d a s stats prev e f in
      let stored = measure-valid now counters d prev stats b s enough valid in
      (
        fs,
        rw (known, stored)
            (ground (
              arith,
              lookup-insert d.name d.name fs a.fs_stats,
              string_key.test_iff d.name d.name,
            )),
        measured,
        rw (known, stored) (root_rates-read fs s stats measured.same_root),
      )
