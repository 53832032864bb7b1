-- ===== src/Records/Sums.antt =====
-- internal/records/records.go, `AverageSystemStatsSlice`: the loop that adds the records up.
mod Zeros
unfoldable pub use Zeros.*
use homemonit.Base.{
  ℕ, ◌+◌, ◌%◌, ◌^◌, String, List, [], ◌∷◌, Option, none, some, lookup, insert, string_key, Float,
  FloatOps,
}
use Prim.Native.Nat.{max}
use homemonit.Records.Stats.{FsStats, GpuData, NicStats, Stats}

-- sums[j] += v for each v, the sums first made long enough with zeros.
unfoldable pub add_cores : List ℕ → List ℕ → List ℕ
add_cores sums [] = sums
add_cores [] (v ∷ values) = u64 (0 + v) ∷ add_cores [] values
add_cores (s ∷ sums) (v ∷ values) = u64 (s + v) ∷ add_cores sums values

unfoldable pub add_nic : NicStats → NicStats → NicStats
add_nic s v = record {
  up = u64 (s.up + v.up);
  down = u64 (s.down + v.down);
  total_up = max s.total_up v.total_up;
  total_down = max s.total_down v.total_down;
}

-- The loop over one record's interfaces.
unfoldable pub add_nics :
    List (String × NicStats) → List (String × NicStats) → List (String × NicStats)
unfolding some_or
add_nics sums [] = sums
add_nics sums ((key, value) ∷ rest) =
    let old =
      some_or (record { up = 0; down = 0; total_up = 0; total_down = 0 }) (lookup key sums) in
    add_nics (insert key (add_nic old value) sums) rest

module _ (o : FloatOps) where
  -- The elements of two arrays joined one by one.
  unfoldable pub join : (Float → Float → Float) → List Float → List Float → List Float
  join f [] ys = []
  join f (x ∷ xs) [] = x ∷ xs
  join f (x ∷ xs) (y ∷ ys) = f x y ∷ join f xs ys

  -- As `add_cores`, for the breakdown.
  unfoldable pub add_breakdown : List Float → List Float → List Float
  add_breakdown sums [] = sums
  add_breakdown [] (v ∷ values) = o.add 0 v ∷ add_breakdown [] values
  add_breakdown (s ∷ sums) (v ∷ values) = o.add s v ∷ add_breakdown sums values

  -- max(a, b, c)
  abbrev max3 : Float → Float → Float → Float
  max3 a b c = o.max (o.max a b) c

  unfoldable pub add_scalars : Stats → Stats → Stats
  add_scalars sum stats = record sum {
    cpu = o.add sum.cpu stats.cpu;
    mem = o.add sum.mem stats.mem;
    mem_used = o.add sum.mem_used stats.mem_used;
    mem_pct = o.add sum.mem_pct stats.mem_pct;
    mem_buff_cache = o.add sum.mem_buff_cache stats.mem_buff_cache;
    mem_zfs_arc = o.add sum.mem_zfs_arc stats.mem_zfs_arc;
    swap = o.add sum.swap stats.swap;
    swap_used = o.add sum.swap_used stats.swap_used;
    disk_total = o.add sum.disk_total stats.disk_total;
    disk_used = o.add sum.disk_used stats.disk_used;
    disk_pct = o.add sum.disk_pct stats.disk_pct;
    disk_read_ps = o.add sum.disk_read_ps stats.disk_read_ps;
    disk_write_ps = o.add sum.disk_write_ps stats.disk_write_ps;
    network_sent = o.add sum.network_sent stats.network_sent;
    network_recv = o.add sum.network_recv stats.network_recv;
    load_avg = join o.add sum.load_avg stats.load_avg;
    bandwidth =
        (u64 (sum.bandwidth.0 + stats.bandwidth.0), u64 (sum.bandwidth.1 + stats.bandwidth.1));
    disk_io = (u64 (sum.disk_io.0 + stats.disk_io.0), u64 (sum.disk_io.1 + stats.disk_io.1));
    disk_io_stats = join o.add sum.disk_io_stats stats.disk_io_stats;
    battery = (sum.battery.0, stats.battery.1);
  }

  unfoldable pub add_peaks : Stats → Stats → Stats
  add_peaks sum stats = record sum {
    max_cpu = max3 sum.max_cpu stats.max_cpu stats.cpu;
    max_mem = max3 sum.max_mem stats.max_mem stats.mem_used;
    max_network_sent = max3 sum.max_network_sent stats.max_network_sent stats.network_sent;
    max_network_recv = max3 sum.max_network_recv stats.max_network_recv stats.network_recv;
    max_disk_read_ps = max3 sum.max_disk_read_ps stats.max_disk_read_ps stats.disk_read_ps;
    max_disk_write_ps = max3 sum.max_disk_write_ps stats.max_disk_write_ps stats.disk_write_ps;
    max_bandwidth = (
      max (max sum.max_bandwidth.0 stats.max_bandwidth.0) stats.bandwidth.0,
      max (max sum.max_bandwidth.1 stats.max_bandwidth.1) stats.bandwidth.1,
    );
    max_disk_io = (
      max (max sum.max_disk_io.0 stats.max_disk_io.0) stats.disk_io.0,
      max (max sum.max_disk_io.1 stats.max_disk_io.1) stats.disk_io.1,
    );
    max_disk_io_stats =
        join o.max (join o.max sum.max_disk_io_stats stats.max_disk_io_stats) stats.disk_io_stats;
  }

  unfoldable pub add_temperatures :
      List (String × Float) → List (String × Float) → List (String × Float)
  add_temperatures sums [] = sums
  add_temperatures sums ((key, value) ∷ rest) =
      add_temperatures (insert key (o.add (some_or 0 (lookup key sums)) value) sums) rest

  unfoldable pub add_fs : FsStats → FsStats → FsStats
  add_fs fs value = record {
    disk_total = o.add fs.disk_total value.disk_total;
    disk_used = o.add fs.disk_used value.disk_used;
    disk_write_ps = o.add fs.disk_write_ps value.disk_write_ps;
    disk_read_ps = o.add fs.disk_read_ps value.disk_read_ps;
    max_disk_read_ps = max3 fs.max_disk_read_ps value.max_disk_read_ps value.disk_read_ps;
    max_disk_write_ps = max3 fs.max_disk_write_ps value.max_disk_write_ps value.disk_write_ps;
    disk_read_bytes = u64 (fs.disk_read_bytes + value.disk_read_bytes);
    disk_write_bytes = u64 (fs.disk_write_bytes + value.disk_write_bytes);
    max_disk_read_bytes =
        max (max fs.max_disk_read_bytes value.max_disk_read_bytes) value.disk_read_bytes;
    max_disk_write_bytes =
        max (max fs.max_disk_write_bytes value.max_disk_write_bytes) value.disk_write_bytes;
    disk_io_stats = join o.add fs.disk_io_stats value.disk_io_stats;
    max_disk_io_stats =
        join o.max (join o.max fs.max_disk_io_stats value.max_disk_io_stats) value.disk_io_stats;
  }

  unfoldable pub add_extra_fs :
      List (String × FsStats) → List (String × FsStats) → List (String × FsStats)
  add_extra_fs sums [] = sums
  add_extra_fs sums ((key, value) ∷ rest) =
      add_extra_fs (insert key (add_fs (some_or no_fs (lookup key sums)) value) sums) rest

  unfoldable pub add_engines :
      Option (List (String × Float))
      → Option (List (String × Float))
      → Option (List (String × Float))
  add_engines sums none = sums
  add_engines none (some values) = some (add_temperatures [] values)
  add_engines (some sums) (some values) = some (add_temperatures sums values)

  -- A new entry takes the name of its first value.
  unfoldable pub gpu_or_new : GpuData → Option GpuData → GpuData
  gpu_or_new value (some gpu) = gpu
  gpu_or_new value none = record {
    name = value.name;
    temperature = 0;
    memory_used = 0;
    memory_total = 0;
    usage = 0;
    power = 0;
    count = 0;
    engines = none;
    power_pkg = 0;
  }

  unfoldable pub add_gpu : GpuData → GpuData → GpuData
  add_gpu gpu value = record gpu {
    temperature = o.add gpu.temperature value.temperature;
    memory_used = o.add gpu.memory_used value.memory_used;
    memory_total = o.add gpu.memory_total value.memory_total;
    usage = o.add gpu.usage value.usage;
    power = o.add gpu.power value.power;
    count = o.add gpu.count value.count;
    engines = add_engines gpu.engines value.engines;
  }

  unfoldable pub add_gpus :
      List (String × GpuData) → List (String × GpuData) → List (String × GpuData)
  add_gpus sums [] = sums
  add_gpus sums ((id, value) ∷ rest) =
      add_gpus (insert id (add_gpu (gpu_or_new value (lookup id sums)) value) sums) rest

  -- The maps: `sum`'s is made where it is nil; a nil map of the record adds nothing. The interfaces'
  -- map is made in any case.
  unfoldable pub add_maps : Stats → Stats → Stats
  add_maps sum stats = record sum {
    network_interfaces =
        some (add_nics (some_or [] sum.network_interfaces) (some_or [] stats.network_interfaces));
    temperatures = elim stats.temperatures [
      | none ↦ sum.temperatures
      | some values ↦ some (add_temperatures (some_or [] sum.temperatures) values)
    ];
    extra_fs = elim stats.extra_fs [
      | none ↦ sum.extra_fs
      | some values ↦ some (add_extra_fs (some_or [] sum.extra_fs) values)
    ];
    gpu_data = elim stats.gpu_data [
      | none ↦ sum.gpu_data
      | some values ↦ some (add_gpus (some_or [] sum.gpu_data) values)
    ];
  }

  -- One round of the loop.
  unfoldable pub add_record : Totals → Stats → Totals
  add_record t stats = record {
    sum = add_maps (add_peaks (add_scalars t.sum stats) stats) stats;
    battery_sum = t.battery_sum + stats.battery.0;
    cpu_cores_sums = add_cores t.cpu_cores_sums (some_or [] stats.cpu_cores_usage);
    cpu_breakdown_sums = add_breakdown t.cpu_breakdown_sums (some_or [] stats.cpu_breakdown);
    temp_count = elim stats.temperatures [
      | none ↦ t.temp_count
      | some values ↦ o.add t.temp_count (o.of_nat 1)
    ];
  }

  unfoldable pub add_records : Totals → List Stats → Totals
  add_records t [] = t
  add_records t (stats ∷ records) = add_records (add_record t stats) records
