-- ===== src/Records/Averages.antt =====
-- internal/records/records.go: `AverageSystemStatsSlice` and `AverageContainerStatsSlice`. The order in
-- which Go walks a map is the order of the list here.
pub mod Network
pub mod Peaks
pub mod Containers
use homemonit.Base.{
  ℕ, ◌+◌, ◌/◌, ◌%◌, String, List, [], ◌∷◌, Option, none, some, Bool, true, false, not, ◌&&◌, ◌||◌,
  map, length, lookup, insert, string_key, nat_beq, if◌then◌else◌, Float, FloatOps, two_decimals,
}
use homemonit.Records.Stats.{FsStats, GpuData, NicStats, Stats, ContainerStats}
use homemonit.Records.Sums.{Totals, u64, no_stats, no_totals, some_or, add_records}

abbrev pub u8 : ℕ → ℕ
u8 n = n % 256

-- Every value of a map is replaced.
unfoldable pub map_values {ℓ} : {V : Type ℓ} → (V → V) → List (String × V) → List (String × V)
map_values f [] = []
map_values f (entry ∷ rest) = (entry.0, f entry.1) ∷ map_values f rest

unfoldable pub map_some {ℓ} : {V : Type ℓ} → (V → V) → Option V → Option V
map_some f none = none
map_some f (some v) = some (f v)

module _ (o : FloatOps) where
  -- twoDecimals(v / count)
  abbrev pub average : Float → Float → Float
  average count v = two_decimals o (o.div v count)

  unfoldable pub average_scalars : Float → Totals → Stats → Stats
  average_scalars count t sum =
      let n = o.to_nat count in
      record sum {
        cpu = average count sum.cpu;
        mem = average count sum.mem;
        mem_used = average count sum.mem_used;
        mem_pct = average count sum.mem_pct;
        mem_buff_cache = average count sum.mem_buff_cache;
        mem_zfs_arc = average count sum.mem_zfs_arc;
        swap = average count sum.swap;
        swap_used = average count sum.swap_used;
        disk_total = average count sum.disk_total;
        disk_used = average count sum.disk_used;
        disk_pct = average count sum.disk_pct;
        disk_read_ps = average count sum.disk_read_ps;
        disk_write_ps = average count sum.disk_write_ps;
        disk_io = (sum.disk_io.0 / n, sum.disk_io.1 / n);
        disk_io_stats = map (average count) sum.disk_io_stats;
        network_sent = average count sum.network_sent;
        network_recv = average count sum.network_recv;
        load_avg = map (average count) sum.load_avg;
        bandwidth = (sum.bandwidth.0 / n, sum.bandwidth.1 / n);
        battery = (u8 (t.battery_sum / n), sum.battery.1);
      }

  unfoldable pub average_nic : ℕ → NicStats → NicStats
  average_nic n s = record s { up = s.up / n; down = s.down / n }

  unfoldable pub average_fs : Float → FsStats → FsStats
  average_fs count fs =
      let n = o.to_nat count in
      record fs {
        disk_total = average count fs.disk_total;
        disk_used = average count fs.disk_used;
        disk_write_ps = average count fs.disk_write_ps;
        disk_read_ps = average count fs.disk_read_ps;
        disk_read_bytes = fs.disk_read_bytes / n;
        disk_write_bytes = fs.disk_write_bytes / n;
        disk_io_stats = map (average count) fs.disk_io_stats;
      }

  unfoldable pub average_gpu : Float → GpuData → GpuData
  average_gpu count gpu = record gpu {
    temperature = average count gpu.temperature;
    memory_used = average count gpu.memory_used;
    memory_total = average count gpu.memory_total;
    usage = average count gpu.usage;
    power = average count gpu.power;
    count = average count gpu.count;
    engines = map_some (map_values (average count)) gpu.engines;
  }

  unfoldable pub average_maps : Float → Totals → Stats → Stats
  average_maps count t sum = record sum {
    network_interfaces =
        map_some (map_values (average_nic (o.to_nat count))) sum.network_interfaces;
    temperatures =
        if o.lt 0 t.temp_count
        then map_some (map_values (average t.temp_count)) sum.temperatures
        else sum.temperatures;
    extra_fs = map_some (map_values (average_fs count)) sum.extra_fs;
    gpu_data = map_some (map_values (average_gpu count)) sum.gpu_data;
  }

  -- uint8(math.Round(float64(sum) / count)) for each core.
  unfoldable pub average_core : Float → ℕ → ℕ
  average_core count s = u8 (o.to_nat (o.round (o.div (o.of_nat s) count)))

  unfoldable pub average_cores : Float → Totals → Stats → Stats
  average_cores count t sum = record sum {
    cpu_cores_usage = elim t.cpu_cores_sums [
      | [] ↦ sum.cpu_cores_usage
      | s ∷ sums ↦ some (map (average_core count) (s ∷ sums))
    ];
    cpu_breakdown = elim t.cpu_breakdown_sums [
      | [] ↦ sum.cpu_breakdown
      | s ∷ sums ↦ some (map (average count) (s ∷ sums))
    ];
  }

  unfoldable pub average_totals : Float → Totals → Stats
  unfolding average_scalars average_maps average_cores
  average_totals count t =
      average_cores count t (average_maps count t (average_scalars count t t.sum))

  unfoldable pub average_system_stats_slice : List Stats → Stats
  average_system_stats_slice [] = no_stats
  average_system_stats_slice (r ∷ rs) =
      average_totals (o.of_nat (length (r ∷ rs))) (add_records o no_totals (r ∷ rs))

  -- A zero float: 0.0, or its negative, whose bit pattern is 2^63.
  is_zero : Float → Bool
  is_zero v = nat_beq v 0 || nat_beq v 9_223_372_036_854_775_808

  -- The bytes of a record of an old agent, which reports megabytes.
  unfoldable pub bytes_of : ContainerStats → ℕ × ℕ
  unfolding is_zero
  bytes_of s =
      let mega = λ (v : Float). o.to_nat (o.mul (o.mul v (o.of_nat 1024)) (o.of_nat 1024)) in
      if nat_beq s.bandwidth.0 0
        && nat_beq s.bandwidth.1 0
        && (not (is_zero s.network_sent) || not (is_zero s.network_recv))
      then (mega s.network_sent, mega s.network_recv)
      else (s.bandwidth.0, s.bandwidth.1)

  abbrev pub no_container : String → ContainerStats
  no_container name = record {
    name = name;
    cpu = 0;
    mem = 0;
    network_sent = 0;
    network_recv = 0;
    bandwidth = (0, 0);
  }

  unfoldable pub add_container : ContainerStats → ContainerStats → ContainerStats
  add_container sum stat =
      let (sent, recv) = bytes_of stat in
      record sum {
        cpu = o.add sum.cpu stat.cpu;
        mem = o.add sum.mem stat.mem;
        bandwidth = (u64 (sum.bandwidth.0 + sent), u64 (sum.bandwidth.1 + recv));
      }

  -- One record's containers.
  unfoldable pub add_containers :
      List (String × ContainerStats) → List ContainerStats → List (String × ContainerStats)
  add_containers sums [] = sums
  add_containers sums (stat ∷ stats) =
      let old = some_or (no_container stat.name) (lookup stat.name sums) in
      add_containers (insert stat.name (add_container old stat) sums) stats

  unfoldable pub add_container_records :
      List (String × ContainerStats) → List (List ContainerStats) → List (String × ContainerStats)
  add_container_records sums [] = sums
  add_container_records sums (stats ∷ records) =
      add_container_records (add_containers sums stats) records

  unfoldable pub average_container : Float → ContainerStats → ContainerStats
  average_container count value = record {
    name = value.name;
    cpu = average count value.cpu;
    mem = average count value.mem;
    network_sent = 0;
    network_recv = 0;
    bandwidth = (
      o.to_nat (o.div (o.of_nat value.bandwidth.0) count),
      o.to_nat (o.div (o.of_nat value.bandwidth.1) count),
    );
  }

  unfoldable pub average_entries : Float → List (String × ContainerStats) → List ContainerStats
  average_entries count [] = []
  average_entries count (entry ∷ rest) =
      average_container count entry.1 ∷ average_entries count rest

  -- With no records the sums are empty, and so is the result.
  unfoldable pub average_container_stats_slice : List (List ContainerStats) → List ContainerStats
  average_container_stats_slice records =
      average_entries (o.of_nat (length records)) (add_container_records [] records)
