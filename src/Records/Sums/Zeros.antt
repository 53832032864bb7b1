-- ===== src/Records/Sums/Zeros.antt =====
-- internal/records/records.go, `AverageSystemStatsSlice`: its running totals, and the zero values of the
-- types that it adds up.
use homemonit.Base.{ℕ, ◌%◌, ◌^◌, List, [], ◌∷◌, Option, none, some, Float}
use homemonit.Records.Stats.{FsStats, Stats}

abbrev pub u64 : ℕ → ℕ
u64 n = n % 2 ^ 64

-- The running totals: `sum` and the variables beside it.
pub record Totals : Type 0 where
  pub sum : Stats
  pub battery_sum : ℕ
  pub cpu_cores_sums : List ℕ
  pub cpu_breakdown_sums : List Float
  pub temp_count : Float

abbrev pub six_zeros : List Float
six_zeros = 0 ∷ 0 ∷ 0 ∷ 0 ∷ 0 ∷ 0 ∷ []

-- The zero values of the types.
abbrev pub no_fs : FsStats
no_fs = record {
  disk_total = 0;
  disk_used = 0;
  disk_read_ps = 0;
  disk_write_ps = 0;
  max_disk_read_ps = 0;
  max_disk_write_ps = 0;
  disk_read_bytes = 0;
  disk_write_bytes = 0;
  max_disk_read_bytes = 0;
  max_disk_write_bytes = 0;
  disk_io_stats = six_zeros;
  max_disk_io_stats = six_zeros;
}

abbrev pub no_stats : Stats
no_stats = record {
  cpu = 0;
  max_cpu = 0;
  mem = 0;
  max_mem = 0;
  mem_used = 0;
  mem_pct = 0;
  mem_buff_cache = 0;
  mem_zfs_arc = 0;
  swap = 0;
  swap_used = 0;
  disk_total = 0;
  disk_used = 0;
  disk_pct = 0;
  disk_read_ps = 0;
  disk_write_ps = 0;
  max_disk_read_ps = 0;
  max_disk_write_ps = 0;
  network_sent = 0;
  network_recv = 0;
  max_network_sent = 0;
  max_network_recv = 0;
  temperatures = none;
  extra_fs = none;
  gpu_data = none;
  bandwidth = (0, 0);
  max_bandwidth = (0, 0);
  load_avg = 0 ∷ 0 ∷ 0 ∷ [];
  battery = (0, 0);
  network_interfaces = none;
  disk_io = (0, 0);
  max_disk_io = (0, 0);
  cpu_breakdown = none;
  cpu_cores_usage = none;
  disk_io_stats = six_zeros;
  max_disk_io_stats = six_zeros;
}

abbrev pub no_totals : Totals
no_totals = record {
  sum = no_stats;
  battery_sum = 0;
  cpu_cores_sums = [];
  cpu_breakdown_sums = [];
  temp_count = 0;
}

unfoldable pub some_or {ℓ} : {A : Type ℓ} → A → Option A → A
some_or d none = d
some_or d (some a) = a
