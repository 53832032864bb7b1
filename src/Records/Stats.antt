-- ===== src/Records/Stats.antt =====
-- internal/entities/system/system.go and internal/entities/container/container.go: the statistics
-- that are stored and averaged. A fixed array of floats is a list of its elements, a pair of integers
-- a tuple; a Go map or slice that may be nil is an `Option`.
use homemonit.Base.{ℕ, String, List, Option, Float}

pub record FsStats : Type 0 where
  pub disk_total : Float
  pub disk_used : Float
  pub disk_read_ps : Float
  pub disk_write_ps : Float
  pub max_disk_read_ps : Float
  pub max_disk_write_ps : Float
  pub disk_read_bytes : ℕ
  pub disk_write_bytes : ℕ
  pub max_disk_read_bytes : ℕ
  pub max_disk_write_bytes : ℕ
  pub disk_io_stats : List Float
  pub max_disk_io_stats : List Float

pub record GpuData : Type 0 where
  pub name : String
  pub temperature : Float
  pub memory_used : Float
  pub memory_total : Float
  pub usage : Float
  pub power : Float
  pub count : Float
  pub engines : Option (List (String × Float))
  pub power_pkg : Float

-- [upload bytes, download bytes, total upload, total download]
pub record NicStats : Type 0 where
  pub up : ℕ
  pub down : ℕ
  pub total_up : ℕ
  pub total_down : ℕ

pub record Stats : Type 0 where
  pub cpu : Float
  pub max_cpu : Float
  pub mem : Float
  pub max_mem : Float
  pub mem_used : Float
  pub mem_pct : Float
  pub mem_buff_cache : Float
  pub mem_zfs_arc : Float
  pub swap : Float
  pub swap_used : Float
  pub disk_total : Float
  pub disk_used : Float
  pub disk_pct : Float
  pub disk_read_ps : Float
  pub disk_write_ps : Float
  pub max_disk_read_ps : Float
  pub max_disk_write_ps : Float
  pub network_sent : Float
  pub network_recv : Float
  pub max_network_sent : Float
  pub max_network_recv : Float
  pub temperatures : Option (List (String × Float))
  pub extra_fs : Option (List (String × FsStats))
  pub gpu_data : Option (List (String × GpuData))
  pub bandwidth : ℕ × ℕ
  pub max_bandwidth : ℕ × ℕ
  pub load_avg : List Float
  pub battery : ℕ × ℕ  -- uint8: percent, charge state
  pub network_interfaces : Option (List (String × NicStats))
  pub disk_io : ℕ × ℕ
  pub max_disk_io : ℕ × ℕ
  pub cpu_breakdown : Option (List Float)
  pub cpu_cores_usage : Option (List ℕ)  -- uint8 each
  pub disk_io_stats : List Float
  pub max_disk_io_stats : List Float

pub record ContainerStats : Type 0 where
  pub name : String
  pub cpu : Float
  pub mem : Float
  pub network_sent : Float
  pub network_recv : Float
  pub bandwidth : ℕ × ℕ
