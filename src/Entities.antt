-- ===== src/Entities.antt =====
-- internal/entities/system/system.go and internal/entities/container/container.go: what an agent
-- sends to the hub in one answer. Floats are bit patterns; a pointer that may be nil is an `Option`.
use homemonit.Base.{ℕ, String, Bool, false, Option, none, List, [], ◌∷◌, Float}
use homemonit.Records.Stats.{Stats}

pub record Info : Type 0 where
  pub hostname : String
  pub kernel_version : String
  pub cores : ℕ
  pub threads : ℕ
  pub cpu_model : String
  pub uptime : ℕ
  pub cpu : Float
  pub mem_pct : Float
  pub disk_pct : Float
  pub bandwidth : Float
  pub agent_version : String
  pub podman : Bool
  pub gpu_pct : Float
  pub dashboard_temp : Float
  pub os : ℕ  -- uint8
  pub bandwidth_bytes : ℕ
  pub load_avg : List Float
  pub connection_type : ℕ
  pub extra_fs_pct : Option (List (String × Float))
  pub services : List ℕ
  pub battery : ℕ × ℕ

-- `Info{}`.
abbrev pub empty_info : Info
empty_info = record {
  hostname = "";
  kernel_version = "";
  cores = 0;
  threads = 0;
  cpu_model = "";
  uptime = 0;
  cpu = 0;
  mem_pct = 0;
  disk_pct = 0;
  bandwidth = 0;
  agent_version = "";
  podman = false;
  gpu_pct = 0;
  dashboard_temp = 0;
  os = 0;
  bandwidth_bytes = 0;
  load_avg = 0 ∷ 0 ∷ 0 ∷ [];
  connection_type = 0;
  extra_fs_pct = none;
  services = [];
  battery = (0, 0);
}

pub record Details : Type 0 where
  pub hostname : String
  pub kernel : String
  pub cores : ℕ
  pub threads : ℕ
  pub cpu_model : String
  pub os : ℕ
  pub os_name : String
  pub arch : String
  pub podman : Bool
  pub memory_total : ℕ
  pub smart_interval : ℕ

-- `Stats` of the container package.
pub record Container : Type 0 where
  pub id : String
  pub name : String
  pub image : String
  pub ports : String
  pub status : String
  pub health : ℕ  -- uint8
  pub cpu : Float
  pub mem : Float
  pub network_sent : Float
  pub network_recv : Float
  pub bandwidth : ℕ × ℕ

pub record CombinedData : Type 0 where
  pub stats : Stats
  pub info : Info
  pub containers : List Container
  pub details : Option Details

abbrev pub empty_stats : Stats
empty_stats = record {
  cpu = 0;
  max_cpu = 0;
  mem = 0;
  max_mem = 0;
  mem_used = 0;
  mem_pct = 0;
  mem_buff_cache = 0;
  mem_zfs_arc = 0;
  swap = 0;
  swap_used = 0;
  disk_total = 0;
  disk_used = 0;
  disk_pct = 0;
  disk_read_ps = 0;
  disk_write_ps = 0;
  max_disk_read_ps = 0;
  max_disk_write_ps = 0;
  network_sent = 0;
  network_recv = 0;
  max_network_sent = 0;
  max_network_recv = 0;
  temperatures = none;
  extra_fs = none;
  gpu_data = none;
  bandwidth = (0, 0);
  max_bandwidth = (0, 0);
  load_avg = 0 ∷ 0 ∷ 0 ∷ [];
  battery = (0, 0);
  network_interfaces = none;
  disk_io = (0, 0);
  max_disk_io = (0, 0);
  cpu_breakdown = none;
  cpu_cores_usage = none;
  disk_io_stats = 0 ∷ 0 ∷ 0 ∷ 0 ∷ 0 ∷ 0 ∷ [];
  max_disk_io_stats = 0 ∷ 0 ∷ 0 ∷ 0 ∷ 0 ∷ 0 ∷ [];
}

-- `CombinedData{}`.
abbrev pub empty_data : CombinedData
empty_data = record { stats = empty_stats; info = empty_info; containers = []; details = none }
