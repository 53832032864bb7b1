-- ===== src/Agent/Disk/Examples.antt =====
-- A server with two disks: the theorems on the disks at concrete states, and runs.
use homemonit.Base.{
  ℕ, ◌+◌, ◌-◌, ◌*◌, ◌/◌, ◌≤◌, String, true, false, ◌≡◌, inl, inr, refl, Option, none, some, List,
  [], ◌∷◌, string_key, nat_key, lookup, if◌then◌else◌, ◌==◌, ltb, leb, subst, trim_left, trim_right,
  trim_slashes, last_element, two_decimals, FloatOps, arith,
}
use homemonit.Entities.{empty_stats}
use homemonit.Agent.Disk.{IoCountersStat, normalize_device_name, is_exact, find_io_device}
use homemonit.Agent.Disk.Choice.{SameDevices, Exact, find_io_device-order}
use homemonit.Agent.Disk.Discovery.{TrackedFs, FsTable, UsageStat, DiskDiscovery, tracked}
use homemonit.Agent.Disk.Discovery.Startup.{initialize_disk_info}
use homemonit.Agent.Disk.Discovery.Keys.{roots, initialize_disk_info-one_root}
use homemonit.Agent.Disk.Io.{
  PrevDisk, DiskState, prev_disk_from_counter, ms_elapsed, with_rates, invalid, device_round,
}
use homemonit.Agent.Disk.Io.Rates.{IsMeasured, device_round-rate}

-- Floats that are whole numbers.
abbrev whole : FloatOps
whole = record {
  add = λ a b. a + b;
  sub = λ a b. a - b;
  mul = λ a b. a * b;
  div = λ a b. a / b;
  max = λ a b. a;
  lt = ltb;
  le = leb;
  round = λ a. a;
  of_nat = λ a. a;
  to_nat = λ a. a;
}

abbrev disk : String → ℕ → IoCountersStat
disk name bytes = record {
  name = name;
  label = "";
  read_bytes = bytes;
  write_bytes = 0;
  read_time = 0;
  write_time = 0;
  io_time = 0;
  weighted_io = 0;
  read_count = 0;
  write_count = 0;
}

abbrev one_way : List IoCountersStat
one_way = disk "sda" 10 ∷ disk "sdb" 20 ∷ []

abbrev other_way : List IoCountersStat
other_way = disk "sdb" 20 ∷ disk "sda" 10 ∷ []

same_devices : SameDevices one_way other_way
same_devices d = (
  λ o. elim o [ inl e ↦ inr (inl e) | inr o ↦ elim o [ inl e ↦ inl e | inr o ↦ absurd o ] ],
  λ o. elim o [ inl e ↦ inr (inl e) | inr o ↦ elim o [ inl e ↦ inl e | inr o ↦ absurd o ] ],
)

no_match : (d : IoCountersStat) → Exact "sd" one_way d → ⊥
unfolding is_exact normalize_device_name trim_left trim_right trim_slashes last_element
no_match d x = elim x.listed [
  | inl e ↦
      let hit : is_exact "sd" (disk "sda" 10) ≡ true =
        subst (λ d. is_exact "sd" d ≡ true) e x.matches in
      cc
  | inr o ↦ elim o [
    | inl e ↦
        let hit : is_exact "sd" (disk "sdb" 20) ≡ true =
          subst (λ d. is_exact "sd" d ≡ true) e x.matches in
        cc
    | inr o ↦ absurd o
  ]
]

find_io_device-order_example : find_io_device "sd" one_way ≡ find_io_device "sd" other_way
unfolding normalize_device_name trim_left trim_right trim_slashes last_element
find_io_device-order_example =
    find_io_device-order "sd" one_way other_way same_devices (λ d e x y. absurd (no_match d x))

-- A device whose label is the name of another: the one that is walked first is taken.
abbrev labelled : IoCountersStat
labelled = record (disk "dm-0" 5) { label = "sda" }

two_matches :
    (find_io_device "sda" (labelled ∷ one_way) ≡ some "dm-0")
    × (find_io_device "sda" (disk "sda" 10 ∷ labelled ∷ []) ≡ some "sda")
unfolding find_io_device is_exact normalize_device_name trim_left trim_right trim_slashes
    last_element
two_matches = (refl, refl)

abbrev discovery : DiskDiscovery
discovery = record {
  root_mount_point = "/";
  partitions = record { device = "/dev/sda1"; mountpoint = "/" } ∷ [];
  usage_fn = λ path. none;
  ctx = record {
    filesystem = "";
    is_windows = false;
    ef_path = "/extra-filesystems";
    disk_io_counters = ("sda", disk "sda" 10) ∷ ("sdb", disk "sdb" 20) ∷ [];
  };
}

initialize_disk_info-one_root_example :
    roots (initialize_disk_info (λ path. "/") discovery (some ("sdb" ∷ [])) none []) ≤ 1
initialize_disk_info-one_root_example =
    initialize_disk_info-one_root (λ path. "/") discovery (some ("sdb" ∷ [])) none

abbrev extra_first : FsTable
extra_first = ("sda", tracked false "/" "") ∷ []

abbrev before : PrevDisk
before = prev_disk_from_counter (disk "sda" 10) 1_000_000_000

abbrev state : DiskState
state = record {
  fs_stats = ("sda", record (tracked true "/" "") { time = 1_000_000_000 }) ∷ [];
  fs_names = "sda" ∷ [];
  disk_prev = (1_000, ("sda", before) ∷ []) ∷ [];
  last_disk_usage_update = 1;
  disk_usage_cache_duration = 60_000_000_000;
}

abbrev later : List (String × IoCountersStat)
later = ("sda", disk "sda" 4_010) ∷ []

device_round-rate_example :
    let before' = record (tracked true "/" "") { time = 1_000_000_000 } in
    let (a', s') =
      device_round whole 1_000 3_000_000_000 later "sda" (disk "sda" 4_010) (state, empty_stats) in
    (fs : TrackedFs) × (lookup "sda" a'.fs_stats ≡ some fs)
    × IsMeasured whole 3_000_000_000 2_000 (disk "sda" 4_010) before before' fs
    × (s' ≡ record empty_stats {
      disk_read_ps = fs.disk_read_ps;
      disk_write_ps = fs.disk_write_ps;
      disk_io = (fs.disk_read_bytes, fs.disk_write_bytes);
      disk_io_stats = fs.disk_io_stats;
    })
unfolding lookup prev_disk_from_counter invalid with_rates two_decimals ms_elapsed
device_round-rate_example =
    device_round-rate whole 1_000 3_000_000_000 later "sda" (disk "sda" 4_010) state empty_stats
      (record (tracked true "/" "") { time = 1_000_000_000 }) before refl refl (omega arith)
      (omega arith) (omega arith) (omega arith) (omega arith) refl

abbrev with_backup : FsTable
with_backup = ("sda", tracked true "/" "") ∷ ("sdb", tracked false "/backup" "") ∷ []

abbrev asleep : String → Option UsageStat
asleep path = none

abbrev awake : String → Option UsageStat
awake path = if path == "/" then none else some (record { total = 9; used = 1; used_percent = 11 })
