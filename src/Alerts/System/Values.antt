-- ===== src/Alerts/System/Values.antt =====
-- internal/alerts/alerts.go and alerts_system.go: the data of the alerts on metrics, and the first pass,
-- which compares the values of the agent's last answer.
use homemonit.Base.{
  ℕ, ◌+◌, ◌-◌, ◌*◌, ◌%◌, String, Bool, not, ◌&&◌, ◌||◌, Option, none, some, List, [], ◌∷◌, ◌==◌,
  string_key, nat_key, ltb, leb, if◌then◌else◌, insert, Float, FloatOps,
}
use homemonit.Records.Stats.{FsStats}
use homemonit.Entities.{CombinedData}
use homemonit.Alerts.Cache.{CachedAlertData}

pub record SystemAlertFsStats : Type 0 where
  pub disk_total : Float
  pub disk_used : Float

pub record SystemAlertStats : Type 0 where
  pub cpu : Float
  pub mem : Float
  pub disk : Float
  pub bandwidth : ℕ × ℕ
  pub extra_fs : List (String × SystemAlertFsStats)

-- The fields of `SystemAlertStats` that a JSON text has.
pub record StatsFields : Type 0 where
  pub cpu : Option Float
  pub mem : Option Float
  pub disk : Option Float
  pub bandwidth : Option (ℕ × ℕ)
  pub extra_fs : Option (List (String × SystemAlertFsStats))

pub record SystemAlertData : Type 0 where
  pub system_id : String  -- of `systemRecord`
  pub system_name : String
  pub alert_data : CachedAlertData
  pub name : String
  pub unit : String
  pub val : Float
  pub threshold : Float
  pub triggered : Bool
  pub time : ℕ
  pub count : ℕ  -- uint8
  pub min : ℕ  -- uint8
  pub map_sums : List (String × Float)  -- float32
  pub descriptor : String

-- What the handler reads of the `systems` row.
pub record AlertedSystem : Type 0 where
  pub id : String
  pub name : String
  pub updated : ℕ

unfoldable pub field_or {ℓ} : {A : Type ℓ} → A → Option A → A
field_or old none = old
field_or old (some new) = new

unfoldable pub merge_fs :
    List (String × SystemAlertFsStats)
    → List (String × SystemAlertFsStats)
    → List (String × SystemAlertFsStats)
merge_fs [] old = old
merge_fs ((key, fs) ∷ rest) old = merge_fs rest (insert key fs old)

-- `json.Unmarshal` into a value that is in use: it writes the fields and the map entries that the
-- text has, and leaves the others as they are.
unfoldable pub unmarshal : StatsFields → SystemAlertStats → SystemAlertStats
unfolding field_or merge_fs
unmarshal f s = record {
  cpu = field_or s.cpu f.cpu;
  mem = field_or s.mem f.mem;
  disk = field_or s.disk f.disk;
  bandwidth = field_or s.bandwidth f.bandwidth;
  extra_fs = merge_fs (field_or [] f.extra_fs) s.extra_fs;
}

abbrev pub no_stats : SystemAlertStats
no_stats = record { cpu = 0; mem = 0; disk = 0; bandwidth = (0, 0); extra_fs = [] }

-- The bit pattern of float32(1.2).
abbrev pub one_fifth_more : Float
one_fifth_more = 1_067_030_938

-- What the first loop makes of the alerts: those sent at once, those to average, and the oldest
-- time that these ask for.
pub record FirstPass : Type 0 where
  pub immediate : List SystemAlertData
  pub valid : List SystemAlertData
  pub oldest : ℕ

abbrev pub at_least_one : ℕ → ℕ
at_least_one m = if leb m 1 then 1 else m

unfoldable pub new_alert : AlertedSystem → CachedAlertData → Float → SystemAlertData
new_alert sys a val = record {
  system_id = sys.id;
  system_name = sys.name;
  alert_data = a;
  name = a.name;
  unit = "%";
  val = val;
  threshold = a.value;
  triggered = a.triggered;
  time = 0;
  count = 0;
  min = at_least_one a.min;
  map_sums = [];
  descriptor = "";
}

-- `alert.count++` on a uint8.
abbrev pub counted : SystemAlertData → SystemAlertData
counted alert = record alert { count = (alert.count + 1) % 256 }

module _ (o : FloatOps) where
  -- The root's percentage, or a greater one of the extra file systems.
  unfoldable pub max_used_pct : Float → List (String × FsStats) → Float
  max_used_pct max [] = max
  max_used_pct max ((key, fs) ∷ rest) =
      let used = o.mul (o.div fs.disk_used fs.disk_total) (o.of_nat 100) in
      max_used_pct (if o.lt max used then used else max) rest

  -- The current value that an alert of a name watches; the other names are stripped.
  unfoldable pub current_value : String → CombinedData → Option Float
  unfolding max_used_pct field_or
  current_value name combined =
      if name == "CPU"
      then some combined.info.cpu
      else if name == "Memory"
      then some combined.info.mem_pct
      else if name == "Disk"
      then some (max_used_pct combined.info.disk_pct (field_or [] combined.stats.extra_fs))
      else none

  -- The value stands where the trigger state says.
  unfoldable pub unchanged : Bool → Float → Float → Bool
  unchanged triggered val threshold =
      (not triggered && o.le val threshold) || (triggered && o.lt threshold val)

  unfoldable pub valued : AlertedSystem → CachedAlertData → Option Float → FirstPass → FirstPass
  unfolding unchanged new_alert
  valued sys a none rest = rest
  valued sys a (some val) rest =
      let alert = new_alert sys a val in
      let start = sys.updated - alert.min * 60_000 in
      if unchanged a.triggered val a.value
      then rest
      else if alert.min == 1
      then record rest {
        immediate = record alert { triggered = o.lt a.value val } ∷ rest.immediate;
      }
      else record rest {
        valid = record alert { time = start } ∷ rest.valid;
        oldest = if ltb start rest.oldest then start else rest.oldest;
      }

  unfoldable pub first_pass : AlertedSystem → CombinedData → List CachedAlertData → FirstPass
  unfolding valued
  first_pass sys combined [] = record { immediate = []; valid = []; oldest = sys.updated }
  first_pass sys combined (a ∷ alerts) =
      valued sys a (current_value a.name combined) (first_pass sys combined alerts)
