-- ===== src/Agent/Docker/State.antt =====
-- agent/docker.go: the state of the container manager, and the engine's answers with how they are
-- decoded. A time is in nanoseconds. The container of an answer has its short id and its name cut out
-- already.
use homemonit.Base.{
  ℕ, String, Bool, true, Option, none, some, List, [], ◌∷◌, string_key, nat_key, if◌then◌else◌,
  lookup, insert, erase,
}
use homemonit.Entities.{Container}
use homemonit.Agent.Deltas.{DeltaTracker}
use homemonit.Agent.Docker.Status.{Port}

pub record NetworkStats : Type 0 where
  pub rx_bytes : ℕ
  pub tx_bytes : ℕ

pub record ApiStats : Type 0 where
  pub read : ℕ
  pub num_procs : ℕ
  pub networks : List (String × NetworkStats)
  pub total_usage : ℕ
  pub system_usage : ℕ
  pub usage : ℕ
  pub cache : ℕ
  pub inactive_file : ℕ
  pub private_working_set : ℕ

-- The fields of `ApiStats` that a JSON text has.
pub record ApiFields : Type 0 where
  pub read : Option ℕ
  pub num_procs : Option ℕ
  pub networks : Option (List (String × NetworkStats))
  pub total_usage : Option ℕ
  pub system_usage : Option ℕ
  pub usage : Option ℕ
  pub cache : Option ℕ
  pub inactive_file : Option ℕ
  pub private_working_set : Option ℕ

-- `inspected` is the health that the engine tells when it is asked for this container alone, none on an
-- error.
pub record ApiInfo : Type 0 where
  pub id_short : String
  pub name : String
  pub image : String
  pub status : String
  pub health_status : String
  pub inspected : Option String
  pub ports : List Port
  pub sorted_ports : List Port  -- what `sort.Slice` makes of them

-- What a request to the engine comes to.
pub data Response (A : Type 0) : Type 0 where
  unreachable : Response A
  unread : Response A
  not_json : Response A
  json : A → Response A

-- One value per cache time and container.
abbrev pub Tracking : Type 0
Tracking = List (ℕ × List (String × ℕ))

pub record DockerManager : Type 0 where
  pub container_stats_map : List (String × Container)
  pub last_cpu_container : Tracking
  pub last_cpu_system : Tracking
  pub last_cpu_read_time : Tracking
  pub network_sent_trackers : List (ℕ × DeltaTracker String)
  pub network_recv_trackers : List (ℕ × DeltaTracker String)
  pub last_network_read_time : Tracking
  pub is_windows : Bool
  pub using_podman : Bool
  pub docker_version_checked : Bool
  pub exclude_containers : List String
  pub api_stats : ApiStats
  pub decoder_failed : Bool  -- the error that a `json.Decoder` keeps

abbrev pub inner {ℓ} : {A : Type ℓ} → ℕ → List (ℕ × List (String × A)) → List (String × A)
inner interval t = elim (lookup interval t) [ none ↦ [] | some m ↦ m ]

abbrev pub put : ℕ → String → ℕ → Tracking → Tracking
put interval id v t = insert interval (insert id v (inner interval t)) t

unfoldable pub forget : String → Tracking → Tracking
forget id [] = []
forget id ((interval, m) ∷ t) = (interval, erase id m) ∷ forget id t

abbrev pub or_zero : Option ℕ → ℕ
or_zero none = 0
or_zero (some v) = v

given : ℕ → Option ℕ → ℕ
given old none = old
given old (some new) = new

given_networks : Option (List (String × NetworkStats)) → List (String × NetworkStats)
given_networks none = []
given_networks (some networks) = networks

-- The JSON of an answer in the value of the answer before, of which the networks are reset.
unfoldable pub unmarshal_stats : ApiFields → ApiStats → ApiStats
unfolding given given_networks
unmarshal_stats f s = record {
  read = given s.read f.read;
  num_procs = given s.num_procs f.num_procs;
  networks = given_networks f.networks;
  total_usage = given s.total_usage f.total_usage;
  system_usage = given s.system_usage f.system_usage;
  usage = given s.usage f.usage;
  cache = given s.cache f.cache;
  inactive_file = given s.inactive_file f.inactive_file;
  private_working_set = given s.private_working_set f.private_working_set;
}

-- `decode`: the decoder is kept, and once it has met a text that is not JSON, it answers each call with
-- that error. `none` is an error.
unfoldable pub decode : {A : Type 0} → Response A → Bool → Option A × Bool
decode unreachable failed = (none, failed)
decode unread failed = (none, failed)
decode not_json failed = (none, true)
decode (json a) failed = (if failed then none else some a, failed)
