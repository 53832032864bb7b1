-- ===== src/Agent/Docker.antt =====
-- agent/docker.go and internal/entities/container/container.go: the update of the statistics of one
-- container. What the engine answers is an argument, and so is `path.Match` of a pattern and a name. The
-- updates of a round run one after the other.
pub mod Status
pub mod State
pub mod Round
pub mod Listed
pub mod Decoder
pub mod Fresh
pub mod Ports
pub mod Retry
mod Examples
use homemonit.Base.{
  ℕ, ◌+◌, ◌-◌, ◌*◌, ◌/◌, ◌%◌, ◌^◌, String, Bool, true, false, not, ◌&&◌, ◌||◌, Option, none, some,
  List, [], ◌∷◌, ◌==◌, string_key, nat_key, ltb, leb, nat_beq, if◌then◌else◌, lookup, insert, erase,
  map_values, Float, FloatOps, two_decimals,
}
use homemonit.Entities.{Container}
use homemonit.Agent.Deltas.{DeltaTracker, sub64, new_delta_tracker, set, delta, cycle}
use homemonit.Agent.Docker.State.{
  NetworkStats, ApiStats, ApiFields, ApiInfo, Response, Tracking, DockerManager, inner, put, forget,
  or_zero, unmarshal_stats, decode, unreachable, unread, not_json, json,
}
use homemonit.Agent.Docker.Status.{
  Port, parse_docker_status, parse_docker_health_status, convert_container_ports_to_string,
}
use homemonit.Agent.Disk.Io.{ms_elapsed, bytes_to_megabytes}

unfoldable pub calculate_memory_usage : ApiStats → Bool → Option ℕ
calculate_memory_usage s is_windows =
    let mem_cache = if nat_beq s.inactive_file 0 then s.cache else s.inactive_file in
    let used = sub64 s.usage mem_cache in
    if is_windows
    then some s.private_working_set
    else if nat_beq used 0 || ltb (100 * 1_024 * 1_024 * 1_024 * 1_024) used
    then none
    else some used

-- Bytes in a second; 0 without elapsed time and for a rate that cannot be.
unfoldable pub network_rate : ℕ → ℕ → ℕ
network_rate raw ms =
    let rate = raw * 1_000 % 2 ^ 64 / ms in
    if ltb 0 ms && ltb 0 raw then (if ltb 5_000_000_000 rate then 0 else rate) else 0

unfoldable pub total_sent : List (String × NetworkStats) → ℕ
total_sent [] = 0
total_sent ((name, v) ∷ rest) = (v.tx_bytes + total_sent rest) % 2 ^ 64

unfoldable pub total_recv : List (String × NetworkStats) → ℕ
total_recv [] = 0
total_recv ((name, v) ∷ rest) = (v.rx_bytes + total_recv rest) % 2 ^ 64

abbrev pub tracker_or_new : Option (DeltaTracker String) → DeltaTracker String
tracker_or_new none = new_delta_tracker
tracker_or_new (some t) = t

pub rate_since : ℕ → ℕ → Option ℕ → ℕ
rate_since raw now none = 0
rate_since raw now (some prev) = network_rate raw (ms_elapsed now prev)

-- Sent and received bytes in a second.
unfoldable pub calculate_network_stats :
    String → ApiStats → ℕ → ℕ → DockerManager → DockerManager × (ℕ × ℕ)
unfolding rate_since
calculate_network_stats id s interval now dm =
    let sent =
      set id (total_sent s.networks) (tracker_or_new (lookup interval dm.network_sent_trackers)) in
    let recv =
      set id (total_recv s.networks) (tracker_or_new (lookup interval dm.network_recv_trackers)) in
    let prev = lookup id (inner interval dm.last_network_read_time) in
    (
      record dm {
        network_sent_trackers = insert interval sent dm.network_sent_trackers;
        network_recv_trackers = insert interval recv dm.network_recv_trackers;
      },
      (rate_since (delta id sent) now prev, rate_since (delta id recv) now prev),
    )

or_health : ℕ → Option ℕ → ℕ
or_health health none = health
or_health health (some told) = told

inspected_health : ℕ → Option String → ℕ
unfolding or_health
inspected_health health none = health
inspected_health health (some told) = or_health 0 (parse_docker_health_status told)

-- The health of a container; Podman has to be asked for it.
unfoldable pub container_health : Bool → ApiInfo → ℕ
unfolding or_health inspected_health
container_health using_podman ctr =
    let health = (parse_docker_status ctr.status).1 in
    if not (ctr.health_status == "")
    then or_health health (parse_docker_health_status ctr.health_status)
    else if using_podman
    then inspected_health health ctr.inspected
    else health

ports_or : String → List Port → List Port → String
ports_or old [] sorted = old
ports_or old (port ∷ ports) sorted = convert_container_ports_to_string (port ∷ ports) sorted

-- The entry of a container before its measures, with those of the last time reset.
unfoldable pub reset_entry : Bool → ApiInfo → Option Container → Container
unfolding container_health ports_or
reset_entry using_podman ctr old =
    let stats : Container = elim old [
      | none ↦ record {
        id = ctr.id_short;
        name = ctr.name;
        image = ctr.image;
        ports = "";
        status = "";
        health = 0;
        cpu = 0;
        mem = 0;
        network_sent = 0;
        network_recv = 0;
        bandwidth = (0, 0);
      }
      | some stats ↦ stats
    ] in
    record stats {
      id = ctr.id_short;
      status = (parse_docker_status ctr.status).0;
      health = container_health using_podman ctr;
      ports = ports_or stats.ports ctr.ports ctr.sorted_ports;
      cpu = 0;
      mem = 0;
      network_sent = 0;
      network_recv = 0;
      bandwidth = (0, 0);
    }

-- What an update leaves of the container: the ports are cleared when they have been written.
unfoldable pub spent : ApiInfo → Response ApiFields → ApiInfo
spent ctr unreachable = ctr
spent ctr response = record ctr { ports = [] }

unfoldable pub delete_container_stats_sync : String → DockerManager → DockerManager
unfolding forget
delete_container_stats_sync id dm = record dm {
  container_stats_map = erase id dm.container_stats_map;
  last_cpu_container = forget id dm.last_cpu_container;
  last_cpu_system = forget id dm.last_cpu_system;
  last_cpu_read_time = forget id dm.last_cpu_read_time;
  last_network_read_time = forget id dm.last_network_read_time;
}

cycle_found :
    ℕ
    → Option (DeltaTracker String)
    → List (ℕ × DeltaTracker String)
    → List (ℕ × DeltaTracker String)
cycle_found interval none ts = ts
cycle_found interval (some t) ts = insert interval (cycle t) ts

unfoldable pub cycle_network_deltas : ℕ → DockerManager → DockerManager
unfolding cycle_found
cycle_network_deltas interval dm = record dm {
  network_sent_trackers =
      cycle_found interval (lookup interval dm.network_sent_trackers) dm.network_sent_trackers;
  network_recv_trackers =
      cycle_found interval (lookup interval dm.network_recv_trackers) dm.network_recv_trackers;
}

module _ (o : FloatOps) where
  percent : ℕ → ℕ → Float
  percent part whole = o.mul (o.div (o.of_nat part) (o.of_nat whole)) (o.of_nat 100)

  unfoldable pub calculate_cpu_percent_linux : ApiStats → ℕ → ℕ → Float
  unfolding percent
  calculate_cpu_percent_linux s prev_container prev_system =
      let system = sub64 s.system_usage prev_system in
      if nat_beq system 0 || nat_beq prev_container 0
      then 0
      else percent (sub64 s.total_usage prev_container) system

  -- The difference to the zero time is the greatest duration.
  elapsed : ℕ → Option ℕ → ℕ
  elapsed read none = 2 ^ 63 - 1
  elapsed read (some prev) = if leb prev read then read - prev else 2 ^ 64 - (prev - read)

  unfoldable pub calculate_cpu_percent_windows : ApiStats → ℕ → Option ℕ → Float
  unfolding percent elapsed
  calculate_cpu_percent_windows s prev_usage prev_read =
      let possible = elapsed s.read prev_read / 100 * s.num_procs % 2 ^ 64 in
      if ltb 0 possible then percent (sub64 s.total_usage prev_usage) possible else 0

  unfoldable pub cpu_percent : ApiStats → String → ℕ → DockerManager → Float
  unfolding calculate_cpu_percent_linux calculate_cpu_percent_windows
  cpu_percent s id interval dm =
      let prev = or_zero (lookup id (inner interval dm.last_cpu_container)) in
      if dm.is_windows
      then calculate_cpu_percent_windows s prev (lookup id (inner interval dm.last_cpu_read_time))
      else calculate_cpu_percent_linux s prev
          (or_zero (lookup id (inner interval dm.last_cpu_system)))

  unfoldable pub update_container_stats_values : Float → ℕ → ℕ × ℕ → Container → Container
  update_container_stats_values pct used (sent, recv) stats = record stats {
    cpu = two_decimals o pct;
    mem = bytes_to_megabytes o (o.of_nat used);
    bandwidth = (sent, recv);
    network_sent = bytes_to_megabytes o (o.of_nat sent);
    network_recv = bytes_to_megabytes o (o.of_nat recv);
  }

  -- After the processor use is stored and found valid.
  unfoldable pub finish_update :
      ApiInfo → ℕ → ℕ → ApiStats → Float → ℕ → Container → DockerManager → DockerManager
  unfolding calculate_network_stats update_container_stats_values
  finish_update ctr interval now s pct used stats dm =
      let (dm', rates) = calculate_network_stats ctr.id_short s interval now dm in
      record dm' {
        container_stats_map =
            insert ctr.id_short (update_container_stats_values pct used rates stats)
              dm.container_stats_map;
        last_network_read_time = put interval ctr.id_short now dm.last_network_read_time;
        last_cpu_read_time = put interval ctr.id_short s.read dm.last_cpu_read_time;
      }

  -- What the decoded fields do; false is an error.
  unfoldable pub measure_container :
      ApiInfo → ℕ → ℕ → ApiFields → Container → DockerManager → DockerManager × Bool
  unfolding unmarshal_stats finish_update cpu_percent
  measure_container ctr interval now fields stats dm =
      let s = unmarshal_stats fields dm.api_stats in
      let kept = record dm { api_stats = s } in
      let pct = cpu_percent s ctr.id_short interval dm in
      elim (calculate_memory_usage s dm.is_windows) [
        | none ↦ (kept, false)
        | some used ↦
            let stored = record kept {
              last_cpu_container = put interval ctr.id_short s.total_usage dm.last_cpu_container;
              last_cpu_system = put interval ctr.id_short s.system_usage dm.last_cpu_system;
            } in
            if o.lt (o.of_nat 100) pct
            then (stored, false)
            else (finish_update ctr interval now s pct used stats stored, true)
      ]

  pub decoded :
      ApiInfo → ℕ → ℕ → Container → Option ApiFields → DockerManager → DockerManager × Bool
  decoded ctr interval now stats none dm =
      (record dm { api_stats = record dm.api_stats { networks = [] } }, false)
  decoded ctr interval now stats (some fields) dm =
      measure_container ctr interval now fields stats dm

  -- An answer that came.
  pub answered : ApiInfo → ℕ → ℕ → Response ApiFields → DockerManager → DockerManager × Bool
  unfolding decoded
  answered ctr interval now response dm =
      let stats = reset_entry dm.using_podman ctr (lookup ctr.id_short dm.container_stats_map) in
      let (fields, failed) = decode response dm.decoder_failed in
      decoded ctr interval now stats fields (record dm {
        container_stats_map = insert ctr.id_short stats dm.container_stats_map;
        decoder_failed = failed;
      })

  unfoldable pub update_container_stats :
      ApiInfo → ℕ → ℕ → Response ApiFields → DockerManager → DockerManager × Bool
  unfolding answered
  update_container_stats ctr interval now unreachable dm = (dm, false)
  update_container_stats ctr interval now unread dm = answered ctr interval now unread dm
  update_container_stats ctr interval now not_json dm = answered ctr interval now not_json dm
  update_container_stats ctr interval now (json f) dm = answered ctr interval now (json f) dm
