-- ===== src/Agent/Docker/Examples.antt =====
-- An engine with two containers: the theorems on the containers at concrete values, and runs.
use homemonit.Base.{
  arith, Occurs, ◌⊎◌, All, trim_left, trim_right, has_suffix, ℕ, ◌+◌, ◌-◌, ◌*◌, ◌/◌, String, true,
  false, ◌≡◌, refl, none, some, List, [], ◌∷◌, string_key, nat_key, lookup, map_values, ◌==◌, ltb,
  leb, two_decimals, FloatOps, All, insert,
}
use homemonit.Entities.{Container}
use homemonit.Agent.Disk.Io.{bytes_to_megabytes}
use homemonit.Agent.Docker.State.{
  ApiStats, ApiFields, ApiInfo, json, not_json, unreachable, DockerManager, unmarshal_stats, decode,
}
use homemonit.Agent.Docker.{
  cycle_network_deltas, measure_container, calculate_memory_usage, delete_container_stats_sync,
  update_container_stats,
}
use homemonit.Agent.Docker.Status.{
  has_infix, parse_docker_status, Port, convert_container_ports_to_string, write_ports,
}
use homemonit.Agent.Docker.Round.{
  detect, Pass, first_try, Answers, matches_any, first_tries, second_tries, get_docker_stats,
}
use homemonit.Agent.Docker.Listed.{watches, get_docker_stats-Listed}
use homemonit.Agent.Docker.Decoder.{rounds, update_container_stats_not_json}
use homemonit.Agent.Docker.Retry.{HasPorts, first_try-retry}
use homemonit.Agent.Docker.Ports.{IsSortOf, joined, Above, convert_container_ports_to_string-sorted}
use homemonit.Agent.Docker.Fresh.{update_container_stats-fresh}

-- Floats that are whole numbers.
abbrev whole : FloatOps
whole = record {
  add = λ a b. a + b;
  sub = λ a b. a - b;
  mul = λ a b. a * b;
  div = λ a b. a / b;
  max = λ a b. a;
  lt = ltb;
  le = leb;
  round = λ a. a;
  of_nat = λ a. a;
  to_nat = λ a. a;
}

abbrev no_api_stats : ApiStats
no_api_stats = record {
  read = 0;
  num_procs = 0;
  networks = [];
  total_usage = 0;
  system_usage = 0;
  usage = 0;
  cache = 0;
  inactive_file = 0;
  private_working_set = 0;
}

abbrev dm : DockerManager
dm = record {
  container_stats_map = [];
  last_cpu_container = [];
  last_cpu_system = [];
  last_cpu_read_time = [];
  network_sent_trackers = [];
  network_recv_trackers = [];
  last_network_read_time = [];
  is_windows = false;
  using_podman = false;
  docker_version_checked = true;
  exclude_containers = "hidden" ∷ [];
  api_stats = no_api_stats;
  decoder_failed = false;
}

abbrev container : String → String → ApiInfo
container id name = record {
  id_short = id;
  name = name;
  image = "img";
  status = "Up 2 days (healthy)";
  health_status = "";
  inspected = none;
  ports = record { public_port = 443; ip = "::" } ∷ record { public_port = 80; ip = "::1" } ∷ [];
  sorted_ports =
      record { public_port = 80; ip = "::1" } ∷ record { public_port = 443; ip = "::" } ∷ [];
}

abbrev fields : ℕ → ℕ → ApiFields
fields cpu sent = record {
  read = some 5;
  num_procs = none;
  networks = some (("eth0", record { rx_bytes = 0; tx_bytes = sent }) ∷ []);
  total_usage = some cpu;
  system_usage = some (cpu * 10);
  usage = some 3_145_728;
  cache = none;
  inactive_file = some 1_048_576;
  private_working_set = none;
}

abbrev both : List ApiInfo
both = container "a1" "web" ∷ container "b2" "hidden" ∷ []

abbrev answers : Answers
answers = record {
  listed = json both;
  server = "Docker/27.0 (linux)";
  version = unreachable;
  first = λ ctr. json (fields 500 7_000);
  again = λ ctr. json (fields 500 7_000);
}

-- Two rounds, a second apart.
abbrev after_two : DockerManager
after_two =
    let dm1 = (get_docker_stats (λ p n. p == n) whole 1_000 1_000_000_000 answers dm).0 in
    (get_docker_stats (λ p n. p == n) whole 1_000 2_000_000_000
      (record answers { first = λ ctr. json (fields 520 9_000) }) dm1).0

get_docker_stats-Listed_example :
    let (dm', stats) = get_docker_stats (λ p n. p == n) whole 1_000 1_000_000_000 answers dm in
    (stats ≡ some (map_values dm'.container_stats_map))
    × ((id : String)
        → watches (λ p n. p == n) whole id ("hidden" ∷ []) both ≡ false
        → lookup id dm'.container_stats_map ≡ none)
get_docker_stats-Listed_example =
    get_docker_stats-Listed (λ p n. p == n) whole 1_000 1_000_000_000 answers both dm refl refl

update_container_stats_not_json_example :
    let dm' = (update_container_stats whole (container "a1" "web") 1_000 9 not_json dm).0 in
    All
      (λ stats. stats ≡ none)
      (rounds (λ p n. p == n) whole ((1_000, 10, answers) ∷ (60_000, 11, answers) ∷ []) dm')
update_container_stats_not_json_example =
    update_container_stats_not_json (λ p n. p == n) whole (container "a1" "web") 1_000 9
      ((1_000, 10, answers) ∷ (60_000, 11, answers) ∷ []) dm

update_container_stats-fresh_example :
    let dm0 = delete_container_stats_sync "a1" after_two in
    let (dm', ok) =
      update_container_stats whole
        (container "a1" "web")
        1_000
        3_000_000_000
        (json (fields 30 100))
        dm0 in
    (ok ≡ true)
    × ((c : Container) × (lookup "a1" dm'.container_stats_map ≡ some c)
        × (c.cpu ≡ two_decimals whole 0)
        × (c.bandwidth ≡ (0, 0))
        × (c.mem ≡ bytes_to_megabytes whole 2_097_152))
unfolding get_docker_stats decode cycle_network_deltas second_tries first_tries matches_any
    update_container_stats measure_container calculate_memory_usage lookup insert detect has_infix
update_container_stats-fresh_example =
    update_container_stats-fresh whole (container "a1" "web") 1_000 3_000_000_000 (fields 30 100)
      2_097_152 after_two refl refl refl refl

-- The second container has no memory statistics of its own and gets those of the first.
stale_memory :
    let empty : ApiFields = record (fields 7 0) { usage = none; inactive_file = none } in
    calculate_memory_usage
      (unmarshal_stats empty (unmarshal_stats (fields 500 0) no_api_stats))
      false
    ≡ some 2_097_152
unfolding calculate_memory_usage unmarshal_stats
stale_memory = refl

status_of_a_starting_container :
    parse_docker_status " Up About 2 hours (health: Starting) " ≡ ("Up 2 hours", 1)
unfolding parse_docker_status trim_left trim_right has_suffix
status_of_a_starting_container = refl

status_without_health : parse_docker_status "Exited (0) 3 days ago" ≡ ("Exited (0) 3 days ago", 0)
unfolding parse_docker_status trim_left trim_right has_suffix
status_without_health = refl

-- The first answer has no memory statistics, the second has.
abbrev too_early : ApiFields
too_early = record (fields 500 7_000) { usage = some 0; inactive_file = some 0; cache = some 0 }

first_try-retry_example :
    let p : Pass = record { dm = dm; valid_ids = []; failed = [] } in
    let p' =
      first_try (λ p n. p == n) whole 1_000 9 (λ ctr. json too_early) (container "a1" "web") p in
    HasPorts "a1" ""
      (second_tries (λ p n. p == n) whole 1_000 9 (λ ctr. json (fields 500 7_000)) p'.failed p'.dm)
unfolding matches_any update_container_stats decode has_infix measure_container
    calculate_memory_usage
first_try-retry_example =
    first_try-retry (λ p n. p == n) whole (container "a1" "web") 1_000 9 (λ ctr. json too_early)
      (λ ctr. json (fields 500 7_000)) (record { dm = dm; valid_ids = []; failed = [] }) refl refl
      (λ e. cc) (λ e. cc) refl

abbrev four_ports : List Port
four_ports =
    record { public_port = 8_080; ip = "::1" }
    ∷ record { public_port = 443; ip = "0.0.0.0" }
    ∷ record { public_port = 443; ip = "10.0.0.2" }
    ∷ record { public_port = 0; ip = "" }
    ∷ []

-- The two ports of one number stand the other way round.
abbrev four_sorted : List Port
four_sorted =
    record { public_port = 0; ip = "" }
    ∷ record { public_port = 443; ip = "10.0.0.2" }
    ∷ record { public_port = 443; ip = "0.0.0.0" }
    ∷ record { public_port = 8_080; ip = "::1" }
    ∷ []

text_of_four_ports :
    convert_container_ports_to_string four_ports four_sorted ≡ "10.0.0.2:443, ::1:8080"
unfolding convert_container_ports_to_string write_ports
text_of_four_ports = refl

four_sorted-IsSortOf : IsSortOf four_ports four_sorted
four_sorted-IsSortOf = record {
  rises = (omega arith, (omega arith, (omega arith, (omega arith, tt))));
  same = λ p. ground arith;
}

convert_container_ports_to_string-sorted_example :
    (shown : List Port) × (convert_container_ports_to_string four_ports four_sorted
      ≡ joined "" shown)
    × Above 0 shown
    × All (λ p. Occurs p four_ports) shown
    × ((p : Port)
        → Occurs p four_ports
        → (p.public_port ≡ 0) ⊎ ((q : Port) × Occurs q shown × (q.public_port ≡ p.public_port)))
convert_container_ports_to_string-sorted_example =
    convert_container_ports_to_string-sorted four_ports four_sorted four_sorted-IsSortOf
