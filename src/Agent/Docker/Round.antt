-- ===== src/Agent/Docker/Round.antt =====
-- agent/docker.go: `getDockerStats`, which updates all containers, tries those again that failed, and
-- drops those that are no longer listed. What the version of the engine is for, the number of updates
-- that run at once, is left out, and so is the note to the hub that the engine is Podman.
use homemonit.Base.{
  ℕ, String, Bool, true, false, ◌||◌, Option, none, some, List, [], ◌∷◌, string_key, ◌==◌,
  if◌then◌else◌, keep, erase, has_prefix, map_values, FloatOps,
}
use homemonit.Entities.{Container}
use homemonit.Agent.Docker.Status.{has_infix}
use homemonit.Agent.Docker.State.{ApiFields, ApiInfo, Response, DockerManager, decode}
use homemonit.Agent.Docker.{
  spent, update_container_stats, delete_container_stats_sync, cycle_network_deltas,
}

-- What the engine answers in a round. `server` is the header Server of the list of containers; of the
-- answer on the version this header and the names of the components are kept.
pub record Answers : Type 0 where
  pub listed : Response (List ApiInfo)
  pub server : String
  pub version : Response (String × List String)
  pub first : ApiInfo → Response ApiFields
  pub again : ApiInfo → Response ApiFields

-- The loop over the containers, with what is left of the failed ones, in reverse.
pub record Pass : Type 0 where
  pub dm : DockerManager
  pub valid_ids : List String
  pub failed : List ApiInfo

unfoldable pub listed_id : String → List String → Bool
listed_id id [] = false
listed_id id (valid ∷ rest) = valid == id || listed_id id rest

abbrev pub detect_podman_from_header : String → Bool
detect_podman_from_header server = has_prefix server "Libpod"

unfoldable pub detect_podman_from_version : List String → Bool
detect_podman_from_version [] = false
detect_podman_from_version (name ∷ names) =
    has_prefix name "Podman" || detect_podman_from_version names

abbrev pub set_is_podman : DockerManager → DockerManager
set_is_podman dm =
    if dm.using_podman then dm else record dm { using_podman = true; docker_version_checked = true }

-- What the list's header tells.
unfoldable pub detect : String → DockerManager → DockerManager
detect server dm =
    let dm' = if detect_podman_from_header server then set_is_podman dm else dm in
    record dm' { is_windows = has_infix server "windows" }

-- `applyDockerVersionInfo`, for the header and the names of the components.
unfoldable pub apply_docker_version_info : String → List String → DockerManager → DockerManager
apply_docker_version_info server names dm =
    if detect_podman_from_header server || detect_podman_from_version names
    then set_is_podman dm
    else dm

-- `checkDockerVersion` with the decoded answer.
unfoldable pub probed : Option (String × List String) → DockerManager → DockerManager
unfolding apply_docker_version_info
probed none dm = dm
probed (some (server, names)) dm = record (apply_docker_version_info server names dm) {
  docker_version_checked = true;
}

-- `ensureDockerVersionChecked`.
unfoldable pub probe : Response (String × List String) → DockerManager → DockerManager
unfolding probed
probe r dm =
    let (info, failed) = decode r dm.decoder_failed in
    if dm.docker_version_checked then dm else probed info (record dm { decoder_failed = failed })

-- A container that was perhaps started again has no data of before.
abbrev pub restarted : ApiInfo → DockerManager → DockerManager
restarted ctr dm =
    if has_infix ctr.status "second" then delete_container_stats_sync ctr.id_short dm else dm

module _ (matches : String → String → Bool) (o : FloatOps) where
  unfoldable pub matches_any : String → List String → Bool
  matches_any name [] = false
  matches_any name (pattern ∷ patterns) = matches pattern name || matches_any name patterns

  abbrev pub should_exclude_container : String → DockerManager → Bool
  should_exclude_container name dm = matches_any name dm.exclude_containers

  unfoldable pub after_update : ApiInfo → ApiInfo → DockerManager × Bool → Pass → Pass
  after_update ctr left (dm, ok) p =
      if ok then record p { dm = dm; valid_ids = ctr.id_short ∷ p.valid_ids } else record {
        dm = record dm { container_stats_map = erase ctr.id_short dm.container_stats_map };
        valid_ids = ctr.id_short ∷ p.valid_ids;
        failed = left ∷ p.failed;
      }

  unfoldable pub first_try : ℕ → ℕ → (ApiInfo → Response ApiFields) → ApiInfo → Pass → Pass
  unfolding after_update
  first_try interval now answer ctr p =
      if should_exclude_container ctr.name p.dm
      then p
      else after_update ctr (spent ctr (answer ctr))
          (update_container_stats o ctr interval now (answer ctr) (restarted ctr p.dm)) p

  unfoldable pub first_tries : ℕ → ℕ → (ApiInfo → Response ApiFields) → List ApiInfo → Pass → Pass
  unfolding first_try
  first_tries interval now answer [] p = p
  first_tries interval now answer (ctr ∷ ctrs) p =
      first_tries interval now answer ctrs (first_try interval now answer ctr p)

  unfoldable pub second_tries :
      ℕ → ℕ → (ApiInfo → Response ApiFields) → List ApiInfo → DockerManager → DockerManager
  second_tries interval now answer [] dm = dm
  second_tries interval now answer (ctr ∷ ctrs) dm =
      second_tries interval now answer ctrs
        (update_container_stats o ctr interval now (answer ctr) dm).0

  -- The entries of the containers that are valid.
  abbrev pub prune : List String → List (String × Container) → List (String × Container)
  prune valid_ids = keep (λ entry. listed_id entry.0 valid_ids)

  unfoldable pub update_all :
      ℕ → ℕ → Answers → List ApiInfo → DockerManager → DockerManager × Option (List Container)
  update_all interval now a ctrs dm =
      let started = probe a.version (detect a.server dm) in
      let p =
        first_tries interval now a.first ctrs
          (record { dm = started; valid_ids = []; failed = [] }) in
      let updated = second_tries interval now a.again p.failed p.dm in
      let stats = prune p.valid_ids updated.container_stats_map in
      (
        cycle_network_deltas interval (record updated { container_stats_map = stats }),
        some (map_values stats),
      )

  unfoldable pub decoded_list :
      ℕ
      → ℕ
      → Answers
      → Option (List ApiInfo)
      → DockerManager
      → DockerManager × Option (List Container)
  decoded_list interval now a none dm = (dm, none)
  decoded_list interval now a (some ctrs) dm = update_all interval now a ctrs dm

  -- `none` is an error.
  unfoldable pub get_docker_stats :
      ℕ → ℕ → Answers → DockerManager → DockerManager × Option (List Container)
  unfolding decoded_list update_all probe
  get_docker_stats interval now a dm =
      let (ctrs, failed) = decode a.listed dm.decoder_failed in
      decoded_list interval now a ctrs (record dm { decoder_failed = failed })
