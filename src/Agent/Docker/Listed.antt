-- ===== src/Agent/Docker/Listed.antt =====
-- agent/docker.go: which containers the statistics are about.
use homemonit.Base.{
  ℕ, String, Bool, false, not, ◌&&◌, ◌||◌, Option, none, some, List, [], ◌∷◌, string_key, ◌≡◌, refl,
  ◌==◌, if◌then◌else◌, keep, lookup, map_values, FloatOps, ◌∙◌, insert, has_prefix, Option-cases,
  inl, inr, arith,
}
use homemonit.Entities.{Container}
use homemonit.Agent.Docker.Status.{has_infix}
use homemonit.Agent.Docker.State.{
  ApiFields, ApiInfo, Response, json, DockerManager, decode, unmarshal_stats, unreachable, unread,
  not_json,
}
use homemonit.Agent.Docker.{
  update_container_stats, delete_container_stats_sync, cycle_network_deltas, measure_container,
  finish_update, answered, decoded, reset_entry, calculate_memory_usage, cpu_percent,
  calculate_network_stats,
}
use homemonit.Agent.Docker.Round.{
  Answers, probe, probed, detect, detect_podman_from_version, apply_docker_version_info, update_all,
  decoded_list, Pass, listed_id, matches_any, should_exclude_container, after_update, first_try,
  first_tries, second_tries, get_docker_stats,
}

lookup-keep :
    (q : String → Bool) (k : String) (m : List (String × Container))
    → lookup k (keep (λ entry. q entry.0) m) ≡ (if q k then lookup k m else none)
unfolding lookup keep
lookup-keep q k [] = ground arith
lookup-keep q k ((i, c) ∷ m) = ground (arith, lookup-keep q k m, string_key.test_iff i k, q i, q k)

module _ (matches : String → String → Bool) (o : FloatOps) where
  -- The engine lists a container of this id that no pattern excludes.
  unfoldable pub watches : String → List String → List ApiInfo → Bool
  watches id patterns [] = false
  watches id patterns (ctr ∷ ctrs) =
      (not (matches_any matches o ctr.name patterns) && ctr.id_short == id)
      || watches id patterns ctrs

  measure-exclude :
      (ctr : ApiInfo) (interval now : ℕ) (f : ApiFields) (c : Container) (dm : DockerManager)
      → (measure_container o ctr interval now f c dm).0.exclude_containers ≡ dm.exclude_containers
  unfolding measure_container finish_update calculate_network_stats
  measure-exclude ctr interval now f c dm =
      let s = unmarshal_stats f dm.api_stats in
      ground (
        arith,
        calculate_memory_usage s dm.is_windows,
        o.lt (o.of_nat 100) (cpu_percent o s ctr.id_short interval dm),
      )

  decoded-exclude :
      (ctr : ApiInfo) (interval now : ℕ) (c : Container) (f : Option ApiFields) (dm : DockerManager)
      → (decoded o ctr interval now c f dm).0.exclude_containers ≡ dm.exclude_containers
  unfolding decoded
  decoded-exclude ctr interval now c none dm = refl
  decoded-exclude ctr interval now c (some f) dm = measure-exclude ctr interval now f c dm

  answered-exclude :
      (ctr : ApiInfo) (interval now : ℕ) (r : Response ApiFields) (dm : DockerManager)
      → (answered o ctr interval now r dm).0.exclude_containers ≡ dm.exclude_containers
  unfolding answered
  answered-exclude ctr interval now r dm =
      let stats = reset_entry dm.using_podman ctr (lookup ctr.id_short dm.container_stats_map) in
      let (fields, failed) = decode r dm.decoder_failed in
      decoded-exclude ctr interval now stats fields (record dm {
        container_stats_map = insert ctr.id_short stats dm.container_stats_map;
        decoder_failed = failed;
      })

  update-exclude :
      (ctr : ApiInfo) (interval now : ℕ) (r : Response ApiFields) (dm : DockerManager)
      → (update_container_stats o ctr interval now r dm).0.exclude_containers
        ≡ dm.exclude_containers
  unfolding update_container_stats
  update-exclude ctr interval now unreachable dm = refl
  update-exclude ctr interval now unread dm = answered-exclude ctr interval now unread dm
  update-exclude ctr interval now not_json dm = answered-exclude ctr interval now not_json dm
  update-exclude ctr interval now (json f) dm = answered-exclude ctr interval now (json f) dm

  -- What the loop adds to the valid ids, and that it keeps the patterns.
  pub record Extends (ctrs : List ApiInfo) (p p' : Pass) : Type 0 where
    pub patterns : p'.dm.exclude_containers ≡ p.dm.exclude_containers
    pub ids :
        (id : String)
        → listed_id id p'.valid_ids
          ≡ watches id p.dm.exclude_containers ctrs || listed_id id p.valid_ids

  first_try-Extends :
      (interval now : ℕ) (answer : ApiInfo → Response ApiFields) (ctr : ApiInfo) (p : Pass)
      → Extends (ctr ∷ []) p (first_try matches o interval now answer ctr p)
  unfolding first_try after_update watches listed_id delete_container_stats_sync
  first_try-Extends interval now answer ctr p =
      let fresh =
        if has_infix ctr.status "second"
        then delete_container_stats_sync ctr.id_short p.dm
        else p.dm in
      let kept = update-exclude ctr interval now (answer ctr) fresh in
      record {
        patterns = ground (
          arith,
          kept,
          has_infix ctr.status "second",
          should_exclude_container matches o ctr.name p.dm,
          (update_container_stats o ctr interval now (answer ctr) fresh).1,
        );
        ids = λ id. ground (
          arith,
          matches_any matches o ctr.name p.dm.exclude_containers,
          (update_container_stats o ctr interval now (answer ctr) fresh).1,
          ctr.id_short == id,
          listed_id id p.valid_ids,
        );
      }

  first_tries-Extends :
      (interval now : ℕ) (answer : ApiInfo → Response ApiFields) (ctrs : List ApiInfo) (p : Pass)
      → Extends ctrs p (first_tries matches o interval now answer ctrs p)
  unfolding first_tries watches
  first_tries-Extends interval now answer [] p = record { patterns = refl; ids = λ id. refl }
  first_tries-Extends interval now answer (ctr ∷ ctrs) p =
      let p' = first_try matches o interval now answer ctr p in
      let one = first_try-Extends interval now answer ctr p in
      let rest = first_tries-Extends interval now answer ctrs p' in
      record {
        patterns = rest.patterns ∙ one.patterns;
        ids = λ id. ground (
          arith,
          rest.ids id,
          one.ids id,
          one.patterns,
          matches_any matches o ctr.name p.dm.exclude_containers,
          ctr.id_short == id,
          watches id p.dm.exclude_containers ctrs,
          listed_id id p.valid_ids,
        );
      }

  second_tries-exclude :
      (interval now : ℕ) (answer : ApiInfo → Response ApiFields) (ctrs : List ApiInfo)
      (dm : DockerManager)
      → (second_tries matches o interval now answer ctrs dm).exclude_containers
        ≡ dm.exclude_containers
  unfolding second_tries
  second_tries-exclude interval now answer [] dm = refl
  second_tries-exclude interval now answer (ctr ∷ ctrs) dm =
      let dm' = (update_container_stats o ctr interval now (answer ctr) dm).0 in
      second_tries-exclude interval now answer ctrs dm'
      ∙ update-exclude ctr interval now (answer ctr) dm

  detect-exclude :
      (server : String) (dm : DockerManager)
      → (detect server dm).exclude_containers ≡ dm.exclude_containers
  unfolding detect
  detect-exclude server dm = ground (arith, has_prefix server "Libpod", dm.using_podman)

  apply-exclude :
      (server : String) (names : List String) (dm : DockerManager)
      → (apply_docker_version_info server names dm).exclude_containers ≡ dm.exclude_containers
  unfolding apply_docker_version_info
  apply-exclude server names dm =
      ground (arith, has_prefix server "Libpod", detect_podman_from_version names, dm.using_podman)

  probe-exclude :
      (r : Response (String × List String)) (dm : DockerManager)
      → (probe r dm).exclude_containers ≡ dm.exclude_containers
  unfolding probe probed
  probe-exclude r dm =
      let failed = (decode r dm.decoder_failed).1 in
      elim (Option-cases (decode r dm.decoder_failed).0) [
        | inl e ↦ ground (arith, e, dm.docker_version_checked)
        | inr ((server, names), e) ↦ ground (
          arith,
          e,
          dm.docker_version_checked,
          apply-exclude server names (record dm { decoder_failed = failed }),
        )
      ]

  update_all-Listed :
      (interval now : ℕ) (a : Answers) (ctrs : List ApiInfo) (dm : DockerManager)
      → let (dm', stats) = update_all matches o interval now a ctrs dm in
        (stats ≡ some (map_values dm'.container_stats_map))
        × ((id : String)
            → watches id dm.exclude_containers ctrs ≡ false
            → lookup id dm'.container_stats_map ≡ none)
  unfolding update_all cycle_network_deltas listed_id
  update_all-Listed interval now a ctrs dm =
      let started = probe a.version (detect a.server dm) in
      let p : Pass = record { dm = started; valid_ids = []; failed = [] } in
      let p' = first_tries matches o interval now a.first ctrs p in
      let updated = second_tries matches o interval now a.again p'.failed p'.dm in
      let step = first_tries-Extends interval now a.first ctrs p in
      let kept = probe-exclude a.version (detect a.server dm) ∙ detect-exclude a.server dm in
      (
        refl,
        λ id f. ground (
          arith,
          f,
          kept,
          step.ids id,
          lookup-keep (λ k. listed_id k p'.valid_ids) id updated.container_stats_map,
        ),
      )

  some_list :
      (interval now : ℕ) (a : Answers) (ctrs : List ApiInfo) (dm : DockerManager)
      → dm.decoder_failed ≡ false
      → decoded_list matches o interval now a (if dm.decoder_failed then none else some ctrs) dm
        ≡ update_all matches o interval now a ctrs dm
  unfolding decoded_list
  some_list interval now a ctrs dm e = rw e refl

  get_docker_stats-json :
      (interval now : ℕ) (a : Answers) (ctrs : List ApiInfo) (dm : DockerManager)
      → dm.decoder_failed ≡ false
      → a.listed ≡ json ctrs
      → get_docker_stats matches o interval now a dm ≡ update_all matches o interval now a ctrs dm
  unfolding get_docker_stats decode
  get_docker_stats-json interval now a ctrs dm e f = rw f (some_list interval now a ctrs dm e)

  -- A round whose list of containers is decoded gives statistics: the entries of the map, where an id
  -- has an entry only if the engine lists a container of this id that no pattern excludes. The decoder
  -- has kept no error.
  pub get_docker_stats-Listed :
      (interval now : ℕ) (a : Answers) (ctrs : List ApiInfo) (dm : DockerManager)
      → dm.decoder_failed ≡ false
      → a.listed ≡ json ctrs
      → let (dm', stats) = get_docker_stats matches o interval now a dm in
        (stats ≡ some (map_values dm'.container_stats_map))
        × ((id : String)
            → watches id dm.exclude_containers ctrs ≡ false
            → lookup id dm'.container_stats_map ≡ none)
  get_docker_stats-Listed interval now a ctrs dm e f =
      rw (get_docker_stats-json interval now a ctrs dm e f)
        (update_all-Listed interval now a ctrs dm)
