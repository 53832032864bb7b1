-- ===== src/Agent/Docker/Fresh.antt =====
-- agent/docker.go: the first measure of a container that was started again.
use homemonit.Base.{
  ℕ, String, Bool, true, false, none, some, [], ◌∷◌, string_key, nat_key, nat_beq_iff, ◌≡◌, refl,
  lookup, insert, lookup-insert, lookup-erase, FloatOps, two_decimals, arith,
}
use homemonit.Entities.{Container}
use homemonit.Agent.Disk.Io.{bytes_to_megabytes}
use homemonit.Agent.Docker.State.{
  ApiStats, ApiFields, ApiInfo, json, DockerManager, Tracking, inner, forget, put, unmarshal_stats,
  decode,
}
use homemonit.Agent.Docker.{
  reset_entry, calculate_memory_usage, calculate_network_stats, rate_since,
  delete_container_stats_sync, calculate_cpu_percent_linux, cpu_percent, measure_container,
  finish_update, update_container_stats_values, update_container_stats, answered, decoded,
}

inner-forget :
    (interval : ℕ) (id : String) (t : Tracking) → lookup id (inner interval (forget id t)) ≡ none
unfolding lookup forget
inner-forget interval id [] = refl
inner-forget interval id ((i, m) ∷ t) = ground (
  arith,
  inner-forget interval id t,
  lookup-erase id id m,
  string_key.test_iff id id,
  nat_beq_iff i interval,
)

module _ (o : FloatOps) where
  cpu_percent-fresh :
      (s : ApiStats) (id : String) (interval : ℕ) (dm : DockerManager)
      → dm.is_windows ≡ false
      → lookup id (inner interval dm.last_cpu_container) ≡ none
      → cpu_percent o s id interval dm ≡ 0
  unfolding cpu_percent calculate_cpu_percent_linux
  cpu_percent-fresh s id interval dm w e = ground (arith, w, e)

  rates-fresh :
      (id : String) (s : ApiStats) (interval now : ℕ) (dm : DockerManager)
      → lookup id (inner interval dm.last_network_read_time) ≡ none
      → (calculate_network_stats id s interval now dm).1 ≡ (0, 0)
  unfolding calculate_network_stats rate_since
  rates-fresh id s interval now dm e = rw e refl

  finish_update-fresh :
      (ctr : ApiInfo) (interval now : ℕ) (s : ApiStats) (used : ℕ) (stats : Container)
      (dm : DockerManager)
      → lookup ctr.id_short (inner interval dm.last_network_read_time) ≡ none
      → lookup ctr.id_short (finish_update o ctr interval now s 0 used stats dm).container_stats_map
        ≡ some (update_container_stats_values o 0 used (0, 0) stats)
  unfolding finish_update calculate_network_stats rate_since
  finish_update-fresh ctr interval now s used stats dm e = rw e (
      ground (
        arith,
        lookup-insert ctr.id_short ctr.id_short
            (update_container_stats_values o 0 used (0, 0) stats) dm.container_stats_map,
        string_key.test_iff ctr.id_short ctr.id_short,
      ))

  measure_container-fresh :
      (ctr : ApiInfo) (interval now : ℕ) (f : ApiFields) (used : ℕ) (stats : Container)
      (dm : DockerManager)
      → dm.is_windows ≡ false
      → calculate_memory_usage (unmarshal_stats f dm.api_stats) dm.is_windows ≡ some used
      → o.lt (o.of_nat 100) 0 ≡ false
      → lookup ctr.id_short (inner interval dm.last_cpu_container) ≡ none
      → lookup ctr.id_short (inner interval dm.last_network_read_time) ≡ none
      → let (dm', ok) = measure_container o ctr interval now f stats dm in
        (ok ≡ true)
        × (lookup ctr.id_short dm'.container_stats_map
            ≡ some (update_container_stats_values o 0 used (0, 0) stats))
  unfolding measure_container
  measure_container-fresh ctr interval now f used stats dm w m l c n =
      let s = unmarshal_stats f dm.api_stats in
      let pct = cpu_percent-fresh s ctr.id_short interval dm w c in
      let stored = record dm {
        api_stats = s;
        last_cpu_container = put interval ctr.id_short s.total_usage dm.last_cpu_container;
        last_cpu_system = put interval ctr.id_short s.system_usage dm.last_cpu_system;
      } in
      rw (measure_container, m, pct, l)
        (refl, finish_update-fresh ctr interval now s used stats stored n)

  decode-fresh :
      (f : ApiFields) (failed : Bool) → failed ≡ false → decode (json f) failed ≡ (some f, false)
  unfolding decode
  decode-fresh f failed e = rw e refl

  answered-fresh :
      (ctr : ApiInfo) (interval now : ℕ) (f : ApiFields) (used : ℕ) (dm : DockerManager)
      → dm.is_windows ≡ false
      → dm.decoder_failed ≡ false
      → calculate_memory_usage (unmarshal_stats f dm.api_stats) dm.is_windows ≡ some used
      → o.lt (o.of_nat 100) 0 ≡ false
      → lookup ctr.id_short (inner interval dm.last_cpu_container) ≡ none
      → lookup ctr.id_short (inner interval dm.last_network_read_time) ≡ none
      → let stats = reset_entry dm.using_podman ctr (lookup ctr.id_short dm.container_stats_map) in
        let (dm', ok) = answered o ctr interval now (json f) dm in
        (ok ≡ true)
        × (lookup ctr.id_short dm'.container_stats_map
            ≡ some (update_container_stats_values o 0 used (0, 0) stats))
  unfolding answered decoded
  answered-fresh ctr interval now f used dm w d m l c n =
      let stats = reset_entry dm.using_podman ctr (lookup ctr.id_short dm.container_stats_map) in
      rw (decode-fresh f dm.decoder_failed d) (
        measure_container-fresh ctr interval now f used stats
          (record dm {
            container_stats_map = insert ctr.id_short stats dm.container_stats_map;
            decoder_failed = false;
          })
          w m l c n)

  -- A container that was deleted before: with memory statistics that are accepted, an answer that is
  -- decoded gives it an entry without processor use and network rates, although its counters are not at
  -- 0. The engine is not on Windows, the decoder has kept no error, and 100 is not less than 0.
  pub update_container_stats-fresh :
      (ctr : ApiInfo) (interval now : ℕ) (f : ApiFields) (used : ℕ) (dm : DockerManager)
      → dm.is_windows ≡ false
      → dm.decoder_failed ≡ false
      → calculate_memory_usage (unmarshal_stats f dm.api_stats) false ≡ some used
      → o.lt (o.of_nat 100) 0 ≡ false
      → let dm0 = delete_container_stats_sync ctr.id_short dm in
        let (dm', ok) = update_container_stats o ctr interval now (json f) dm0 in
        (ok ≡ true)
        × ((c : Container) × (lookup ctr.id_short dm'.container_stats_map ≡ some c)
            × (c.cpu ≡ two_decimals o 0)
            × (c.bandwidth ≡ (0, 0))
            × (c.mem ≡ bytes_to_megabytes o (o.of_nat used)))
  unfolding delete_container_stats_sync update_container_stats update_container_stats_values
  update_container_stats-fresh ctr interval now f used dm w d m l =
      let id = ctr.id_short in
      let dm0 = delete_container_stats_sync id dm in
      let stats = reset_entry dm.using_podman ctr (lookup id dm0.container_stats_map) in
      let (ok, found) =
        answered-fresh ctr interval now f used dm0 w d (rw w m) l
          (inner-forget interval id dm.last_cpu_container)
          (inner-forget interval id dm.last_network_read_time) in
      (ok, (update_container_stats_values o 0 used (0, 0) stats, found, refl, refl, refl))
