-- ===== src/Agent/Docker/Retry.antt =====
-- agent/docker.go: the ports of a container of which the first update of a round fails.
use homemonit.Base.{
  ℕ, String, Bool, false, Option, none, some, List, [], string_key, ◌≡◌, refl, ◌∙◌, lookup, insert,
  erase, lookup-insert, lookup-erase, Float, FloatOps, Option-cases, Bool-cases, inl, inr, arith,
}
use homemonit.Entities.{Container}
use homemonit.Agent.Docker.State.{
  ApiStats, ApiFields, ApiInfo, Response, json, unreachable, unread, not_json, DockerManager,
  decode, put, unmarshal_stats,
}
use homemonit.Agent.Docker.{
  reset_entry, ports_or, spent, measure_container, finish_update, cpu_percent,
  calculate_memory_usage, calculate_network_stats, update_container_stats_values,
  update_container_stats, answered, decoded,
}
use homemonit.Agent.Docker.Round.{
  Pass, restarted, first_try, after_update, second_tries, should_exclude_container,
}

-- The container of this id has an entry with these ports.
abbrev pub HasPorts : String → String → DockerManager → Type 0
HasPorts id ports dm =
    (c : Container) × (lookup id dm.container_stats_map ≡ some c) × (c.ports ≡ ports)

inserted-HasPorts :
    (id : String) (c : Container) (m : List (String × Container))
    → lookup id (insert id c m) ≡ some c
inserted-HasPorts id c m = ground (arith, lookup-insert id id c m, string_key.test_iff id id)

erased_none : (id : String) (m : List (String × Container)) → lookup id (erase id m) ≡ none
erased_none id m = ground (arith, lookup-erase id id m, string_key.test_iff id id)

spent-ports :
    (ctr : ApiInfo) (r : Response ApiFields)
    → ¬ (r ≡ unreachable)
    → ((spent ctr r).id_short ≡ ctr.id_short) × ((spent ctr r).ports ≡ [])
unfolding spent
spent-ports ctr unreachable n = absurd (n refl)
spent-ports ctr unread n = (refl, refl)
spent-ports ctr not_json n = (refl, refl)
spent-ports ctr (json f) n = (refl, refl)

reset_entry-no_ports :
    (using_podman : Bool) (ctr : ApiInfo)
    → ctr.ports ≡ []
    → (reset_entry using_podman ctr none).ports ≡ ""
unfolding reset_entry ports_or
reset_entry-no_ports using_podman ctr e = rw e refl

module _ (matches : String → String → Bool) (o : FloatOps) where
  finish-HasPorts :
      (ctr : ApiInfo) (interval now : ℕ) (s : ApiStats) (pct : Float) (used : ℕ) (c : Container)
      (dm : DockerManager)
      → HasPorts ctr.id_short c.ports (finish_update o ctr interval now s pct used c dm)
  unfolding finish_update update_container_stats_values
  finish-HasPorts ctr interval now s pct used c dm =
      let (dm', rates) = calculate_network_stats ctr.id_short s interval now dm in
      let entry = update_container_stats_values o pct used rates c in
      (entry, inserted-HasPorts ctr.id_short entry dm.container_stats_map, refl)

  measure-HasPorts :
      (ctr : ApiInfo) (interval now : ℕ) (f : ApiFields) (c : Container) (dm : DockerManager)
      → lookup ctr.id_short dm.container_stats_map ≡ some c
      → HasPorts ctr.id_short c.ports (measure_container o ctr interval now f c dm).0
  unfolding measure_container
  measure-HasPorts ctr interval now f c dm e =
      let s = unmarshal_stats f dm.api_stats in
      let pct = cpu_percent o s ctr.id_short interval dm in
      elim (Option-cases (calculate_memory_usage s dm.is_windows)) [
        | inl m ↦ rw (measure_container, m) (c, e, refl)
        | inr (used, m) ↦ elim (Bool-cases (o.lt (o.of_nat 100) pct)) [
          | inl t ↦ rw (measure_container, m, t) (c, e, refl)
          | inr t ↦
              rw (measure_container, m, t)
                (finish-HasPorts ctr interval now s pct used c (record dm {
                  api_stats = s;
                  last_cpu_container =
                      put interval ctr.id_short s.total_usage dm.last_cpu_container;
                  last_cpu_system = put interval ctr.id_short s.system_usage dm.last_cpu_system;
                }))
        ]
      ]

  decoded-HasPorts :
      (ctr : ApiInfo) (interval now : ℕ) (c : Container) (f : Option ApiFields) (dm : DockerManager)
      → lookup ctr.id_short dm.container_stats_map ≡ some c
      → HasPorts ctr.id_short c.ports (decoded o ctr interval now c f dm).0
  unfolding decoded
  decoded-HasPorts ctr interval now c none dm e = (c, e, refl)
  decoded-HasPorts ctr interval now c (some f) dm e = measure-HasPorts ctr interval now f c dm e

  answered-HasPorts :
      (ctr : ApiInfo) (interval now : ℕ) (r : Response ApiFields) (dm : DockerManager)
      → let stats = reset_entry dm.using_podman ctr (lookup ctr.id_short dm.container_stats_map) in
        HasPorts ctr.id_short stats.ports (answered o ctr interval now r dm).0
  unfolding answered
  answered-HasPorts ctr interval now r dm =
      let stats = reset_entry dm.using_podman ctr (lookup ctr.id_short dm.container_stats_map) in
      let (fields, failed) = decode r dm.decoder_failed in
      decoded-HasPorts ctr interval now stats fields
        (record dm {
          container_stats_map = insert ctr.id_short stats dm.container_stats_map;
          decoder_failed = failed;
        })
        (inserted-HasPorts ctr.id_short stats dm.container_stats_map)

  update-HasPorts :
      (ctr : ApiInfo) (interval now : ℕ) (r : Response ApiFields) (dm : DockerManager)
      → ¬ (r ≡ unreachable)
      → let stats = reset_entry dm.using_podman ctr (lookup ctr.id_short dm.container_stats_map) in
        HasPorts ctr.id_short stats.ports (update_container_stats o ctr interval now r dm).0
  unfolding update_container_stats
  update-HasPorts ctr interval now unreachable dm n = absurd (n refl)
  update-HasPorts ctr interval now unread dm n = answered-HasPorts ctr interval now unread dm
  update-HasPorts ctr interval now not_json dm n = answered-HasPorts ctr interval now not_json dm
  update-HasPorts ctr interval now (json f) dm n = answered-HasPorts ctr interval now (json f) dm

  after_update-retry :
      (ctr : ApiInfo) (interval now : ℕ) (again : ApiInfo → Response ApiFields)
      (r : Response ApiFields) (dm : DockerManager) (p : Pass)
      → p.failed ≡ []
      → ¬ (r ≡ unreachable)
      → ¬ (again (spent ctr r) ≡ unreachable)
      → let p' = after_update matches o ctr (spent ctr r) (dm, false) p in
        HasPorts ctr.id_short "" (second_tries matches o interval now again p'.failed p'.dm)
  unfolding after_update second_tries
  after_update-retry ctr interval now again r dm p e n n' =
      let left = spent ctr r in
      let erased = erase ctr.id_short dm.container_stats_map in
      let (same, empty) = spent-ports ctr r n in
      let none_left : lookup left.id_short erased ≡ none =
        rw (same) (erased_none ctr.id_short dm.container_stats_map) in
      let (c, l, q) =
        update-HasPorts left interval now (again left) (record dm { container_stats_map = erased })
          n' in
      rw (e) (c, cc, q ∙ rw (none_left) (reset_entry-no_ports dm.using_podman left empty))

  -- The last container of a round, the only one that fails and not excluded: when there is an answer to
  -- its first update, but the update fails, and its second update has an answer too, then the entry of
  -- the container has no ports, whatever ports the engine lists.
  pub first_try-retry :
      (ctr : ApiInfo) (interval now : ℕ) (first again : ApiInfo → Response ApiFields) (p : Pass)
      → p.failed ≡ []
      → should_exclude_container matches o ctr.name p.dm ≡ false
      → ¬ (first ctr ≡ unreachable)
      → ¬ (again (spent ctr (first ctr)) ≡ unreachable)
      → (update_container_stats o ctr interval now (first ctr) (restarted ctr p.dm)).1 ≡ false
      → let p' = first_try matches o interval now first ctr p in
        HasPorts ctr.id_short "" (second_tries matches o interval now again p'.failed p'.dm)
  unfolding first_try
  first_try-retry ctr interval now first again p e x n n' f =
      let dm' = (update_container_stats o ctr interval now (first ctr) (restarted ctr p.dm)).0 in
      rw (x, f) (after_update-retry ctr interval now again (first ctr) dm' p e n n')
