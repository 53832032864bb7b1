-- ===== src/Hub/Systems/Updater/Deprecated.antt =====
-- internal/hub/systems/system.go: `migrateDeprecatedFields`, which fills the fields that an older
-- agent does not send.
use homemonit.Base.{
  ℕ, Bool, true, false, ◌&&◌, Option, none, some, ◌==◌, ◌≡◌, ◌∙◌, refl, string_key, nat_key,
  if◌then◌else◌, Float, FloatOps, arith, Bool-cases, inl, inr,
}
use homemonit.Records.Stats.{Stats}
use homemonit.Entities.{Info, Details, CombinedData}

module _ (o : FloatOps) where
  -- uint64(value * 1024 * 1024)
  abbrev pub mega : Float → ℕ
  mega value = o.to_nat (o.mul (o.mul value (o.of_nat 1_024)) (o.of_nat 1_024))

  abbrev pub giga : Float → ℕ
  giga value =
      o.to_nat (o.mul (o.mul (o.mul value (o.of_nat 1_024)) (o.of_nat 1_024)) (o.of_nat 1_024))

  unfoldable pub migrate_bandwidth : Stats → Stats
  migrate_bandwidth s =
      if s.bandwidth.0 == 0 && s.bandwidth.1 == 0
      then record s {
        bandwidth = (mega s.network_sent, mega s.network_recv);
        network_sent = 0;
        network_recv = 0;
      }
      else s

  unfoldable pub migrate_disk_io : Stats → Stats
  migrate_disk_io s =
      if s.disk_io.0 == 0 && s.disk_io.1 == 0
      then record s {
        disk_io = (mega s.disk_read_ps, mega s.disk_write_ps);
        disk_read_ps = 0;
        disk_write_ps = 0;
      }
      else s

  unfoldable pub migrate_info : Info → Info
  migrate_info i =
      if i.bandwidth_bytes == 0
      then record i { bandwidth_bytes = mega i.bandwidth; bandwidth = 0 }
      else i

  abbrev pub details_of : CombinedData → Details
  details_of cd = record {
    hostname = cd.info.hostname;
    kernel = cd.info.kernel_version;
    cores = cd.info.cores;
    threads = cd.info.threads;
    cpu_model = cd.info.cpu_model;
    os = cd.info.os;
    os_name = "";
    arch = "";
    podman = cd.info.podman;
    memory_total = giga cd.stats.mem;
    smart_interval = 0;
  }

  -- The static fields of `Info` are cleared where they moved to the details.
  abbrev pub clear_info : Info → Info
  clear_info i = record i {
    hostname = "";
    kernel_version = "";
    cores = 0;
    cpu_model = "";
    podman = false;
    os = 0;
  }

  migrate_details : Bool → Option Details → CombinedData → CombinedData
  migrate_details create_details (some details) cd = cd
  migrate_details create_details none cd = if cd.info.hostname == "" then cd else record cd {
    details = if create_details then some (details_of cd) else none;
    info = clear_info cd.info;
  }

  unfoldable pub migrate_deprecated_fields : CombinedData → Bool → CombinedData
  unfolding migrate_details
  migrate_deprecated_fields cd create_details =
      let cd' = record cd {
        stats = migrate_disk_io (migrate_bandwidth cd.stats);
        info = migrate_info cd.info;
      } in
      migrate_details create_details cd'.details cd'

  -- Zero times a number is zero.
  pub record ZeroStays : Type 0 where
    pub zero : mega 0 ≡ 0

  migrate_bandwidth_twice :
      (s : Stats) → ZeroStays → migrate_bandwidth (migrate_bandwidth s) ≡ migrate_bandwidth s
  unfolding migrate_bandwidth
  migrate_bandwidth_twice s z = ground (arith, z.zero)

  migrate_disk_io_twice :
      (s : Stats) → ZeroStays → migrate_disk_io (migrate_disk_io s) ≡ migrate_disk_io s
  unfolding migrate_disk_io
  migrate_disk_io_twice s z = ground (arith, z.zero)

  migrate_comm :
      (s : Stats) → migrate_bandwidth (migrate_disk_io s) ≡ migrate_disk_io (migrate_bandwidth s)
  unfolding migrate_disk_io migrate_bandwidth
  migrate_comm s = ground arith

  migrate_stats_twice :
      (s : Stats)
      → ZeroStays
      → let s' = migrate_disk_io (migrate_bandwidth s) in
        migrate_disk_io (migrate_bandwidth s') ≡ s'
  migrate_stats_twice s z = cc (
    migrate_comm (migrate_bandwidth s),
    migrate_bandwidth_twice s z,
    migrate_disk_io_twice (migrate_bandwidth s) z,
  )

  migrate_info_twice : (i : Info) → ZeroStays → migrate_info (migrate_info i) ≡ migrate_info i
  unfolding migrate_info
  migrate_info_twice i z = ground (arith, z.zero)

  migrate_info-clear : (i : Info) → migrate_info (clear_info i) ≡ clear_info (migrate_info i)
  unfolding migrate_info
  migrate_info-clear i = ground arith

  migrate_details_twice :
      (first second : Bool) (d : Option Details) (cd : CombinedData)
      → cd.details ≡ d
      → let cd' = migrate_details first d cd in migrate_details second cd'.details cd' ≡ cd'
  unfolding migrate_details
  migrate_details_twice first second (some d) cd e = rw e refl
  migrate_details_twice true second none cd e = ground (arith, e, cd.info.hostname == "")
  migrate_details_twice false second none cd e = elim (Bool-cases (cd.info.hostname == "")) [
    | inl blank ↦ ground (arith, e, blank)
    | inr named ↦ rw (named, migrate_details) refl
  ]

  -- The details leave the migrated statistics, and what is migrated of the rest.
  migrate_details-keeps :
      (first : Bool) (d : Option Details) (cd : CombinedData)
      → migrate_info cd.info ≡ cd.info
      → let cd' = migrate_details first d cd in
        (cd'.stats ≡ cd.stats) × (migrate_info cd'.info ≡ cd'.info)
  unfolding migrate_details
  migrate_details-keeps first (some d) cd e = (refl, e)
  migrate_details-keeps first none cd e = elim (Bool-cases (cd.info.hostname == "")) [
    | inl blank ↦ rw (blank, migrate_details) (refl, e)
    | inr named ↦ rw (named, migrate_details) (refl, cc (migrate_info-clear cd.info, e))
  ]

  migrate_steady :
      (cd : CombinedData) (b : Bool)
      → migrate_disk_io (migrate_bandwidth cd.stats) ≡ cd.stats
      → migrate_info cd.info ≡ cd.info
      → migrate_deprecated_fields cd b ≡ migrate_details b cd.details cd
  unfolding migrate_deprecated_fields
  migrate_steady cd b e f = rw (e, f) refl

  -- Migrating a second time changes nothing, whether or not details may be made by then.
  pub migrate_deprecated_fields_twice :
      (cd : CombinedData) (first second : Bool)
      → ZeroStays
      → (let cd' = migrate_deprecated_fields cd first in migrate_deprecated_fields cd' second ≡ cd')
  unfolding migrate_deprecated_fields
  migrate_deprecated_fields_twice cd first second z =
      let cd0 = record cd {
        stats = migrate_disk_io (migrate_bandwidth cd.stats);
        info = migrate_info cd.info;
      } in
      let keeps = migrate_details-keeps first cd.details cd0 (migrate_info_twice cd.info z) in
      let cd' = migrate_details first cd.details cd0 in
      migrate_steady cd' second (cc (keeps.0, migrate_stats_twice cd.stats z)) keeps.1
      ∙ migrate_details_twice first second cd.details cd0 refl
