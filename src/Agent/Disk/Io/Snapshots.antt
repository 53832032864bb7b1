-- ===== src/Agent/Disk/Io/Snapshots.antt =====
-- agent/disk.go: the snapshots of the devices per interval.
use homemonit.Base.{
  ℕ, String, Bool, true, false, ◌&&◌, ◌≡◌, ◌≢◌, inl, inr, refl, ◌∙◌, subst, Option, none, some,
  List, [], ◌∷◌, ◌==◌, string_key, nat_key, ltb, if◌then◌else◌, lookup, insert, lookup-insert,
  IsMap, FloatOps, Option-cases, Bool-cases, arith,
}
use homemonit.Records.Stats.{Stats}
use homemonit.Agent.Disk.{IoCountersStat}
use homemonit.Agent.Disk.Discovery.{TrackedFs, FsTable}
use homemonit.Agent.Disk.Io.{
  PrevDisk, DiskState, prev_disk_from_counter, initialize_entries, initialize_disk_io_stats,
  ms_elapsed, prev_or_seed, with_rates, invalid, measure, snapshots, with_snapshot, device_round,
  device_rounds, update_disk_io,
}

-- Whether a device is tracked.
abbrev pub is_tracked : String → FsTable → Bool
is_tracked name t = elim (lookup name t) [ none ↦ false | some fs ↦ true ]

is_tracked-initialize :
    (name : String) (now : ℕ) (counters : List (String × IoCountersStat)) (t : FsTable)
    → is_tracked name (initialize_entries now counters t).0 ≡ is_tracked name t
unfolding initialize_entries lookup
is_tracked-initialize name now counters [] = refl
is_tracked-initialize name now counters ((device, fs) ∷ rest) =
    ground
      (arith, is_tracked-initialize name now counters rest, lookup device counters, device == name)

is_tracked-insert :
    (name key : String) (fs : TrackedFs) (t : FsTable)
    → is_tracked key t ≡ true
    → is_tracked name (insert key fs t) ≡ is_tracked name t
is_tracked-insert name key fs t known =
    ground (arith, known, lookup-insert key name fs t, string_key.test_iff key name)

module _ (o : FloatOps) where
  measure-tracked :
      (name : String) (now : ℕ) (counters : List (String × IoCountersStat)) (d : IoCountersStat)
      (prev : PrevDisk) (stats : TrackedFs) (a : DiskState) (s : Stats)
      → is_tracked d.name a.fs_stats ≡ true
      → let a' = (measure o now counters d prev stats (a, s)).0 in
        (is_tracked name a'.fs_stats ≡ is_tracked name a.fs_stats) × (a'.disk_prev ≡ a.disk_prev)
  unfolding measure initialize_disk_io_stats
  measure-tracked name now counters d prev stats a s known =
      let measured = with_rates o now d prev (ms_elapsed now prev.at) stats in
      ground (
        arith,
        known,
        is_tracked-initialize name now counters a.fs_stats,
        is_tracked-insert name d.name measured a.fs_stats known,
        ltb (ms_elapsed now prev.at) 100,
        invalid o measured,
      )

  -- What one round leaves: the other intervals, the tracked names, and the snapshots.
  record Left (interval now : ℕ) (name : String) (d : IoCountersStat) (a a' : DiskState)
      : Type 0 where
    pub others : (i : ℕ) → interval ≢ i → lookup i a'.disk_prev ≡ lookup i a.disk_prev
    pub tracks : (k : String) → is_tracked k a'.fs_stats ≡ is_tracked k a.fs_stats
    pub own :
        (k : String)
        → lookup k (snapshots o interval a') ≡ (
            if name == k && is_tracked d.name a.fs_stats
            then some (prev_disk_from_counter d now)
            else lookup k (snapshots o interval a))

  device_round-Left :
      (interval now : ℕ) (counters : List (String × IoCountersStat)) (name : String)
      (d : IoCountersStat) (a : DiskState) (s : Stats)
      → Left interval now name d a (device_round o interval now counters name d (a, s)).0
  unfolding device_round
  device_round-Left interval now counters name d a s =
      elim (Option-cases (lookup d.name a.fs_stats)) [
        | inl e ↦
            rw (device_round, e)
              (record {
                others = λ i ne. refl;
                tracks = λ k. refl;
                own = λ k. ground (arith, e, name == k);
              })
        | inr (stats, e) ↦
            let snap = prev_disk_from_counter d now in
            let b = with_snapshot o interval name snap a in
            let prev = prev_or_seed (lookup name (snapshots o interval a)) stats d now in
            let known : is_tracked d.name b.fs_stats ≡ true = ground (arith, e) in
            let same = (measure-tracked name now counters d prev stats b s known).1 in
            rw (device_round, e)
              (record {
                others = λ i ne. ground (
                  arith,
                  same,
                  ne,
                  nat_key.test_iff interval i,
                  lookup-insert interval i (insert name snap (snapshots o interval a)) a.disk_prev,
                );
                tracks = λ k. (measure-tracked k now counters d prev stats b s known).0;
                own = λ k. ground (
                  arith,
                  e,
                  same,
                  nat_key.test_iff interval interval,
                  lookup-insert interval interval (insert name snap (snapshots o interval a))
                      a.disk_prev,
                  lookup-insert name k snap (snapshots o interval a),
                  name == k,
                );
              })
      ]

  -- The snapshot that a counter asks for.
  abbrev pub asked : ℕ → FsTable → Option IoCountersStat → Option PrevDisk → Option PrevDisk
  asked now t none old = old
  asked now t (some d) old =
      if is_tracked d.name t then some (prev_disk_from_counter d now) else old

  device_rounds-cons :
      (interval now : ℕ) (counters rest : List (String × IoCountersStat)) (name : String)
      (d : IoCountersStat) (r : DiskState × Stats)
      → device_rounds o interval now counters ((name, d) ∷ rest) r
        ≡ device_rounds o interval now counters rest (device_round o interval now counters name d r)
  unfolding device_rounds
  device_rounds-cons interval now counters rest name d r = refl

  asked-same :
      (now : ℕ) (t t' : FsTable) (found : Option IoCountersStat) (old : Option PrevDisk)
      → ((k : String) → is_tracked k t' ≡ is_tracked k t)
      → asked now t' found old ≡ asked now t found old
  asked-same now t t' none old same = refl
  asked-same now t t' (some d) old same = rw (same d.name) refl

  lookup-head :
      (k name : String) (d : IoCountersStat) (rest : List (String × IoCountersStat))
      → lookup k ((name, d) ∷ rest) ≡ (if name == k then some d else lookup k rest)
  unfolding lookup
  lookup-head k name d rest = refl

  head_step :
      (interval now : ℕ) (name : String) (d : IoCountersStat)
      (rest : List (String × IoCountersStat)) (a b : DiskState) (k : String)
      → lookup name rest ≡ none
      → lookup k (snapshots o interval b) ≡ (
          if name == k && is_tracked d.name a.fs_stats
          then some (prev_disk_from_counter d now)
          else lookup k (snapshots o interval a))
      → asked now a.fs_stats (lookup k rest) (lookup k (snapshots o interval b))
        ≡ asked now a.fs_stats (lookup k ((name, d) ∷ rest)) (lookup k (snapshots o interval a))
  head_step interval now name d rest a b k new own = elim (Bool-cases (name == k)) [
    | inl e ↦
        let same : name ≡ k = (string_key.test_iff name k).0 e in
        let none_left : lookup k rest ≡ none = subst (λ x. lookup x rest ≡ none) same new in
        rw (none_left, own, lookup-head k name d rest, e) refl
    | inr e ↦ rw (own, lookup-head k name d rest, e) refl
  ]

  device_rounds-snapshots :
      (interval now : ℕ) (counters rest : List (String × IoCountersStat)) (a : DiskState)
      (s : Stats) (k : String)
      → IsMap rest
      → lookup k (snapshots o interval (device_rounds o interval now counters rest (a, s)).0)
        ≡ asked now a.fs_stats (lookup k rest) (lookup k (snapshots o interval a))
  unfolding device_rounds lookup
  device_rounds-snapshots interval now counters [] a s k m = refl
  device_rounds-snapshots interval now counters ((name, d) ∷ rest) a s k m =
      let (b, s') = device_round o interval now counters name d (a, s) in
      let step = device_round-Left interval now counters name d a s in
      let later = device_rounds-snapshots interval now counters rest b s' k m.1 in
      let same =
        asked-same now a.fs_stats b.fs_stats (lookup k rest) (lookup k (snapshots o interval b))
          step.tracks in
      later ∙ same ∙ head_step interval now name d rest a b k m.0 (step.own k)

  device_rounds-others :
      (interval now i : ℕ) (counters rest : List (String × IoCountersStat)) (a : DiskState)
      (s : Stats)
      → interval ≢ i
      → lookup i (device_rounds o interval now counters rest (a, s)).0.disk_prev
        ≡ lookup i a.disk_prev
  unfolding device_rounds
  device_rounds-others interval now i counters [] a s ne = refl
  device_rounds-others interval now i counters ((name, d) ∷ rest) a s ne =
      let (b, s') = device_round o interval now counters name d (a, s) in
      device_rounds-others interval now i counters rest b s' ne
      ∙ (device_round-Left interval now counters name d a s).others i ne

  -- An update for one cache interval leaves the snapshots of the other intervals as they are. In its own
  -- interval each tracked device has its counters at this time as its snapshot, whether its rates are
  -- usable or not, and each other device keeps the one it had. The counters name each device once.
  pub update_disk_io-snapshots :
      (interval now i : ℕ) (counters : List (String × IoCountersStat)) (a : DiskState) (s : Stats)
      (k : String)
      → IsMap counters
      → let a' = (update_disk_io o interval now (some counters) a s).0 in
        (interval ≢ i → lookup i a'.disk_prev ≡ lookup i a.disk_prev)
        × (lookup k (snapshots o interval a')
            ≡ asked now a.fs_stats (lookup k counters) (lookup k (snapshots o interval a)))
  unfolding update_disk_io
  update_disk_io-snapshots interval now i counters a s k m =
      let started = record a { disk_prev = insert interval (snapshots o interval a) a.disk_prev } in
      let reads = lookup-insert interval i (snapshots o interval a) a.disk_prev in
      let own = lookup-insert interval interval (snapshots o interval a) a.disk_prev in
      (
        λ ne. ground (
          arith,
          ne,
          reads,
          nat_key.test_iff interval i,
          device_rounds-others interval now i counters counters started s ne,
        ),
        ground (
          arith,
          own,
          nat_key.test_iff interval interval,
          device_rounds-snapshots interval now counters counters started s k m,
        ),
      )
