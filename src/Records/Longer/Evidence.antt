-- ===== src/Records/Longer/Evidence.antt =====
-- A longer record rests on enough shorter ones.
use homemonit.Base.{
  ℕ, suc, ◌+◌, ◌≤◌, String, Bool, true, false, ◌≡◌, ◌⊎◌, inl, inr, refl, sym, ap, subst, List, [],
  ◌∷◌, keep, length, Occurs, arith,
}
use native.Mathlib.Nat.{le_refl, le_trans}
use homemonit.Records.Tables.{StatsRow, Tables}
use homemonit.Records.Longer.{
  LongerRecordData, longer_record_data, Collection, system_stats, container_stats, rows_of, World,
  in_shorter_period, longer_record, create_longer_record, create_round, create_for_system,
  create_for_systems, create_longer_records,
}
use homemonit.Records.Longer.Spacing.{record_rows}

-- The tables only grow: no count falls.
abbrev Grows : Tables → Tables → Type 0
Grows t u =
    (c : Collection) (p : StatsRow → Bool)
    → length (keep p (rows_of c t)) ≤ length (keep p (rows_of c u))

-- The row is a longer record of the collection, saved in some round for one of the systems, and at
-- least as many shorter records as its period asks for lie in that round's period.
abbrev pub IsJustified : World → List String → Collection → Tables → StatsRow → Type 0
IsJustified w systems c t row =
    (k : ℕ) × (d : LongerRecordData) × Occurs d longer_record_data
    × Occurs row.system systems
    × (row.type ≡ d.longer_type)
    × (row.created ≡ w.saved_at k c)
    × (d.min_shorter_records
        ≤ length (keep (in_shorter_period (w.now k) d row.system) (rows_of c t)))

IsJustified-Grows :
    (w : World) (systems : List String) (c : Collection) (t u : Tables) (row : StatsRow)
    → Grows t u
    → IsJustified w systems c t row
    → IsJustified w systems c u row
IsJustified-Grows w systems c t u row g (k, d, o, s, e, f, h) =
    (k, d, o, s, e, f, le_trans h (g c (in_shorter_period (w.now k) d row.system)))

length-keep-grow :
    (p : StatsRow → Bool) (r : StatsRow) (rows : List StatsRow)
    → length (keep p rows) ≤ length (keep p (r ∷ rows))
unfolding keep
length-keep-grow p r rows = ground arith

create_longer_record-Grows :
    (w : World) (k : ℕ) (d : LongerRecordData) (s : String) (c : Collection) (t : Tables)
    → Grows t (create_longer_record w k d s c t)
create_longer_record-Grows w k d s c t c' p = elim (record_rows w k d s c c' t) [
  | inl same ↦ rw same (le_refl _)
  | inr (here, alone, enough, new) ↦
      rw (new, here)
        (length-keep-grow p
          (longer_record w k d s c (keep (in_shorter_period (w.now k) d s) (rows_of c t)))
          (rows_of c t))
]

-- Where the rows of `u` come from, seen from `t`.
abbrev Explains : World → List String → Tables → Tables → Type 0
Explains w systems t u =
    Grows t u
    × ((c : Collection) (row : StatsRow) → Occurs row (rows_of c t) → Occurs row (rows_of c u))
    × ((c : Collection) (row : StatsRow)
        → Occurs row (rows_of c u)
        → Occurs row (rows_of c t) ⊎ IsJustified w systems c u row)

Explains-trans :
    (w : World) (systems : List String) (t u v : Tables)
    → Explains w systems t u
    → Explains w systems u v
    → Explains w systems t v
Explains-trans w systems t u v (g, i, a) (h, j, b) = (
  λ c p. le_trans (g c p) (h c p),
  λ c row o. j c row (i c row o),
  λ c row o. elim (b c row o) [
    | inr new ↦ inr new
    | inl old ↦ elim (a c row old) [
      | inl older ↦ inl older
      | inr new ↦ inr (IsJustified-Grows w systems c u v row h new)
    ]
  ],
)

create_longer_record-keeps :
    (w : World) (k : ℕ) (d : LongerRecordData) (s : String) (c c' : Collection) (row : StatsRow)
    (t : Tables)
    → Occurs row (rows_of c' t)
    → Occurs row (rows_of c' (create_longer_record w k d s c t))
create_longer_record-keeps w k d s c c' row t o = elim (record_rows w k d s c c' t) [
  | inl same ↦ rw same o
  | inr (here, alone, enough, new) ↦ rw new (inr (subst (λ x. Occurs row (rows_of x t)) here o))
]

create_longer_record-Explains :
    (w : World) (systems : List String) (k : ℕ) (d : LongerRecordData) (s : String) (c : Collection)
    (t : Tables)
    → Occurs d longer_record_data
    → Occurs s systems
    → Explains w systems t (create_longer_record w k d s c t)
unfolding longer_record
create_longer_record-Explains w systems k d s c t o u =
    let grows = create_longer_record-Grows w k d s c t in
    (
      grows,
      λ c' row held. create_longer_record-keeps w k d s c c' row t held,
      λ c' row held. elim (record_rows w k d s c c' t) [
        | inl same ↦ inl (subst (Occurs row) same held)
        | inr (here, alone, enough, new) ↦ elim (subst (Occurs row) new held) [
          | inr old ↦ inl (subst (λ x. Occurs row (rows_of x t)) (sym here) old)
          | inl e ↦ inr (
            k,
            d,
            o,
            subst (λ x. Occurs x systems) (sym (ap (λ r. r.system) e)) u,
            ap (λ r. r.type) e,
            ground (arith, here, e),
            rw (ap (λ r. r.system) e, here)
                (le_trans enough (grows c (in_shorter_period (w.now k) d s))),
          )
        ]
      ],
    )

create_for_system-Explains :
    (w : World) (systems : List String) (k : ℕ) (ds : List LongerRecordData) (s : String)
    (t : Tables)
    → ((d : LongerRecordData) → Occurs d ds → Occurs d longer_record_data)
    → Occurs s systems
    → Explains w systems t (create_for_system w k ds s t)
unfolding create_for_system create_round
create_for_system-Explains w systems k [] s t o u =
    (λ c p. le_refl _, λ c row held. held, λ c row held. inl held)
create_for_system-Explains w systems k (d ∷ ds) s t o u =
    let t1 = create_longer_record w k d s system_stats t in
    let t2 = create_longer_record w k d s container_stats t1 in
    let first = create_longer_record-Explains w systems k d s system_stats t (o d (inl refl)) u in
    let second =
      create_longer_record-Explains w systems k d s container_stats t1 (o d (inl refl)) u in
    let rest = create_for_system-Explains w systems (suc k) ds s t2 (λ e i. o e (inr i)) u in
    Explains-trans w systems t t2 (create_for_system w (suc k) ds s t2)
      (Explains-trans w systems t t1 t2 first second) rest

create_for_systems-Explains :
    (w : World) (all : List String) (k : ℕ) (systems : List String) (t : Tables)
    → ((s : String) → Occurs s systems → Occurs s all)
    → Explains w all t (create_for_systems w k systems t)
unfolding create_for_systems
create_for_systems-Explains w all k [] t o =
    (λ c p. le_refl _, λ c row held. held, λ c row held. inl held)
create_for_systems-Explains w all k (s ∷ systems) t o =
    let t1 = create_for_system w k longer_record_data s t in
    Explains-trans w all t t1 (create_for_systems w (k + 4) systems t1)
      (create_for_system-Explains w all k longer_record_data s t (λ d i. i) (o s (inl refl)))
      (create_for_systems-Explains w all (k + 4) systems t1 (λ x i. o x (inr i)))

-- Every record that a run adds belongs to a system that is up and rests on as many shorter records
-- as its type asks for, all within its period; and no record is lost.
pub create_longer_records-IsJustified :
    (w : World) (found : Bool) (systems : List String) (c : Collection) (t : Tables)
    (row : StatsRow)
    → let t' = create_longer_records w found systems t in
      (Occurs row (rows_of c t') → Occurs row (rows_of c t) ⊎ IsJustified w systems c t' row)
      × (Occurs row (rows_of c t) → Occurs row (rows_of c t'))
unfolding create_longer_records
create_longer_records-IsJustified w true systems c t row =
    let (g, i, a) = create_for_systems-Explains w systems 0 systems t (λ s o. o) in
    (a c row, i c row)
create_longer_records-IsJustified w false systems c t row = (λ o. inl o, λ o. o)
