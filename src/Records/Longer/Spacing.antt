-- ===== src/Records/Longer/Spacing.antt =====
-- Longer records of one system and type are never closer than their period, less a minute.
use homemonit.Base.{
  ℕ, suc, ◌+◌, ◌-◌, ◌*◌, ◌≤◌, String, Bool, true, false, ◌≡◌, ◌≢◌, ◌⊎◌, inl, inr, refl, subst, List,
  [], ◌∷◌, ◌==◌, string_key, keep, length, All, Bool-cases, arith,
}
use homemonit.Records.Tables.{StatsRow, Tables}
use homemonit.Records.Longer.{
  LongerRecordData, minute, longer_record_data, Collection, system_stats, container_stats, rows_of,
  add_row, World, in_longer_period, in_shorter_period, longer_record, create_longer_record,
  create_round, create_for_system, create_for_systems, create_longer_records,
}

abbrev OfType : String → String → StatsRow → Type 0
OfType system type row = (row.system ≡ system) × (row.type ≡ type)

abbrev Apart : ℕ → StatsRow → StatsRow → Type 0
Apart gap r q = (q.created + gap ≤ r.created) ⊎ (r.created + gap ≤ q.created)

-- Any two records of the system and type lie `gap` apart.
abbrev pub IsSpaced : ℕ → String → String → List StatsRow → Type 0
IsSpaced gap system type [] = Unit {0}
IsSpaced gap system type (r ∷ rows) =
    (OfType system type r → All (λ q. OfType system type q → Apart gap r q) rows)
    × IsSpaced gap system type rows

-- If no record of the type lies in the period, all of them lie well before the save.
before_save :
    (now saved : ℕ) (d : LongerRecordData) (system : String) (r : StatsRow) (rows : List StatsRow)
    → minute ≤ d.longer_time
    → now ≤ saved
    → r.created ≡ saved
    → length (keep (in_longer_period now d system) rows) ≡ 0
    → All (λ q. OfType system d.longer_type q → Apart (d.longer_time - minute) r q) rows
unfolding keep in_longer_period
before_save now saved d system r [] h l e z = tt
before_save now saved d system r (q ∷ rows) h l e z =
    elim (Bool-cases (in_longer_period now d system q)) [
      | inl near ↦ absurd (ground (arith, near))
      | inr far ↦ (
        (λ (s, t). inl (
            ground (
              arith,
              far,
              s,
              t,
              string_key.test_iff q.system system,
              string_key.test_iff q.type d.longer_type,
            ))),
        before_save now saved d system r rows h l e (ground (arith, far)),
      )
    ]

-- The types of the longer records with the distance that the code keeps between them.
abbrev pub IsRule : ℕ → String → LongerRecordData → Type 0
IsRule gap type d = (minute ≤ d.longer_time) × (d.longer_type ≡ type → gap ≡ d.longer_time - minute)

-- Every save of the run comes after the time that its round took.
abbrev pub InOrder : World → Type 0
InOrder w = (k : ℕ) (c : Collection) → w.now k ≤ w.saved_at k c

saved-IsSpaced :
    (w : World) (k : ℕ) (d : LongerRecordData) (s : String) (c : Collection)
    (rows shorter : List StatsRow) (gap : ℕ) (system type : String)
    → IsRule gap type d
    → w.now k ≤ w.saved_at k c
    → (d.longer_type ≡ type → length (keep (in_longer_period (w.now k) d s) rows) ≡ 0)
    → IsSpaced gap system type rows
    → IsSpaced gap system type (longer_record w k d s c shorter ∷ rows)
unfolding longer_record
saved-IsSpaced w k d s c rows shorter gap system type (h, g) l z v = (
  λ (e, f).
      rw (g f, ← e, ← f)
        (before_save (w.now k) (w.saved_at k c) d s (longer_record w k d s c shorter) rows h l refl
          (z f)),
  v,
)

pub record_rows :
    (w : World) (k : ℕ) (d : LongerRecordData) (s : String) (c c' : Collection) (t : Tables)
    → let rows = rows_of c t in
      let shorter = keep (in_shorter_period (w.now k) d s) rows in
      (rows_of c' (create_longer_record w k d s c t) ≡ rows_of c' t)
      ⊎ ((c' ≡ c)
          × ((d.longer_type ≡ "10m") ⊎ (length (keep (in_longer_period (w.now k) d s) rows) ≡ 0))
          × (d.min_shorter_records ≤ length shorter)
          × (rows_of c' (create_longer_record w k d s c t)
              ≡ longer_record w k d s c shorter ∷ rows))
unfolding create_longer_record add_row rows_of
record_rows w k d s system_stats system_stats t =
    ground (arith, string_key.test_iff d.longer_type "10m")
record_rows w k d s system_stats container_stats t = ground arith
record_rows w k d s container_stats system_stats t = ground arith
record_rows w k d s container_stats container_stats t =
    ground (arith, string_key.test_iff d.longer_type "10m")

create_longer_record-IsSpaced :
    (w : World) (k : ℕ) (d : LongerRecordData) (s : String) (c c' : Collection) (t : Tables)
    (gap : ℕ) (system type : String)
    → IsRule gap type d
    → InOrder w
    → type ≢ "10m"
    → IsSpaced gap system type (rows_of c' t)
    → IsSpaced gap system type (rows_of c' (create_longer_record w k d s c t))
create_longer_record-IsSpaced w k d s c c' t gap system type rule order ne v =
    let shorter = keep (in_shorter_period (w.now k) d s) (rows_of c t) in
    elim (record_rows w k d s c c' t) [
      | inl same ↦ rw same v
      | inr (here, alone, enough, new) ↦ rw new (
          saved-IsSpaced w k d s c (rows_of c t) shorter gap system type rule (order k c)
            (λ e. ground (arith, e, ne, alone))
            (subst (λ x. IsSpaced gap system type (rows_of x t)) here v))
    ]

create_for_system-IsSpaced :
    (w : World) (k : ℕ) (ds : List LongerRecordData) (s : String) (c : Collection) (t : Tables)
    (gap : ℕ) (system type : String)
    → All (IsRule gap type) ds
    → InOrder w
    → type ≢ "10m"
    → IsSpaced gap system type (rows_of c t)
    → IsSpaced gap system type (rows_of c (create_for_system w k ds s t))
unfolding create_for_system create_round
create_for_system-IsSpaced w k [] s c t gap system type rules order ne v = v
create_for_system-IsSpaced w k (d ∷ ds) s c t gap system type rules order ne v =
    let t1 = create_longer_record w k d s system_stats t in
    create_for_system-IsSpaced w (suc k) ds s c (create_longer_record w k d s container_stats t1)
      gap system type rules.1 order ne
      (create_longer_record-IsSpaced w k d s container_stats c t1 gap system type rules.0 order ne
        (create_longer_record-IsSpaced w k d s system_stats c t gap system type rules.0 order ne v))

create_for_systems-IsSpaced :
    (w : World) (k : ℕ) (systems : List String) (c : Collection) (t : Tables) (gap : ℕ)
    (system type : String)
    → All (IsRule gap type) longer_record_data
    → InOrder w
    → type ≢ "10m"
    → IsSpaced gap system type (rows_of c t)
    → IsSpaced gap system type (rows_of c (create_for_systems w k systems t))
unfolding create_for_systems
create_for_systems-IsSpaced w k [] c t gap system type rules order ne v = v
create_for_systems-IsSpaced w k (s ∷ systems) c t gap system type rules order ne v =
    create_for_systems-IsSpaced w (k + 4) systems c (create_for_system w k longer_record_data s t)
      gap system type rules order ne
      (create_for_system-IsSpaced w k longer_record_data s c t gap system type rules order ne v)

-- A longer type of the table other than "10m", with its period less the minute of padding.
pub data Period : ℕ → String → Type 0 where
  twenty : Period (19 * minute) "20m"
  two_hours : Period (119 * minute) "120m"
  eight_hours : Period (479 * minute) "480m"

clash : (a b : String) {P : Type 0} → (a == b) ≡ false → a ≡ b → P
clash a b t e = absurd (ground (arith, t, e, string_key.test_iff a b))

rules : {gap : ℕ} {type : String} → Period gap type → All (IsRule gap type) longer_record_data
rules twenty = (
  (omega arith, λ e. clash "10m" "20m" refl e),
  (
    (omega arith, λ e. refl),
    (
      (omega arith, λ e. clash "120m" "20m" refl e),
      ((omega arith, λ e. clash "480m" "20m" refl e), tt),
    ),
  ),
)
rules two_hours = (
  (omega arith, λ e. clash "10m" "120m" refl e),
  (
    (omega arith, λ e. clash "20m" "120m" refl e),
    ((omega arith, λ e. refl), ((omega arith, λ e. clash "480m" "120m" refl e), tt)),
  ),
)
rules eight_hours = (
  (omega arith, λ e. clash "10m" "480m" refl e),
  (
    (omega arith, λ e. clash "20m" "480m" refl e),
    ((omega arith, λ e. clash "120m" "480m" refl e), ((omega arith, λ e. refl), tt)),
  ),
)

not_ten : {gap : ℕ} {type : String} → Period gap type → type ≢ "10m"
not_ten twenty = λ e. ground (arith, e, string_key.test_iff "20m" "10m")
not_ten two_hours = λ e. ground (arith, e, string_key.test_iff "120m" "10m")
not_ten eight_hours = λ e. ground (arith, e, string_key.test_iff "480m" "10m")

-- No run of the job, each of whose saves comes after the time that its round took, brings two records
-- of one system, one collection and one type ("20m", "120m" or "480m") closer together than the type's
-- period less one minute.
pub create_longer_records-IsSpaced :
    {gap : ℕ} {type : String} (p : Period gap type) (w : World) (found : Bool)
    (systems : List String) (c : Collection) (t : Tables) (system : String)
    → InOrder w
    → IsSpaced gap system type (rows_of c t)
    → IsSpaced gap system type (rows_of c (create_longer_records w found systems t))
unfolding create_longer_records
create_longer_records-IsSpaced {gap} {type} p w true systems c t system order v =
    create_for_systems-IsSpaced w 0 systems c t gap system type (rules p) order (not_ten p) v
create_longer_records-IsSpaced p w false systems c t system order v = v
