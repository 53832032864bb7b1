-- ===== src/Records/Averages/Containers.antt =====
-- The containers of an averaged record, one name at a time.
use homemonit.Base.{
  String, ◌≡◌, refl, ap, ◌∙◌, Option, none, some, List, [], ◌∷◌, ◌==◌, length, lookup, insert,
  lookup-insert, IsMap, insert-IsMap, All, string_key, if◌then◌else◌, FloatOps, Float, Option-cases,
  inl, inr, arith,
}
use homemonit.Records.Stats.{ContainerStats}
use homemonit.Records.Sums.{some_or}
use homemonit.Records.Averages.{
  map_some, no_container, add_container, add_containers, add_container_records, average_container,
  average_entries, average_container_stats_slice,
}

-- The container of a name through one record's list, and through all records.
abbrev pub container_over :
    FloatOps → String → Option ContainerStats → List ContainerStats → Option ContainerStats
container_over o name acc [] = acc
container_over o name acc (s ∷ stats) =
    container_over o name
      (if s.name == name then some (add_container o (some_or (no_container o name) acc) s) else acc)
      stats

abbrev pub container_through :
    FloatOps → String → Option ContainerStats → List (List ContainerStats) → Option ContainerStats
container_through o name acc [] = acc
container_through o name acc (stats ∷ records) =
    container_through o name (container_over o name acc stats) records

-- The first container of that name.
abbrev pub find_name : String → List ContainerStats → Option ContainerStats
find_name name [] = none
find_name name (s ∷ stats) = if s.name == name then some s else find_name name stats

abbrev pub DistinctNames : List ContainerStats → Type 0
DistinctNames [] = Unit {0}
DistinctNames (s ∷ stats) = (find_name s.name stats ≡ none) × DistinctNames stats

abbrev Entries : Type 0
Entries = List (String × ContainerStats)

lookup-add_containers :
    (o : FloatOps) (name : String) (sums : Entries) (stats : List ContainerStats)
    → lookup name (add_containers o sums stats) ≡ container_over o name (lookup name sums) stats
unfolding add_containers
lookup-add_containers o name sums [] = refl
lookup-add_containers o name sums (s ∷ stats) =
    let old = some_or (no_container o s.name) (lookup s.name sums) in
    let new = add_container o old s in
    ground (
      arith,
      lookup-add_containers o name (insert s.name new sums) stats,
      lookup-insert s.name name new sums,
      string_key.test_iff s.name name,
    )

lookup-add_container_records :
    (o : FloatOps) (name : String) (sums : Entries) (records : List (List ContainerStats))
    → lookup name (add_container_records o sums records)
      ≡ container_through o name (lookup name sums) records
unfolding add_container_records
lookup-add_container_records o name sums [] = refl
lookup-add_container_records o name sums (stats ∷ records) =
    lookup-add_container_records o name (add_containers o sums stats) records
    ∙ ap (λ acc. container_through o name acc records) (lookup-add_containers o name sums stats)

-- The entries are kept under their names.
abbrev AreNamed : Entries → Type 0
AreNamed m = All (λ e. e.1.name ≡ e.0) m

insert-AreNamed :
    (name : String) (s : ContainerStats) (m : Entries)
    → s.name ≡ name
    → AreNamed m
    → AreNamed (insert name s m)
unfolding insert
insert-AreNamed name s [] e h = (e, tt)
insert-AreNamed name s (entry ∷ m) e h = ground (arith, insert-AreNamed name s m e h.1)

lookup-AreNamed :
    (name : String) (m : Entries) (s : ContainerStats)
    → AreNamed m
    → lookup name m ≡ some s
    → s.name ≡ name
unfolding lookup
lookup-AreNamed name [] s h e = cc
lookup-AreNamed name (entry ∷ m) s h e =
    ground (arith, lookup-AreNamed name m s h.1, string_key.test_iff entry.0 name)

add_containers-named :
    (o : FloatOps) (sums : Entries) (stats : List ContainerStats)
    → AreNamed sums × IsMap sums
    → AreNamed (add_containers o sums stats) × IsMap (add_containers o sums stats)
unfolding add_containers add_container some_or
add_containers-named o sums [] h = h
add_containers-named o sums (s ∷ stats) (h, m) =
    let old = some_or (no_container o s.name) (lookup s.name sums) in
    let new = add_container o old s in
    let named : new.name ≡ s.name = elim (Option-cases (lookup s.name sums)) [
      | inl e ↦ ground (arith, e)
      | inr (q, e) ↦ ground (arith, e, lookup-AreNamed s.name sums q h)
    ] in
    add_containers-named o (insert s.name new sums) stats
      (insert-AreNamed s.name new sums named h, insert-IsMap s.name new sums m)

add_container_records-named :
    (o : FloatOps) (sums : Entries) (records : List (List ContainerStats))
    → AreNamed sums × IsMap sums
    → AreNamed (add_container_records o sums records) × IsMap (add_container_records o sums records)
unfolding add_container_records
add_container_records-named o sums [] h = h
add_container_records-named o sums (stats ∷ records) h =
    add_container_records-named o (add_containers o sums stats) records
      (add_containers-named o sums stats h)

find_name-average_entries :
    (o : FloatOps) (count : Float) (name : String) (m : Entries)
    → AreNamed m
    → find_name name (average_entries o count m)
      ≡ map_some (average_container o count) (lookup name m)
unfolding average_entries average_container map_some lookup
find_name-average_entries o count name [] h = refl
find_name-average_entries o count name (entry ∷ m) h =
    ground (arith, find_name-average_entries o count name m h.1, string_key.test_iff entry.0 name)

average_entries-DistinctNames :
    (o : FloatOps) (count : Float) (m : Entries)
    → AreNamed m
    → IsMap m
    → DistinctNames (average_entries o count m)
unfolding average_entries average_container map_some
average_entries-DistinctNames o count [] h d = tt
average_entries-DistinctNames o count (entry ∷ m) h d = (
  ground (arith, h, d, find_name-average_entries o count entry.1.name m h.1),
  average_entries-DistinctNames o count m h.1 d.1,
)

-- An averaged record lists each container once, and it is what a walk through the records for that
-- name alone adds up, divided by the number of all records; it is there exactly when some record
-- lists it.
pub average_container_stats_slice_exact :
    (o : FloatOps) (records : List (List ContainerStats)) (name : String)
    → let result = average_container_stats_slice o records in
      DistinctNames result
      × (find_name name result
          ≡ map_some
              (average_container o (o.of_nat (length records)))
              (container_through o name none records))
unfolding average_container_stats_slice lookup
average_container_stats_slice_exact o records name =
    let count = o.of_nat (length records) in
    let sums = add_container_records o [] records in
    let (h, m) = add_container_records-named o [] records (tt, tt) in
    (
      average_entries-DistinctNames o count sums h m,
      find_name-average_entries o count name sums h
          ∙ ap (map_some (average_container o count))
              (lookup-add_container_records o name [] records),
    )
