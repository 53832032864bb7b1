-- ===== src/Records/Longer.antt =====
-- internal/records/records.go: `CreateLongerRecords`, which thins the one-minute records out into
-- records of longer periods. Times are in milliseconds.
pub mod Spacing
pub mod Evidence
use homemonit.Base.{
  ℕ, zero, suc, ◌+◌, ◌*◌, String, Bool, true, false, not, ◌&&◌, ◌||◌, List, [], ◌∷◌, ◌==◌,
  string_key, ltb, if◌then◌else◌, keep, length, map,
}
use homemonit.Records.Tables.{StatsRow, Tables}

pub record LongerRecordData : Type 0 where
  pub shorter_type : String
  pub min_shorter_records : ℕ
  pub longer_type : String
  pub longer_time : ℕ  -- the positive length of `longerTimeDuration`

abbrev pub minute : ℕ
minute = 60_000

abbrev pub longer_record_data : List LongerRecordData
longer_record_data =
    record {
      shorter_type = "1m";
      min_shorter_records = 9;
      longer_type = "10m";
      longer_time = 10 * minute;
    }
    ∷ record {
      shorter_type = "10m";
      min_shorter_records = 2;
      longer_type = "20m";
      longer_time = 20 * minute;
    }
    ∷ record {
      shorter_type = "20m";
      min_shorter_records = 6;
      longer_type = "120m";
      longer_time = 120 * minute;
    }
    ∷ record {
      shorter_type = "120m";
      min_shorter_records = 4;
      longer_type = "480m";
      longer_time = 480 * minute;
    }
    ∷ []

pub data Collection : Type 0 where
  system_stats container_stats : Collection

unfoldable pub rows_of : Collection → Tables → List StatsRow
rows_of system_stats t = t.system_stats
rows_of container_stats t = t.container_stats

unfoldable pub add_row : Collection → StatsRow → Tables → Tables
add_row system_stats row t = record t { system_stats = row ∷ t.system_stats }
add_row container_stats row t = record t { container_stats = row ∷ t.container_stats }

-- What a run meets, for its round `k` (a system and a period) and a collection: the time, the answers
-- of the database, the id and the time of a saved record, and the averages of the payloads.
pub record World : Type 0 where
  pub now : ℕ → ℕ
  pub count_fails : ℕ → Collection → Bool
  pub select_fails : ℕ → Collection → Bool
  pub save_fails : ℕ → Collection → Bool
  pub new_id : ℕ → Collection → String
  pub saved_at : ℕ → Collection → ℕ
  pub average : Collection → List String → String

-- system = s AND type = longer AND created > now - period + 1 minute.
unfoldable pub in_longer_period : ℕ → LongerRecordData → String → StatsRow → Bool
in_longer_period now d system row =
    row.system == system
    && row.type == d.longer_type
    && ltb (now + minute) (row.created + d.longer_time)

-- system = s AND type = shorter AND created > now - period.
unfoldable pub in_shorter_period : ℕ → LongerRecordData → String → StatsRow → Bool
in_shorter_period now d system row =
    row.system == system && row.type == d.shorter_type && ltb now (row.created + d.longer_time)

-- The record that a round saves.
unfoldable pub longer_record :
    World → ℕ → LongerRecordData → String → Collection → List StatsRow → StatsRow
longer_record w k d system c shorter = record {
  id = w.new_id k c;
  system = system;
  type = d.longer_type;
  created = w.saved_at k c;
  stats = w.average c (map (λ row. row.stats) shorter);
}

-- One round for one collection.
unfoldable pub create_longer_record :
    World → ℕ → LongerRecordData → String → Collection → Tables → Tables
create_longer_record w k d system c t =
    let now = w.now k in
    let count = length (keep (in_longer_period now d system) (rows_of c t)) in
    let shorter = keep (in_shorter_period now d system) (rows_of c t) in
    if not (d.longer_type == "10m") && (w.count_fails k c || ltb 0 count)
    then t
    else if w.select_fails k c || ltb (length shorter) d.min_shorter_records
    then t
    else if w.save_fails k c
    then t
    else add_row c (longer_record w k d system c shorter) t

-- Both collections, in this order.
unfoldable pub create_round : World → ℕ → LongerRecordData → String → Tables → Tables
create_round w k d system t =
    create_longer_record w k d system container_stats
      (create_longer_record w k d system system_stats t)

-- The periods of one system, from round `k` on.
unfoldable pub create_for_system : World → ℕ → List LongerRecordData → String → Tables → Tables
create_for_system w k [] system t = t
create_for_system w k (d ∷ ds) system t =
    create_for_system w (suc k) ds system (create_round w k d system t)

-- All systems that are up.
unfoldable pub create_for_systems : World → ℕ → List String → Tables → Tables
create_for_systems w k [] t = t
create_for_systems w k (system ∷ systems) t =
    create_for_systems w (k + 4) systems (create_for_system w k longer_record_data system t)

-- The transaction: nothing happens where a collection is not found.
unfoldable pub create_longer_records : World → Bool → List String → Tables → Tables
create_longer_records w found systems t = if found then create_for_systems w 0 systems t else t
