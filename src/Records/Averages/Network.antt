-- ===== src/Records/Averages/Network.antt =====
-- The network interfaces of an averaged record, one interface at a time.
use homemonit.Base.{
  String, ◌≡◌, refl, ap, ◌∙◌, Option, none, some, List, [], ◌∷◌, length, lookup, insert,
  lookup-insert, IsMap, All, string_key, FloatOps, arith,
}
use homemonit.Records.Stats.{NicStats, Stats}
use homemonit.Records.Sums.{
  Totals, no_totals, some_or, add_nic, add_nics, add_scalars, add_peaks, add_maps, add_record,
  add_records,
}
use homemonit.Records.Averages.{
  map_values, map_some, average_nic, average_totals, average_system_stats_slice,
}

abbrev pub no_nic : NicStats
no_nic = record { up = 0; down = 0; total_up = 0; total_down = 0 }

-- What one record adds to one interface.
abbrev pub add_seen : Option NicStats → Option NicStats → Option NicStats
add_seen acc none = acc
add_seen acc (some v) = some (add_nic (some_or no_nic acc) v)

-- One interface through all records: those that do not have it leave it as it is.
abbrev pub nic_over : String → Option NicStats → List Stats → Option NicStats
nic_over key acc [] = acc
nic_over key acc (r ∷ records) =
    nic_over key (add_seen acc (lookup key (some_or [] r.network_interfaces))) records

-- No interface stands twice in a record.
abbrev pub AreMaps : List Stats → Type 0
AreMaps records = All (λ r. IsMap (some_or [] r.network_interfaces)) records

lookup-add_nics :
    (key : String) (sums values : List (String × NicStats))
    → IsMap values
    → lookup key (add_nics sums values) ≡ add_seen (lookup key sums) (lookup key values)
unfolding add_nics lookup
lookup-add_nics key sums [] m = refl
lookup-add_nics key sums ((j, v) ∷ rest) m =
    let new = add_nic (some_or no_nic (lookup j sums)) v in
    ground (
      arith,
      lookup-add_nics key (insert j new sums) rest m.1,
      lookup-insert j key new sums,
      string_key.test_iff j key,
    )

lookup-map_values :
    (f : NicStats → NicStats) (key : String) (m : List (String × NicStats))
    → lookup key (map_values f m) ≡ map_some f (lookup key m)
unfolding lookup map_values map_some
lookup-map_values f key [] = refl
lookup-map_values f key ((j, v) ∷ rest) = ground (arith, lookup-map_values f key rest)

interfaces-add_record :
    (o : FloatOps) (t : Totals) (r : Stats)
    → some_or [] (add_record o t r).sum.network_interfaces
      ≡ add_nics (some_or [] t.sum.network_interfaces) (some_or [] r.network_interfaces)
unfolding add_record add_maps add_peaks add_scalars some_or
interfaces-add_record o t r = refl

lookup-add_records :
    (o : FloatOps) (key : String) (t : Totals) (records : List Stats)
    → AreMaps records
    → lookup key (some_or [] (add_records o t records).sum.network_interfaces)
      ≡ nic_over key (lookup key (some_or [] t.sum.network_interfaces)) records
unfolding add_records
lookup-add_records o key t [] m = refl
lookup-add_records o key t (r ∷ records) m =
    lookup-add_records o key (add_record o t r) records m.1
    ∙ ap (λ acc. nic_over key acc records)
        (ap (lookup key) (interfaces-add_record o t r)
          ∙ lookup-add_nics key (some_or [] t.sum.network_interfaces)
              (some_or [] r.network_interfaces) m.0)

interfaces-average :
    (o : FloatOps) (r : Stats) (rs : List Stats)
    → some_or [] (average_system_stats_slice o (r ∷ rs)).network_interfaces
      ≡ map_values
          (average_nic o (o.to_nat (o.of_nat (length (r ∷ rs)))))
          (some_or [] (add_records o no_totals (r ∷ rs)).sum.network_interfaces)
unfolding average_system_stats_slice average_totals map_some map_values some_or
interfaces-average o r rs =
    ground (arith, (add_records o no_totals (r ∷ rs)).sum.network_interfaces)

-- Each interface of an averaged record is what a walk through the records for that interface alone
-- gives: it is there exactly when some record has it, with its byte counts added up modulo 2^64 and
-- divided by the number of all records as a float gives it back, and the largest of its totals. No
-- record may hold an interface twice.
pub lookup-network_interfaces :
    (o : FloatOps) (key : String) (r : Stats) (rs : List Stats)
    → AreMaps (r ∷ rs)
    → lookup key (some_or [] (average_system_stats_slice o (r ∷ rs)).network_interfaces)
      ≡ map_some
          (average_nic o (o.to_nat (o.of_nat (length (r ∷ rs)))))
          (nic_over key none (r ∷ rs))
unfolding lookup some_or
lookup-network_interfaces o key r rs m =
    let n = o.to_nat (o.of_nat (length (r ∷ rs))) in
    ap (lookup key) (interfaces-average o r rs)
    ∙ lookup-map_values (average_nic o n) key
        (some_or [] (add_records o no_totals (r ∷ rs)).sum.network_interfaces)
    ∙ ap (map_some (average_nic o n)) (lookup-add_records o key no_totals (r ∷ rs) m)
