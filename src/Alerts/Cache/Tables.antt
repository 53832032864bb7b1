-- ===== src/Alerts/Cache/Tables.antt =====
-- The writes of the collection keep it a table: its key is the id of the row, each once.
use homemonit.Base.{
  String, ◌≡◌, refl, none, some, List, [], ◌∷◌, string_key, lookup, insert, erase, lookup-insert,
  lookup-erase, arith,
}
use homemonit.Alerts.Cache.{AlertRecord}
use homemonit.Alerts.Cache.Coherence.{IsTable}

pub insert-IsTable :
    (r : AlertRecord) (rows : List (String × AlertRecord))
    → IsTable rows
    → IsTable (insert r.id r rows)
unfolding insert lookup
insert-IsTable r [] h = (refl, refl, tt)
insert-IsTable r ((j, b) ∷ rows) h = ground (
  arith,
  insert-IsTable r rows h.2,
  lookup-insert r.id j r rows,
  string_key.test_iff r.id j,
  string_key.test_iff j r.id,
)

lookup-erase-none :
    (i j : String) (rows : List (String × AlertRecord))
    → lookup i rows ≡ none
    → lookup i (erase j rows) ≡ none
lookup-erase-none i j rows h = ground (arith, h, lookup-erase j i rows)

pub erase-IsTable :
    (i : String) (rows : List (String × AlertRecord)) → IsTable rows → IsTable (erase i rows)
unfolding erase
erase-IsTable i [] h = tt
erase-IsTable i ((j, b) ∷ rows) h =
    ground (arith, erase-IsTable i rows h.2, lookup-erase-none j i rows h.1)

-- A row that is found is found under its own id.
pub lookup-id :
    (i : String) (rows : List (String × AlertRecord)) (r : AlertRecord)
    → IsTable rows
    → lookup i rows ≡ some r
    → r.id ≡ i
unfolding lookup
lookup-id i [] r t h = cc
lookup-id i ((j, b) ∷ rows) r t h = ground (arith, lookup-id i rows r t.2, string_key.test_iff j i)
