-- ===== src/Records/Deletion/History.antt =====
-- The deletion of old alerts history: how many rows of a user stay, and which.
use homemonit.Base.{
  ℕ, zero, suc, ◌≤◌, String, Bool, true, not, ◌&&◌, ◌≡◌, ◌≢◌, inl, inr, refl, sym, ◌∙◌, List, [],
  ◌∷◌, ◌==◌, string_key, keep, length, map, All, Occurs, All-keep, keep-congr, All-every, keep-keep,
  arith,
}
use Prim.Native.Nat.{min}
use homemonit.Records.Tables.{HistoryRow}
use homemonit.Records.Deletion.{
  of_user, listed, place, newest_first, limit, newest_ids, delete_beyond,
}

-- The ids of the rows are distinct.
abbrev pub DistinctRows : List HistoryRow → Type 0
DistinctRows [] = Unit {0}
DistinctRows (r ∷ rows) = All (λ q. q.id ≢ r.id) rows × DistinctRows rows

-- Newest first.
abbrev pub IsDescending : List HistoryRow → Type 0
IsDescending [] = Unit {0}
IsDescending (r ∷ rows) = All (λ q. q.created ≤ r.created) rows × IsDescending rows

pub keep-DistinctRows :
    (p : HistoryRow → Bool) (rows : List HistoryRow)
    → DistinctRows rows
    → DistinctRows (keep p rows)
unfolding keep
keep-DistinctRows p [] d = tt
keep-DistinctRows p (r ∷ rows) d =
    ground (arith, keep-DistinctRows p rows d.1, All-keep (λ q. q.id ≢ r.id) p rows d.0)

All-place :
    (P : HistoryRow → Type 0) (r : HistoryRow) (rows : List HistoryRow)
    → P r
    → All P rows
    → All P (place r rows)
unfolding place
All-place P r [] h a = (h, tt)
All-place P r (q ∷ rows) h a = ground (arith, All-place P r rows h a.1, a)

place-DistinctRows :
    (r : HistoryRow) (rows : List HistoryRow)
    → All (λ q. q.id ≢ r.id) rows
    → DistinctRows rows
    → DistinctRows (place r rows)
unfolding place
place-DistinctRows r [] a d = (tt, tt)
place-DistinctRows r (q ∷ rows) a d = ground (
  arith,
  place-DistinctRows r rows a.1 d.1,
  All-place (λ s. s.id ≢ q.id) r rows (λ e. a.0 (sym e)) d.0,
  a,
  d,
)

newest_first-All :
    (P : HistoryRow → Type 0) (rows : List HistoryRow) → All P rows → All P (newest_first rows)
unfolding newest_first
newest_first-All P [] a = tt
newest_first-All P (r ∷ rows) a =
    All-place P r (newest_first rows) a.0 (newest_first-All P rows a.1)

pub newest_first-DistinctRows :
    (rows : List HistoryRow) → DistinctRows rows → DistinctRows (newest_first rows)
unfolding newest_first
newest_first-DistinctRows [] d = tt
newest_first-DistinctRows (r ∷ rows) d =
    place-DistinctRows r (newest_first rows) (newest_first-All (λ q. q.id ≢ r.id) rows d.0)
      (newest_first-DistinctRows rows d.1)

All-le :
    (m n : ℕ) (rows : List HistoryRow)
    → m ≤ n
    → All (λ q. q.created ≤ m) rows
    → All (λ q. q.created ≤ n) rows
All-le m n [] h a = tt
All-le m n (q ∷ rows) h a = (omega arith, All-le m n rows h a.1)

place-IsDescending :
    (r : HistoryRow) (rows : List HistoryRow) → IsDescending rows → IsDescending (place r rows)
unfolding place
place-IsDescending r [] d = (tt, tt)
place-IsDescending r (q ∷ rows) d = ground (
  arith,
  place-IsDescending r rows d.1,
  All-place (λ s. s.created ≤ q.created) r rows,
  All-le q.created r.created rows,
  d,
)

pub newest_first-IsDescending : (rows : List HistoryRow) → IsDescending (newest_first rows)
unfolding newest_first
newest_first-IsDescending [] = tt
newest_first-IsDescending (r ∷ rows) =
    place-IsDescending r (newest_first rows) (newest_first-IsDescending rows)

-- Sorting changes no count.
length-keep-place :
    (p : HistoryRow → Bool) (r : HistoryRow) (rows : List HistoryRow)
    → length (keep p (place r rows)) ≡ length (keep p (r ∷ rows))
unfolding keep place
length-keep-place p r [] = refl
length-keep-place p r (q ∷ rows) = ground (arith, length-keep-place p r rows)

length-keep-newest_first :
    (p : HistoryRow → Bool) (rows : List HistoryRow)
    → length (keep p (newest_first rows)) ≡ length (keep p rows)
unfolding keep newest_first
length-keep-newest_first p [] = refl
length-keep-newest_first p (r ∷ rows) =
    ground (arith, length-keep-place p r (newest_first rows), length-keep-newest_first p rows)

abbrev pub ids_of : ℕ → List HistoryRow → List String
ids_of n rows = map (λ r. r.id) (limit n rows)

shift_ids :
    (r : HistoryRow) (ids : List String) (rows : List HistoryRow)
    → All (λ q. q.id ≢ r.id) rows
    → All (λ q. listed q.id (r.id ∷ ids) ≡ listed q.id ids) rows
unfolding listed
shift_ids r ids [] a = tt
shift_ids r ids (q ∷ rows) a =
    (ground (arith, a.0, string_key.test_iff r.id q.id), shift_ids r ids rows a.1)

first_listed : (r : HistoryRow) (ids : List String) → listed r.id (r.id ∷ ids) ≡ true
unfolding listed
first_listed r ids = ground (arith, string_key.test_iff r.id r.id)

none_listed : (rows : List HistoryRow) → keep (λ q. listed q.id []) rows ≡ []
unfolding keep listed
none_listed [] = refl
none_listed (q ∷ rows) = none_listed rows

length-keep-limit :
    (n : ℕ) (rows : List HistoryRow)
    → DistinctRows rows
    → length (keep (λ q. listed q.id (ids_of n rows)) rows) ≡ min n (length rows)
unfolding limit keep
length-keep-limit zero rows d = rw (none_listed rows) (omega arith)
length-keep-limit (suc n) [] d = omega arith
length-keep-limit (suc n) (r ∷ rows) d =
    let shifted =
      keep-congr (λ q. listed q.id (r.id ∷ ids_of n rows)) (λ q. listed q.id (ids_of n rows)) rows
        (shift_ids r (ids_of n rows) rows d.0) in
    let rest = length-keep-limit n rows d.1 in
    rw (first_listed r (ids_of n rows), keep) (rw shifted (omega (arith, rest)))

length-place : (r : HistoryRow) (rows : List HistoryRow) → length (place r rows) ≡ suc (length rows)
unfolding place
length-place r [] = refl
length-place r (q ∷ rows) = ground (arith, length-place r rows)

length-newest_first : (rows : List HistoryRow) → length (newest_first rows) ≡ length rows
unfolding newest_first
length-newest_first [] = refl
length-newest_first (r ∷ rows) =
    omega (arith, length-place r (newest_first rows), length-newest_first rows)

pub of_user-delete_beyond :
    (n : ℕ) (user : String) (rows : List HistoryRow)
    → of_user user (delete_beyond n user rows)
      ≡ keep (λ r. listed r.id (newest_ids n user rows)) (of_user user rows)
unfolding of_user delete_beyond
of_user-delete_beyond n user rows =
    let ids = newest_ids n user rows in
    let here = λ (r : HistoryRow). r.user == user in
    let stays = λ (r : HistoryRow). not (r.user == user && not (listed r.id ids)) in
    let chosen = λ (r : HistoryRow). listed r.id ids in
    keep-keep here stays rows
    ∙ keep-congr (λ r. stays r && here r) (λ r. here r && chosen r) rows
        (All-every (λ r. (stays r && here r) ≡ (here r && chosen r)) rows (λ r. ground arith))
    ∙ sym (keep-keep chosen here rows)

-- Of one user, the deletion leaves as many rows as it is told to keep, or all if there are fewer.
pub length-of_user-delete_beyond :
    (n : ℕ) (user : String) (rows : List HistoryRow)
    → DistinctRows rows
    → length (of_user user (delete_beyond n user rows)) ≡ min n (length (of_user user rows))
unfolding of_user newest_ids
length-of_user-delete_beyond n user rows d =
    let mine = of_user user rows in
    let distinct =
      newest_first-DistinctRows mine (keep-DistinctRows (λ r. r.user == user) rows d) in
    rw (of_user-delete_beyond n user rows) (
      omega (
        arith,
        length-keep-newest_first (λ r. listed r.id (newest_ids n user rows)) mine,
        length-keep-limit n (newest_first mine) distinct,
        length-newest_first mine,
      ))

-- The rows of every other user stay.
pub of_user-delete_beyond_other :
    (n : ℕ) (user other : String) (rows : List HistoryRow)
    → user ≢ other
    → of_user other (delete_beyond n user rows) ≡ of_user other rows
unfolding of_user delete_beyond
of_user-delete_beyond_other n user other rows ne =
    let ids = newest_ids n user rows in
    let here = λ (r : HistoryRow). r.user == other in
    let stays = λ (r : HistoryRow). not (r.user == user && not (listed r.id ids)) in
    keep-keep here stays rows
    ∙ keep-congr (λ r. stays r && here r) here rows
        (All-every (λ r. (stays r && here r) ≡ here r) rows
          (λ r.
            ground (arith, ne, string_key.test_iff r.user user, string_key.test_iff r.user other)))

Occurs-place :
    (a r : HistoryRow) (rows : List HistoryRow) → Occurs a (r ∷ rows) → Occurs a (place r rows)
unfolding place
Occurs-place a r [] o = o
Occurs-place a r (q ∷ rows) o = ground (arith, o, Occurs-place a r rows)

pub Occurs-newest_first :
    (a : HistoryRow) (rows : List HistoryRow) → Occurs a rows → Occurs a (newest_first rows)
unfolding newest_first
Occurs-newest_first a [] o = o
Occurs-newest_first a (r ∷ rows) (inl e) = Occurs-place a r (newest_first rows) (inl e)
Occurs-newest_first a (r ∷ rows) (inr o) =
    Occurs-place a r (newest_first rows) (inr (Occurs-newest_first a rows o))
