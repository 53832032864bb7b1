-- ===== src/Agent/DataCache.antt =====
-- agent/agent_cache.go: the last data of each cache time. Times are in nanoseconds; `empty` is the
-- zero value of the data.
use homemonit.Base.{
  ℕ, ◌-◌, ◌*◌, ◌/◌, Bool, false, ◌≡◌, ◌≢◌, Option, none, some, List, nat_key, lookup, insert,
  lookup-insert, ltb, nat_beq_iff, arith,
}

pub record CacheNode (D : Type 0) : Type 0 where
  pub info : D
  pub last_update : ℕ

abbrev pub SystemDataCache : Type 0 → Type 0
SystemDataCache D = List (ℕ × CacheNode D)

module _ {D : Type 0} (empty : D) where
  get_node : ℕ → ℕ → Option (CacheNode D) → D × Bool
  get_node now cache_time none = (empty, false)
  get_node now cache_time (some node) =
      (node.info, ltb (now - node.last_update) (cache_time / 2 * 1_000_000))

  unfoldable pub get : ℕ → ℕ → SystemDataCache D → D × Bool
  unfolding get_node
  get now cache_time c = get_node now cache_time (lookup cache_time c)

unfoldable pub set : {D : Type 0} → ℕ → D → ℕ → SystemDataCache D → SystemDataCache D
set now info cache_time c = insert cache_time (record { info = info; last_update = now }) c

-- What is stored for a cache time comes back, for fresh exactly until half of that time has passed;
-- what is stored for another cache time is not touched.
pub get-set :
    {D : Type 0} (empty info : D) (stored asked cache_time other : ℕ) (c : SystemDataCache D)
    → let c' = set stored info cache_time c in
      (get empty asked cache_time c' ≡ (info, ltb (asked - stored) (cache_time / 2 * 1_000_000)))
      × (cache_time ≢ other → get empty asked other c' ≡ get empty asked other c)
unfolding get get_node set
get-set empty info stored asked cache_time other c =
    let node : CacheNode _ = record { info = info; last_update = stored } in
    (
      ground (arith, lookup-insert cache_time cache_time node c, nat_beq_iff cache_time cache_time),
      λ ne. ground (arith, ne, lookup-insert cache_time other node c, nat_beq_iff cache_time other),
    )
