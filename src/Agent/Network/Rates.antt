-- ===== src/Agent/Network/Rates.antt =====
-- The rates of one interface over two calls.
use homemonit.Base.{
  ℕ, String, true, ◌≡◌, refl, Option, none, some, List, [], ◌∷◌, string_key, nat_key, ◌==◌, lookup,
  insert, lookup-insert, if◌then◌else◌, nat_beq_iff, ◌∙◌, arith,
}
use homemonit.Records.Stats.{NicStats}
use homemonit.Agent.Deltas.{DeltaTracker, set, previous, cycle}
use homemonit.Agent.Nics.{IoCounters, listed}
use homemonit.Agent.Network.{
  Agent, NetworkStats, Sums, up_key, down_key, nic_rate, track_nic, track_nics, tracker_or,
  sum_and_track_per_nic_deltas,
}
use homemonit.Agent.Network.Keys.{up_key_inj, down_key_inj, up_key≢down_key}

-- The counters of a name in one read.
unfoldable pub of_name : String → List IoCounters → Option IoCounters
of_name name [] = none
of_name name (v ∷ counters) = if v.name == name then some v else of_name name counters

-- No interface stands twice in a read.
abbrev pub AreDistinct : List IoCounters → Type 0
AreDistinct [] = Unit {0}
AreDistinct (v ∷ counters) = (of_name v.name counters ≡ none) × AreDistinct counters

abbrev pub sent_of : Option IoCounters → Option ℕ
sent_of none = none
sent_of (some v) = some v.bytes_sent

abbrev pub recv_of : Option IoCounters → Option ℕ
recv_of none = none
recv_of (some v) = some v.bytes_recv

-- What a call reports of an interface, from the counters of this call and of the call before.
abbrev pub report : ℕ → IoCounters → Option IoCounters → NicStats
report ms v before = record {
  up = nic_rate ms v.bytes_sent (sent_of before);
  down = nic_rate ms v.bytes_recv (recv_of before);
  total_up = v.bytes_sent;
  total_down = v.bytes_recv;
}

abbrev or_else {ℓ} : {A : Type ℓ} → Option A → Option A → Option A
or_else none b = b
or_else (some a) b = some a

previous-track_nics :
    (names : List String) (ms : ℕ) (counters : List IoCounters) (s : Sums)
    → (track_nics names ms counters s).tracker.previous ≡ s.tracker.previous
unfolding track_nics track_nic set
previous-track_nics names ms [] s = refl
previous-track_nics names ms (v ∷ counters) s =
    previous-track_nics names ms counters (if listed v.name names then track_nic ms v s else s)
    ∙ ground (arith, listed v.name names)

lookup-up-track_nic :
    (ms : ℕ) (name : String) (v : IoCounters) (s : Sums)
    → let current = (track_nic ms v s).tracker.current in
      (lookup (up_key name) current
        ≡ (if v.name == name then some v.bytes_sent else lookup (up_key name) s.tracker.current))
      × (lookup (down_key name) current ≡ (
          if v.name == name then some v.bytes_recv else lookup (down_key name) s.tracker.current))
unfolding track_nic set
lookup-up-track_nic ms name v s =
    let current = insert (up_key v.name) v.bytes_sent s.tracker.current in
    let up_first = lookup-insert (up_key v.name) (up_key name) v.bytes_sent s.tracker.current in
    let up_second = lookup-insert (down_key v.name) (up_key name) v.bytes_recv current in
    let down_first = lookup-insert (up_key v.name) (down_key name) v.bytes_sent s.tracker.current in
    let down_second = lookup-insert (down_key v.name) (down_key name) v.bytes_recv current in
    (
      ground (
        arith,
        up_first,
        up_second,
        string_key.test_iff v.name name,
        string_key.test_iff (up_key v.name) (up_key name),
        string_key.test_iff (down_key v.name) (up_key name),
        up_key_inj v.name name,
        up_key≢down_key name v.name,
      ),
      ground (
        arith,
        down_first,
        down_second,
        string_key.test_iff v.name name,
        string_key.test_iff (up_key v.name) (down_key name),
        string_key.test_iff (down_key v.name) (down_key name),
        down_key_inj v.name name,
        up_key≢down_key v.name name,
      ),
    )

lookup-track_nics :
    (names : List String) (ms : ℕ) (name : String) (counters : List IoCounters) (s : Sums)
    → listed name names ≡ true
    → AreDistinct counters
    → let current = (track_nics names ms counters s).tracker.current in
      (lookup (up_key name) current
        ≡ or_else (sent_of (of_name name counters)) (lookup (up_key name) s.tracker.current))
      × (lookup (down_key name) current
          ≡ or_else (recv_of (of_name name counters)) (lookup (down_key name) s.tracker.current))
unfolding track_nics of_name
lookup-track_nics names ms name [] s l d = (refl, refl)
lookup-track_nics names ms name (v ∷ counters) s l d =
    let s' = if listed v.name names then track_nic ms v s else s in
    let (ups, downs) = lookup-track_nics names ms name counters s' l d.1 in
    let (up, down) = lookup-up-track_nic ms name v s in
    (
      ground (arith, ups, up, l, d.0, string_key.test_iff v.name name),
      ground (arith, downs, down, l, d.0, string_key.test_iff v.name name),
    )

-- The entry of one interface, from what the tracker held before.
abbrev entry_of :
    ℕ → String → DeltaTracker String → Option IoCounters → Option NicStats → Option NicStats
entry_of ms name t none old = old
entry_of ms name t (some v) old = some (record {
  up = nic_rate ms v.bytes_sent (lookup (up_key name) t.previous);
  down = nic_rate ms v.bytes_recv (lookup (down_key name) t.previous);
  total_up = v.bytes_sent;
  total_down = v.bytes_recv;
})

previous-track_nic :
    (ms : ℕ) (v : IoCounters) (s : Sums) → (track_nic ms v s).tracker.previous ≡ s.tracker.previous
unfolding track_nic set
previous-track_nic ms v s = refl

lookup-nics-track_nic :
    (ms : ℕ) (name : String) (v : IoCounters) (s : Sums)
    → lookup name (track_nic ms v s).nics
      ≡ (if v.name == name then entry_of ms v.name s.tracker (some v) none else lookup name s.nics)
unfolding track_nic set previous
lookup-nics-track_nic ms name v s = lookup-insert v.name name _ s.nics

lookup-nics-track_nics :
    (names : List String) (ms : ℕ) (name : String) (counters : List IoCounters) (s : Sums)
    → listed name names ≡ true
    → AreDistinct counters
    → lookup name (track_nics names ms counters s).nics
      ≡ entry_of ms name s.tracker (of_name name counters) (lookup name s.nics)
unfolding track_nics of_name
lookup-nics-track_nics names ms name [] s l d = refl
lookup-nics-track_nics names ms name (v ∷ counters) s l d =
    let s' = if listed v.name names then track_nic ms v s else s in
    ground (
      arith,
      lookup-nics-track_nics names ms name counters s' l d.1,
      lookup-nics-track_nic ms name v s,
      l,
      d.0,
      previous-track_nic ms v s,
      string_key.test_iff v.name name,
      of_name name counters,
    )

-- Over two calls of one cache time in a row, whose reads hold no interface twice, the report of a
-- watched interface comes from its own counters in the two reads: the rates from their differences, or
-- 0 where the first read did not have it, beside the new totals.
pub sum_and_track_exact :
    (cache_time ms ms' : ℕ) (counters counters' : List IoCounters) (stats stats' : NetworkStats)
    (a : Agent) (v : IoCounters)
    → listed v.name a.net_interfaces ≡ true
    → AreDistinct counters
    → AreDistinct counters'
    → of_name v.name counters' ≡ some v
    → let a' = (sum_and_track_per_nic_deltas cache_time ms counters stats a).0 in
      let sums = (sum_and_track_per_nic_deltas cache_time ms' counters' stats' a').1 in
      lookup v.name sums.nics ≡ some (report ms' v (of_name v.name counters))
unfolding sum_and_track_per_nic_deltas tracker_or cycle lookup
sum_and_track_exact cache_time ms ms' counters counters' stats stats' a v l d d' e =
    let sums = (sum_and_track_per_nic_deltas cache_time ms counters stats a).1 in
    let s : Sums = record {
      tracker = cycle (tracker_or (lookup cache_time a.trackers));
      sent = 0;
      recv = 0;
      nics = stats.network_interfaces;
    } in
    let s' : Sums = record {
      tracker = cycle sums.tracker;
      sent = 0;
      recv = 0;
      nics = stats'.network_interfaces;
    } in
    let (up, down) = lookup-track_nics a.net_interfaces ms v.name counters s l d in
    let kept : lookup cache_time (insert cache_time sums.tracker a.trackers) ≡ some sums.tracker =
      ground (
        arith,
        lookup-insert cache_time cache_time sums.tracker a.trackers,
        nat_beq_iff cache_time cache_time,
      ) in
    rw (kept, tracker_or)
      (lookup-nics-track_nics a.net_interfaces ms' v.name counters' s' l d'
        ∙ ground (arith, e, up, down, of_name v.name counters))
