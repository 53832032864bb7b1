-- ===== src/Agent/Network/Anomaly.antt =====
-- The bandwidth of a call: exact, or thrown away where a counter began anew.
use homemonit.Base.{
  ℕ, ◌+◌, ◌-◌, ◌*◌, ◌/◌, ◌%◌, ◌^◌, ◌<◌, ◌≤◌, String, Bool, true, false, ◌||◌, ◌≡◌, ◌≢◌, refl, subst,
  ◌∙◌, Option, some, List, [], ◌∷◌, nat_key, string_key, lookup, insert, erase, lookup-insert, ltb,
  lt→ltb, if◌then◌else◌, nat_beq_iff, arith,
}
use native.Mathlib.Nat.{le-div_iff_mul-le}
use homemonit.Agent.Deltas.{sub64, cycle}
use homemonit.Agent.Nics.{IoCounters, listed}
use homemonit.Agent.Network.{
  Agent, NetworkStats, NetIoStats, Seen, Sums, u64, limit, track_nic, track_nics,
  compute_bytes_per_second, sum_and_track_per_nic_deltas, load_and_tick_net_baseline, baseline_or,
  tick, apply_network_totals, initialize_net_io_stats, ensure_net_interfaces_initialized,
  update_network_stats, update_read, tracker_or,
}

-- The bytes of the watched interfaces in one read.
abbrev pub total_sent : List String → List IoCounters → ℕ
total_sent names [] = 0
total_sent names (v ∷ counters) =
    (if listed v.name names then v.bytes_sent else 0) + total_sent names counters

abbrev pub total_recv : List String → List IoCounters → ℕ
total_recv names [] = 0
total_recv names (v ∷ counters) =
    (if listed v.name names then v.bytes_recv else 0) + total_recv names counters

sent-track_nic :
    (tracked : Bool) (ms : ℕ) (v : IoCounters) (s : Sums)
    → s.sent < 2 ^ 64
    → s.recv < 2 ^ 64
    → let s' = if tracked then track_nic ms v s else s in
      (s'.sent ≡ (s.sent + (if tracked then v.bytes_sent else 0)) % 2 ^ 64)
      × (s'.recv ≡ (s.recv + (if tracked then v.bytes_recv else 0)) % 2 ^ 64)
unfolding track_nic
sent-track_nic true ms v s l l' = (refl, refl)
sent-track_nic false ms v s l l' = (omega (arith, l), omega (arith, l'))

sent-track_nics :
    (names : List String) (ms : ℕ) (counters : List IoCounters) (s : Sums)
    → s.sent < 2 ^ 64
    → s.recv < 2 ^ 64
    → ((track_nics names ms counters s).sent ≡ (s.sent + total_sent names counters) % 2 ^ 64)
      × ((track_nics names ms counters s).recv ≡ (s.recv + total_recv names counters) % 2 ^ 64)
unfolding track_nics
sent-track_nics names ms [] s l l' = (omega (arith, l), omega (arith, l'))
sent-track_nics names ms (v ∷ counters) s l l' =
    let (one, one') = sent-track_nic (listed v.name names) ms v s l l' in
    let s' = if listed v.name names then track_nic ms v s else s in
    let (a, b) = sent-track_nics names ms counters s' (omega (arith, one)) (omega (arith, one')) in
    (omega (arith, a, one), omega (arith, b, one'))

-- The rates that a call computes, before they are looked at.
abbrev pub computed : Seen → NetIoStats → List String → List IoCounters → ℕ → ℕ × ℕ
computed w nis names counters t =
    compute_bytes_per_second ((w.since - t) / 1_000_000) (u64 (total_sent names counters))
      (u64 (total_recv names counters)) nis

-- The rates are beyond what is believed.
abbrev pub is_too_high : ℕ × ℕ → Bool
is_too_high rates = ltb limit rates.0 || ltb limit rates.1

-- What is left of a call that computed these rates, from these totals.
abbrev pub Outcome : ℕ → ℕ → ℕ → ℕ → ℕ × ℕ → Agent × NetworkStats → Type 0
Outcome cache_time now sent recv rates result =
    (is_too_high rates ≡ true
      → (result.1.bandwidth ≡ (0, 0)) × (result.0.net_io_stats ≡ []) × (result.0.trackers ≡ []))
    × (is_too_high rates ≡ false
        → (result.1.bandwidth ≡ rates)
          × (lookup cache_time result.0.net_io_stats
              ≡ some (record { bytes_recv = recv; bytes_sent = sent; time = some now })))

apply-Outcome :
    (skip : IoCounters → Bool) (again : Option (List IoCounters)) (cache_time now : ℕ)
    (nis : NetIoStats) (sent recv : ℕ) (rates : ℕ × ℕ) (stats : NetworkStats) (a : Agent)
    → nis.time ≡ some now
    → Outcome cache_time now sent recv rates
        (apply_network_totals skip again cache_time nis sent recv rates stats a)
unfolding apply_network_totals initialize_net_io_stats erase
apply-Outcome skip again cache_time now nis sent recv rates stats a z =
    let kept : NetIoStats = record nis { bytes_sent = sent; bytes_recv = recv } in
    (
      λ t. (ground (arith, t), ground (arith, t, again), ground (arith, t, again)),
      λ f. (
        ground (arith, f),
        ground (
          arith,
          f,
          z,
          lookup-insert cache_time cache_time kept a.net_io_stats,
          nat_beq_iff cache_time cache_time,
        ),
      ),
    )

watched :
    (skip : IoCounters → Bool) (first : Option (List IoCounters)) (a : Agent)
    → a.net_interfaces ≢ []
    → ensure_net_interfaces_initialized skip first a ≡ a
unfolding ensure_net_interfaces_initialized
watched skip first a ne = ground (arith, ne, a.net_interfaces)

-- The outcome of a call where interfaces are watched and there is a baseline.
update-Outcome :
    (skip : IoCounters → Bool) (w : Seen) (cache_time : ℕ) (stats : NetworkStats) (a : Agent)
    (counters : List IoCounters) (nis : NetIoStats) (t : ℕ)
    → a.net_interfaces ≢ []
    → w.counters ≡ some counters
    → lookup cache_time a.net_io_stats ≡ some nis
    → nis.time ≡ some t
    → Outcome cache_time w.now
        (u64 (total_sent a.net_interfaces counters))
        (u64 (total_recv a.net_interfaces counters))
        (computed w nis a.net_interfaces counters t)
        (update_network_stats skip w cache_time stats a)
unfolding update_network_stats update_read load_and_tick_net_baseline baseline_or tick
    sum_and_track_per_nic_deltas compute_bytes_per_second
update-Outcome skip w cache_time stats a counters nis t ne c e z =
    let ms = (w.since - t) / 1_000_000 in
    let start : Sums = record {
      tracker = cycle (tracker_or (lookup cache_time a.trackers));
      sent = 0;
      recv = 0;
      nics = stats.network_interfaces;
    } in
    let sums = track_nics a.net_interfaces ms counters start in
    let (sent, recv) =
      sent-track_nics a.net_interfaces ms counters start (omega arith) (omega arith) in
    let same : ensure_net_interfaces_initialized skip w.first a ≡ a = watched skip w.first a ne in
    let rates = compute_bytes_per_second ms sums.sent sums.recv nis in
    let result = update_network_stats skip w cache_time stats a in
    let raw : Outcome cache_time w.now sums.sent sums.recv rates result =
      rw (same, c, e, z)
        (apply-Outcome skip w.again cache_time w.now (record nis { time = some w.now }) sums.sent
          sums.recv rates (record stats { network_interfaces = sums.nics })
          (record a { trackers = insert cache_time sums.tracker a.trackers }) refl) in
    let total : sums.sent ≡ u64 (total_sent a.net_interfaces counters) = omega (arith, sent) in
    let total' : sums.recv ≡ u64 (total_recv a.net_interfaces counters) = omega (arith, recv) in
    let half =
      subst
        (λ x.
          Outcome cache_time w.now x sums.recv (compute_bytes_per_second ms x sums.recv nis) result)
        total raw in
    subst
      (λ y.
        let x = u64 (total_sent a.net_interfaces counters) in
        Outcome cache_time w.now x y (compute_bytes_per_second ms x y nis) result)
      total' half

-- A call that is not the first of its cache time.
abbrev pub IsLater : Seen → ℕ → Agent → List IoCounters → NetIoStats → ℕ → Type 0
IsLater w cache_time a counters nis t =
    (a.net_interfaces ≢ [])
    × (w.counters ≡ some counters)
    × (lookup cache_time a.net_io_stats ≡ some nis)
    × (nis.time ≡ some t)

-- In a later call of a cache time, where the totals of the watched interfaces have not fallen and
-- neither they nor a thousand times their growth leave 64 bits, the bandwidth is that growth over the
-- time in between, if it is at most 10 GB/s both ways, and the totals and the time are kept for the
-- next call.
pub update_network_stats_exact :
    (skip : IoCounters → Bool) (w : Seen) (cache_time : ℕ) (stats : NetworkStats) (a : Agent)
    (counters : List IoCounters) (nis : NetIoStats) (t : ℕ)
    → IsLater w cache_time a counters nis t
    → let ms = (w.since - t) / 1_000_000 in
      let sent = total_sent a.net_interfaces counters in
      let recv = total_recv a.net_interfaces counters in
      let (a', stats') = update_network_stats skip w cache_time stats a in
      0 < ms
      → (sent < 2 ^ 64) × (nis.bytes_sent ≤ sent) × ((sent - nis.bytes_sent) * 1000 < 2 ^ 64)
      → (recv < 2 ^ 64) × (nis.bytes_recv ≤ recv) × ((recv - nis.bytes_recv) * 1000 < 2 ^ 64)
      → (sent - nis.bytes_sent) * 1000 / ms ≤ limit
      → (recv - nis.bytes_recv) * 1000 / ms ≤ limit
      → (stats'.bandwidth
          ≡ ((sent - nis.bytes_sent) * 1000 / ms, (recv - nis.bytes_recv) * 1000 / ms))
        × (lookup cache_time a'.net_io_stats
            ≡ some (record { bytes_recv = recv; bytes_sent = sent; time = some w.now }))
unfolding compute_bytes_per_second
update_network_stats_exact skip w cache_time stats a counters nis t (ne, c, e, z) pos s r ls lr =
    let ms = (w.since - t) / 1_000_000 in
    let sent = total_sent a.net_interfaces counters in
    let recv = total_recv a.net_interfaces counters in
    let (high, fine) = update-Outcome skip w cache_time stats a counters nis t ne c e z in
    let exact : u64 (sub64 (u64 sent) nis.bytes_sent * 1000) ≡ (sent - nis.bytes_sent) * 1000 =
      omega (arith, s) in
    let exact' : u64 (sub64 (u64 recv) nis.bytes_recv * 1000) ≡ (recv - nis.bytes_recv) * 1000 =
      omega (arith, r) in
    let rates : computed w nis a.net_interfaces counters t
        ≡ ((sent - nis.bytes_sent) * 1000 / ms, (recv - nis.bytes_recv) * 1000 / ms) =
      rw (lt→ltb 0 ms pos, exact, exact') refl in
    let ok : is_too_high (computed w nis a.net_interfaces counters t) ≡ false =
      ground (arith, rates, ls, lr) in
    let whole : u64 sent ≡ sent = omega (arith, s.0) in
    let whole' : u64 recv ≡ recv = omega (arith, r.0) in
    ((fine ok).0 ∙ rates, ground (arith, (fine ok).1, whole, whole'))

-- In a later call of a cache time, a total of sent bytes that has fallen, by at most 9 PB and within
-- ten days of the last call, is never shown as bandwidth: the call reports none and drops all
-- baselines and trackers, so the next call starts afresh.
pub update_network_stats_restart :
    (skip : IoCounters → Bool) (w : Seen) (cache_time : ℕ) (stats : NetworkStats) (a : Agent)
    (counters : List IoCounters) (nis : NetIoStats) (t : ℕ)
    → IsLater w cache_time a counters nis t
    → let ms = (w.since - t) / 1_000_000 in
      let sent = total_sent a.net_interfaces counters in
      let (a', stats') = update_network_stats skip w cache_time stats a in
      0 < ms
      → ms ≤ 864_000_000
      → sent < nis.bytes_sent
      → nis.bytes_sent < 2 ^ 64
      → nis.bytes_sent - sent ≤ 9_000_000_000_000_000
      → (stats'.bandwidth ≡ (0, 0)) × (a'.net_io_stats ≡ []) × (a'.trackers ≡ [])
unfolding compute_bytes_per_second
update_network_stats_restart skip w cache_time stats a counters nis t (ne, c, e, z) pos short fell
      fits d =
    let ms = (w.since - t) / 1_000_000 in
    let sent = total_sent a.net_interfaces counters in
    let (high, fine) = update-Outcome skip w cache_time stats a counters nis t ne c e z in
    let huge : (limit + 1) * ms ≤ u64 (sub64 (u64 sent) nis.bytes_sent * 1000) =
      omega (arith, short, fell, fits, d) in
    let rate : limit + 1 ≤ u64 (sub64 (u64 sent) nis.bytes_sent * 1000) / ms =
      (le-div_iff_mul-le pos).1 huge in
    high (ground (arith, rate, pos))
