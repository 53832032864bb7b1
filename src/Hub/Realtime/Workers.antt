-- ===== src/Hub/Realtime/Workers.antt =====
-- The worker against the subscriptions.
use homemonit.Base.{
  ℕ, zero, suc, ◌+◌, ◌%◌, String, Bool, true, false, not, ◌≡◌, refl, none, List, [], ◌∷◌,
  string_key, lookup, insert, if◌then◌else◌, arith,
}
use homemonit.Hub.Realtime.{
  SubscriptionInfo, Worker, Realtime, Subscriptions, on_realtime_subscription_added, start_worker,
  check_subscriptions, is_empty, signal, info_or_new, count_client, uncount_client, uncount_found,
  ticked, add_subscription, remove_realtime_subscription, add_new, remove_old, has_key,
  on_realtime_subscribe_request, on_disconnect, worker_selects, worker_ticks, enter_at, tick_at,
}

-- The worker is marked as running exactly where there are subscriptions, and then there is one.
abbrev pub IsServed : Realtime → Type 0
IsServed rt =
    (rt.worker_running ≡ not (is_empty rt.active_subscriptions))
    × (rt.worker_running ≡ true → is_empty rt.workers ≡ false)

insert_not_empty :
    (system : String) (info : SubscriptionInfo) (m : List (String × SubscriptionInfo))
    → is_empty (insert system info m) ≡ false
unfolding insert
insert_not_empty system info [] = refl
insert_not_empty system info (e ∷ m) = ground arith

add_subscription-IsServed :
    (k system : String) (rt : Realtime) → IsServed rt → IsServed (add_subscription k system rt)
unfolding add_subscription on_realtime_subscription_added start_worker count_client
add_subscription-IsServed k system rt v =
    let info = info_or_new k (lookup system rt.active_subscriptions) in
    let more = record info { connected_clients = (info.connected_clients + 1) % 256 } in
    ground (arith, v, insert_not_empty system more rt.active_subscriptions)

-- With no subscriptions there is none to take away.
uncount_none :
    (system : String) (rt : Realtime)
    → is_empty rt.active_subscriptions ≡ true
    → uncount_client system rt ≡ rt
unfolding uncount_client uncount_found lookup
uncount_none system rt e = ground (arith, e, rt.active_subscriptions)

uncount_same :
    (system : String) (rt : Realtime)
    → ((uncount_client system rt).worker_running ≡ rt.worker_running)
      × ((uncount_client system rt).workers ≡ rt.workers)
unfolding uncount_client uncount_found
uncount_same system rt = (
  ground (arith, lookup system rt.active_subscriptions),
  ground (arith, lookup system rt.active_subscriptions),
)

remove-IsServed :
    (k system : String) (rt : Realtime)
    → IsServed rt
    → IsServed (remove_realtime_subscription k system rt)
unfolding remove_realtime_subscription check_subscriptions
remove-IsServed k system rt v = ground (arith, v, uncount_none system rt, uncount_same system rt)

either-IsServed :
    (b : Bool) (a c : Realtime) → IsServed a → IsServed c → IsServed (if b then a else c)
either-IsServed true a c v u = v
either-IsServed false a c v u = u

add_new-IsServed :
    (old new : Subscriptions) (rt : Realtime) → IsServed rt → IsServed (add_new old new rt)
unfolding add_new
add_new-IsServed old [] rt v = v
add_new-IsServed old ((k, system) ∷ new) rt v =
    add_new-IsServed old new (if has_key k old then rt else add_subscription k system rt) (
      either-IsServed (has_key k old) rt (add_subscription k system rt) v
        (add_subscription-IsServed k system rt v))

remove_old-IsServed :
    (new old : Subscriptions) (rt : Realtime) → IsServed rt → IsServed (remove_old new old rt)
unfolding remove_old
remove_old-IsServed new [] rt v = v
remove_old-IsServed new ((k, system) ∷ old) rt v =
    remove_old-IsServed new old
      (if has_key k new then rt else remove_realtime_subscription k system rt)
      (either-IsServed (has_key k new) rt (remove_realtime_subscription k system rt) v
        (remove-IsServed k system rt v))

on_disconnect-IsServed :
    (subs : Subscriptions) (rt : Realtime) → IsServed rt → IsServed (on_disconnect subs rt)
unfolding on_disconnect
on_disconnect-IsServed [] rt v = v
on_disconnect-IsServed ((k, system) ∷ subs) rt v =
    on_disconnect-IsServed subs (remove_realtime_subscription k system rt)
      (remove-IsServed k system rt v)

enter_at_empty :
    (n : ℕ) (rt : Realtime) (workers : List Worker)
    → is_empty (enter_at n rt workers) ≡ is_empty workers
unfolding enter_at
enter_at_empty n rt [] = refl
enter_at_empty zero rt (w ∷ workers) = refl
enter_at_empty (suc n) rt (w ∷ workers) = refl

tick_at_empty :
    (n : ℕ) (workers : List Worker) → is_empty (tick_at n false workers) ≡ is_empty workers
unfolding tick_at ticked
tick_at_empty n [] = refl
tick_at_empty zero (Worker.fetching ∷ workers) = refl
tick_at_empty zero (Worker.selecting c ∷ workers) = refl
tick_at_empty (suc n) (w ∷ workers) = refl

-- The handlers of clients and the parts of the workers, one after the other.
pub data Step : Realtime → Realtime → Type 0 where
  subscribe :
      (old new : Subscriptions) (rt : Realtime) → Step rt (on_realtime_subscribe_request old new rt)
  disconnect : (subs : Subscriptions) (rt : Realtime) → Step rt (on_disconnect subs rt)
  select : (n : ℕ) (rt : Realtime) → Step rt (worker_selects n rt)
  tick : (n : ℕ) (rt : Realtime) → Step rt (worker_ticks n rt)

abbrev pub idle : Realtime
idle = record {
  active_subscriptions = [];
  worker_running = false;
  ticker_stop_chan = none;
  next_chan = 0;
  workers = [];
}

pub data Reach : Realtime → Type 0 where
  start : Reach idle
  next : {rt rt' : Realtime} → Reach rt → Step rt rt' → Reach rt'

Step-IsServed : {rt rt' : Realtime} → Step rt rt' → IsServed rt → IsServed rt'
unfolding on_realtime_subscribe_request worker_selects worker_ticks
Step-IsServed (Step.subscribe old new rt) v =
    remove_old-IsServed new old (add_new old new rt) (add_new-IsServed old new rt v)
Step-IsServed (Step.disconnect subs rt) v = on_disconnect-IsServed subs rt v
Step-IsServed (Step.select n rt) v =
    (v.0, λ r. ground (arith, v.1 r, enter_at_empty n rt rt.workers))
Step-IsServed (Step.tick n rt) v =
    (v.0, λ r. ground (arith, v.0, r, v.1 r, tick_at_empty n rt.workers))

-- In every run of handlers that do not overlap, the worker is marked as running exactly where some
-- system has a subscription, and then there is a worker.
pub Reach-IsServed : {rt : Realtime} → Reach rt → IsServed rt
Reach-IsServed Reach.start = (refl, λ e. cc)
Reach-IsServed (Reach.next reach step) = Step-IsServed step (Reach-IsServed reach)

-- A worker that is fetching when its last client leaves misses the signal to stop; if a client comes
-- before its next tick, there are two workers.
pub second_worker :
    (system : String) (rt : Realtime)
    → rt.worker_running ≡ true
    → rt.workers ≡ Worker.fetching ∷ []
    → is_empty (uncount_client system rt).active_subscriptions ≡ true
    → (add_subscription "rt_metrics" system
        (remove_realtime_subscription "rt_metrics" system rt)).workers
      ≡ Worker.fetching ∷ Worker.fetching ∷ []
unfolding add_subscription on_realtime_subscription_added start_worker remove_realtime_subscription
    check_subscriptions signal count_client
second_worker system rt running one last =
    ground (arith, running, one, last, uncount_same system rt, rt.ticker_stop_chan)
