-- ===== src/Hub/Realtime.antt =====
-- internal/hub/systems/system_realtime.go: the subscriptions to realtime metrics and the worker that
-- serves them. The handlers of clients, and the parts of the workers, are steps of one state.
pub mod Clients
pub mod Workers
pub mod Fetch
mod Examples
use homemonit.Base.{
  ℕ, zero, suc, ◌+◌, ◌%◌, String, Bool, true, false, not, ◌&&◌, ◌||◌, Option, none, some, List, [],
  ◌∷◌, string_key, lookup, insert, erase, nat_beq, if◌then◌else◌,
}
use text.Mathlib.Text.{starts_with}

pub record SubscriptionInfo : Type 0 where
  pub subscription : String
  pub connected_clients : ℕ  -- uint8

-- Where a worker is: fetching, or in its select, on the channel that was the stop channel then.
pub data Worker : Type 0 where
  fetching : Worker
  selecting : ℕ → Worker

pub record Realtime : Type 0 where
  pub active_subscriptions : List (String × SubscriptionInfo)
  pub worker_running : Bool
  pub ticker_stop_chan : Option ℕ
  pub next_chan : ℕ
  pub workers : List Worker

-- The subscriptions of a client: a key, and the system of its query.
abbrev pub Subscriptions : Type 0
Subscriptions = List (String × String)

unfoldable pub start_worker : Realtime → Realtime
start_worker rt = record rt {
  worker_running = true;
  ticker_stop_chan = some rt.next_chan;
  next_chan = suc rt.next_chan;
  workers = Worker.fetching ∷ rt.workers;
}

unfoldable pub on_realtime_subscription_added : Realtime → Realtime
on_realtime_subscription_added rt = if rt.worker_running then rt else start_worker rt

-- A send that does not block: a worker that selects on the channel takes it and returns.
unfoldable pub signal : ℕ → List Worker → List Worker
signal c [] = []
signal c (Worker.fetching ∷ workers) = Worker.fetching ∷ signal c workers
signal c (Worker.selecting d ∷ workers) =
    let rest = signal c workers in if nat_beq d c then workers else Worker.selecting d ∷ rest

signal_stop : Option ℕ → List Worker → List Worker
signal_stop none workers = workers
signal_stop (some c) workers = signal c workers

abbrev pub is_empty {ℓ} : {A : Type ℓ} → List A → Bool
is_empty [] = true
is_empty (x ∷ xs) = false

unfoldable pub check_subscriptions : Realtime → Realtime
unfolding signal_stop
check_subscriptions rt =
    if not rt.worker_running || not (is_empty rt.active_subscriptions)
    then rt
    else record rt { workers = signal_stop rt.ticker_stop_chan rt.workers; worker_running = false }

unfoldable pub info_or_new : String → Option SubscriptionInfo → SubscriptionInfo
info_or_new k none = record { subscription = k; connected_clients = 0 }
info_or_new k (some info) = info

unfoldable pub count_client : String → String → Realtime → Realtime
count_client k system rt =
    let info = info_or_new k (lookup system rt.active_subscriptions) in
    record rt {
      active_subscriptions =
          insert system (record info { connected_clients = (info.connected_clients + 1) % 256 })
            rt.active_subscriptions;
    }

-- One new subscription of a client.
unfoldable pub add_subscription : String → String → Realtime → Realtime
add_subscription k system rt =
    if starts_with k "rt_metrics"
    then on_realtime_subscription_added (count_client k system rt)
    else rt

-- `connectedClients -= 1` on a uint8, and the deletion at 0.
uncount_found : String → Option SubscriptionInfo → Realtime → Realtime
uncount_found system none rt = rt
uncount_found system (some info) rt =
    let clients = (info.connected_clients + 255) % 256 in
    record rt {
      active_subscriptions =
          if nat_beq clients 0
          then erase system rt.active_subscriptions
          else insert system (record info { connected_clients = clients }) rt.active_subscriptions;
    }

unfoldable pub uncount_client : String → Realtime → Realtime
unfolding uncount_found
uncount_client system rt = uncount_found system (lookup system rt.active_subscriptions) rt

unfoldable pub remove_realtime_subscription : String → String → Realtime → Realtime
remove_realtime_subscription k system rt =
    if starts_with k "rt_metrics" then check_subscriptions (uncount_client system rt) else rt

unfoldable pub has_key : String → Subscriptions → Bool
has_key k subs = elim (lookup k subs) [ none ↦ false | some system ↦ true ]

unfoldable pub add_new : Subscriptions → Subscriptions → Realtime → Realtime
add_new old [] rt = rt
add_new old ((k, system) ∷ new) rt =
    add_new old new (if has_key k old then rt else add_subscription k system rt)

unfoldable pub remove_old : Subscriptions → Subscriptions → Realtime → Realtime
remove_old new [] rt = rt
remove_old new ((k, system) ∷ old) rt =
    remove_old new old (if has_key k new then rt else remove_realtime_subscription k system rt)

unfoldable pub on_realtime_subscribe_request : Subscriptions → Subscriptions → Realtime → Realtime
on_realtime_subscribe_request old new rt = remove_old new old (add_new old new rt)

-- What `onRealtimeConnectRequest` does once the client is gone.
unfoldable pub on_disconnect : Subscriptions → Realtime → Realtime
on_disconnect [] rt = rt
on_disconnect ((k, system) ∷ subs) rt =
    on_disconnect subs (remove_realtime_subscription k system rt)

-- The worker at a position enters its select, on the stop channel of that moment. The first part of
-- `startRealtimeWorker` is a worker that fetches. A nil channel is none that a send reaches.
enter_select : Realtime → Worker → Worker
enter_select rt Worker.fetching = elim rt.ticker_stop_chan [
  | none ↦ Worker.fetching
  | some c ↦ Worker.selecting c
]
enter_select rt (Worker.selecting c) = Worker.selecting c

-- A tick: the worker returns where there are no subscriptions, and fetches otherwise.
ticked : Bool → Worker → List Worker → List Worker
ticked empty Worker.fetching rest = Worker.fetching ∷ rest
ticked empty (Worker.selecting c) rest = if empty then rest else Worker.fetching ∷ rest

unfoldable pub enter_at : ℕ → Realtime → List Worker → List Worker
unfolding enter_select
enter_at n rt [] = []
enter_at zero rt (w ∷ workers) = enter_select rt w ∷ workers
enter_at (suc n) rt (w ∷ workers) = w ∷ enter_at n rt workers

unfoldable pub tick_at : ℕ → Bool → List Worker → List Worker
unfolding ticked
tick_at n empty [] = []
tick_at zero empty (w ∷ workers) = ticked empty w workers
tick_at (suc n) empty (w ∷ workers) = w ∷ tick_at n empty workers

unfoldable pub worker_selects : ℕ → Realtime → Realtime
worker_selects n rt = record rt { workers = enter_at n rt rt.workers }

unfoldable pub worker_ticks : ℕ → Realtime → Realtime
worker_ticks n rt = record rt { workers = tick_at n (is_empty rt.active_subscriptions) rt.workers }
