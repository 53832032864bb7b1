-- ===== src/Hub/Realtime/Examples.antt =====
-- One system and its clients: the theorems on realtime metrics at concrete states.
use homemonit.Base.{
  ℕ, String, map, Occurs, ◌⊎◌, ◌≡◌, true, refl, some, List, [], ◌∷◌, string_key, lookup, arith,
}
use homemonit.Hub.Realtime.{
  SubscriptionInfo, has_key, Worker, Realtime, on_realtime_subscribe_request, worker_selects,
}
use homemonit.Hub.Realtime.Clients.{Change, Tracks, run, clients_after, run-Tracks}
use homemonit.Hub.Realtime.Workers.{IsServed, Step, Reach, Reach-IsServed, idle}
use homemonit.Hub.Realtime.Fetch.{
  Client, notify, fetch_realtime_data_and_notify, fetch_realtime_data_and_notify-served,
}

abbrev visits : List Change
visits = Change.join "s1" ∷ Change.join "s1" ∷ Change.leave "s1" ∷ []

run-Tracks_example : Tracks (clients_after visits (λ s. 0)) (run visits idle)
unfolding lookup
run-Tracks_example =
    run-Tracks visits (λ s. 0) idle (omega arith, (omega arith, (omega arith, tt))) (λ s. refl)

Reach-IsServed_example :
    IsServed (worker_selects 0 (on_realtime_subscribe_request [] (("rt_metrics", "s1") ∷ []) idle))
Reach-IsServed_example = Reach-IsServed (
    Reach.next (Reach.next Reach.start (Step.subscribe [] (("rt_metrics", "s1") ∷ []) idle))
      (Step.select 0 (on_realtime_subscribe_request [] (("rt_metrics", "s1") ∷ []) idle)))

abbrev busy : Realtime
busy = record {
  active_subscriptions = ("s1", record { subscription = "rt_metrics"; connected_clients = 1 }) ∷ [];
  worker_running = true;
  ticker_stop_chan = some 0;
  next_chan = 1;
  workers = Worker.fetching ∷ [];
}

abbrev watching : Client ℕ
watching = record { subscriptions = ("rt_metrics", "s1") ∷ []; inbox = [] }

fetch_realtime_data_and_notify-served_example :
    let active = (run visits idle).active_subscriptions in
    (deliver : (Client ℕ → Client ℕ)) × (fetch_realtime_data_and_notify
        (λ s. true)
        (λ s. some 7)
        active
        (watching ∷ [])
      ≡ map deliver (watching ∷ []))
    × ((info : SubscriptionInfo) × (lookup "s1" active ≡ some info)
        × ((c : Client ℕ)
            → has_key info.subscription c.subscriptions ≡ true
            → Occurs (info.subscription, 7) (deliver c).inbox))
    × ((c : Client ℕ) (m : String × ℕ)
        → Occurs m (deliver c).inbox
        → Occurs m c.inbox ⊎ (has_key m.0 c.subscriptions ≡ true))
unfolding lookup
fetch_realtime_data_and_notify-served_example =
    fetch_realtime_data_and_notify-served visits (λ s. 0) idle (λ s. true) (λ s. some 7)
      (watching ∷ []) "s1" 7 (omega arith, (omega arith, (omega arith, tt))) (λ s. refl)
      (omega arith) refl refl

served :
    fetch_realtime_data_and_notify
      (λ s. true)
      (λ s. some 7)
      busy.active_subscriptions
      (watching ∷ [])
    ≡ record watching { inbox = ("rt_metrics", 7) ∷ [] } ∷ []
unfolding fetch_realtime_data_and_notify notify has_key lookup
served = refl
