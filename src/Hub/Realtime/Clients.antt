-- ===== src/Hub/Realtime/Clients.antt =====
-- The counts of clients against the subscriptions that there are.
use homemonit.Base.{
  ℕ, zero, suc, ◌+◌, ◌-◌, ◌%◌, ◌<◌, String, ◌≡◌, Option, none, some, List, [], ◌∷◌, string_key,
  ◌==◌, lookup, lookup-insert, lookup-erase, if◌then◌else◌, nat_beq, Option-cases, inl, inr, ◌∙◌,
  ap, arith,
}
use homemonit.Hub.Realtime.{
  SubscriptionInfo, Realtime, on_realtime_subscription_added, start_worker, check_subscriptions,
  info_or_new, count_client, uncount_client, uncount_found, add_subscription,
  remove_realtime_subscription,
}

-- A client subscribes to the metrics of a system, or no longer does.
pub data Change : Type 0 where
  join leave : String → Change

abbrev pub key : String
key = "rt_metrics"

abbrev pub change : Change → Realtime → Realtime
change (join system) rt = add_subscription key system rt
change (leave system) rt = remove_realtime_subscription key system rt

abbrev pub run : List Change → Realtime → Realtime
run [] rt = rt
run (c ∷ changes) rt = run changes (change c rt)

-- The clients of a system after a change, counted without a bound.
abbrev pub clients : Change → (String → ℕ) → String → ℕ
clients (join system) count s = if system == s then suc (count s) else count s
clients (leave system) count s = if system == s then count s - 1 else count s

abbrev pub clients_after : List Change → (String → ℕ) → String → ℕ
clients_after [] count = count
clients_after (c ∷ changes) count = clients_after changes (clients c count)

-- A system never gets more than 255 clients, and only a client that is there leaves.
abbrev pub IsFair : Change → (String → ℕ) → Type 0
IsFair (join system) count = count system < 255
IsFair (leave system) count = 0 < count system

abbrev pub AreFair : List Change → (String → ℕ) → Type 0
AreFair [] count = Unit {0}
AreFair (c ∷ changes) count = IsFair c count × AreFair changes (clients c count)

-- An entry with the exact count where there are clients, and none where there are not.
abbrev pub Counted : ℕ → Option SubscriptionInfo → Type 0
Counted n none = n ≡ 0
Counted n (some info) = (info.connected_clients ≡ n) × (0 < n) × (n < 256)

abbrev pub Tracks : (String → ℕ) → Realtime → Type 0
Tracks count rt = (s : String) → Counted (count s) (lookup s rt.active_subscriptions)

active-added :
    (rt : Realtime)
    → (on_realtime_subscription_added rt).active_subscriptions ≡ rt.active_subscriptions
unfolding on_realtime_subscription_added start_worker
active-added rt = ground arith

active-check :
    (rt : Realtime) → (check_subscriptions rt).active_subscriptions ≡ rt.active_subscriptions
unfolding check_subscriptions
active-check rt = ground arith

-- What a new subscription does to the entry of a system.
pub lookup-add_subscription :
    (system s : String) (rt : Realtime)
    → lookup s (add_subscription key system rt).active_subscriptions ≡ (
        if system == s
        then some (record (info_or_new key (lookup system rt.active_subscriptions)) {
          connected_clients =
              ((info_or_new key (lookup system rt.active_subscriptions)).connected_clients + 1)
              % 256;
        })
        else lookup s rt.active_subscriptions)
unfolding add_subscription count_client
lookup-add_subscription system s rt =
    let info = info_or_new key (lookup system rt.active_subscriptions) in
    ap (lookup s) (active-added (count_client key system rt))
    ∙ lookup-insert system s
        (record info { connected_clients = (info.connected_clients + 1) % 256 })
        rt.active_subscriptions

abbrev pub fewer : Option SubscriptionInfo → Option SubscriptionInfo
fewer none = none
fewer (some info) =
    let n = (info.connected_clients + 255) % 256 in
    if nat_beq n 0 then none else some (record info { connected_clients = n })

pub lookup-remove :
    (system s : String) (rt : Realtime)
    → lookup s (remove_realtime_subscription key system rt).active_subscriptions ≡ (
        if system == s
        then fewer (lookup system rt.active_subscriptions)
        else lookup s rt.active_subscriptions)
unfolding remove_realtime_subscription uncount_client uncount_found
lookup-remove system s rt =
    ap (lookup s) (active-check (uncount_client system rt))
    ∙ elim (Option-cases (lookup system rt.active_subscriptions)) [
      | inl e ↦ ground (arith, e, string_key.test_iff system s)
      | inr (info, e) ↦
          let less = record info { connected_clients = (info.connected_clients + 255) % 256 } in
          ground (
            arith,
            e,
            lookup-insert system s less rt.active_subscriptions,
            lookup-erase system s rt.active_subscriptions,
          )
    ]

change-Tracks :
    (c : Change) (count : String → ℕ) (rt : Realtime)
    → IsFair c count
    → Tracks count rt
    → Tracks (clients c count) (change c rt)
unfolding info_or_new
change-Tracks (Change.join system) count rt f h s = ground (
  arith,
  f,
  h s,
  h system,
  lookup-add_subscription system s rt,
  string_key.test_iff system s,
  lookup system rt.active_subscriptions,
)
change-Tracks (Change.leave system) count rt f h s = ground (
  arith,
  f,
  h s,
  h system,
  lookup-remove system s rt,
  string_key.test_iff system s,
  lookup system rt.active_subscriptions,
)

-- Through any changes in which no system gets more than 255 clients and only a client that is there
-- leaves, from a table that is exact, the table has an entry for exactly the systems with a client,
-- each with the exact number of its clients.
pub run-Tracks :
    (changes : List Change) (count : String → ℕ) (rt : Realtime)
    → AreFair changes count
    → Tracks count rt
    → Tracks (clients_after changes count) (run changes rt)
run-Tracks [] count rt f h = h
run-Tracks (c ∷ changes) count rt f h =
    run-Tracks changes (clients c count) (change c rt) f.1 (change-Tracks c count rt f.0 h)

abbrev pub times : ℕ → String → Realtime → Realtime
times zero system rt = rt
times (suc n) system rt = times n system (add_subscription key system rt)

lookup-times :
    (n : ℕ) (system : String) (info : SubscriptionInfo) (rt : Realtime)
    → info.connected_clients < 256
    → lookup system rt.active_subscriptions ≡ some info
    → lookup system (times n system rt).active_subscriptions
      ≡ some (record info { connected_clients = (info.connected_clients + n) % 256 })
unfolding info_or_new
lookup-times zero system info rt l e = ground (arith, l, e)
lookup-times (suc n) system info rt l e =
    let more = record info { connected_clients = (info.connected_clients + 1) % 256 } in
    let here : lookup system (add_subscription key system rt).active_subscriptions ≡ some more =
      ground
        (arith, e, lookup-add_subscription system system rt, string_key.test_iff system system) in
    ground (arith, lookup-times n system more (add_subscription key system rt) (omega arith) here)

-- The count wraps around: after 257 clients have subscribed to a system, the first that leaves takes
-- the entry with it, though 256 are left.
pub remove_after_257 :
    (system : String) (rt : Realtime)
    → lookup system rt.active_subscriptions ≡ none
    → lookup system
        (remove_realtime_subscription key system (times 257 system rt)).active_subscriptions
      ≡ none
unfolding info_or_new
remove_after_257 system rt e =
    let first : lookup system (add_subscription key system rt).active_subscriptions
        ≡ some (record { subscription = key; connected_clients = 1 }) =
      ground
        (arith, e, lookup-add_subscription system system rt, string_key.test_iff system system) in
    let all =
      lookup-times 256 system (record { subscription = key; connected_clients = 1 })
        (add_subscription key system rt) (omega arith) first in
    ground (
      arith,
      all,
      lookup-remove system system (times 257 system rt),
      string_key.test_iff system system,
    )
