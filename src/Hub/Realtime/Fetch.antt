-- ===== src/Hub/Realtime/Fetch.antt =====
-- internal/hub/systems/system_realtime.go: what a worker fetches, and which clients it is sent to. The
-- goroutines of a round run one after the other.
use homemonit.Base.{
  ℕ, ◌<◌, String, Bool, true, Option, none, some, List, [], ◌∷◌, ◌≡◌, refl, ◌∙◌, ap, ◌⊎◌, inl, inr,
  string_key, ◌==◌, sym, lookup, if◌then◌else◌, map, Occurs, Option-cases, Bool-cases, arith,
}
use homemonit.Hub.Realtime.{SubscriptionInfo, Realtime, Subscriptions, has_key}
use homemonit.Hub.Realtime.Clients.{
  Change, run, clients_after, AreFair, Tracks, Counted, run-Tracks,
}

-- A client of the framework's broker; the messages are newest first.
pub record Client (B : Type 0) : Type 0 where
  pub subscriptions : Subscriptions
  pub inbox : List (String × B)

active-Counted :
    (n : ℕ) (found : Option SubscriptionInfo)
    → 0 < n
    → Counted n found
    → (info : SubscriptionInfo) × (found ≡ some info)
active-Counted n none z h = absurd (omega (arith, z, h))
active-Counted n (some info) z h = (info, refl)

module _ {B : Type 0} where
  unfoldable pub notify : String → B → List (Client B) → List (Client B)
  notify k bytes [] = []
  notify k bytes (c ∷ clients) =
      let rest = notify k bytes clients in
      (if has_key k c.subscriptions then record c { inbox = (k, bytes) ∷ c.inbox } else c) ∷ rest

  -- What comes of one fetch; `none` is an error.
  fetched : Option B → String → List (Client B) → List (Client B)
  fetched none k clients = clients
  fetched (some bytes) k clients = notify k bytes clients

  -- `known` tells whether the store has a system, and `fetch` what its agent sends.
  unfoldable pub fetch_realtime_data_and_notify :
      (String → Bool)
      → (String → Option B)
      → List (String × SubscriptionInfo)
      → List (Client B)
      → List (Client B)
  unfolding fetched
  fetch_realtime_data_and_notify known fetch [] clients = clients
  fetch_realtime_data_and_notify known fetch ((system, info) ∷ active) clients =
      fetch_realtime_data_and_notify known fetch active
        (fetched (if known system then fetch system else none) info.subscription clients)

  -- The same for one client.
  abbrev pub told : Option B → String → Client B → Client B
  told none k c = c
  told (some bytes) k c =
      if has_key k c.subscriptions then record c { inbox = (k, bytes) ∷ c.inbox } else c

  abbrev pub delivered :
      (String → Bool) → (String → Option B) → List (String × SubscriptionInfo) → Client B → Client B
  delivered known fetch [] c = c
  delivered known fetch ((system, info) ∷ active) c =
      delivered known fetch active
        (told (if known system then fetch system else none) info.subscription c)

  fetched-cons :
      (answer : Option B) (k : String) (c : Client B) (clients : List (Client B))
      → fetched answer k (c ∷ clients) ≡ told answer k c ∷ fetched answer k clients
  unfolding fetched notify
  fetched-cons none k c clients = refl
  fetched-cons (some bytes) k c clients = refl

  fetch-cons :
      (known : String → Bool) (fetch : String → Option B)
      (active : List (String × SubscriptionInfo)) (c : Client B) (clients : List (Client B))
      → fetch_realtime_data_and_notify known fetch active (c ∷ clients)
        ≡ delivered known fetch active c ∷ fetch_realtime_data_and_notify known fetch active clients
  unfolding fetch_realtime_data_and_notify
  fetch-cons known fetch [] c clients = refl
  fetch-cons known fetch ((system, info) ∷ active) c clients =
      let answer = if known system then fetch system else none in
      ap (fetch_realtime_data_and_notify known fetch active)
        (fetched-cons answer info.subscription c clients)
      ∙ fetch-cons known fetch active (told answer info.subscription c)
          (fetched answer info.subscription clients)

  fetch-nil :
      (known : String → Bool) (fetch : String → Option B)
      (active : List (String × SubscriptionInfo))
      → fetch_realtime_data_and_notify known fetch active [] ≡ []
  unfolding fetch_realtime_data_and_notify fetched notify
  fetch-nil known fetch [] = refl
  fetch-nil known fetch ((system, info) ∷ active) =
      elim (Option-cases (if known system then fetch system else none)) [
        | inl e ↦ rw e (fetch-nil known fetch active)
        | inr (bytes, e) ↦ rw e (fetch-nil known fetch active)
      ]

  fetch-map :
      (known : String → Bool) (fetch : String → Option B)
      (active : List (String × SubscriptionInfo)) (clients : List (Client B))
      → fetch_realtime_data_and_notify known fetch active clients
        ≡ map (delivered known fetch active) clients
  fetch-map known fetch active [] = fetch-nil known fetch active
  fetch-map known fetch active (c ∷ clients) =
      fetch-cons known fetch active c clients
      ∙ ap (λ rest. delivered known fetch active c ∷ rest) (fetch-map known fetch active clients)

  -- What one answer does to a client.
  record Adds (answer : Option B) (k : String) (c c' : Client B) : Type 0 where
    pub same : c'.subscriptions ≡ c.subscriptions
    pub keeps : (m : String × B) → Occurs m c.inbox → Occurs m c'.inbox
    pub only :
        (m : String × B)
        → Occurs m c'.inbox
        → Occurs m c.inbox ⊎ (has_key m.0 c.subscriptions ≡ true)

  told-Adds : (answer : Option B) (k : String) (c : Client B) → Adds answer k c (told answer k c)
  told-Adds none k c = record { same = refl; keeps = λ m o. o; only = λ m o. inl o }
  told-Adds (some bytes) k c = elim (Bool-cases (has_key k c.subscriptions)) [
    | inl e ↦ rw e (record {
      same = refl;
      keeps = λ m o. inr o;
      only = λ m o. elim o [ inl here ↦ inr (rw here e) | inr before ↦ inl before ];
    })
    | inr e ↦ rw e (record { same = refl; keeps = λ m o. o; only = λ m o. inl o })
  ]

  delivered-keeps :
      (known : String → Bool) (fetch : String → Option B)
      (active : List (String × SubscriptionInfo)) (c : Client B) (m : String × B)
      → Occurs m c.inbox
      → Occurs m (delivered known fetch active c).inbox
  delivered-keeps known fetch [] c m o = o
  delivered-keeps known fetch ((system, info) ∷ active) c m o =
      let answer = if known system then fetch system else none in
      delivered-keeps known fetch active (told answer info.subscription c) m
        ((told-Adds answer info.subscription c).keeps m o)

  delivered-only :
      (known : String → Bool) (fetch : String → Option B)
      (active : List (String × SubscriptionInfo)) (c : Client B) (m : String × B)
      → Occurs m (delivered known fetch active c).inbox
      → Occurs m c.inbox ⊎ (has_key m.0 c.subscriptions ≡ true)
  delivered-only known fetch [] c m o = inl o
  delivered-only known fetch ((system, info) ∷ active) c m o =
      let answer = if known system then fetch system else none in
      let adds = told-Adds answer info.subscription c in
      elim (delivered-only known fetch active (told answer info.subscription c) m o) [
        | inl before ↦ adds.only m before
        | inr has ↦ inr (rw (sym adds.same) has)
      ]

  told-own :
      (bytes : B) (k : String) (c : Client B)
      → has_key k c.subscriptions ≡ true
      → Occurs (k, bytes) (told (some bytes) k c).inbox
  told-own bytes k c e = rw e (inl refl)

  delivered-own :
      (known : String → Bool) (fetch : String → Option B)
      (active : List (String × SubscriptionInfo)) (c : Client B) (system : String)
      (info : SubscriptionInfo) (bytes : B)
      → lookup system active ≡ some info
      → known system ≡ true
      → fetch system ≡ some bytes
      → has_key info.subscription c.subscriptions ≡ true
      → Occurs (info.subscription, bytes) (delivered known fetch active c).inbox
  unfolding lookup
  delivered-own known fetch [] c system info bytes l n f h = absurd (ground (arith, l))
  delivered-own known fetch ((s, i) ∷ active) c system info bytes l n f h =
      let answer = if known s then fetch s else none in
      elim (Bool-cases (s == system)) [
        | inl e ↦
            let same : s ≡ system = (string_key.test_iff s system).0 e in
            let first : i ≡ info = ground (arith, l, e) in
            let here : answer ≡ some bytes = rw same (rw n f) in
            delivered-keeps known fetch active (told answer i.subscription c)
              (info.subscription, bytes) (rw here (rw first (told-own bytes info.subscription c h)))
        | inr e ↦
            delivered-own known fetch active (told answer i.subscription c) system info bytes
              (ground (arith, l, e)) n f (rw (told-Adds answer i.subscription c).same h)
      ]

  -- After any changes in which no system gets more than 255 clients and only a client that is there
  -- leaves, from a table that is exact: a system that has a client, that the store knows, and of which
  -- the agent answers, has an entry, and each client with the subscription of the entry gets the
  -- answer in the next round. No client gets a message of a subscription that it does not have.
  pub fetch_realtime_data_and_notify-served :
      (changes : List Change) (count : String → ℕ) (rt : Realtime) (known : String → Bool)
      (fetch : String → Option B) (clients : List (Client B)) (system : String) (bytes : B)
      → AreFair changes count
      → Tracks count rt
      → 0 < clients_after changes count system
      → known system ≡ true
      → fetch system ≡ some bytes
      → let active = (run changes rt).active_subscriptions in
        (deliver : (Client B → Client B)) × (fetch_realtime_data_and_notify known fetch active
            clients
          ≡ map deliver clients)
        × ((info : SubscriptionInfo) × (lookup system active ≡ some info)
            × ((c : Client B)
                → has_key info.subscription c.subscriptions ≡ true
                → Occurs (info.subscription, bytes) (deliver c).inbox))
        × ((c : Client B) (m : String × B)
            → Occurs m (deliver c).inbox
            → Occurs m c.inbox ⊎ (has_key m.0 c.subscriptions ≡ true))
  fetch_realtime_data_and_notify-served changes count rt known fetch clients system bytes f t z n
        a =
      let active = (run changes rt).active_subscriptions in
      let counted = run-Tracks changes count rt f t system in
      let (info, found) =
        active-Counted (clients_after changes count system) (lookup system active) z counted in
      (
        delivered known fetch active,
        fetch-map known fetch active clients,
        (info, found, λ c. delivered-own known fetch active c system info bytes found n a),
        delivered-only known fetch active,
      )
