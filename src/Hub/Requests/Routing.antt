-- ===== src/Hub/Requests/Routing.antt =====
-- Where a message of an agent goes.
use homemonit.Base.{
  ℕ, Bool, true, ◌≡◌, ◌⊎◌, inl, inr, refl, none, some, lookup, insert, nat_key, ◌==◌, lookup-insert,
  lookup-erase, if◌then◌else◌, Bool-cases, Option-cases, ◌&&◌, arith,
}
use homemonit.Hub.Requests.{
  Message, PendingRequest, RequestManager, Decoded, handle_response, deliver, route_to,
  route_legacy_response, oldest, close_message, delete_request,
}
use homemonit.Hub.Requests.Invariant.{Inv}
use homemonit.Hub.Requests.Oldest.{pending-Held, lookup-Occurs, Least, oldest-Found}
use homemonit.Hub.Requests.Reach.{Reach, Reach-Inv}

-- The pending requests that a message is for: the one of its id, or an oldest one.
abbrev pub IsFor : Decoded → RequestManager → PendingRequest → Type 0
IsFor Decoded.unreadable rm req = Least rm.requests req rm.pending_reqs
IsFor Decoded.without_id rm req = Least rm.requests req rm.pending_reqs
IsFor (Decoded.with_id id) rm req = req.id ≡ id

-- A pending request that the message is for.
pub record Target (decoded : Decoded) (rm : RequestManager) (h : ℕ) (req : PendingRequest)
    : Type 0 where
  pub here : lookup h rm.requests ≡ some req
  pub entry : lookup req.id rm.pending_reqs ≡ some h
  pub is_for : IsFor decoded rm req

-- The message stands in the channel of one such request, which has left the table; all else is as
-- before.
pub record Delivered (decoded : Decoded) (message : Message) (rm rm' : RequestManager)
    : Type 0 where
  pub h : ℕ
  pub req : PendingRequest
  pub target : Target decoded rm h req
  pub requests :
      (k : ℕ)
      → lookup k rm'.requests ≡ (
          if h == k then some (record req { response_ch = some message }) else lookup k rm.requests)
  pub pending :
      (i : ℕ) → lookup i rm'.pending_reqs ≡ (if req.id == i then none else lookup i rm.pending_reqs)
  pub closed : rm'.closed ≡ rm.closed

-- The message is closed and nothing else has changed; no pending request is one that it is for, or
-- the one that it goes to is done.
abbrev pub Discarded : Decoded → Message → RequestManager → RequestManager → Type 0
Discarded decoded message rm rm' =
    (rm' ≡ close_message message rm)
    × (((h : ℕ) (req : PendingRequest) → ¬ Target decoded rm h req)
        ⊎ ((h : ℕ) × (req : PendingRequest) × Target decoded rm h req × (req.done ≡ true)))

deliver_routes :
    (decoded : Decoded) (h : ℕ) (req : PendingRequest) (message : Message) (late : Bool)
    (rm rm' : RequestManager)
    → Inv rm
    → Target decoded rm h req
    → deliver h (lookup h rm.requests) message late rm ≡ some rm'
    → Delivered decoded message rm rm' ⊎ Discarded decoded message rm rm'
unfolding deliver delete_request
deliver_routes decoded h req message late rm rm' v t e =
    let empty : req.response_ch ≡ none = ground (arith, t.here, v.keyed req.id h t.entry) in
    let put = record req { response_ch = some message } in
    elim (Bool-cases (req.done && late)) [
      | inl d ↦ inr (ground (arith, e, t.here, empty, d), inr (h, req, t, ground (arith, d)))
      | inr d ↦
          let same : rm'
              ≡ delete_request req.id (record rm { requests = insert h put rm.requests }) =
            ground (arith, e, t.here, empty, d) in
          inl (record {
            h = h;
            req = req;
            target = t;
            requests = λ k. rw same (lookup-insert h k put rm.requests);
            pending = λ i. rw same (lookup-erase req.id i rm.pending_reqs);
            closed = rw same refl;
          })
    ]

legacy_routes :
    (decoded : Decoded) (message : Message) (late : Bool) (rm rm' : RequestManager)
    → Inv rm
    → ((req : PendingRequest) → Least rm.requests req rm.pending_reqs → IsFor decoded rm req)
    → route_legacy_response message late rm ≡ some rm'
    → Delivered decoded message rm rm' ⊎ Discarded decoded message rm rm'
unfolding route_legacy_response route_to oldest lookup
legacy_routes decoded message late rm rm' v all e =
    elim (oldest-Found rm.requests rm.pending_reqs (pending-Held rm v)) [
      | inl n ↦ inr (ground (arith, e, n), inl (λ h req t. let g = t.entry in ground (arith, g, n)))
      | inr (id, h, f) ↦
          let p = lookup-Occurs id h rm.pending_reqs v.once f.occurs in
          let here = f.here in
          let found = f.is_found in
          let same : f.req.id ≡ id = ground (arith, here, v.keyed id h p) in
          deliver_routes decoded h f.req message late rm rm' v
            (record { here = here; entry = ground (arith, same, p); is_for = all f.req f.least })
            (ground (arith, e, found))
    ]

-- In every run in which no request takes the id of one that is pending, a message goes to one pending
-- request that it is for and to no other, or it is closed because there is none or because the one
-- that it goes to is done. A message with an id is for the
-- request of that id; one without, or one that cannot be read, is for an oldest request.
pub handle_response_routes :
    {rm : RequestManager} (reach : Reach rm) (decoded : Decoded) (message : Message) (late : Bool)
    (rm' : RequestManager)
    → handle_response decoded message late rm ≡ some rm'
    → Delivered decoded message rm rm' ⊎ Discarded decoded message rm rm'
unfolding handle_response route_to
handle_response_routes {rm} reach Decoded.unreadable message late rm' e =
    legacy_routes Decoded.unreadable message late rm rm' (Reach-Inv reach) (λ req l. l) e
handle_response_routes {rm} reach Decoded.without_id message late rm' e =
    legacy_routes Decoded.without_id message late rm rm' (Reach-Inv reach) (λ req l. l) e
handle_response_routes {rm} reach (Decoded.with_id id) message late rm' e =
    let v = Reach-Inv reach in
    elim (Option-cases (lookup id rm.pending_reqs)) [
      | inl n ↦ inr (
        ground (arith, e, n),
        inl (λ h req t. let f = t.is_for in let g = t.entry in ground (arith, f, g, n)),
      )
      | inr (h, p) ↦ elim (Option-cases (lookup h rm.requests)) [
        | inl n ↦ absurd (ground (arith, n, v.keyed id h p))
        | inr (req, f) ↦
            let same : req.id ≡ id = ground (arith, f, v.keyed id h p) in
            deliver_routes (Decoded.with_id id) h req message late rm rm' v
              (record { here = f; entry = ground (arith, same, p); is_for = same })
              (ground (arith, e, p))
      ]
    ]
