-- ===== src/Hub/Requests/Invariant.antt =====
-- What every step of the request manager keeps.
use homemonit.Base.{
  ℕ, true, ◌≡◌, ◌≢◌, ◌≤◌, nat_beq_iff, ◌⊎◌, inl, inr, refl, Option, none, some, List, lookup,
  insert, nat_key, ◌==◌, lookup-insert, IsMap, erase-IsMap, lookup-erase, if◌then◌else◌,
  Option-cases, arith,
}
use homemonit.Hub.Requests.{
  PendingRequest, RequestManager, finish, cancel, delete_request, cancel_found, cancel_request,
}

-- The request has a response in its channel, or its context is done.
abbrev pub Answered : PendingRequest → Type 0
Answered req = (req.response_ch ≢ none) ⊎ (req.done ≡ true)

-- What a pending entry of an id leads to.
abbrev pub Open : ℕ → Option PendingRequest → Type 0
Open id none = ⊥
Open id (some req) = (req.id ≡ id) × (req.response_ch ≡ none)

-- What is known of the request under a handle.
abbrev pub Settled : List (ℕ × ℕ) → ℕ → Option PendingRequest → Type 0
Settled pending h none = Unit
Settled pending h (some req) = (lookup req.id pending ≡ some h) ⊎ Answered req

pub record Inv (rm : RequestManager) : Type 0 where
  -- A pending entry leads to the request of its id, whose channel is empty.
  pub keyed : (id h : ℕ) → lookup id rm.pending_reqs ≡ some h → Open id (lookup h rm.requests)
  -- No id stands twice in the table.
  pub once : IsMap rm.pending_reqs
  -- No handle is given out twice.
  pub fresh : (h : ℕ) → rm.next_handle ≤ h → lookup h rm.requests ≡ none
  -- A request that is not pending is answered.
  pub settled : (h : ℕ) → Settled rm.pending_reqs h (lookup h rm.requests)

-- A change of one request that keeps its id, and that keeps its channel empty if it was.
pub change-Inv :
    (h : ℕ) (old new : PendingRequest) (rm : RequestManager)
    → lookup h rm.requests ≡ some old
    → new.id ≡ old.id
    → (old.response_ch ≡ none → new.response_ch ≡ none)
    → (Answered old → Answered new)
    → Inv rm
    → Inv (record rm { requests = insert h new rm.requests })
change-Inv h old new rm e same empty answered v = record {
  keyed = λ id k p. ground (
    arith,
    e,
    same,
    empty,
    p,
    v.keyed id k p,
    lookup-insert h k new rm.requests,
    nat_beq_iff h k,
  );
  once = v.once;
  fresh = λ k l. ground (arith, v.fresh k l, e, lookup-insert h k new rm.requests, nat_beq_iff h k);
  settled = λ k.
      ground
        (arith, e, same, answered, v.settled k, lookup-insert h k new rm.requests, nat_beq_iff h k);
}

pub cancel-Inv : (h : ℕ) (rm : RequestManager) → Inv rm → Inv (cancel h rm)
unfolding cancel finish
cancel-Inv h rm v = elim (Option-cases (lookup h rm.requests)) [
  | inl e ↦ rw (e, finish) v
  | inr (req, e) ↦
      rw (e, finish)
        (change-Inv h req (record req { done = true }) rm e refl (λ c. c) (λ a. inr refl) v)
]

abbrev pub marked : Option PendingRequest → Option PendingRequest
marked none = none
marked (some req) = some (record req { done = true })

-- What `Cancel` leaves under each handle.
pub lookup-cancel :
    (h k : ℕ) (rm : RequestManager)
    → lookup k (cancel h rm).requests
      ≡ (if h == k then marked (lookup h rm.requests) else lookup k rm.requests)
unfolding cancel finish
lookup-cancel h k rm = elim (Option-cases (lookup h rm.requests)) [
  | inl e ↦ ground (arith, e, nat_beq_iff h k)
  | inr (req, e) ↦ ground (arith, e, lookup-insert h k (record req { done = true }) rm.requests)
]

pub pending-cancel : (h : ℕ) (rm : RequestManager) → (cancel h rm).pending_reqs ≡ rm.pending_reqs
unfolding cancel finish
pending-cancel h rm = ground (arith, lookup h rm.requests)

-- An entry is dropped whose request is answered.
pub drop-Inv :
    (id h : ℕ) (req : PendingRequest) (rm : RequestManager)
    → lookup id rm.pending_reqs ≡ some h
    → lookup h rm.requests ≡ some req
    → Answered req
    → Inv rm
    → Inv (delete_request id rm)
unfolding delete_request
drop-Inv id h req rm p e a v = record {
  keyed = λ i k q. ground (arith, q, v.keyed i k, lookup-erase id i rm.pending_reqs);
  once = erase-IsMap id rm.pending_reqs v.once;
  fresh = v.fresh;
  settled = λ k. elim (Option-cases (lookup k rm.requests)) [
    | inl n ↦ rw n tt
    | inr (r, f) ↦
        ground (
          arith,
          f,
          p,
          e,
          a,
          v.settled k,
          lookup-erase id r.id rm.pending_reqs,
          nat_beq_iff id r.id,
        )
  ];
}

pub cancel_request-Inv : (id : ℕ) (rm : RequestManager) → Inv rm → Inv (cancel_request id rm)
unfolding cancel_request cancel_found
cancel_request-Inv id rm v = elim (Option-cases (lookup id rm.pending_reqs)) [
  | inl e ↦ rw (e, cancel_found) v
  | inr (h, e) ↦ elim (Option-cases (lookup h rm.requests)) [
    | inl n ↦ absurd (ground (arith, v.keyed id h e, n))
    | inr (req, f) ↦
        rw (e, cancel_found)
          (drop-Inv id h (record req { done = true }) (cancel h rm)
            (ground (arith, e, pending-cancel h rm))
            (ground (arith, f, lookup-cancel h h rm, nat_beq_iff h h)) (inr refl)
            (cancel-Inv h rm v))
  ]
]
