-- ===== src/Hub/Requests/Reach.antt =====
-- The runs of the request manager: sends, responses, timers and waiting code in any order.
use homemonit.Base.{
  ℕ, Bool, true, false, ◌≡◌, ◌≢◌, inl, inr, refl, subst, Option, none, some, List, [], ◌∷◌, lookup,
  nat_key, ◌==◌, if◌then◌else◌, Bool-cases, Option-cases, nat_beq_iff, ◌||◌, ◌&&◌, ltb, arith,
}
use homemonit.Hub.Requests.{
  Message, PendingRequest, RequestManager, new_request_manager, cancel, finish, send_request,
  Decoded, handle_response, cleanup_request, expire, cancel_each, close, Wait, wait_for,
  handle_agent_request,
}
use homemonit.Hub.Requests.Invariant.{
  Inv, change-Inv, cancel-Inv, lookup-cancel, cancel_request-Inv, marked,
}
use homemonit.Hub.Requests.Steps.{
  IsNew, new_request_manager-Inv, send_request-Inv, handle_response-Inv,
}

expire-Inv : (now h : ℕ) (rm : RequestManager) → Inv rm → Inv (expire now h rm)
unfolding expire
expire-Inv now h rm v = elim (Option-cases (lookup h rm.requests)) [
  | inl n ↦ rw (expire, n) v
  | inr (req, e) ↦ elim (Bool-cases (ltb now req.deadline)) [
    | inl t ↦ rw (expire, e, t) v
    | inr f ↦ rw (expire, e, f) (cancel-Inv h rm v)
  ]
]

cleanup_request-Inv : (h : ℕ) (rm : RequestManager) → Inv rm → Inv (cleanup_request h rm)
unfolding cleanup_request
cleanup_request-Inv h rm v = elim (Option-cases (lookup h rm.requests)) [
  | inl n ↦ rw (cleanup_request, n) v
  | inr (req, e) ↦ elim (Bool-cases req.done) [
    | inl t ↦ rw (cleanup_request, e, t) (cancel_request-Inv req.id rm v)
    | inr f ↦ rw (cleanup_request, e, f) v
  ]
]

handle_agent_request-Inv :
    (h : ℕ) (late : Bool) (rm : RequestManager) → Inv rm → Inv (handle_agent_request h late rm).0
unfolding handle_agent_request wait_for
handle_agent_request-Inv h late rm v = elim (Option-cases (lookup h rm.requests)) [
  | inl n ↦ rw (handle_agent_request, n) v
  | inr (req, e) ↦ elim (Option-cases req.response_ch) [
    | inl c ↦ elim (Bool-cases req.done) [
      | inl t ↦ rw (handle_agent_request, e, wait_for, c, t) v
      | inr f ↦ rw (handle_agent_request, e, wait_for, c, f) v
    ]
    | inr (message, c) ↦ elim (Bool-cases (req.done && late)) [
      | inl t ↦ rw (handle_agent_request, e, wait_for, c, t) v
      | inr f ↦
          rw (handle_agent_request, e, wait_for, c, f)
            (change-Inv h req (record req { response_ch = none; done = true }) rm e refl (λ x. refl)
              (λ a. inr refl) v)
    ]
  ]
]

-- The handles of the table.
abbrev pub listed : ℕ → List (ℕ × ℕ) → Bool
listed h [] = false
listed h (entry ∷ rest) = (entry.1 == h) || listed h rest

lookup-cancel_each :
    (k : ℕ) (pending : List (ℕ × ℕ)) (rm : RequestManager)
    → lookup k (cancel_each pending rm).requests
      ≡ (if listed k pending then marked (lookup k rm.requests) else lookup k rm.requests)
unfolding cancel_each
lookup-cancel_each k [] rm = refl
lookup-cancel_each k ((id, h) ∷ rest) rm = ground (
  arith,
  lookup-cancel_each k rest (cancel h rm),
  lookup-cancel h k rm,
  nat_beq_iff h k,
  lookup k rm.requests,
)

next_handle-cancel_each :
    (pending : List (ℕ × ℕ)) (rm : RequestManager)
    → (cancel_each pending rm).next_handle ≡ rm.next_handle
unfolding cancel_each cancel finish
next_handle-cancel_each [] rm = refl
next_handle-cancel_each ((id, h) ∷ rest) rm =
    ground (arith, next_handle-cancel_each rest (cancel h rm), lookup h rm.requests)

listed-lookup :
    (id h : ℕ) (pending : List (ℕ × ℕ)) → lookup id pending ≡ some h → listed h pending ≡ true
unfolding lookup
listed-lookup id h [] e = cc
listed-lookup id h ((j, k) ∷ rest) e =
    ground (arith, e, listed-lookup id h rest, nat_beq_iff j id, nat_beq_iff k h)

close-Inv : (rm : RequestManager) → Inv rm → Inv (close rm)
unfolding close lookup
close-Inv rm v = record {
  keyed = λ id h e. cc;
  once = tt;
  fresh = λ h l. ground (
    arith,
    v.fresh h,
    next_handle-cancel_each rm.pending_reqs rm,
    l,
    lookup-cancel_each h rm.pending_reqs rm,
  );
  settled = λ h. elim (Option-cases (lookup h rm.requests)) [
    | inl n ↦ ground (arith, n, lookup-cancel_each h rm.pending_reqs rm)
    | inr (req, e) ↦ ground (
      arith,
      e,
      v.settled h,
      lookup-cancel_each h rm.pending_reqs rm,
      listed-lookup req.id h rm.pending_reqs,
    )
  ];
}

pub data Step : RequestManager → RequestManager → Type 0 where
  send :
      (now : ℕ) (deadline : Option ℕ) (goes : Bool) (rm : RequestManager)
      → IsNew rm
      → Step rm (send_request now deadline goes rm).0
  respond :
      (decoded : Decoded) (message : Message) (late : Bool) (rm rm' : RequestManager)
      → handle_response decoded message late rm ≡ some rm'
      → Step rm rm'
  -- The timer of a context, and a caller that gives up.
  time : (now h : ℕ) (rm : RequestManager) → Step rm (expire now h rm)
  give_up : (h : ℕ) (rm : RequestManager) → Step rm (cancel h rm)
  clean : (h : ℕ) (rm : RequestManager) → Step rm (cleanup_request h rm)
  wait : (h : ℕ) (late : Bool) (rm : RequestManager) → Step rm (handle_agent_request h late rm).0
  shut : (rm : RequestManager) → Step rm (close rm)

pub data Reach : RequestManager → Type 0 where
  start : (conn : Bool) → Reach (new_request_manager conn)
  next : {rm rm' : RequestManager} → Reach rm → Step rm rm' → Reach rm'

Step-Inv : {rm rm' : RequestManager} → Step rm rm' → Inv rm → Inv rm'
Step-Inv (Step.send now deadline goes rm n) v = send_request-Inv now deadline goes rm n v
Step-Inv (Step.respond decoded message late rm rm' e) v =
    let (rm1, f, w) = handle_response-Inv decoded message late rm v in
    let same : rm1 ≡ rm' = cc in subst Inv same w
Step-Inv (Step.time now h rm) v = expire-Inv now h rm v
Step-Inv (Step.give_up h rm) v = cancel-Inv h rm v
Step-Inv (Step.clean h rm) v = cleanup_request-Inv h rm v
Step-Inv (Step.wait h late rm) v = handle_agent_request-Inv h late rm v
Step-Inv (Step.shut rm) v = close-Inv rm v

pub Reach-Inv : {rm : RequestManager} → Reach rm → Inv rm
Reach-Inv (Reach.start conn) = new_request_manager-Inv conn
Reach-Inv (Reach.next reach step) = Step-Inv step (Reach-Inv reach)

-- In every run in which no request takes the id of one that is pending, the handler of a message comes
-- to an end: a request in the table has room for the message in its channel.
pub handle_response_ends :
    {rm : RequestManager} (reach : Reach rm) (decoded : Decoded) (message : Message) (late : Bool)
    → (rm' : RequestManager) × (handle_response decoded message late rm ≡ some rm')
handle_response_ends reach decoded message late =
    let (rm', e, v) = handle_response-Inv decoded message late _ (Reach-Inv reach) in (rm', e)

-- In every run in which no request takes the id of one that is pending, code that still waits for a
-- response waits for a request that is in the table under its id, where a response, the watcher of its
-- context or a shutdown finds it.
pub waiting-lookup :
    {rm : RequestManager} (reach : Reach rm) (h : ℕ) (req : PendingRequest) (late : Bool)
    → lookup h rm.requests ≡ some req
    → (handle_agent_request h late rm).1 ≡ Wait.waiting
    → lookup req.id rm.pending_reqs ≡ some h
unfolding handle_agent_request wait_for
waiting-lookup {rm} reach h req late e w =
    let v = Reach-Inv reach in
    elim (Option-cases req.response_ch) [
      | inl c ↦ ground (arith, e, w, c, v.settled h)
      | inr (message, c) ↦ absurd (ground (arith, e, w, c))
    ]

-- After a shutdown at the end of any run in which no request takes the id of one that is pending, no
-- code waits for a request that was made: it gets its response or the error of its context.
pub close_frees :
    {rm : RequestManager} (reach : Reach rm) (h : ℕ) (req : PendingRequest) (late : Bool)
    → lookup h rm.requests ≡ some req
    → (handle_agent_request h late (close rm)).1 ≢ Wait.waiting
unfolding close
close_frees {rm} reach h req late e w =
    let found = lookup-cancel_each h rm.pending_reqs rm in
    let closed = Reach.next reach (Step.shut rm) in
    elim (Option-cases (lookup h (close rm).requests)) [
      | inl n ↦ ground (arith, e, found, n)
      | inr (r, f) ↦ let p = waiting-lookup closed h r late f w in unfold lookup in cc
    ]
