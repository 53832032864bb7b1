-- ===== src/Hub/Requests.antt =====
-- internal/hub/ws/request_manager.go and the reads of its channels in internal/hub/ws/ws.go.
-- A request is shared by the table of pending requests, by the code that waits for the response
-- and by the watcher of its context, so it stands in a heap under a handle.
pub mod Invariant
pub mod Oldest
pub mod Steps
pub mod Reach
pub mod Routing
pub mod RoundTrip
mod Examples
use homemonit.Base.{
  ℕ, suc, ◌+◌, ◌%◌, ◌^◌, String, Bool, true, false, not, ◌&&◌, Option, none, some, List, [], ◌∷◌,
  lookup, insert, erase, nat_key, ltb, if◌then◌else◌,
}

abbrev pub Message : Type 0
Message = ℕ

pub record PendingRequest : Type 0 where
  pub id : ℕ
  pub response_ch : Option Message  -- the buffered channel of one place
  pub done : Bool  -- the context is cancelled or past its deadline
  pub deadline : ℕ
  pub created_at : ℕ

pub record RequestManager : Type 0 where
  pub conn : Bool  -- the connection is not nil
  pub pending_reqs : List (ℕ × ℕ)  -- from the request's id to its handle
  pub next_id : ℕ
  pub requests : List (ℕ × PendingRequest)
  pub next_handle : ℕ
  pub written : List ℕ  -- the ids that were sent, newest first
  pub closed : List Message  -- the messages that were closed unread

unfoldable pub new_request_manager : Bool → RequestManager
new_request_manager conn = record {
  conn = conn;
  pending_reqs = [];
  next_id = 0;
  requests = [];
  next_handle = 0;
  written = [];
  closed = [];
}

abbrev pub five_seconds : ℕ
five_seconds = 5_000_000_000

unfoldable pub deadline_or : ℕ → Option ℕ → ℕ
deadline_or now none = now + five_seconds
deadline_or now (some deadline) = deadline

-- The context of a request is done from here on.
unfoldable pub finish : ℕ → Option PendingRequest → RequestManager → RequestManager
finish h none rm = rm
finish h (some req) rm = record rm { requests = insert h (record req { done = true }) rm.requests }

-- `Cancel` of a request.
unfoldable pub cancel : ℕ → RequestManager → RequestManager
unfolding finish
cancel h rm = finish h (lookup h rm.requests) rm

unfoldable pub delete_request : ℕ → RequestManager → RequestManager
delete_request id rm = record rm { pending_reqs = erase id rm.pending_reqs }

unfoldable pub cancel_found : ℕ → Option ℕ → RequestManager → RequestManager
cancel_found id none rm = rm
cancel_found id (some h) rm = delete_request id (cancel h rm)

unfoldable pub cancel_request : ℕ → RequestManager → RequestManager
unfolding cancel_found
cancel_request id rm = cancel_found id (lookup id rm.pending_reqs) rm

-- `SendRequest` at a time, with the caller's deadline if it has one. `goes` says whether the encoding
-- and the write succeed, which is asked only where there is a connection. The handle of the request,
-- or none where it could not be sent.
unfoldable pub send_request : ℕ → Option ℕ → Bool → RequestManager → RequestManager × Option ℕ
send_request now deadline goes rm =
    let id = (rm.next_id + 1) % 2 ^ 32 in
    let h = rm.next_handle in
    let req : PendingRequest = record {
      id = id;
      response_ch = none;
      done = false;
      deadline = deadline_or now deadline;
      created_at = now;
    } in
    let rm' = record rm {
      next_id = id;
      next_handle = suc h;
      requests = insert h req rm.requests;
      pending_reqs = insert id h rm.pending_reqs;
    } in
    if rm.conn && goes
    then (record rm' { written = id ∷ rm'.written }, some h)
    else (cancel_request id rm', none)

-- `message.Close()`
abbrev pub close_message : Message → RequestManager → RequestManager
close_message message rm = record rm { closed = message ∷ rm.closed }

-- The select between the send to the channel and the context: where both are ready, `late` says that
-- the context is taken. None: neither is ready, and the handler blocks.
unfoldable pub deliver :
    ℕ → Option PendingRequest → Message → Bool → RequestManager → Option RequestManager
deliver h none message late rm = none
deliver h (some req) message late rm =
    let put = record req { response_ch = some message } in
    elim req.response_ch [
      | none ↦
          if req.done && late
          then some (close_message message rm)
          else some (delete_request req.id (record rm { requests = insert h put rm.requests }))
      | some old ↦ if req.done then some (close_message message rm) else none
    ]

unfoldable pub older : Option PendingRequest → Option PendingRequest → Bool
older (some new) (some old) = ltb new.created_at old.created_at
older new old = false

-- The loop that looks for the oldest request; `best` is the handle found so far.
unfoldable pub oldest : List (ℕ × PendingRequest) → Option ℕ → List (ℕ × ℕ) → Option ℕ
oldest requests none [] = none
oldest requests (some h) [] = some h
oldest requests none ((id, h) ∷ rest) = oldest requests (some h) rest
oldest requests (some best) ((id, h) ∷ rest) =
    oldest requests (some (if older (lookup h requests) (lookup best requests) then h else best))
      rest

unfoldable pub route_to : Option ℕ → Message → Bool → RequestManager → Option RequestManager
route_to none message late rm = some (close_message message rm)
route_to (some h) message late rm = deliver h (lookup h rm.requests) message late rm

unfoldable pub route_legacy_response : Message → Bool → RequestManager → Option RequestManager
route_legacy_response message late rm =
    route_to (oldest rm.requests none rm.pending_reqs) message late rm

-- What the decoder finds in a message: nothing that it can read, a response without an id, or one
-- with an id.
pub data Decoded : Type 0 where
  unreadable without_id : Decoded
  with_id : ℕ → Decoded

unfoldable pub handle_response : Decoded → Message → Bool → RequestManager → Option RequestManager
handle_response unreadable message late rm = route_legacy_response message late rm
handle_response without_id message late rm = route_legacy_response message late rm
handle_response (with_id id) message late rm = route_to (lookup id rm.pending_reqs) message late rm

-- `cleanupRequest`, once the context of the request is done.
unfoldable pub cleanup_request : ℕ → RequestManager → RequestManager
cleanup_request h rm = elim (lookup h rm.requests) [
  | none ↦ rm
  | some req ↦ if req.done then cancel_request req.id rm else rm
]

-- The timer of a context: it is done once its deadline has passed.
unfoldable pub expire : ℕ → ℕ → RequestManager → RequestManager
expire now h rm = elim (lookup h rm.requests) [
  | none ↦ rm
  | some req ↦ if ltb now req.deadline then rm else cancel h rm
]

unfoldable pub cancel_each : List (ℕ × ℕ) → RequestManager → RequestManager
cancel_each [] rm = rm
cancel_each ((id, h) ∷ rest) rm = cancel_each rest (cancel h rm)

unfoldable pub close : RequestManager → RequestManager
close rm = record (cancel_each rm.pending_reqs rm) { pending_reqs = [] }

-- The select of `handleAgentRequest`: what the waiting code goes on with.
pub data Wait : Type 0 where
  waiting context_error : Wait
  response : Message → Wait

unfoldable pub wait_for : ℕ → PendingRequest → Bool → RequestManager → RequestManager × Wait
wait_for h req late rm = elim req.response_ch [
  | none ↦ if req.done then (rm, context_error) else (rm, waiting)
  | some message ↦ if req.done && late then (rm, context_error) else (
    record rm { requests = insert h (record req { response_ch = none; done = true }) rm.requests },
    response message,
  )
]

unfoldable pub handle_agent_request : ℕ → Bool → RequestManager → RequestManager × Wait
handle_agent_request h late rm = elim (lookup h rm.requests) [
  | none ↦ (rm, waiting)
  | some req ↦ wait_for h req late rm
]
