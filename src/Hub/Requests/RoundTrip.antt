-- ===== src/Hub/Requests/RoundTrip.antt =====
-- One request and its response.
use homemonit.Base.{
  ℕ, ◌+◌, ◌%◌, ◌^◌, Bool, true, false, ◌≡◌, Option, none, some, insert, nat_key, lookup-insert,
  nat_beq_iff, arith,
}
use homemonit.Hub.Requests.{
  Message, PendingRequest, RequestManager, Decoded, send_request, handle_response, deliver,
  route_to, delete_request, Wait, wait_for, handle_agent_request, deadline_or,
}

-- A request that goes out over a connection is answered by a response with its id that comes before
-- its context is done: the code that waits for it gets that message, whichever ready branch the
-- selects take.
pub send_request-round_trip :
    (now : ℕ) (deadline : Option ℕ) (message : Message) (late late' : Bool) (rm : RequestManager)
    → rm.conn ≡ true
    → let (rm1, h) = send_request now deadline true rm in
      (rm2 : RequestManager) × (handle_response (Decoded.with_id rm1.next_id) message late rm1
        ≡ some rm2)
      × (h ≡ some rm.next_handle)
      × ((handle_agent_request rm.next_handle late' rm2).1 ≡ Wait.response message)
unfolding send_request handle_response route_to deliver delete_request handle_agent_request wait_for
send_request-round_trip now deadline message late late' rm c =
    let id = (rm.next_id + 1) % 2 ^ 32 in
    let req : PendingRequest = record {
      id = id;
      response_ch = none;
      done = false;
      deadline = deadline_or now deadline;
      created_at = now;
    } in
    let put = record req { response_ch = some message } in
    let requests = insert rm.next_handle req rm.requests in
    let rm1 = (send_request now deadline true rm).0 in
    (
      delete_request id (record rm1 { requests = insert rm.next_handle put requests }),
      ground (
        arith,
        c,
        lookup-insert id id rm.next_handle rm.pending_reqs,
        nat_beq_iff id id,
        lookup-insert rm.next_handle rm.next_handle req rm.requests,
        nat_beq_iff rm.next_handle rm.next_handle,
      ),
      ground (arith, c),
      ground (
        arith,
        c,
        lookup-insert rm.next_handle rm.next_handle put requests,
        nat_beq_iff rm.next_handle rm.next_handle,
      ),
    )
