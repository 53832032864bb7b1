-- ===== src/Hub/Requests/Examples.antt =====
-- One request in flight: the theorems on the request manager at a concrete run.
use homemonit.Base.{
  ◌+◌, true, false, ◌≡◌, ◌⊎◌, refl, none, some, [], ◌∷◌, lookup, insert, erase, nat_key,
}
use homemonit.Hub.Requests.{
  PendingRequest, RequestManager, new_request_manager, send_request, Decoded, handle_response,
  five_seconds, deadline_or, route_legacy_response, oldest, route_to, deliver, delete_request,
}
use homemonit.Hub.Requests.Reach.{Step, Reach, handle_response_ends}
use homemonit.Hub.Requests.Routing.{Delivered, Discarded, handle_response_routes}

abbrev fresh : RequestManager
fresh = new_request_manager true

abbrev one : RequestManager
one = (send_request 7 none true fresh).0

abbrev req : PendingRequest
req = record {
  id = 1;
  response_ch = none;
  done = false;
  deadline = 7 + five_seconds;
  created_at = 7;
}

one-Reach : Reach one
unfolding new_request_manager lookup
one-Reach = Reach.next (Reach.start true) (Step.send 7 none true fresh refl)

handle_response_ends_example :
    (rm' : RequestManager) × (handle_response (Decoded.with_id 1) 50 true one ≡ some rm')
handle_response_ends_example = handle_response_ends one-Reach (Decoded.with_id 1) 50 true

abbrev answered : RequestManager
answered = record one {
  pending_reqs = [];
  requests = (0, record req { response_ch = some 50 }) ∷ [];
}

handle_response_routes_example :
    Delivered Decoded.without_id 50 one answered ⊎ Discarded Decoded.without_id 50 one answered
unfolding new_request_manager send_request lookup insert erase deadline_or handle_response
    route_legacy_response oldest route_to deliver delete_request
handle_response_routes_example =
    handle_response_routes one-Reach Decoded.without_id 50 false answered refl
