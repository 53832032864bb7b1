-- ===== src/Hub/Transport/Examples.antt =====
-- A hub and an agent over an encoding that is a tree: the theorems on the messages at concrete values.
use homemonit.Base.{
  ℕ, ◌+◌, String, Bool, true, false, Option, none, some, List, [], ◌∷◌, ◌≡◌, refl, lookup,
  Option-cases, inl, inr, string_key, arith,
}
use homemonit.Entities.{CombinedData, empty_data}
use homemonit.Messages.{
  sent_option, HubRequest, FingerprintRequest, FingerprintResponse, AgentResponse,
  DataRequestOptions, ContainerActionRequest, Codec, IsFaithful,
}
use homemonit.Agent.Requests.{Meets, WebSocketClient, container_action_of, is_action, on_message}
use homemonit.Agent.Requests.Verified.{
  Incoming, run, is_challenge, run-unverified, challenge, any_signature,
}
use homemonit.Hub.Requests.{RequestManager}
use homemonit.Hub.Transport.{ok, container_action_error}
use homemonit.Hub.Systems.{System, SystemManager, blank, new_system_manager, get_system}
use homemonit.Hub.Connect.{ActionBody, done, is_container_id, handle_container_action}
use homemonit.Hub.Connect.Actions.{IsProper, handle_container_action-done}
use homemonit.Hub.Transport.RoundTrip.{action_request, action_answer, container_action-lost}

data Wire : Type 0 where
  signature : ℕ → Wire
  bare : Option ℕ → Option CombinedData → Option FingerprintResponse → String → Option String → Wire
  carrying :
      Option ℕ
      → Option CombinedData
      → Option FingerprintResponse
      → String
      → Option String
      → Wire
      → Wire
  request : ℕ → Wire → Option ℕ → Wire
  combined : CombinedData → Wire
  fingerprint : FingerprintResponse → Wire
  text : String → Wire
  options : DataRequestOptions → Wire
  fingerprint_request : Wire → Bool → Wire
  action : ContainerActionRequest → Wire

encode_response : AgentResponse Wire → Wire
encode_response r =
    let kept = sent_option r.system_data in
    elim r.payload [
      | none ↦ bare r.id kept r.fingerprint r.error r.text
      | some w ↦ carrying r.id kept r.fingerprint r.error r.text w
    ]

decode_response : Wire → Option (AgentResponse Wire)
decode_response (bare id d f e t) =
    some (record { id = id; system_data = d; fingerprint = f; error = e; text = t; payload = none })
decode_response (carrying id d f e t w) =
    some
      (record { id = id; system_data = d; fingerprint = f; error = e; text = t; payload = some w })
decode_response w = none

decode_combined : Wire → CombinedData → Option CombinedData
decode_combined (combined d) old = some d
decode_combined w old = none

decode_fingerprint : Wire → FingerprintResponse → Option FingerprintResponse
decode_fingerprint (fingerprint f) old = some f
decode_fingerprint w old = none

decode_request : Wire → Option (HubRequest Wire)
decode_request (request a w id) = some (record { action = a; payload = w; id = id })
decode_request w = none

decode_options : Wire → DataRequestOptions
decode_options (options o) = o
decode_options w = record { cache_time_ms = 0; include_details = false }

decode_fingerprint_request : Wire → Option (FingerprintRequest Wire)
decode_fingerprint_request (fingerprint_request s n) =
    some (record { signature = s; need_sys_info = n })
decode_fingerprint_request w = none

decode_action : Wire → ContainerActionRequest
decode_action (action a) = a
decode_action w = record { container_id = ""; action = "" }

abbrev trees : Codec Wire
trees = record {
  travels = λ d. true;
  encode_response = encode_response;
  decode_response = decode_response;
  encode_combined = combined;
  decode_combined = decode_combined;
  encode_fingerprint = fingerprint;
  decode_fingerprint = decode_fingerprint;
  encode_text = text;
  encode_request = λ r. request r.action r.payload r.id;
  decode_request = decode_request;
  encode_options = options;
  decode_options = decode_options;
  encode_fingerprint_request = λ r. fingerprint_request r.signature r.need_sys_info;
  decode_fingerprint_request = decode_fingerprint_request;
  encode_action = action;
  decode_action = decode_action;
}

decode-encode :
    (r : AgentResponse Wire)
    → decode_response (encode_response r)
      ≡ some (record r { system_data = sent_option r.system_data })
unfolding encode_response decode_response
decode-encode r = elim (Option-cases r.payload) [
  | inl e ↦ ground (arith, e)
  | inr (w, e) ↦ ground (arith, e)
]

trees-IsFaithful : IsFaithful trees
unfolding decode_request decode_options decode_fingerprint_request decode_action
trees-IsFaithful = record {
  response = λ r v. decode-encode r;
  request = λ r. refl;
  options = λ r. refl;
  fingerprint_request = λ r. refl;
  action = λ r. refl;
}

-- Gathering counts its calls.
abbrev count : DataRequestOptions → ℕ → ℕ × CombinedData
count o n = (n + 1, record empty_data { containers = [] })

abbrev client : Bool → WebSocketClient Wire ℕ
client verified = record {
  hub_verified = verified;
  fingerprint = "f1";
  hostname = "h";
  system_name = "";
  state = 4;
  events = [];
  actions = [];
  sent = [];
  closes = 0;
}

abbrev refused : Meets
refused = record { writes = true; engine = some "no such container" }

abbrev minute : DataRequestOptions
minute = record { cache_time_ms = 60_000; include_details = true }

abbrev stop : ContainerActionRequest
stop = record { container_id = "a1b2c3d4e5f6"; action = "stop" }

abbrev rm : RequestManager
rm = record {
  conn = true;
  pending_reqs = [];
  next_id = 6;
  requests = [];
  next_handle = 0;
  written = [];
  closed = [];
}

container_action-lost_example :
    let (acted, error) = container_action_of trees count stop refused (client true) in
    let client' =
      on_message trees count true
        (trees.encode_request (action_request trees count stop 9))
        refused
        (client true) in
    (answer : Wire) × (client'.sent ≡ answer ∷ acted.sent)
    × (answer ≡ action_answer trees count 9 error)
    × (container_action_error trees false answer ≡ ok "")
container_action-lost_example =
    container_action-lost trees count trees-IsFaithful stop 9 refused (client true) refl refl

-- The error of that answer.
unheard_failure :
    (container_action_of trees count stop refused (client true)).1 ≡ "no such container"
unfolding container_action_of is_action
unheard_failure = refl

abbrev asked : List (Incoming Wire)
asked =
    record { binary = true; message = request 0 (options minute) (some 1); meets = refused }
    ∷ record { binary = true; message = request 6 (action stop) (some 2); meets = refused }
    ∷ record { binary = true; message = request 1 (signature 0) (some 3); meets = refused }
    ∷ []

run-unverified_example : run trees count asked (client false) ≡ client false
unfolding is_challenge decode_request decode_fingerprint_request
run-unverified_example =
    run-unverified trees count asked (client false) refl (refl, (refl, (refl, tt)))

any_signature_example :
    let after =
      on_message trees count true
        (trees.encode_request (challenge trees count (signature 1) true (some 3)))
        refused
        (client false) in
    (after
      ≡ on_message trees count true
          (trees.encode_request (challenge trees count (signature 2) true (some 3)))
          refused
          (client false))
    × (after.hub_verified ≡ true)
any_signature_example =
    any_signature trees count trees-IsFaithful (signature 1) (signature 2) true (some 3) refused
      (client false)

abbrev connected_system : System
connected_system = record (blank "s1") { ws_conn = some 2 }

abbrev manager : SystemManager
manager = record new_system_manager {
  systems = ("s1", 0) ∷ [];
  heap = (0, connected_system) ∷ [];
  next = 1;
}

abbrev body : ActionBody
body = record { system = "s1"; container = "a1b2c3d4e5f6"; action = "stop" }

body-IsProper : IsProper body
unfolding is_container_id
body-IsProper = record { system = λ e. cc; action = λ e. cc; container = refl; named = λ e. cc }

handle_container_action-done_example :
    handle_container_action
      (λ k. true)
      (λ k. container_action_error trees false (action_answer trees count 9 "no such container"))
      (some body)
      manager
    ≡ done
unfolding get_system lookup
handle_container_action-done_example =
    handle_container_action-done trees count (λ k. true) body manager 9 "no such container" 0 2
      connected_system trees-IsFaithful body-IsProper refl refl refl
