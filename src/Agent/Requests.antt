-- ===== src/Agent/Requests.antt =====
-- agent/client.go, agent/handlers.go and agent/response.go: what the agent does with the messages of
-- the hub, and `containerAction` of agent/docker.go. What `gatherStats` does to the rest of the agent is
-- an argument, and so is the answer of the container engine.
pub mod Verified
use homemonit.Base.{
  ℕ, suc, String, Bool, true, false, not, ◌||◌, Option, none, some, List, [], ◌∷◌, ◌==◌, string_key,
  nat_beq, if◌then◌else◌,
}
use Prim.Native.String.{◌++◌}
use homemonit.Entities.{CombinedData}
use homemonit.Messages.{
  HubRequest, FingerprintRequest, FingerprintResponse, AgentResponse, DataRequestOptions,
  ContainerActionRequest, Codec, get_data, check_fingerprint, container_action,
}
use homemonit.Agent.Connection.{ConnectionEvent, web_socket_connect}

-- A value that a handler answers with.
pub data Reply (B : Type 0) : Type 0 where
  combined : CombinedData → Reply B
  fingerprint : FingerprintResponse → Reply B
  text : String → Reply B
  response : AgentResponse B → Reply B

-- The client, with the agent that it belongs to: `S` is the state that gathering works on.
pub record WebSocketClient (B S : Type 0) : Type 0 where
  pub hub_verified : Bool
  pub fingerprint : String
  pub hostname : String
  pub system_name : String
  pub state : S
  pub events : List ConnectionEvent  -- of the connection manager, newest first
  pub actions : List (String × String)  -- that the engine was asked for, newest first
  pub sent : List B  -- newest first
  pub closes : ℕ

-- What a message meets: whether a write succeeds, and the engine's answer to an action, none for a
-- success and its text else.
pub record Meets : Type 0 where
  pub writes : Bool
  pub engine : Option String

abbrev pub no_response : {B : Type 0} → Option ℕ → AgentResponse B
no_response id = record {
  id = id;
  system_data = none;
  fingerprint = none;
  error = "";
  text = none;
  payload = none;
}

unfoldable pub is_action : String → Bool
is_action action = action == "start" || (action == "stop" || action == "restart")

module _ {B S : Type 0} (c : Codec B) (gather : DataRequestOptions → S → S × CombinedData) where
  unfoldable pub new_agent_response : Reply B → Option ℕ → AgentResponse B
  new_agent_response (combined d) id = record (no_response id) { system_data = some d }
  new_agent_response (fingerprint f) id = record (no_response id) { fingerprint = some f }
  new_agent_response (text s) id = record (no_response id) { text = some s }
  new_agent_response (response r) id = record (no_response id) {
    payload = some (c.encode_response r);
  }

  -- A value without the wrapper.
  unfoldable pub encode_reply : Reply B → B
  encode_reply (combined d) = c.encode_combined d
  encode_reply (fingerprint f) = c.encode_fingerprint f
  encode_reply (text s) = c.encode_text s
  encode_reply (response r) = c.encode_response r

  unfoldable pub send_message : B → Meets → WebSocketClient B S → WebSocketClient B S × Bool
  send_message message m client =
      if m.writes
      then (record client { sent = message ∷ client.sent }, true)
      else (record client { closes = suc client.closes }, false)

  unfoldable pub send_response :
      Reply B → Option ℕ → Meets → WebSocketClient B S → WebSocketClient B S × Bool
  unfolding new_agent_response encode_reply send_message
  send_response reply none m client = send_message (encode_reply reply) m client
  send_response reply (some id) m client =
      send_message (c.encode_response (new_agent_response reply (some id))) m client

  unfoldable pub handle_get_data :
      HubRequest B → Meets → WebSocketClient B S → WebSocketClient B S × Bool
  unfolding send_response
  handle_get_data msg m client =
      let (state, gathered) = gather (c.decode_options msg.payload) client.state in
      send_response (combined gathered) msg.id m (record client { state = state })

  pub challenged :
      Option (FingerprintRequest B)
      → Option ℕ
      → Meets
      → WebSocketClient B S
      → WebSocketClient B S × Bool
  challenged none id m client = (client, false)
  challenged (some request) id m client =
      let plain : FingerprintResponse = record {
        fingerprint = client.fingerprint;
        hostname = "";
        port = "";
        name = "";
      } in
      let answer =
        if request.need_sys_info
        then record plain { name = client.system_name; hostname = client.hostname; port = "45876" }
        else plain in
      send_response (fingerprint answer) id m
        (record client { hub_verified = true; events = web_socket_connect ∷ client.events })

  unfoldable pub handle_auth_challenge :
      HubRequest B → Meets → WebSocketClient B S → WebSocketClient B S × Bool
  unfolding challenged
  handle_auth_challenge msg m client =
      challenged (c.decode_fingerprint_request msg.payload) msg.id m client

  or_empty : Option String → String
  or_empty none = ""
  or_empty (some s) = s

  -- The text of the error, empty for a success.
  unfoldable pub container_action_of :
      ContainerActionRequest → Meets → WebSocketClient B S → WebSocketClient B S × String
  unfolding is_action or_empty
  container_action_of request m client =
      if not (is_action request.action) then (client, "invalid action: " ++ request.action) else (
        record client { actions = (request.container_id, request.action) ∷ client.actions },
        or_empty m.engine,
      )

  unfoldable pub handle_container_action :
      HubRequest B → Meets → WebSocketClient B S → WebSocketClient B S × Bool
  unfolding container_action_of send_response
  handle_container_action msg m client =
      let request = c.decode_action msg.payload in
      let (client', error) = container_action_of request m client in
      send_response (response (record (no_response none) { error = error })) msg.id m client'

  -- The registry: which action has a handler, and what it asks before.
  unfoldable pub handle : HubRequest B → Meets → WebSocketClient B S → WebSocketClient B S × Bool
  unfolding handle_get_data handle_auth_challenge handle_container_action
  handle msg m client =
      if nat_beq msg.action check_fingerprint
      then handle_auth_challenge msg m client
      else if not (nat_beq msg.action get_data || nat_beq msg.action container_action)
      then (client, false)
      else if not client.hub_verified
      then (client, false)
      else if nat_beq msg.action get_data
      then handle_get_data msg m client
      else handle_container_action msg m client

  pub handle_decoded : Option (HubRequest B) → Meets → WebSocketClient B S → WebSocketClient B S
  handle_decoded none m client = client
  handle_decoded (some msg) m client = (handle msg m client).0

  -- A message; `binary` says whether its frame is.
  unfoldable pub on_message : Bool → B → Meets → WebSocketClient B S → WebSocketClient B S
  unfolding handle handle_decoded
  on_message binary message m client =
      if binary then handle_decoded (c.decode_request message) m client else client
