-- ===== src/Hub/Transport/RoundTrip.antt =====
-- A request of the hub and the agent's answer to it, through both programs.
use homemonit.Base.{ℕ, String, true, false, none, some, ◌∷◌, ◌≡◌, refl, ◌∙◌, ap, string_key}
use homemonit.Entities.{CombinedData}
use homemonit.Messages.{
  HubRequest, DataRequestOptions, ContainerActionRequest, Codec, IsFaithful, get_data,
  container_action,
}
use homemonit.Agent.Requests.{
  Meets, WebSocketClient, response, no_response, new_agent_response, send_message, send_response,
  handle_container_action, container_action_of, handle, on_message,
}
use homemonit.Agent.Requests.Verified.{on_message-encode_request}
use homemonit.Hub.Transport.{ok, handle_answer, handled, container_action_error}

module _ {B S : Type 0} (c : Codec B) (gather : DataRequestOptions → S → S × CombinedData) where
  -- The request for data under an id.
  abbrev pub data_request : DataRequestOptions → ℕ → HubRequest B
  data_request options id = record {
    action = get_data;
    payload = c.encode_options options;
    id = some id;
  }

  abbrev pub data_answer : ℕ → CombinedData → B
  data_answer id d = c.encode_response (record (no_response (some id)) { system_data = some d })

  abbrev pub action_request : ContainerActionRequest → ℕ → HubRequest B
  action_request request id = record {
    action = container_action;
    payload = c.encode_action request;
    id = some id;
  }

  -- What the agent answers to an action that came to this error.
  abbrev pub action_answer : ℕ → String → B
  action_answer id error = c.encode_response (
      new_agent_response c gather (response (record (no_response none) { error = error }))
        (some id))

  handle-action_request :
      IsFaithful c
      → (request : ContainerActionRequest) (id : ℕ) (m : Meets) (client : WebSocketClient B S)
      → client.hub_verified ≡ true
      → m.writes ≡ true
      → let (client', error) = container_action_of c gather request m client in
        (handle c gather (action_request request id) m client).0
        ≡ record client' { sent = action_answer id error ∷ client'.sent }
  unfolding handle handle_container_action send_response send_message new_agent_response
  handle-action_request f request id m client v w = rw v (rw (f.action request) (rw w refl))

  pub error-action_answer :
      IsFaithful c
      → (id : ℕ) (error : String) → container_action_error c false (action_answer id error) ≡ ok ""
  unfolding container_action_error handle_answer handled new_agent_response
  error-action_answer f id error =
      rw
        (f.response
          (new_agent_response c gather (response (record (no_response none) { error = error }))
            (some id))
          refl)
        refl

  -- An action on a container that a verified agent is asked for: whether it is a valid action, and
  -- whatever the engine says to it, the hub takes the agent's answer for a success. The answer holds the
  -- error inside of its payload, where the hub does not look. The agent's write succeeds, it is not
  -- older than 0.13.0, and the encoding is faithful.
  pub container_action-lost :
      IsFaithful c
      → (request : ContainerActionRequest) (id : ℕ) (m : Meets) (client : WebSocketClient B S)
      → client.hub_verified ≡ true
      → m.writes ≡ true
      → let (acted, error) = container_action_of c gather request m client in
        let client' =
          on_message c gather true (c.encode_request (action_request request id)) m client in
        (answer : B) × (client'.sent ≡ answer ∷ acted.sent)
        × (answer ≡ action_answer id error)
        × (container_action_error c false answer ≡ ok "")
  container_action-lost f request id m client v w =
      let (acted, error) = container_action_of c gather request m client in
      (
        action_answer id error,
        ap (λ x. x.sent)
            (on_message-encode_request c gather f (action_request request id) m client
              ∙ handle-action_request f request id m client v w),
        refl,
        error-action_answer f id error,
      )
