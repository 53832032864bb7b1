-- ===== src/Hub/Transport.antt =====
-- internal/hub/transport, and internal/hub/ws/handlers.go with the part of `handleAgentRequest` (ws.go)
-- after its select: what the hub makes of an agent's answer. The request manager carries the messages
-- as numbers; `content` gives the text of each.
pub mod RoundTrip
mod Examples
use homemonit.Base.{
  ℕ, String, Bool, true, false, not, Option, none, some, ◌==◌, string_key, nat_beq, if◌then◌else◌,
}
use homemonit.Entities.{CombinedData}
use homemonit.Messages.{FingerprintResponse, AgentResponse, Codec, get_data, check_fingerprint}
use homemonit.Hub.Requests.{
  Message, Decoded, unreadable, without_id, with_id, Wait, waiting, context_error, response,
}

-- What a destination points to; `nil` is the nil interface.
pub data Dest : Type 0 where
  combined : CombinedData → Dest
  fingerprint : FingerprintResponse → Dest
  nil : Dest

pub data TransportError : Type 0 where
  not_connected not_sent context_done undecodable nil_destination unexpected_dest : TransportError
  bad_payload no_system_data no_fingerprint legacy_not_supported : TransportError
  agent_error : String → TransportError
  unsupported_action : ℕ → TransportError

pub data Result (A : Type 0) : Type 0 where
  ok : A → Result A
  err : TransportError → Result A

module _ {B : Type 0} (c : Codec B) where
  or_error : {A : Type 0} → TransportError → Option A → Result A
  or_error e none = err e
  or_error e (some a) = ok a

  as_combined : Option CombinedData → Option Dest
  as_combined none = none
  as_combined (some d) = some (combined d)

  as_fingerprint : Option FingerprintResponse → Option Dest
  as_fingerprint none = none
  as_fingerprint (some f) = some (fingerprint f)

  -- `cbor.Unmarshal` into a destination.
  unfoldable pub unmarshal : B → Dest → Option Dest
  unfolding as_combined as_fingerprint
  unmarshal b (combined old) = as_combined (c.decode_combined b old)
  unmarshal b (fingerprint old) = as_fingerprint (c.decode_fingerprint b old)
  unmarshal b nil = none

  -- The case for `GetData`, with the data of the answer.
  system_data_into : Option CombinedData → Dest → Result Dest
  system_data_into none (combined old) = err no_system_data
  system_data_into (some d) (combined old) = ok (combined d)
  system_data_into data? other = err unexpected_dest

  fingerprint_into : Option FingerprintResponse → Dest → Result Dest
  fingerprint_into none (fingerprint old) = err no_fingerprint
  fingerprint_into (some f) (fingerprint old) = ok (fingerprint f)
  fingerprint_into fingerprint? other = err unexpected_dest

  unfoldable pub unmarshal_legacy_response : AgentResponse B → ℕ → Dest → Result Dest
  unfolding system_data_into fingerprint_into
  unmarshal_legacy_response r action dest =
      if nat_beq action get_data
      then system_data_into r.system_data dest
      else if nat_beq action check_fingerprint
      then fingerprint_into r.fingerprint dest
      else err (unsupported_action action)

  is_nil : Dest → Bool
  is_nil nil = true
  is_nil dest = false

  unfoldable pub unmarshal_response : AgentResponse B → ℕ → Dest → Result Dest
  unfolding is_nil or_error
  unmarshal_response r action dest = if is_nil dest then err nil_destination else elim r.payload [
    | none ↦ unmarshal_legacy_response r action dest
    | some payload ↦ or_error bad_payload (unmarshal payload dest)
  ]

  pub unwrapped : ℕ → Dest → Option (AgentResponse B) → Result Dest
  unwrapped action dest none = err undecodable
  unwrapped action dest (some r) =
      if not (r.error == "") then err (agent_error r.error) else unmarshal_response r action dest

  -- The first case of the select of `Request`. `legacy`: the agent is older than 0.13.0.
  unfoldable pub receive : Bool → ℕ → B → Dest → Result Dest
  unfolding unwrapped or_error unmarshal_response
  receive legacy action message dest =
      if legacy
      then or_error undecodable (unmarshal message dest)
      else unwrapped action dest (c.decode_response message)

  -- What `Request` comes to after its select; none while it waits.
  unfoldable pub finish_request : (Message → B) → Bool → ℕ → Dest → Wait → Option (Result Dest)
  finish_request content legacy action dest waiting = none
  finish_request content legacy action dest context_error = some (err context_done)
  finish_request content legacy action dest (response message) =
      some (receive legacy action (content message) dest)

  -- `handleAgentRequest` with a handler: what the handler does with a wrapped answer and with a legacy
  -- one.
  pub handled : {A : Type 0} → (AgentResponse B → Result A) → Option (AgentResponse B) → Result A
  handled handler none = err undecodable
  handled handler (some r) = if not (r.error == "") then err (agent_error r.error) else handler r

  unfoldable pub handle_answer :
      {A : Type 0} → (AgentResponse B → Result A) → (B → Result A) → Bool → B → Result A
  unfolding handled
  handle_answer handler handle_legacy legacy message =
      if legacy then handle_legacy message else handled handler (c.decode_response message)

  -- `GetFingerprint` from the message on.
  unfoldable pub get_fingerprint : Bool → B → Result FingerprintResponse
  unfolding handle_answer or_error
  get_fingerprint legacy message =
      let zero : FingerprintResponse = record {
        fingerprint = "";
        hostname = "";
        port = "";
        name = "";
      } in
      handle_answer (λ r. or_error no_fingerprint r.fingerprint)
        (λ b. or_error undecodable (c.decode_fingerprint b zero)) legacy message

  -- `ContainerAction` from the message on: `result.Error`.
  unfoldable pub container_action_error : Bool → B → Result String
  unfolding handle_answer
  container_action_error legacy message =
      handle_answer (λ r. ok r.error) (λ b. err legacy_not_supported) legacy message

  -- How the request manager reads a message.
  unfoldable pub decoded : Option (AgentResponse B) → Decoded
  decoded none = unreadable
  decoded (some r) = elim r.id [ none ↦ without_id | some id ↦ with_id id ]
