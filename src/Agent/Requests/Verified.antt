-- ===== src/Agent/Requests/Verified.antt =====
-- agent/client.go and agent/handlers.go: what a hub has to do before the agent serves it.
use homemonit.Base.{
  ℕ, Bool, true, false, ◌&&◌, Option, none, some, List, [], ◌∷◌, ◌≡◌, refl, ◌∙◌, nat_beq,
  if◌then◌else◌, All, Option-cases, inl, inr, sym, ap, arith,
}
use homemonit.Entities.{CombinedData}
use homemonit.Messages.{
  HubRequest, FingerprintRequest, FingerprintResponse, DataRequestOptions, Codec, IsFaithful,
  check_fingerprint,
}
use homemonit.Agent.Connection.{web_socket_connect}
use homemonit.Agent.Requests.{
  WebSocketClient, Meets, Reply, fingerprint, send_response, send_message, on_message,
  handle_decoded, handle, handle_auth_challenge, challenged,
}

-- A message from the hub, and what it meets.
pub record Incoming (B : Type 0) : Type 0 where
  pub binary : Bool
  pub message : B
  pub meets : Meets

module _ {B S : Type 0} (c : Codec B) (gather : DataRequestOptions → S → S × CombinedData) where
  unfoldable pub run : List (Incoming B) → WebSocketClient B S → WebSocketClient B S
  run [] client = client
  run (i ∷ rest) client = run rest (on_message c gather i.binary i.message i.meets client)

  has_payload : Option (FingerprintRequest B) → Bool
  has_payload none = false
  has_payload (some request) = true

  challenges : Option (HubRequest B) → Bool
  unfolding has_payload
  challenges none = false
  challenges (some msg) =
      nat_beq msg.action check_fingerprint && has_payload (c.decode_fingerprint_request msg.payload)

  -- A request for the fingerprint that can be decoded.
  unfoldable pub is_challenge : Incoming B → Bool
  unfolding challenges
  is_challenge i = i.binary && challenges (c.decode_request i.message)

  handle-unverified :
      (msg : HubRequest B) (m : Meets) (client : WebSocketClient B S)
      → client.hub_verified ≡ false
      → challenges (some msg) ≡ false
      → (handle c gather msg m client).0 ≡ client
  unfolding handle handle_auth_challenge challenged challenges has_payload
  handle-unverified msg m client v n =
      elim (Option-cases (c.decode_fingerprint_request msg.payload)) [
        | inl e ↦ ground (arith, e, v)
        | inr (r, e) ↦ ground (arith, e, v, n)
      ]

  on_message-unverified :
      (i : Incoming B) (client : WebSocketClient B S)
      → client.hub_verified ≡ false
      → is_challenge i ≡ false
      → on_message c gather i.binary i.message i.meets client ≡ client
  unfolding on_message handle_decoded is_challenge
  on_message-unverified i client v n = elim (Option-cases (c.decode_request i.message)) [
    | inl e ↦ ground (arith, e)
    | inr (msg, e) ↦ ground (arith, e, n, handle-unverified msg i.meets client v)
  ]

  -- Until a request for the fingerprint comes that can be decoded, no sequence of messages does
  -- anything: nothing is gathered, no action is asked of the engine, and nothing is sent. The client
  -- starts unverified.
  pub run-unverified :
      (is : List (Incoming B)) (client : WebSocketClient B S)
      → client.hub_verified ≡ false
      → All (λ i. is_challenge i ≡ false) is
      → run is client ≡ client
  unfolding run
  run-unverified [] client v n = refl
  run-unverified (i ∷ is) client v n =
      rw (on_message-unverified i client v n.0) (run-unverified is client v n.1)

  pub on_message-encode_request :
      IsFaithful c
      → (msg : HubRequest B) (m : Meets) (client : WebSocketClient B S)
      → on_message c gather true (c.encode_request msg) m client ≡ (handle c gather msg m client).0
  unfolding on_message handle_decoded
  on_message-encode_request f msg m client = rw (f.request msg) refl

  send_response-verified :
      (reply : Reply B) (id : Option ℕ) (m : Meets) (client : WebSocketClient B S)
      → (send_response c gather reply id m client).0.hub_verified ≡ client.hub_verified
  unfolding send_response send_message
  send_response-verified reply none m client = ground arith
  send_response-verified reply (some id) m client = ground arith

  -- The answer to a request for the fingerprint.
  auth_answer : Bool → WebSocketClient B S → FingerprintResponse
  auth_answer need client =
      let plain : FingerprintResponse = record {
        fingerprint = client.fingerprint;
        hostname = "";
        port = "";
        name = "";
      } in
      if need
      then record plain { name = client.system_name; hostname = client.hostname; port = "45876" }
      else plain

  -- A request for the fingerprint, with this signature.
  abbrev pub challenge : B → Bool → Option ℕ → HubRequest B
  challenge s need id = record {
    action = check_fingerprint;
    payload = c.encode_fingerprint_request (record { signature = s; need_sys_info = need });
    id = id;
  }

  handle-challenge :
      IsFaithful c
      → (s : B) (need : Bool) (id : Option ℕ) (m : Meets) (client : WebSocketClient B S)
      → handle c gather (challenge s need id) m client
        ≡ send_response c gather
            (fingerprint (auth_answer need client))
            id
            m
            (record client { hub_verified = true; events = web_socket_connect ∷ client.events })
  unfolding handle handle_auth_challenge challenged auth_answer
  handle-challenge f s need id m client =
      rw (f.fingerprint_request (record { signature = s; need_sys_info = need })) refl

  -- The signature of a request for the fingerprint is not looked at: with any two signatures the agent
  -- does the same, and it takes the hub for verified. The encoding is faithful.
  pub any_signature :
      IsFaithful c
      → (s s' : B) (need : Bool) (id : Option ℕ) (m : Meets) (client : WebSocketClient B S)
      → let after = on_message c gather true (c.encode_request (challenge s need id)) m client in
        (after ≡ on_message c gather true (c.encode_request (challenge s' need id)) m client)
        × (after.hub_verified ≡ true)
  any_signature f s s' need id m client =
      let answer = fingerprint (auth_answer need client) in
      let verified = record client {
        hub_verified = true;
        events = web_socket_connect ∷ client.events;
      } in
      let one =
        on_message-encode_request f (challenge s need id) m client
        ∙ ap (λ r. r.0) (handle-challenge f s need id m client) in
      let other =
        on_message-encode_request f (challenge s' need id) m client
        ∙ ap (λ r. r.0) (handle-challenge f s' need id m client) in
      (one ∙ sym other, ap (λ r. r.hub_verified) one ∙ send_response-verified answer id m verified)
