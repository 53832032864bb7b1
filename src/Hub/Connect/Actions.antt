-- ===== src/Hub/Connect/Actions.antt =====
-- internal/hub/api.go: what a user is told about an action on a container.
use homemonit.Base.{ℕ, String, Bool, true, false, some, ◌≡◌, ◌≢◌, refl, string_key, arith}
use homemonit.Entities.{CombinedData}
use homemonit.Messages.{DataRequestOptions, Codec, IsFaithful}
use homemonit.Hub.Systems.{System, SystemManager, get_system}
use homemonit.Hub.Transport.{container_action_error}
use homemonit.Hub.Transport.RoundTrip.{action_answer, error-action_answer}
use homemonit.Hub.Connect.{
  ActionBody, done, ask, result_answer, is_container_id, handle_container_action,
}

-- What a user asks for passes the checks.
pub record IsProper (b : ActionBody) : Type 0 where
  pub system : b.system ≢ ""
  pub action : b.action ≢ ""
  pub container : is_container_id b.container ≡ true
  pub named : b.container ≢ ""

module _ {B S : Type 0} (c : Codec B) (gather : DataRequestOptions → S → S × CombinedData) where
  asked :
      (connected : ℕ → Bool) (id : ℕ) (error : String) (h conn : ℕ) (sys : System)
      → IsFaithful c
      → sys.ws_conn ≡ some conn
      → connected conn ≡ true
      → ask connected
          (λ k. container_action_error c false (action_answer c gather id error))
          (some (h, sys))
        ≡ done
  unfolding ask result_answer
  asked connected id error h conn sys f e k =
      rw (e, ask) (rw k (rw (error-action_answer c gather f id error) refl))

  -- A user's action on a container of a connected system, with a proper id: whatever error the agent
  -- met, its answer lets the user be told that the action was done. The agent is not older than 0.13.0,
  -- and the encoding is faithful.
  pub handle_container_action-done :
      (connected : ℕ → Bool) (b : ActionBody) (m : SystemManager) (id : ℕ) (error : String)
      (h conn : ℕ) (sys : System)
      → IsFaithful c
      → IsProper b
      → get_system b.system m ≡ some (h, sys)
      → sys.ws_conn ≡ some conn
      → connected conn ≡ true
      → handle_container_action connected
          (λ k. container_action_error c false (action_answer c gather id error))
          (some b)
          m
        ≡ done
  unfolding handle_container_action
  handle_container_action-done connected b m id error h conn sys f p found e k = ground (
    arith,
    found,
    p.container,
    asked connected id error h conn sys f e k,
    string_key.test_iff b.system "",
    string_key.test_iff b.container "",
    string_key.test_iff b.action "",
    p.system,
    p.action,
    p.named,
  )
