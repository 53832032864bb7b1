-- ===== src/Hub/Connect.antt =====
-- internal/hub/agent_connect.go and `handleContainerAction` of internal/hub/api.go: an agent that
-- connects, and a user's action on a container. A missing header is the empty text. Whether a version
-- can be parsed and whether the upgrade to a socket succeeds are arguments.
pub mod Tokens
pub mod Actions
mod Examples
use Prim.Native.Char.{Char, code}
use Prim.Native.String.{String}
use homemonit.Base.{
  ℕ, suc, ◌+◌, Bool, true, false, not, ◌&&◌, ◌||◌, Option, none, some, List, [], ◌∷◌, ◌==◌,
  string_key, nat_key, ltb, leb, if◌then◌else◌, lookup,
}
use homemonit.Hub.Systems.{System, SystemManager, SystemRecord, get_system, add_web_socket_system}
use homemonit.Hub.Transport.{Result, ok, err, TransportError}

-- The bytes of a code point in UTF-8.
unfoldable pub code_bytes : ℕ → ℕ
code_bytes c = if ltb c 128 then 1 else if ltb c 2_048 then 2 else if ltb c 65_536 then 3 else 4

-- `len` of a text.
unfoldable pub byte_length : String → ℕ
unfolding code_bytes
byte_length String.[] = 0
byte_length (String.◌∷◌ c s) = code_bytes (code c) + byte_length s

pub record Headers : Type 0 where
  pub token : String  -- X-Token
  pub agent_version : String  -- X-Beszel

pub data Answer : Type 0 where
  bad_request unauthorized_version unauthorized_token upgrade_failed : Answer
  upgraded : SystemRecord → Answer

unfoldable pub validate_agent_headers : Headers → Option (String × String)
validate_agent_headers h =
    if h.agent_version == "" || (h.token == "" || ltb 64 (byte_length h.token))
    then none
    else some (h.token, h.agent_version)

-- The first row of which the port is the token.
unfoldable pub find_by_port : String → List (String × SystemRecord) → Option SystemRecord
find_by_port token [] = none
find_by_port token ((id, r) ∷ rows) = if r.port == token then some r else find_by_port token rows

pub upgrade : Bool → Option SystemRecord → Answer
upgrade upgrades none = unauthorized_token
upgrade upgrades (some r) = if upgrades then upgraded r else upgrade_failed

pub connect_with :
    (String → Bool) → Bool → List (String × SystemRecord) → Option (String × String) → Answer
connect_with parses upgrades rows none = bad_request
connect_with parses upgrades rows (some (token, version)) =
    if parses version then upgrade upgrades (find_by_port token rows) else unauthorized_version

unfoldable pub agent_connect :
    (String → Bool) → Headers → Bool → List (String × SystemRecord) → Answer
unfolding connect_with upgrade validate_agent_headers
agent_connect parses h upgrades rows = connect_with parses upgrades rows (validate_agent_headers h)

-- The row of the agent that has a connection.
unfoldable pub registered : Answer → Option SystemRecord
registered (upgraded r) = some r
registered answer = none

-- `verifyWsConn` on the connection `conn`.
unfoldable pub register :
    String → ℕ → List (String × SystemRecord) → Option SystemRecord → SystemManager → SystemManager
register version conn rows none m = m
register version conn rows (some r) m =
    (add_web_socket_system r.id version conn (lookup r.id rows) m).0

-- `handleAgentConnect`, with the goroutine that it starts.
unfoldable pub handle_agent_connect :
    (String → Bool)
    → Headers
    → Bool
    → ℕ
    → List (String × SystemRecord)
    → SystemManager
    → Answer × SystemManager
unfolding agent_connect register registered
handle_agent_connect parses h upgrades conn rows m =
    let answer = agent_connect parses h upgrades rows in
    (answer, register h.agent_version conn rows (registered answer) m)

is_hex : ℕ → Bool
is_hex c = (leb b'0' c && leb c b'9') || ((leb b'a' c && leb c b'f') || (leb b'A' c && leb c b'F'))

all_hex : String → Bool
all_hex String.[] = true
all_hex (String.◌∷◌ c s) = is_hex (code c) && all_hex s

-- `containerIDPattern`; the digits are of one byte each.
unfoldable pub is_container_id : String → Bool
unfolding all_hex is_hex byte_length
is_container_id s = all_hex s && (leb 12 (byte_length s) && leb (byte_length s) 64)

pub record ActionBody : Type 0 where
  pub system : String
  pub container : String
  pub action : String

pub data ActionAnswer : Type 0 where
  invalid_payload missing_parameter invalid_container_id system_not_found : ActionAnswer
  agent_disconnected done : ActionAnswer
  failed : TransportError → ActionAnswer
  refused : String → ActionAnswer

pub result_answer : Result String → ActionAnswer
result_answer (err e) = failed e
result_answer (ok message) = if message == "" then done else refused message

pub ask : (ℕ → Bool) → (ℕ → Result String) → Option (ℕ × System) → ActionAnswer
ask connected result none = system_not_found
ask connected result (some (h, sys)) = elim sys.ws_conn [
  | none ↦ agent_disconnected
  | some conn ↦ if connected conn then result_answer (result conn) else agent_disconnected
]

-- `result` is what `ContainerAction` comes to over a connection.
unfoldable pub handle_container_action :
    (ℕ → Bool) → (ℕ → Result String) → Option ActionBody → SystemManager → ActionAnswer
unfolding ask result_answer is_container_id
handle_container_action connected result none m = invalid_payload
handle_container_action connected result (some b) m =
    if b.system == "" || (b.container == "" || b.action == "")
    then missing_parameter
    else if not (is_container_id b.container)
    then invalid_container_id
    else ask connected result (get_system b.system m)
