-- ===== src/Agent/Connection.antt =====
-- agent/connection_manager.go: the state of the agent's connection to the hub. Times are in
-- nanoseconds.
pub mod Trying
mod Examples
use homemonit.Base.{
  ℕ, suc, ◌+◌, ◌-◌, Bool, true, false, ◌&&◌, Option, none, some, ltb, if◌then◌else◌,
}

pub data ConnectionState : Type 0 where
  disconnected web_socket_connected : ConnectionState

pub data ConnectionEvent : Type 0 where
  web_socket_connect web_socket_disconnect : ConnectionEvent

pub data ConnectionType : Type 0 where
  type_none type_web_socket : ConnectionType

pub data Ticker : Type 0 where
  no_ticker stopped running : Ticker

pub record ConnectionManager : Type 0 where
  pub state : ConnectionState
  pub ws_ticker : Ticker
  pub is_connecting : Bool
  pub connection_type : ConnectionType
  pub has_client : Bool
  pub last_connect_attempt : Option ℕ  -- of the client; none: the zero time
  pub connects : ℕ  -- the calls of `connect` that have not ended
  pub awaiting : Bool  -- a socket is open that the hub has not used to authenticate
  pub closes : ℕ  -- the calls of the client's `Close`

abbrev pub is_disconnected : ConnectionState → Bool
is_disconnected disconnected = true
is_disconnected web_socket_connected = false

abbrev pub start_ws_ticker : ConnectionManager → ConnectionManager
start_ws_ticker c = record c { ws_ticker = running }

unfoldable pub stop_ws_ticker : ConnectionManager → ConnectionManager
stop_ws_ticker c = record c { ws_ticker = elim c.ws_ticker [ no_ticker ↦ no_ticker | _ ↦ stopped ] }

unfoldable pub close_web_socket : ConnectionManager → ConnectionManager
close_web_socket c = if c.has_client then record c { closes = suc c.closes } else c

unfoldable pub handle_state_change : ConnectionState → ConnectionManager → ConnectionManager
handle_state_change web_socket_connected c =
    if is_disconnected c.state
    then record (stop_ws_ticker
        (record c { state = web_socket_connected; connection_type = type_web_socket })) {
          is_connecting = false;
        }
    else c
handle_state_change disconnected c =
    let c' = record c { state = disconnected; connection_type = type_none } in
    if is_disconnected c.state
    then c
    else if c.is_connecting
    then c'
    else record (close_web_socket (record c' { is_connecting = true })) {
      connects = suc c.connects;
    }

unfoldable pub handle_event : ConnectionEvent → ConnectionManager → ConnectionManager
handle_event web_socket_connect c = handle_state_change web_socket_connected c
handle_event web_socket_disconnect c =
    if is_disconnected c.state then c else handle_state_change disconnected c

abbrev pub five_seconds : ℕ
five_seconds = 5_000_000_000

unfoldable pub is_recent : ℕ → Option ℕ → Bool
is_recent now none = false
is_recent now (some t) = ltb (now - t) five_seconds

pub data Attempt : Type 0 where
  already_connected no_client already_connecting failed opened : Attempt

-- `dials` says whether the client's `Connect` gets a socket.
unfoldable pub start_web_socket_connection :
    ℕ → Bool → ConnectionManager → ConnectionManager × Attempt
start_web_socket_connection now dials c =
    let c' = record c { last_connect_attempt = some now; closes = suc c.closes } in
    if is_disconnected c.state
    then if c.has_client
      then if is_recent now c.last_connect_attempt
        then (c, already_connecting)
        else if dials
        then (record c' { awaiting = true }, opened)
        else (close_web_socket c', failed)
      else (c, no_client)
    else (c, already_connected)

-- The end of `connect`, after its sleep; `exits` is the answer of `shouldExitOnErr` to an error of the
-- dialling. None: the process ends.
ended : Bool → Attempt → ConnectionManager → Option ConnectionManager
ended exits opened c = some c
ended true failed c = none
ended exits attempt c = some (if is_disconnected c.state then start_ws_ticker c else c)

unfoldable pub finish_connect : Option ConnectionManager → Option ConnectionManager
finish_connect none = none
finish_connect (some c) = some (record c { is_connecting = false; connects = c.connects - 1 })

unfoldable pub connect : ℕ → Bool → Bool → ConnectionManager → Option ConnectionManager
unfolding ended
connect now dials exits c =
    let (c', attempt) = start_web_socket_connection now dials c in
    finish_connect (ended exits attempt c')

-- `Start` up to its first `connect`.
unfoldable pub start : Bool → ConnectionManager
start has_client = record {
  state = disconnected;
  ws_ticker = running;
  is_connecting = true;
  connection_type = type_none;
  has_client = has_client;
  last_connect_attempt = none;
  connects = 1;
  awaiting = false;
  closes = 0;
}
