-- ===== src/Agent/Connection/Trying.antt =====
-- Whether the agent goes on trying to reach the hub.
use homemonit.Base.{
  ℕ, ◌+◌, ◌<◌, ◌≤◌, Bool, true, false, ◌≡◌, ◌⊎◌, inl, refl, some, if◌then◌else◌, arith,
}
use homemonit.Agent.Connection.{
  ConnectionEvent, ConnectionType, Ticker, ConnectionManager, is_disconnected, stop_ws_ticker,
  close_web_socket, handle_state_change, handle_event, start_web_socket_connection, ended,
  finish_connect, connect, start, is_recent, five_seconds,
}

abbrev is_running : Ticker → Bool
is_running Ticker.running = true
is_running _ = false

abbrev is_web_socket : ConnectionType → Bool
is_web_socket ConnectionType.type_none = false
is_web_socket ConnectionType.type_web_socket = true

-- Something will open a socket or has opened one: the ticker runs, a call of `connect` has not
-- ended, or a socket waits for the hub.
abbrev pub Tries : ConnectionManager → Type 0
Tries c = (is_running c.ws_ticker ≡ true) ⊎ ((0 < c.connects) ⊎ (c.awaiting ≡ true))

abbrev pub IsTrying : ConnectionManager → Type 0
IsTrying c =
    (is_disconnected c.state ≡ true → Tries c)
    × (is_web_socket c.connection_type ≡ (if is_disconnected c.state then false else true))
    × (c.is_connecting ≡ true → 0 < c.connects)

-- An event of the socket that the agent is on, a tick, and the end of a call of `connect`.
pub data Step : ConnectionManager → ConnectionManager → Type 0 where
  authenticated :
      (c : ConnectionManager)
      → Step c (record (handle_event ConnectionEvent.web_socket_connect c) { awaiting = false })
  lost :
      (c : ConnectionManager)
      → is_disconnected c.state ≡ false
      → Step c (handle_event ConnectionEvent.web_socket_disconnect c)
  tick :
      (now : ℕ) (dials : Bool) (c : ConnectionManager)
      → Step c (start_web_socket_connection now dials c).0
  end :
      (now : ℕ) (dials exits : Bool) (c c' : ConnectionManager)
      → connect now dials exits c ≡ some c'
      → Step c c'

pub data Reach : ConnectionManager → Type 0 where
  starts : (has_client : Bool) → Reach (start has_client)
  next : {c c' : ConnectionManager} → Reach c → Step c c' → Reach c'

event-IsTrying :
    (c : ConnectionManager)
    → IsTrying c
    → IsTrying (record (handle_event ConnectionEvent.web_socket_connect c) { awaiting = false })
unfolding handle_event handle_state_change stop_ws_ticker
event-IsTrying c v = ground (arith, v)

lost-IsTrying :
    (c : ConnectionManager)
    → is_disconnected c.state ≡ false
    → IsTrying c
    → IsTrying (handle_event ConnectionEvent.web_socket_disconnect c)
unfolding handle_event handle_state_change close_web_socket
lost-IsTrying c d v = ground (arith, d, v)

tick-IsTrying :
    (now : ℕ) (dials : Bool) (c : ConnectionManager)
    → IsTrying c
    → IsTrying (start_web_socket_connection now dials c).0
unfolding start_web_socket_connection close_web_socket
tick-IsTrying now dials c v = ground (arith, v)

connect-IsTrying :
    (now : ℕ) (dials exits : Bool) (c c' : ConnectionManager)
    → IsTrying c
    → connect now dials exits c ≡ some c'
    → IsTrying c'
unfolding connect finish_connect ended start_web_socket_connection close_web_socket
connect-IsTrying now dials exits c c' v e = ground (arith, v, e)

Step-IsTrying : {c c' : ConnectionManager} → Step c c' → IsTrying c → IsTrying c'
Step-IsTrying (Step.authenticated c) v = event-IsTrying c v
Step-IsTrying (Step.lost c d) v = lost-IsTrying c d v
Step-IsTrying (Step.tick now dials c) v = tick-IsTrying now dials c v
Step-IsTrying (Step.end now dials exits c c' e) v = connect-IsTrying now dials exits c c' v e

-- As long as no socket is closed before the hub has authenticated on it, an agent that is not connected
-- goes on trying, and its connection type says whether it is connected.
pub Reach-IsTrying : {c : ConnectionManager} → Reach c → IsTrying c
unfolding start
Reach-IsTrying (Reach.starts has_client) = (λ e. inl refl, refl, λ e. omega arith)
Reach-IsTrying (Reach.next reach step) = Step-IsTrying step (Reach-IsTrying reach)

-- A connected agent loses its socket, opens another, and the hub closes that one before it
-- authenticates: the event is passed over, and the agent stays disconnected with no ticker, no call of
-- `connect` and no socket.
pub gives_up :
    (c : ConnectionManager) (now : ℕ) (exits : Bool)
    → is_disconnected c.state ≡ false
    → is_running c.ws_ticker ≡ false
    → c.has_client ≡ true
    → c.is_connecting ≡ false
    → c.connects ≡ 0
    → is_recent now c.last_connect_attempt ≡ false
    → let lost = handle_event ConnectionEvent.web_socket_disconnect c in
      (c' : ConnectionManager) × (connect now true exits lost ≡ some c')
      × (let left = record (handle_event ConnectionEvent.web_socket_disconnect c') {
        awaiting = false;
      } in
          (is_disconnected left.state ≡ true) × ¬ Tries left)
unfolding handle_event handle_state_change connect finish_connect ended start_web_socket_connection
    close_web_socket
gives_up c now exits d r h i n t =
    let lost = handle_event ConnectionEvent.web_socket_disconnect c in
    let opened = (start_web_socket_connection now true lost).0 in
    (
      record opened { is_connecting = false; connects = 0 },
      ground (arith, d, h, i, n, t),
      (ground (arith, d, h, i, n, t), λ tries. ground (arith, d, r, h, i, n, t, tries)),
    )

-- An attempt opens a socket or fails only where the agent is disconnected and the last attempt is at
-- least five seconds old; any other attempt leaves the connection manager as it is.
pub attempt_apart :
    (now : ℕ) (dials : Bool) (c : ConnectionManager) (last : ℕ)
    → c.last_connect_attempt ≡ some last
    → let (c', attempt) = start_web_socket_connection now dials c in
      (c' ≡ c)
      ⊎ ((is_disconnected c.state ≡ true)
          × (last + five_seconds ≤ now)
          × (c'.last_connect_attempt ≡ some now))
unfolding start_web_socket_connection is_recent close_web_socket
attempt_apart now dials c last e = ground (arith, e)
