-- ===== src/Agent/Connection/Examples.antt =====
-- One agent and its hub: the theorems on the connection at concrete states.
use homemonit.Base.{true, false, ◌≡◌, refl, some}
use homemonit.Agent.Connection.{
  ConnectionState, ConnectionEvent, ConnectionType, Ticker, ConnectionManager, is_disconnected,
  handle_event, start_web_socket_connection, connect, start, is_recent,
}
use homemonit.Agent.Connection.Trying.{Tries, IsTrying, Step, Reach, Reach-IsTrying, gives_up}

abbrev connected : ConnectionManager
connected = record {
  state = ConnectionState.web_socket_connected;
  ws_ticker = Ticker.stopped;
  is_connecting = false;
  connection_type = ConnectionType.type_web_socket;
  has_client = true;
  last_connect_attempt = some 7;
  connects = 0;
  awaiting = false;
  closes = 1;
}

Reach-IsTrying_example : IsTrying (start_web_socket_connection 20 true (start true)).0
Reach-IsTrying_example =
    Reach-IsTrying (Reach.next (Reach.starts true) (Step.tick 20 true (start true)))

gives_up_example :
    let lost = handle_event ConnectionEvent.web_socket_disconnect connected in
    (c' : ConnectionManager) × (connect 60_000_000_000 true false lost ≡ some c')
    × (let left = record (handle_event ConnectionEvent.web_socket_disconnect c') {
      awaiting = false;
    } in
        (is_disconnected left.state ≡ true) × ¬ Tries left)
unfolding is_recent
gives_up_example = gives_up connected 60_000_000_000 false refl refl refl refl refl refl
