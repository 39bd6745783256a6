-- ===== src/Examples/Streams.antt =====
-- A WebSocket client and a session with their theorems.
use metro_network_monitor.Base.{
  bytes, ◌≡◌, refl, Bytes, List, [], ◌∷◌, ◌++◌, true, false, not, ◌&&◌,
}
use metro_network_monitor.WebSocket.{
  ErrorCode, success, closed_by_peer, failure, tells_disconnect, calls,
}
use metro_network_monitor.WebSocket.Reads.{messages}
use metro_network_monitor.WebSocket.Client.{WebSocketClient}
use metro_network_monitor.WebSocket.Client.Connecting.{
  connecting, first_failure, outcome_of, connecting-outcome_of,
}
use metro_network_monitor.WebSocket.Session.{WebSocketSession}
use metro_network_monitor.WebSocket.Session.Reading.{session_reading, session_reading-messages}

abbrev stream_client : WebSocketClient
stream_client = record {
  closed = false;
  on_connect = true;
  on_message = true;
  on_disconnect = true;
}

abbrev stream_session : WebSocketSession
stream_session = record {
  closed = false;
  on_connect = true;
  on_message = true;
  on_disconnect = true;
}

abbrev one_then_closed : List (ErrorCode × Bytes)
one_then_closed = (success, bytes "hi") ∷ (closed_by_peer, []) ∷ []

abbrev one_message : List (ErrorCode × Bytes)
one_message = (success, bytes "hi") ∷ []

connecting-outcome_of_example :
    connecting stream_client success success (failure 1) success
    ≡ outcome_of stream_client (first_failure (success ∷ success ∷ failure 1 ∷ success ∷ []))
connecting-outcome_of_example =
    connecting-outcome_of stream_client success success (failure 1) success

session_reading-messages_example :
    session_reading stream_session (one_message ++ ((closed_by_peer, []) ∷ []))
    ≡ messages true one_message ++ calls (true && not false) (tells_disconnect closed_by_peer)
session_reading-messages_example =
    session_reading-messages stream_session one_message [] closed_by_peer [] (refl, tt) refl
