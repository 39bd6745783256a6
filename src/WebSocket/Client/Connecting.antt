-- ===== src/WebSocket/Client/Connecting.antt =====
-- The chain of the handlers that connect the WebSocket client.
use metro_network_monitor.Base.{◌≡◌, refl, List, [], ◌∷◌, Bool, true, false, Option, none, some}
use metro_network_monitor.WebSocket.{
  ErrorCode, success, aborted, closed_by_peer, failure, StreamEffect, connects_socket, shakes_tls,
  shakes_web_socket, reads, tells_connect, calls,
}
use metro_network_monitor.WebSocket.Client.{
  WebSocketClient, on_resolve, on_connect_socket, on_tls_handshake, on_handshake,
  listen_to_incoming_message,
}

-- The next operation of the chain is answered, if it is started.
abbrev goes_on : List StreamEffect → List StreamEffect → List StreamEffect
goes_on (connects_socket ∷ []) next = next
goes_on (shakes_tls ∷ []) next = next
goes_on (shakes_web_socket ∷ []) next = next
goes_on es next = es

-- What comes of `Connect` when its operations end with the codes, one after the other.
pub connecting : WebSocketClient → ErrorCode → ErrorCode → ErrorCode → ErrorCode → List StreamEffect
unfolding on_resolve on_connect_socket on_tls_handshake on_handshake
connecting c resolved connected_to tls shaken = goes_on (on_resolve c resolved) (
    goes_on (on_connect_socket c connected_to)
      (goes_on (on_tls_handshake c tls) (on_handshake c shaken)))

-- The first code of the list that is no success.
pub first_failure : List ErrorCode → Option ErrorCode
first_failure [] = none
first_failure (success ∷ es) = first_failure es
first_failure (aborted ∷ es) = some aborted
first_failure (closed_by_peer ∷ es) = some closed_by_peer
first_failure (failure n ∷ es) = some (failure n)

-- The user is told once how the connection went.
pub outcome_of : WebSocketClient → Option ErrorCode → List StreamEffect
outcome_of c none = reads ∷ calls c.on_connect (tells_connect success)
outcome_of c (some e) = calls c.on_connect (tells_connect e)

told-alone :
    (c : WebSocketClient) (e : ErrorCode) (next : List StreamEffect)
    → goes_on (calls c.on_connect (tells_connect e)) next ≡ calls c.on_connect (tells_connect e)
told-alone c e next = alone c.on_connect
  where
    alone : (set : Bool) → goes_on (calls set (tells_connect e)) next ≡ calls set (tells_connect e)
    alone true = refl
    alone false = refl

-- However the name resolution, the TCP connection, the TLS handshake and the WebSocket handshake end,
-- the user is told of the connection once if the callback is set: of the first failure, after which
-- nothing more is started, or of success, and then the client reads.
pub connecting-outcome_of :
    (c : WebSocketClient) (e1 e2 e3 e4 : ErrorCode)
    → connecting c e1 e2 e3 e4 ≡ outcome_of c (first_failure (e1 ∷ e2 ∷ e3 ∷ e4 ∷ []))
unfolding connecting first_failure outcome_of on_resolve on_connect_socket on_tls_handshake
    on_handshake listen_to_incoming_message
connecting-outcome_of c aborted e2 e3 e4 = told-alone c aborted _
connecting-outcome_of c closed_by_peer e2 e3 e4 = told-alone c closed_by_peer _
connecting-outcome_of c (failure n) e2 e3 e4 = told-alone c (failure n) _
connecting-outcome_of c success aborted e3 e4 = told-alone c aborted _
connecting-outcome_of c success closed_by_peer e3 e4 = told-alone c closed_by_peer _
connecting-outcome_of c success (failure n) e3 e4 = told-alone c (failure n) _
connecting-outcome_of c success success aborted e4 = told-alone c aborted _
connecting-outcome_of c success success closed_by_peer e4 = told-alone c closed_by_peer _
connecting-outcome_of c success success (failure n) e4 = told-alone c (failure n) _
connecting-outcome_of c success success success aborted = refl
connecting-outcome_of c success success success closed_by_peer = refl
connecting-outcome_of c success success success (failure n) = refl
connecting-outcome_of c success success success success = refl
