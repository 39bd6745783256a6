-- ===== src/Stomp/Server/Requests.antt =====
-- What the user asks of the server: `Run`, `Send`, `Close` and `Stop`.
use metro_network_monitor.Base.{
  ℕ, suc, Bytes, bytes, List, [], ◌∷◌, Bool, true, false, Option, none, some, map, length, lookup,
  nat_eq, bytes_eq,
}
use metro_network_monitor.Network.Types.{Outcome, returns, ◌>>=◌}
use metro_network_monitor.Stomp.Commands.{send}
use metro_network_monitor.Stomp.Headers.{
  content_length_header, content_type_header, destination_header, id_header,
}
use metro_network_monitor.Stomp.Errors.{ok, eq_error}
use metro_network_monitor.Stomp.ServerErrors.{
  StompServerError, undefined_error, could_not_close_client_connection, could_not_send_message,
  could_not_start_web_socket_server,
}
use metro_network_monitor.Stomp.Parse.{Headers}
use metro_network_monitor.Stomp.Frame.{frame_of_parts}
use metro_network_monitor.Stomp.Decimal.{to_string}
use metro_network_monitor.Stomp.Compose.{HeaderOrder}
use metro_network_monitor.Stomp.Server.{
  Connection, Server, Effect, ws_run, ws_stop, ws_send, ws_send_for, ws_close, send_done,
  close_done, Handled,
}
use metro_network_monitor.Stomp.Server.Handlers.{
  close_session, error_if, is_connected, close_connection,
}

-- `Run`, with the callbacks that are set; `failed` says whether the WebSocket server did not start.
unfoldable pub run :
    Server → Bool → Bool → Bool → Bool → Bool → StompServerError × (Server × List Effect)
run s connect message disconnect stopped failed = (
  error_if failed could_not_start_web_socket_server,
  (
    record s {
      on_client_connect = connect;
      on_client_message = message;
      on_client_disconnect = disconnect;
      on_disconnect = stopped;
    },
    ws_run ∷ [],
  ),
)

-- `Send` returns the request ID, which is empty when nothing is sent.
abbrev pub Sent : Type 0
Sent = Outcome (Bytes × (Server × List Effect))

abbrev pub send_headers : Bytes → Bytes → Bytes → Headers
send_headers request_id destination content =
    (id_header, request_id)
    ∷ (destination_header, destination)
    ∷ (content_type_header, bytes "application/json")
    ∷ (content_length_header, to_string (length content))
    ∷ []

-- `Send` with the callback `onSend` for the request if it is set.
abbrev pub send_text : ℕ → Bytes → Bytes → Bool → Effect
send_text ws text request_id false = ws_send ws text
send_text ws text request_id true = ws_send_for ws text request_id

-- `userRequestId.empty() ? GenerateId() : userRequestId`
abbrev pub request_id_of : (ℕ → Bytes) → Server → Bytes → Bytes × Server
request_id_of generate_id s [] = (generate_id s.generated, record s { generated = suc s.generated })
request_id_of generate_id s (c ∷ cs) = (c ∷ cs, s)

-- The callback of the user, with the ID of the connection, if it is set.
abbrev pub close_callback : Bool → Bytes → Option Bytes
close_callback false id = none
close_callback true id = some id

module _ (o : HeaderOrder) where
  -- The part of `Send` below the checks.
  unfoldable pub send_frame : Server → ℕ → Bytes → Bytes → Bytes → Bool → Sent
  send_frame s ws request_id destination content on_send =
      frame_of_parts send (o.order (send_headers request_id destination content)) content
      >>= λ (e, f). elim (eq_error e ok) [
        | false ↦ returns ([], (s, []))
        | true ↦ returns (request_id, (s, send_text ws f.plain request_id on_send ∷ []))
      ]

  unfoldable pub send_to : (ℕ → Bytes) → Server → Bytes → Bytes → Bytes → Bool → Bytes → Sent
  unfolding send_frame
  send_to generate_id s connection_id destination content on_send user_request_id =
      elim (lookup connection_id s.sessions) [
        | none ↦ returns ([], (s, []))
        | some ws ↦ elim (lookup ws s.connections) [
          | none ↦ returns ([], (s, ws_close ws ∷ []))
          | some c ↦ elim (is_connected c.status) [
            | false ↦ returns ([], (s, []))
            | true ↦
                let (request_id, s') = request_id_of generate_id s user_request_id in
                send_frame s' ws request_id destination content on_send
          ]
        ]
      ]

  unfoldable pub close : Server → Bytes → Bool → Handled
  unfolding close_connection
  close s connection_id on_client_close = elim (lookup connection_id s.sessions) [
    | none ↦ returns (s, [])
    | some ws ↦ elim (lookup ws s.connections) [
      | none ↦ returns (s, close_session ws (close_callback on_client_close connection_id) ∷ [])
      | some c ↦
          close_connection o s c.id ws undefined_error
            (close_callback on_client_close connection_id)
    ]
  ]

-- `Stop`: every session that has a connection is closed.
unfoldable pub stop : Server → Server × List Effect
stop s = (
  record s { connections = []; sessions = [] },
  ws_stop ∷ map (λ (entry : ℕ × Connection). ws_close entry.0) s.connections,
)

-- The callbacks that `Send` and `Close` give to a session.
unfoldable pub on_sent : Bool → Bytes → List Effect
on_sent failed request_id = send_done (error_if failed could_not_send_message) request_id ∷ []

unfoldable pub on_closed : Bool → Bytes → List Effect
on_closed failed connection_id =
    close_done (error_if failed could_not_close_client_connection) connection_id ∷ []
