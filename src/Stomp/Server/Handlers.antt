-- ===== src/Stomp/Server/Handlers.antt =====
-- The handlers of the WebSocket server's callbacks, in the order of include/stomp-server.h.
use metro_network_monitor.Base.{
  ℕ, suc, Bytes, bytes, List, [], ◌∷◌, Bool, true, false, Option, none, some, eq_bytes,
  if◌then◌else◌, lookup, insert, erase, nat_eq, bytes_eq,
}
use metro_network_monitor.Network.Types.{Outcome, returns, ◌>>=◌}
use metro_network_monitor.Stomp.Commands.{StompCommand, connected, error, send, stomp}
use metro_network_monitor.Stomp.Headers.{
  accept_version_header, content_type_header, destination_header, host_header, id_header,
  session_header, version_header,
}
use metro_network_monitor.Stomp.Errors.{ok, eq_error}
use metro_network_monitor.Stomp.ServerErrors.{
  StompServerError, undefined_error, client_cannot_reconnect, could_not_parse_frame,
  invalid_header_value_accept_version, invalid_header_value_host, unsupported_frame,
  web_socket_session_disconnected, web_socket_server_disconnected, eq_server_error,
  server_error_to_string,
}
use metro_network_monitor.Stomp.ServerErrors
use metro_network_monitor.Stomp.Parse.{Headers}
use metro_network_monitor.Stomp.Frame.{Frame, get_header_value, frame_of_text, frame_of_parts}
use metro_network_monitor.Stomp.Compose.{HeaderOrder}
use metro_network_monitor.Stomp.Server.{
  ConnectionStatus, invalid_status, pending, connected_status, Connection, version, Server, Effect,
  ws_send, ws_close, ws_close_for, client_connected, client_message, client_disconnected,
  server_disconnected, Handled,
}

-- `Close` of a session, with the callback for the user if there is one.
abbrev pub close_session : ℕ → Option Bytes → Effect
close_session ws none = ws_close ws
close_session ws (some id) = ws_close_for ws id

-- The status of a failed or a successful call.
abbrev pub error_if : Bool → StompServerError → StompServerError
error_if failed e = if failed then e else ServerErrors.ok

-- `sessions_.erase(connection.id)` and `connections_.erase(wsSession)`
unfoldable pub forget : Server → Bytes → ℕ → Server
forget s id ws = record s { sessions = erase id s.sessions; connections = erase ws s.connections }

-- `connection.status = ConnectionStatus::kConnected`
unfoldable pub set_connected : Server → ℕ → Bytes → Server
set_connected s ws id = record s {
  connections = insert ws (record { id = id; status = connected_status }) s.connections;
}

-- A callback that is posted if it is set.
abbrev pub posts : Bool → Effect → List Effect
posts set effect = if set then effect ∷ [] else []

abbrev pub is_pending : ConnectionStatus → Bool
is_pending invalid_status = false
is_pending pending = true
is_pending connected_status = false

abbrev pub is_connected : ConnectionStatus → Bool
is_connected invalid_status = false
is_connected pending = false
is_connected connected_status = true

abbrev pub error_headers : Headers
error_headers = (content_type_header, bytes "text/plain") ∷ (version_header, version) ∷ []

abbrev pub connected_headers : Bytes → Headers
connected_headers id = (version_header, bytes "1.2") ∷ (session_header, id) ∷ []

module _ (o : HeaderOrder) where
  -- `MakeErrorFrame(...).ToString()`
  unfoldable pub make_error_frame : StompServerError → Outcome Bytes
  make_error_frame e =
      frame_of_parts error (o.order error_headers) (server_error_to_string e) >>= λ (_, f).
      returns f.plain

  -- The error frame is always made for `kUnsupportedFrame`.
  unfoldable pub close_connection : Server → Bytes → ℕ → StompServerError → Option Bytes → Handled
  unfolding forget make_error_frame
  close_connection s id ws e on_close = elim (eq_server_error e undefined_error) [
    | true ↦ returns (forget s id ws, close_session ws on_close ∷ [])
    | false ↦ make_error_frame unsupported_frame >>= λ text.
        returns (forget s id ws, ws_send ws text ∷ close_session ws on_close ∷ [])
  ]

  -- The part of `HandleStomp` below the checks.
  unfoldable pub accept_client : Server → ℕ → Bytes → Handled
  unfolding set_connected
  accept_client s ws id =
      let s' = set_connected s ws id in
      frame_of_parts connected (o.order (connected_headers id)) [] >>= λ (e, f).
      elim (eq_error e ok) [
        | false ↦ returns (s', [])
        | true ↦ returns (
          s',
          ws_send ws f.plain ∷ posts s.on_client_connect (client_connected ServerErrors.ok id),
        )
      ]

  unfoldable pub handle_stomp : Server → ℕ → Connection → Frame → Handled
  unfolding close_connection accept_client
  handle_stomp s ws c f =
      elim (eq_bytes (get_header_value f.headers accept_version_header) version) [
        | false ↦ close_connection s c.id ws invalid_header_value_accept_version none
        | true ↦ elim (eq_bytes (get_header_value f.headers host_header) s.host) [
          | false ↦ close_connection s c.id ws invalid_header_value_host none
          | true ↦ elim (is_pending c.status) [
            | false ↦ close_connection s c.id ws client_cannot_reconnect none
            | true ↦ accept_client s ws c.id
          ]
        ]
      ]

  unfoldable pub handle_send : Server → ℕ → Connection → Frame → Handled
  unfolding close_connection
  handle_send s ws c f = elim (is_connected c.status) [
    | false ↦ close_connection s c.id ws undefined_error none
    | true ↦ returns (
      s,
      posts s.on_client_message (
          client_message ServerErrors.ok c.id (get_header_value f.headers destination_header)
            (get_header_value f.headers id_header) f.body),
    )
  ]

  -- The `switch` over the command.
  unfoldable pub dispatch : Server → ℕ → Connection → Frame → StompCommand → Handled
  unfolding handle_stomp handle_send close_connection
  dispatch s ws c f stomp = handle_stomp s ws c f
  dispatch s ws c f send = handle_send s ws c f
  dispatch s ws c f _ = close_connection s c.id ws unsupported_frame none

  unfoldable pub handle_message : Server → ℕ → Connection → Bytes → Handled
  unfolding dispatch close_connection
  handle_message s ws c msg = frame_of_text msg >>= λ (e, f). elim (eq_error e ok) [
    | false ↦ close_connection s c.id ws could_not_parse_frame none
    | true ↦ dispatch s ws c f f.command
  ]

  -- `failed` says whether the error code is set.
  unfoldable pub on_ws_session_message : Server → Bool → ℕ → Bytes → Handled
  unfolding handle_message
  on_ws_session_message s failed ws msg = elim (lookup ws s.connections) [
    | none ↦ returns (s, ws_close ws ∷ [])
    | some c ↦ elim failed [ true ↦ returns (s, []) | false ↦ handle_message s ws c msg ]
  ]

-- The new connection is pending, under an ID from the generator.
unfoldable pub begin_connection : (ℕ → Bytes) → Server → ℕ → Server
begin_connection generate_id s ws =
    let id = generate_id s.generated in
    record s {
      sessions = insert id ws s.sessions;
      connections = insert ws (record { id = id; status = pending }) s.connections;
      generated = suc s.generated;
    }

unfoldable pub on_ws_session_connect : (ℕ → Bytes) → Server → Bool → ℕ → Server × List Effect
unfolding begin_connection
on_ws_session_connect generate_id s true ws = (s, ws_close ws ∷ [])
on_ws_session_connect generate_id s false ws = (begin_connection generate_id s ws, [])

unfoldable pub on_ws_session_disconnect : Server → Bool → ℕ → Server × List Effect
unfolding forget
on_ws_session_disconnect s failed ws = elim (lookup ws s.connections) [
  | none ↦ (s, [])
  | some c ↦ (
    forget s c.id ws,
    elim (is_connected c.status) [
      | false ↦ []
      | true ↦
          posts s.on_client_disconnect
            (client_disconnected (error_if failed web_socket_session_disconnected) c.id)
    ],
  )
]

unfoldable pub on_ws_disconnect : Server → Bool → Server × List Effect
on_ws_disconnect s failed = (
  s,
  posts s.on_disconnect (server_disconnected (error_if failed web_socket_server_disconnected)),
)
