-- ===== src/Stomp/Client/Handlers.antt =====
-- The handlers of the WebSocket client's callbacks, in the order of include/stomp-client.h.
use metro_network_monitor.Base.{
  Bytes, bytes, List, [], ◌∷◌, Bool, true, false, none, some, eq_bytes, if◌then◌else◌, lookup,
  insert, bytes_eq,
}
use metro_network_monitor.Network.Types.{returns, ◌>>=◌}
use metro_network_monitor.Stomp.Commands.{
  StompCommand, connected, error, message, receipt, send, stomp,
}
use metro_network_monitor.Stomp.Headers.{
  accept_version_header, destination_header, host_header, login_header, passcode_header,
  receipt_id_header, subscription_header,
}
use metro_network_monitor.Stomp.Errors.{StompError, eq_error}
use metro_network_monitor.Stomp.Errors
use metro_network_monitor.Stomp.ClientErrors.{
  StompClientError, ok, could_not_close_web_socket_connection,
  could_not_connect_to_web_socket_server, could_not_parse_message_as_stomp_frame,
  could_not_send_message, could_not_send_stomp_frame, could_not_send_subscribe_frame,
  unexpected_could_not_create_valid_frame, unexpected_subscription_mismatch,
  web_socket_server_disconnected,
}
use metro_network_monitor.Stomp.Parse.{Headers}
use metro_network_monitor.Stomp.Frame.{Frame, get_header_value, frame_of_text, frame_of_parts}
use metro_network_monitor.Stomp.Compose.{HeaderOrder}
use metro_network_monitor.Stomp.Client.{
  Subscription, Client, ClientEffect, ws_send_stomp, connect_done, message_received, disconnected,
  close_done, send_done, subscribe_done, subscription_message, ClientHandled,
}

-- A callback that is posted if it is set.
abbrev pub tells : Bool → ClientEffect → List ClientEffect
tells set effect = if set then effect ∷ [] else []

-- The status of a failed or a successful call.
abbrev pub client_error_if : Bool → StompClientError → StompClientError
client_error_if failed e = if failed then e else ok

abbrev pub stomp_headers : Client → Headers
stomp_headers s =
    (accept_version_header, bytes "1.2")
    ∷ (host_header, s.url)
    ∷ (login_header, s.username)
    ∷ (passcode_header, s.password)
    ∷ []

-- `failed` says whether the error code is set.
unfoldable pub on_ws_connect : HeaderOrder → Client → Bool → ClientHandled
on_ws_connect o s true =
    returns (s, tells s.on_connect (connect_done could_not_connect_to_web_socket_server))
on_ws_connect o s false = frame_of_parts stomp (o.order (stomp_headers s)) [] >>= λ (e, f).
    elim (eq_error e Errors.ok) [
      | false ↦
          returns (s, tells s.on_connect (connect_done unexpected_could_not_create_valid_frame))
      | true ↦ returns (s, ws_send_stomp f.plain ∷ [])
    ]

unfoldable pub on_ws_send_stomp : Client → Bool → Client × List ClientEffect
on_ws_send_stomp s failed =
    (s, if failed then tells s.on_connect (connect_done could_not_send_stomp_frame) else [])

-- `emplace`: an entry that is there stays.
abbrev pub emplace :
    Bytes → Subscription → List (Bytes × Subscription) → List (Bytes × Subscription)
emplace id sub m = elim (lookup id m) [ none ↦ insert id sub m | some old ↦ m ]

unfoldable pub on_ws_send_subscribe :
    Client → Bool → Bytes → Subscription → Client × List ClientEffect
on_ws_send_subscribe s false id sub =
    (record s { subscriptions = emplace id sub s.subscriptions }, [])
on_ws_send_subscribe s true id sub =
    (s, tells sub.on_subscribe (subscribe_done id could_not_send_subscribe_frame []))

unfoldable pub handle_connected : Client → Client × List ClientEffect
handle_connected s = (s, tells s.on_connect (connect_done ok))

-- Nothing but a line in the log.
unfoldable pub handle_error : Client → Client × List ClientEffect
handle_error s = (s, [])

unfoldable pub handle_subscription_message : Client → Frame → Client × List ClientEffect
handle_subscription_message s f =
    let id = get_header_value f.headers subscription_header in
    elim (lookup id s.subscriptions) [
      | none ↦ (s, [])
      | some sub ↦ elim (eq_bytes (get_header_value f.headers destination_header) sub.destination) [
        | false ↦
            (s, tells sub.on_message (subscription_message id unexpected_subscription_mismatch []))
        | true ↦ (s, tells sub.on_message (subscription_message id ok f.body))
      ]
    ]

unfoldable pub handle_subscription_receipt : Client → Frame → Client × List ClientEffect
handle_subscription_receipt s f =
    let id = get_header_value f.headers receipt_id_header in
    elim (lookup id s.subscriptions) [
      | none ↦ (s, [])
      | some sub ↦ (s, tells sub.on_subscribe (subscribe_done id ok id))
    ]

unfoldable pub handle_server_message : Client → Frame → Client × List ClientEffect
handle_server_message s f = (
  s,
  tells s.on_message (message_received ok (get_header_value f.headers destination_header) f.body),
)

-- The `switch` over the command.
unfoldable pub handle_frame : Client → Frame → StompCommand → Client × List ClientEffect
unfolding handle_connected handle_error handle_subscription_message handle_subscription_receipt
    handle_server_message
handle_frame s f connected = handle_connected s
handle_frame s f error = handle_error s
handle_frame s f message = handle_subscription_message s f
handle_frame s f receipt = handle_subscription_receipt s f
handle_frame s f send = handle_server_message s f
handle_frame s f _ = (s, [])

-- The error code is not looked at.
unfoldable pub on_ws_message : Client → Bool → Bytes → ClientHandled
unfolding handle_frame
on_ws_message s failed msg = frame_of_text msg >>= λ (e, f). elim (eq_error e Errors.ok) [
  | false ↦ returns (s, tells s.on_connect (connect_done could_not_parse_message_as_stomp_frame))
  | true ↦ returns (handle_frame s f f.command)
]

unfoldable pub on_ws_client_disconnect : Client → Bool → Client × List ClientEffect
on_ws_client_disconnect s failed = (
  s,
  tells s.on_disconnect (disconnected (client_error_if failed web_socket_server_disconnected)),
)

unfoldable pub on_ws_close : Client → Bool → Bool → Client × List ClientEffect
on_ws_close s failed on_close =
    (s, tells on_close (close_done (client_error_if failed could_not_close_web_socket_connection)))

-- The callback that `Send` gives to the WebSocket client.
unfoldable pub on_client_sent : Bool → Bytes → List ClientEffect
on_client_sent failed request_id =
    send_done (client_error_if failed could_not_send_message) request_id ∷ []
