-- ===== src/Stomp/ServerErrors.antt =====
-- The errors of the STOMP server (include/stomp-server.h, src/stomp-server.cpp).
use metro_network_monitor.Base.{
  ℕ, ◌≡◌, refl, sym, ap, ◌∙◌, ◌↔◌, Bytes, bytes, Bool, true, List, [], ◌∷◌, none, some, ◌==◌, ==→eq,
  ==_refl, Eq, lookup, value_at,
}

-- `StompServerError`
pub data StompServerError : Type 0 where
  ok undefined_error client_cannot_reconnect could_not_close_client_connection : StompServerError
  could_not_parse_frame could_not_send_message could_not_start_web_socket_server : StompServerError
  invalid_header_value_accept_version invalid_header_value_host : StompServerError
  unsupported_frame web_socket_session_disconnected : StompServerError
  web_socket_server_disconnected : StompServerError

-- The value of the enumerator.
abbrev pub server_error_value : StompServerError → ℕ
server_error_value ok = 0
server_error_value undefined_error = 1
server_error_value client_cannot_reconnect = 2
server_error_value could_not_close_client_connection = 3
server_error_value could_not_parse_frame = 4
server_error_value could_not_send_message = 5
server_error_value could_not_start_web_socket_server = 6
server_error_value invalid_header_value_accept_version = 7
server_error_value invalid_header_value_host = 8
server_error_value unsupported_frame = 9
server_error_value web_socket_session_disconnected = 10
server_error_value web_socket_server_disconnected = 11

server_error_of_value : ℕ → StompServerError
server_error_of_value n =
    value_at ok
      (ok ∷ undefined_error ∷ client_cannot_reconnect ∷ could_not_close_client_connection
        ∷ could_not_parse_frame ∷ could_not_send_message ∷ could_not_start_web_socket_server
        ∷ invalid_header_value_accept_version ∷ invalid_header_value_host ∷ unsupported_frame
        ∷ web_socket_session_disconnected ∷ web_socket_server_disconnected ∷ [])
      n

server_error_of_value-server_error_value :
    (x : StompServerError) → server_error_of_value (server_error_value x) ≡ x
unfolding server_error_of_value value_at
server_error_of_value-server_error_value ok = refl
server_error_of_value-server_error_value undefined_error = refl
server_error_of_value-server_error_value client_cannot_reconnect = refl
server_error_of_value-server_error_value could_not_close_client_connection = refl
server_error_of_value-server_error_value could_not_parse_frame = refl
server_error_of_value-server_error_value could_not_send_message = refl
server_error_of_value-server_error_value could_not_start_web_socket_server = refl
server_error_of_value-server_error_value invalid_header_value_accept_version = refl
server_error_of_value-server_error_value invalid_header_value_host = refl
server_error_of_value-server_error_value unsupported_frame = refl
server_error_of_value-server_error_value web_socket_session_disconnected = refl
server_error_of_value-server_error_value web_socket_server_disconnected = refl

abbrev pub eq_server_error : StompServerError → StompServerError → Bool
eq_server_error x y = server_error_value x == server_error_value y

pub eq_server_error_iff : (x y : StompServerError) → (eq_server_error x y ≡ true) ↔ (x ≡ y)
eq_server_error_iff x y = (
  λ h.
      sym (server_error_of_value-server_error_value x)
      ∙ (ap server_error_of_value (==→eq (server_error_value x) (server_error_value y) h)
          ∙ server_error_of_value-server_error_value y),
  λ e. rw e (==_refl (server_error_value y)),
)

instance abbrev pub server_error_eq : Eq StompServerError
server_error_eq = record { beq = eq_server_error; beq_iff = eq_server_error_iff }

-- `gStompServerErrorStrings`
abbrev pub server_error_strings : List (StompServerError × Bytes)
server_error_strings =
    (ok, bytes "Ok")
    ∷ (undefined_error, bytes "UndefinedError")
    ∷ (client_cannot_reconnect, bytes "ClientCannotReconnect")
    ∷ (could_not_close_client_connection, bytes "CouldNotCloseClientConnection")
    ∷ (could_not_parse_frame, bytes "CouldNotParseFrame")
    ∷ (could_not_send_message, bytes "CouldNotSendMessage")
    ∷ (could_not_start_web_socket_server, bytes "CouldNotStartWebSocketServer")
    ∷ (invalid_header_value_accept_version, bytes "InvalidHeaderValueAcceptVersion")
    ∷ (invalid_header_value_host, bytes "InvalidHeaderValueHost")
    ∷ (unsupported_frame, bytes "UnsupportedFrame")
    ∷ (web_socket_session_disconnected, bytes "WebSocketSessionDisconnected")
    ∷ (web_socket_server_disconnected, bytes "WebSocketServerDisconnected")
    ∷ []

-- `ToString(StompServerError)`
unfoldable pub server_error_to_string : StompServerError → Bytes
unfolding lookup
server_error_to_string x = elim (lookup x server_error_strings) [
  | none ↦ bytes "UndefinedError"
  | some s ↦ s
]
