-- ===== src/Stomp/ClientErrors.antt =====
-- The errors of the STOMP client (include/stomp-client.h, src/stomp-client.cpp).
use metro_network_monitor.Base.{
  ℕ, ◌≡◌, refl, sym, ap, ◌∙◌, ◌↔◌, Bytes, bytes, Bool, true, List, [], ◌∷◌, none, some, ◌==◌, ==→eq,
  ==_refl, Eq, lookup, value_at,
}

-- `StompClientError`
pub data StompClientError : Type 0 where
  ok undefined_error could_not_close_web_socket_connection : StompClientError
  could_not_connect_to_web_socket_server could_not_parse_message_as_stomp_frame : StompClientError
  could_not_send_message could_not_send_stomp_frame : StompClientError
  could_not_send_subscribe_frame unexpected_could_not_create_valid_frame : StompClientError
  unexpected_message_content_type unexpected_subscription_mismatch : StompClientError
  web_socket_server_disconnected : StompClientError

-- The value of the enumerator.
abbrev pub client_error_value : StompClientError → ℕ
client_error_value ok = 0
client_error_value undefined_error = 1
client_error_value could_not_close_web_socket_connection = 2
client_error_value could_not_connect_to_web_socket_server = 3
client_error_value could_not_parse_message_as_stomp_frame = 4
client_error_value could_not_send_message = 5
client_error_value could_not_send_stomp_frame = 6
client_error_value could_not_send_subscribe_frame = 7
client_error_value unexpected_could_not_create_valid_frame = 8
client_error_value unexpected_message_content_type = 9
client_error_value unexpected_subscription_mismatch = 10
client_error_value web_socket_server_disconnected = 11

client_error_of_value : ℕ → StompClientError
client_error_of_value n =
    value_at ok
      (ok ∷ undefined_error ∷ could_not_close_web_socket_connection
        ∷ could_not_connect_to_web_socket_server ∷ could_not_parse_message_as_stomp_frame
        ∷ could_not_send_message ∷ could_not_send_stomp_frame ∷ could_not_send_subscribe_frame
        ∷ unexpected_could_not_create_valid_frame ∷ unexpected_message_content_type
        ∷ unexpected_subscription_mismatch ∷ web_socket_server_disconnected ∷ [])
      n

client_error_of_value-client_error_value :
    (x : StompClientError) → client_error_of_value (client_error_value x) ≡ x
unfolding client_error_of_value value_at
client_error_of_value-client_error_value ok = refl
client_error_of_value-client_error_value undefined_error = refl
client_error_of_value-client_error_value could_not_close_web_socket_connection = refl
client_error_of_value-client_error_value could_not_connect_to_web_socket_server = refl
client_error_of_value-client_error_value could_not_parse_message_as_stomp_frame = refl
client_error_of_value-client_error_value could_not_send_message = refl
client_error_of_value-client_error_value could_not_send_stomp_frame = refl
client_error_of_value-client_error_value could_not_send_subscribe_frame = refl
client_error_of_value-client_error_value unexpected_could_not_create_valid_frame = refl
client_error_of_value-client_error_value unexpected_message_content_type = refl
client_error_of_value-client_error_value unexpected_subscription_mismatch = refl
client_error_of_value-client_error_value web_socket_server_disconnected = refl

abbrev pub eq_client_error : StompClientError → StompClientError → Bool
eq_client_error x y = client_error_value x == client_error_value y

pub eq_client_error_iff : (x y : StompClientError) → (eq_client_error x y ≡ true) ↔ (x ≡ y)
eq_client_error_iff x y = (
  λ h.
      sym (client_error_of_value-client_error_value x)
      ∙ (ap client_error_of_value (==→eq (client_error_value x) (client_error_value y) h)
          ∙ client_error_of_value-client_error_value y),
  λ e. rw e (==_refl (client_error_value y)),
)

instance abbrev pub client_error_eq : Eq StompClientError
client_error_eq = record { beq = eq_client_error; beq_iff = eq_client_error_iff }

-- `gStompClientErrorStrings`
abbrev pub client_error_strings : List (StompClientError × Bytes)
client_error_strings =
    (ok, bytes "Ok")
    ∷ (undefined_error, bytes "UndefinedError")
    ∷ (could_not_close_web_socket_connection, bytes "CouldNotCloseWebSocketConnection")
    ∷ (could_not_connect_to_web_socket_server, bytes "CouldNotConnectToWebSocketServer")
    ∷ (could_not_parse_message_as_stomp_frame, bytes "CouldNotParseMessageAsStompFrame")
    ∷ (could_not_send_message, bytes "CouldNotSendMessage")
    ∷ (could_not_send_stomp_frame, bytes "CouldNotSendStompFrame")
    ∷ (could_not_send_subscribe_frame, bytes "CouldNotSendSubscribeFrame")
    ∷ (unexpected_could_not_create_valid_frame, bytes "UnexpectedCouldNotCreateValidFrame")
    ∷ (unexpected_message_content_type, bytes "UnexpectedMessageContentType")
    ∷ (unexpected_subscription_mismatch, bytes "UnexpectedSubscriptionMismatch")
    ∷ (web_socket_server_disconnected, bytes "WebSocketServerDisconnected")
    ∷ []

-- `ToString(StompClientError)`
unfoldable pub client_error_to_string : StompClientError → Bytes
unfolding lookup
client_error_to_string x = elim (lookup x client_error_strings) [
  | none ↦ bytes "UndefinedError"
  | some s ↦ s
]
