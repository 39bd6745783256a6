-- ===== src/Monitor.antt =====
-- The errors of the network monitor (include/network-monitor.h, src/network-monitor.cpp).
pub mod State
pub mod Handlers
pub mod Configure
pub mod Callbacks
pub mod Networks
pub mod Replies
pub mod Events
pub mod Subscribing
use metro_network_monitor.Base.{
  ℕ, ◌≡◌, refl, sym, ap, ◌∙◌, ◌↔◌, Bytes, bytes, Bool, true, List, [], ◌∷◌, none, some, ◌==◌, ==→eq,
  ==_refl, Eq, lookup, value_at,
}

-- `NetworkMonitorError`
pub data NetworkMonitorError : Type 0 where
  ok undefined_error could_not_connect_to_stomp_client : NetworkMonitorError
  could_not_parse_passenger_event could_not_parse_quiet_route_request : NetworkMonitorError
  could_not_record_passenger_event could_not_start_stomp_server : NetworkMonitorError
  could_not_subscribe_to_passenger_events failed_network_layout_file_download : NetworkMonitorError
  failed_network_layout_file_parsing failed_transport_network_construction : NetworkMonitorError
  missing_ca_cert_file missing_network_layout_file stomp_client_disconnected : NetworkMonitorError
  stomp_server_client_disconnected stomp_server_disconnected : NetworkMonitorError

-- The value of the enumerator.
abbrev pub monitor_error_value : NetworkMonitorError → ℕ
monitor_error_value ok = 0
monitor_error_value undefined_error = 1
monitor_error_value could_not_connect_to_stomp_client = 2
monitor_error_value could_not_parse_passenger_event = 3
monitor_error_value could_not_parse_quiet_route_request = 4
monitor_error_value could_not_record_passenger_event = 5
monitor_error_value could_not_start_stomp_server = 6
monitor_error_value could_not_subscribe_to_passenger_events = 7
monitor_error_value failed_network_layout_file_download = 8
monitor_error_value failed_network_layout_file_parsing = 9
monitor_error_value failed_transport_network_construction = 10
monitor_error_value missing_ca_cert_file = 11
monitor_error_value missing_network_layout_file = 12
monitor_error_value stomp_client_disconnected = 13
monitor_error_value stomp_server_client_disconnected = 14
monitor_error_value stomp_server_disconnected = 15

monitor_error_of_value : ℕ → NetworkMonitorError
monitor_error_of_value n =
    value_at ok
      (ok ∷ undefined_error ∷ could_not_connect_to_stomp_client ∷ could_not_parse_passenger_event
        ∷ could_not_parse_quiet_route_request ∷ could_not_record_passenger_event
        ∷ could_not_start_stomp_server ∷ could_not_subscribe_to_passenger_events
        ∷ failed_network_layout_file_download ∷ failed_network_layout_file_parsing
        ∷ failed_transport_network_construction ∷ missing_ca_cert_file ∷ missing_network_layout_file
        ∷ stomp_client_disconnected ∷ stomp_server_client_disconnected ∷ stomp_server_disconnected
        ∷ [])
      n

monitor_error_of_value-monitor_error_value :
    (x : NetworkMonitorError) → monitor_error_of_value (monitor_error_value x) ≡ x
unfolding monitor_error_of_value value_at
monitor_error_of_value-monitor_error_value ok = refl
monitor_error_of_value-monitor_error_value undefined_error = refl
monitor_error_of_value-monitor_error_value could_not_connect_to_stomp_client = refl
monitor_error_of_value-monitor_error_value could_not_parse_passenger_event = refl
monitor_error_of_value-monitor_error_value could_not_parse_quiet_route_request = refl
monitor_error_of_value-monitor_error_value could_not_record_passenger_event = refl
monitor_error_of_value-monitor_error_value could_not_start_stomp_server = refl
monitor_error_of_value-monitor_error_value could_not_subscribe_to_passenger_events = refl
monitor_error_of_value-monitor_error_value failed_network_layout_file_download = refl
monitor_error_of_value-monitor_error_value failed_network_layout_file_parsing = refl
monitor_error_of_value-monitor_error_value failed_transport_network_construction = refl
monitor_error_of_value-monitor_error_value missing_ca_cert_file = refl
monitor_error_of_value-monitor_error_value missing_network_layout_file = refl
monitor_error_of_value-monitor_error_value stomp_client_disconnected = refl
monitor_error_of_value-monitor_error_value stomp_server_client_disconnected = refl
monitor_error_of_value-monitor_error_value stomp_server_disconnected = refl

abbrev pub eq_monitor_error : NetworkMonitorError → NetworkMonitorError → Bool
eq_monitor_error x y = monitor_error_value x == monitor_error_value y

pub eq_monitor_error_iff : (x y : NetworkMonitorError) → (eq_monitor_error x y ≡ true) ↔ (x ≡ y)
eq_monitor_error_iff x y = (
  λ h.
      sym (monitor_error_of_value-monitor_error_value x)
      ∙ (ap monitor_error_of_value (==→eq (monitor_error_value x) (monitor_error_value y) h)
          ∙ monitor_error_of_value-monitor_error_value y),
  λ e. rw e (==_refl (monitor_error_value y)),
)

instance abbrev pub monitor_error_eq : Eq NetworkMonitorError
monitor_error_eq = record { beq = eq_monitor_error; beq_iff = eq_monitor_error_iff }

-- `gNetworkMonitorErrorStrings`
abbrev pub monitor_error_strings : List (NetworkMonitorError × Bytes)
monitor_error_strings =
    (ok, bytes "Ok")
    ∷ (undefined_error, bytes "UndefinedError")
    ∷ (could_not_connect_to_stomp_client, bytes "CouldNotConnectToStompClient")
    ∷ (could_not_parse_passenger_event, bytes "CouldNotParsePassengerEvent")
    ∷ (could_not_parse_quiet_route_request, bytes "CouldNotParseQuietRouteRequest")
    ∷ (could_not_record_passenger_event, bytes "CouldNotRecordPassengerEvent")
    ∷ (could_not_start_stomp_server, bytes "CouldNotStartStompServer")
    ∷ (could_not_subscribe_to_passenger_events, bytes "CouldNotSubscribeToPassengerEvents")
    ∷ (failed_network_layout_file_download, bytes "FailedNetworkLayoutFileDownload")
    ∷ (failed_network_layout_file_parsing, bytes "FailedNetworkLayoutFileParsing")
    ∷ (failed_transport_network_construction, bytes "FailedTransportNetworkConstruction")
    ∷ (missing_ca_cert_file, bytes "MissingCaCertFile")
    ∷ (missing_network_layout_file, bytes "MissingNetworkLayoutFile")
    ∷ (stomp_client_disconnected, bytes "StompClientDisconnected")
    ∷ (stomp_server_client_disconnected, bytes "StompServerClientDisconnected")
    ∷ (stomp_server_disconnected, bytes "StompServerDisconnected")
    ∷ []

-- `ToString(NetworkMonitorError)`
unfoldable pub monitor_error_to_string : NetworkMonitorError → Bytes
unfolding lookup
monitor_error_to_string x = elim (lookup x monitor_error_strings) [
  | none ↦ bytes "UndefinedError"
  | some s ↦ s
]
