-- ===== src/Examples/Subscriptions.antt =====
-- A subscription of the monitor.
use metro_network_monitor.Base.{
  ℕ, Bytes, ◌≡◌, refl, some, none, [], ◌∷◌, lookup, insert, eq_bytes, bytes_eq,
}
use metro_network_monitor.Network.Types.{returns}
use metro_network_monitor.Stomp.Commands.{receipt, to_command, command_to_string}
use metro_network_monitor.Stomp.Headers.{receipt_id_header, to_header, header_to_string, header_eq}
use metro_network_monitor.Stomp.Errors
use metro_network_monitor.Stomp.Parse.{parse_frame}
use metro_network_monitor.Stomp.Frame.{
  Frame, compose, get_header_value, frame_of_text, parse_and_validate_frame,
}
use metro_network_monitor.Stomp.RoundTrip.{lacks}
use metro_network_monitor.Stomp.Session.Parts.{IsValue}
use metro_network_monitor.Monitor.State.{Monitor}
use metro_network_monitor.Monitor.Subscribing.{Subscribed, subscribing-Subscribed}
use metro_network_monitor.Examples.Sessions.{marks, first_id, some_client}
use metro_network_monitor.Examples.Monitors.{libraries, monitor}

abbrev connected_monitor : Monitor ℕ
connected_monitor = record monitor { client = some some_client }

abbrev receipt_text : Bytes
receipt_text = compose receipt ((receipt_id_header, first_id) ∷ []) []

abbrev receipt_frame : Frame
receipt_frame = record {
  plain = receipt_text;
  command = receipt;
  headers = (receipt_id_header, first_id) ∷ [];
  body = [];
}

receipt-parsed : frame_of_text receipt_text ≡ returns (Errors.ok, receipt_frame)
unfolding frame_of_text parse_and_validate_frame parse_frame compose command_to_string to_command
    eq_bytes header_to_string to_header insert
receipt-parsed = refl

marks-IsValue : IsValue (marks 0)
unfolding marks lacks
marks-IsValue = record { full = λ e. cc; line = refl }

marks-new : lookup (marks 0) some_client.subscriptions ≡ none
unfolding lookup
marks-new = refl

receipt-marks : get_header_value receipt_frame.headers receipt_id_header ≡ marks 0
unfolding get_header_value lookup marks
receipt-marks = refl

subscribing-Subscribed_example : Subscribed libraries connected_monitor some_client receipt_text
subscribing-Subscribed_example =
    subscribing-Subscribed libraries connected_monitor some_client receipt_text receipt_frame refl
      marks-IsValue marks-new receipt-parsed refl receipt-marks
