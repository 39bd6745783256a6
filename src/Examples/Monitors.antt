-- ===== src/Examples/Monitors.antt =====
-- A monitor with its theorems.
use metro_network_monitor.Base.{
  ℕ, ◌+◌, ◌-◌, ◌*◌, ◌%◌, ◌≡◌, refl, true, Option, none, some, List, [], ◌∷◌, arith, if◌then◌else◌,
  u32_mod, nat_eq, lookup, insert, Bytes, bytes, eq_bytes, bytes_eq,
}
use metro_network_monitor.Network.Types.{TravelRoute, PassengerEvent, enter, returns}
use metro_network_monitor.Network.Build.{get_station, add_station}
use metro_network_monitor.Network.Json.{event_of_json, route_to_json, route_of_json}
use metro_network_monitor.Network.Json.RoundTrip.{FitsUnsigned, route_of_json-route_to_json}
use metro_network_monitor.Network.Passengers.{get_passenger_count, record_passenger_event}
use metro_network_monitor.Base.Int.{negsuc, ◌+ℤ◌}
use metro_network_monitor.Search.Stops.{dist_of}
use metro_network_monitor.Search.Alternatives.{path_time}
use metro_network_monitor.Search.Quiet.{Float, get_quiet_travel_route}
use metro_network_monitor.Search.Fastest.{same_station}
use metro_network_monitor.Stomp.Commands.{message, to_command, command_to_string}
use metro_network_monitor.Stomp.Headers.{
  subscription_header, destination_header, message_id_header, to_header, header_to_string,
  header_eq,
}
use metro_network_monitor.Stomp.Errors
use metro_network_monitor.Stomp.ClientErrors
use metro_network_monitor.Stomp.ServerErrors
use metro_network_monitor.Stomp.Parse.{Headers, parse_frame}
use metro_network_monitor.Stomp.Frame.{
  Frame, compose, get_header_value, frame_of_text, parse_and_validate_frame,
}
use metro_network_monitor.Stomp.Client.{Client, Subscription, subscription_message}
use metro_network_monitor.Stomp.Server.Requests.{send_to}
use metro_network_monitor.Stomp.Decimal.{to_string}
use metro_network_monitor.Stomp.Frame.{frame_of_parts}
use metro_network_monitor.Base.{update}
use metro_network_monitor.Stomp.Server.{client_connected, client_message, client_disconnected}
use metro_network_monitor.Monitor.State.{
  Libraries, Config, Monitor, new_monitor, MonitorHandled, MonitorEffect, of_client, of_server,
  quiet_route_destination, subscription_destination,
}
use metro_network_monitor.Monitor.Handlers.{parse_event, parse_request}
use metro_network_monitor.Monitor.Callbacks.{on_effects}
use metro_network_monitor.Monitor.Networks.{event_in}
use metro_network_monitor.Monitor.Networks.Tally.{tally, on_effects-tally}
use metro_network_monitor.Monitor.Replies.{Replied, on_quiet_route_client_message-Replied}
use metro_network_monitor.Monitor.Events.{Counted, events-Counted}
use metro_network_monitor.Examples.Rules.{least_first, greatest_first}
use metro_network_monitor.Examples.Small.{id_a, id_b, stations, stations-IsWellFormed}
use metro_network_monitor.Examples.Sessions.{
  in_order, marks, first_id, open_connection, open_server, open-used, open-found, some_client,
  id-IsValue,
}
use metro_network_monitor.Examples.Values.{
  Tree, text, object, no_members, member, trees, trees-ReadsBack, string_in, member_in, of_members,
}

-- Whole numbers in place of `double`.
abbrev whole : Float
whole = record {
  Double = ℕ;
  one = 1;
  of_unsigned = λ n. n;
  add = λ a b. a + b;
  sub = λ a b. a - b;
  mul = λ a b. a * b;
  to_unsigned = λ n. n % u32_mod;
}

abbrev request_value : Tree
request_value = object (
    member (bytes "start_station_id") (text id_a)
      (member (bytes "end_station_id") (text id_a) no_members))

abbrev event_value : Tree
event_value = object (
    member (bytes "station_id") (text id_a) (
      member (bytes "passenger_event") (text (bytes "in"))
        (member (bytes "datetime") (text (bytes "2020-11-01T07:18:50Z")) no_members)))

abbrev departure_value : Tree
departure_value = object (
    member (bytes "station_id") (text id_b) (
      member (bytes "passenger_event") (text (bytes "out"))
        (member (bytes "datetime") (text (bytes "2020-11-01T07:18:50Z")) no_members)))

abbrev known_texts : Bytes → Option Tree
known_texts msg =
    if eq_bytes msg (bytes "route")
    then some request_value
    else (if eq_bytes msg (bytes "event")
        then some event_value
        else (if eq_bytes msg (bytes "departure") then some departure_value else none))

abbrev pub libraries : Libraries
libraries = record {
  float = whole;
  json = trees known_texts;
  pops = least_first dist_of;
  sorts = greatest_first dist_of;
  later = least_first path_time;
  header_order = in_order;
  parse_time = λ t. some t;
  client_id = marks;
  server_id = marks;
}

abbrev config : Config ℕ
config = record {
  network_events_url = bytes "host";
  network_events_port = bytes "443";
  network_events_username = bytes "user";
  network_events_password = bytes "secret";
  ca_cert_file = bytes "cert";
  network_layout_file = bytes "layout";
  quiet_route_hostname = bytes "host";
  quiet_route_ip = bytes "127.0.0.1";
  quiet_route_port = 8042;
  quiet_route_max_slowdown_pc = 0;
  quiet_route_min_quietness_pc = 0;
  quiet_route_max_n_paths = 20;
}

abbrev subscription : Subscription
subscription = record {
  destination = subscription_destination;
  on_subscribe = true;
  on_message = true;
}

abbrev subscribed : Client
subscribed = record some_client { subscriptions = (first_id, subscription) ∷ [] }

abbrev pub monitor : Monitor ℕ
monitor = record (new_monitor config) {
  client = some subscribed;
  server = some open_server;
  network = stations;
}

request-read : parse_request libraries (bytes "route") ≡ some (id_a, id_a)
unfolding parse_request member_in string_in of_members eq_bytes lookup
request-read = refl

stations-station_a : get_station stations id_a ≡ some 0
unfolding add_station get_station lookup insert eq_bytes
stations-station_a = refl

stations-station_b : get_station stations id_b ≡ some 1
unfolding add_station get_station lookup insert eq_bytes
stations-station_b = refl

route-found :
    get_quiet_travel_route whole
      (least_first dist_of)
      (greatest_first dist_of)
      (least_first path_time)
      stations
      id_a
      id_a
      0
      0
      20
    ≡ returns (same_station id_a)
unfolding get_quiet_travel_route add_station get_station lookup insert eq_bytes
route-found = refl

route-written :
    (trees known_texts).dump (route_to_json (trees known_texts) (same_station id_a))
    ≡ some (bytes "{}")
route-written = refl

on_quiet_route_client_message-Replied_example :
    Replied libraries monitor ServerErrors.ok open_server first_id first_id
      (bytes "route")
      (bytes "{}")
      (same_station id_a)
      7
      some_client
on_quiet_route_client_message-Replied_example =
    on_quiet_route_client_message-Replied libraries monitor ServerErrors.ok open_server first_id
      first_id (bytes "route") (bytes "{}") id_a id_a (same_station id_a) 7 open_connection
      some_client refl request-read route-found route-written (omega arith) open-used open-found
      refl id-IsValue

abbrev posted : List MonitorEffect
posted =
    of_client (subscription_message first_id ClientErrors.ok (bytes "event"))
    ∷ of_client (subscription_message first_id ClientErrors.ok (bytes "departure"))
    ∷ of_client (subscription_message first_id ClientErrors.ok (bytes "departure"))
    ∷ of_server (client_connected ServerErrors.ok first_id)
    ∷ of_server
        (client_message ServerErrors.ok first_id quiet_route_destination first_id (bytes "route"))
    ∷ of_server (client_disconnected ServerErrors.ok first_id)
    ∷ []

-- The monitor after the callbacks.
abbrev left : MonitorHandled ℕ → Monitor ℕ
left (returns (m, es)) = m
left _ = monitor

abbrev asked : MonitorHandled ℕ → List MonitorEffect
asked (returns (m, es)) = es
asked _ = []

posted-returns :
    on_effects libraries monitor posted
    ≡ returns
        (left (on_effects libraries monitor posted), asked (on_effects libraries monitor posted))
unfolding on_effects eq_bytes member_in string_in get_quiet_travel_route event_of_json
    record_passenger_event add_station insert send_to frame_of_parts command_to_string to_command
    header_to_string to_header to_string
posted-returns = refl

on_effects-tally_example :
    get_passenger_count (left (on_effects libraries monitor posted)).network id_b
    ≡ returns (negsuc 1)
unfolding add_station ◌+ℤ◌ lookup insert eq_bytes tally update event_in parse_event event_of_json
    member_in string_in of_members
on_effects-tally_example =
    on_effects-tally libraries monitor (left (on_effects libraries monitor posted)) posted
      (asked (on_effects libraries monitor posted)) id_b 1 stations-IsWellFormed stations-station_b
      posted-returns

abbrev event_headers : Headers
event_headers =
    (subscription_header, first_id)
    ∷ (destination_header, subscription_destination)
    ∷ (message_id_header, bytes "1")
    ∷ []

abbrev event_text : Bytes
event_text = compose message event_headers (bytes "event")

abbrev event_frame : Frame
event_frame = record {
  plain = event_text;
  command = message;
  headers = event_headers;
  body = bytes "event";
}

event-parsed : frame_of_text event_text ≡ returns (Errors.ok, event_frame)
unfolding frame_of_text parse_and_validate_frame parse_frame compose command_to_string to_command
    eq_bytes header_to_string to_header insert
event-parsed = refl

abbrev event : PassengerEvent
event = record { station_id = id_a; type = enter; timestamp = bytes "2020-11-01T07:18:50" }

event-read : parse_event libraries (bytes "event") ≡ some event
unfolding parse_event event_of_json member_in string_in of_members eq_bytes lookup
event-read = refl

event-subscription : get_header_value event_frame.headers subscription_header ≡ first_id
unfolding get_header_value lookup
event-subscription = refl

event-destination :
    get_header_value event_frame.headers destination_header ≡ subscription_destination
unfolding get_header_value lookup
event-destination = refl

subscription-found : lookup first_id subscribed.subscriptions ≡ some subscription
unfolding lookup eq_bytes
subscription-found = refl

events-Counted_example :
    Counted libraries monitor subscribed event_text first_id (bytes "event") event id_a 0
events-Counted_example =
    events-Counted libraries monitor subscribed event_text first_id event_frame subscription event 0
      id_a 0 event-parsed refl event-subscription subscription-found refl event-destination
      event-read stations-IsWellFormed stations-station_a stations-station_a

abbrev short_route : TravelRoute
short_route = record {
  start_station_id = id_a;
  end_station_id = bytes "B";
  total_travel_time = 3;
  steps =
      record {
        start_station_id = id_a;
        end_station_id = bytes "B";
        line_id = bytes "1";
        route_id = bytes "10";
        travel_time = 3;
      }
      ∷ [];
}

short_route-FitsUnsigned : FitsUnsigned short_route
short_route-FitsUnsigned = record { total = omega arith; each = (omega arith, tt) }

route_of_json-route_to_json_example :
    route_of_json (trees known_texts) (route_to_json (trees known_texts) short_route)
    ≡ some short_route
route_of_json-route_to_json_example =
    route_of_json-route_to_json (trees known_texts) (trees-ReadsBack known_texts) short_route
      short_route-FitsUnsigned
