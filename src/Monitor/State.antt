-- ===== src/Monitor/State.antt =====
-- The network monitor (include/network-monitor.h): its state, and the libraries it uses.
use metro_network_monitor.Base.{ℕ, Bytes, bytes, List, [], Option, none}
use metro_network_monitor.Json.{Json}
use metro_network_monitor.Network.Types
use metro_network_monitor.Network.Types.{TravelRoute, no_travel_route, Network, Outcome}
use metro_network_monitor.Search.Stops.{dist_of}
use metro_network_monitor.Search.Queue.{PopRule, SortRule}
use metro_network_monitor.Search.Alternatives.{path_time}
use metro_network_monitor.Search.Quiet.{Float}
use metro_network_monitor.Stomp.Compose.{HeaderOrder}
use metro_network_monitor.Stomp.Server.{Server, Effect}
use metro_network_monitor.Stomp.Client.{Client, ClientEffect}
use metro_network_monitor.Monitor.{NetworkMonitorError, undefined_error}

-- The libraries: `double`, JSON, the order of the containers and of the headers, the time parser (`none`
-- when it throws), and the generators of the IDs of the client and of the server.
pub record Libraries : Type 1 where
  pub float : Float
  pub json : Json
  pub pops : PopRule dist_of
  pub sorts : SortRule dist_of
  pub later : PopRule path_time
  pub header_order : HeaderOrder
  pub parse_time : Bytes → Option Bytes
  pub client_id : ℕ → Bytes
  pub server_id : ℕ → Bytes

-- `NetworkMonitorConfig`, over the type of a `double`; the ports and the IP address are only passed on.
pub record Config (Double : Type 0) : Type 0 where
  pub network_events_url : Bytes
  pub network_events_port : Bytes
  pub network_events_username : Bytes
  pub network_events_password : Bytes
  pub ca_cert_file : Bytes
  pub network_layout_file : Bytes
  pub quiet_route_hostname : Bytes
  pub quiet_route_ip : Bytes
  pub quiet_route_port : ℕ
  pub quiet_route_max_slowdown_pc : Double
  pub quiet_route_min_quietness_pc : Double
  pub quiet_route_max_n_paths : ℕ

-- `client` and `server` are null before the configuration. The set of the connected clients is a map to
-- the unit.
pub record Monitor (Double : Type 0) : Type 0 where
  pub client : Option Client
  pub server : Option Server
  pub config : Config Double
  pub network : Network
  pub connected_clients : List (Bytes × Unit {0})
  pub last_error_code : NetworkMonitorError
  pub last_travel_route : TravelRoute

-- What the client and the server do outside their state.
pub data MonitorEffect : Type 0 where
  of_client : ClientEffect → MonitorEffect
  of_server : Effect → MonitorEffect

-- A handler leaves a state and a list of effects.
abbrev pub MonitorHandled : Type 0 → Type 0
MonitorHandled Double = Outcome (Monitor Double × List MonitorEffect)

-- The remote endpoints.
abbrev pub network_layout_endpoint : Bytes
network_layout_endpoint = bytes "/network-layout.json"

abbrev pub subscription_destination : Bytes
subscription_destination = bytes "/passengers"

abbrev pub quiet_route_destination : Bytes
quiet_route_destination = bytes "/quiet-route"

-- The default constructor, with a default configuration.
abbrev pub new_monitor : {Double : Type 0} → Config Double → Monitor Double
new_monitor config = record {
  client = none;
  server = none;
  config = config;
  network = Types.empty;
  connected_clients = [];
  last_error_code = undefined_error;
  last_travel_route = no_travel_route;
}
