-- ===== src/Monitor/Handlers.antt =====
-- The handlers of the network monitor, in the order of include/network-monitor.h.
use metro_network_monitor.Base.{
  Bytes, bytes, List, [], ◌∷◌, ◌++◌, Bool, true, false, Option, none, some, map, eq_bytes,
  if◌then◌else◌, insert, erase, bytes_eq,
}
use metro_network_monitor.Base.Int.{ℤ}
use metro_network_monitor.Network.Types.{
  PassengerEvent, TravelRoute, returns, throws, undefined, ◌>>=◌,
}
use metro_network_monitor.Network.Passengers.{record_passenger_event, set_network_crowding}
use metro_network_monitor.Network.Json.{string_at, event_of_json, route_to_json}
use metro_network_monitor.Search.Quiet.{get_quiet_travel_route}
use metro_network_monitor.Stomp.ClientErrors.{StompClientError, eq_client_error}
use metro_network_monitor.Stomp.ClientErrors
use metro_network_monitor.Stomp.ServerErrors.{StompServerError}
use metro_network_monitor.Stomp.Client.Requests.{subscribe_to, close_client}
use metro_network_monitor.Stomp.Server.Requests.{send_to, close, stop}
use metro_network_monitor.Monitor.{
  ok, could_not_connect_to_stomp_client, could_not_parse_passenger_event,
  could_not_parse_quiet_route_request, could_not_record_passenger_event,
  could_not_subscribe_to_passenger_events, stomp_client_disconnected,
  stomp_server_client_disconnected, stomp_server_disconnected,
}
use metro_network_monitor.Monitor.State.{
  Libraries, Monitor, MonitorEffect, of_client, of_server, MonitorHandled, subscription_destination,
  quiet_route_destination,
}

abbrev pub is_nil : Bytes → Bool
is_nil [] = true
is_nil (c ∷ cs) = false

module _ (lib : Libraries) where
  open lib use {float, json, pops, sorts, later, header_order, parse_time, client_id, server_id}
  open float use {Double}

  -- `client_->Close()` and `server_->Stop()`; a call of a null pointer is undefined.
  unfoldable pub close_and_stop : Monitor Double → MonitorHandled Double
  close_and_stop m = elim m.client [
    | none ↦ undefined
    | some c ↦ elim m.server [
      | none ↦ undefined
      | some s ↦
          let (c', es) = close_client c false in
          let (s', fs) = stop s in
          returns
            (record m { client = some c'; server = some s' }, map of_client es ++ map of_server fs)
    ]
  ]

  -- The part below the subscription: `id` is what `Subscribe` returns.
  unfoldable pub after_subscribe :
      Monitor Double → Bytes → List MonitorEffect → MonitorHandled Double
  unfolding close_and_stop
  after_subscribe m id es = elim (is_nil id) [
    | true ↦
        close_and_stop (record m { last_error_code = could_not_subscribe_to_passenger_events })
        >>= λ (m', fs). returns (record m' { last_error_code = ok }, es ++ fs)
    | false ↦ returns (record m { last_error_code = ok }, es)
  ]

  unfoldable pub on_network_events_connect :
      Monitor Double → StompClientError → MonitorHandled Double
  unfolding close_and_stop after_subscribe
  on_network_events_connect m e = elim (eq_client_error e ClientErrors.ok) [
    | false ↦ close_and_stop (record m { last_error_code = could_not_connect_to_stomp_client })
    | true ↦ elim m.client [
      | none ↦ undefined
      | some c ↦
          subscribe_to header_order client_id c subscription_destination true true
          >>= λ (id, (c', es)).
              after_subscribe (record m { client = some c' }) id (map of_client es)
    ]
  ]

  unfoldable pub on_network_events_disconnect :
      Monitor Double → StompClientError → Monitor Double × List MonitorEffect
  on_network_events_disconnect m e = (record m { last_error_code = stomp_client_disconnected }, [])

  unfoldable pub on_subscribe :
      Monitor Double → StompClientError → Bytes → Monitor Double × List MonitorEffect
  on_subscribe m e id = (
    record m {
      last_error_code =
          if eq_client_error e ClientErrors.ok then ok else could_not_subscribe_to_passenger_events;
    },
    [],
  )

  -- The event in a message, `none` when the parsing throws.
  unfoldable pub parse_event : Bytes → Option PassengerEvent
  parse_event msg = elim (json.parse msg) [ none ↦ none | some v ↦ event_of_json json parse_time v ]

  unfoldable pub on_network_events_message :
      Monitor Double → StompClientError → Bytes → Monitor Double × List MonitorEffect
  unfolding parse_event
  on_network_events_message m e msg = elim (parse_event msg) [
    | none ↦ (record m { last_error_code = could_not_parse_passenger_event }, [])
    | some event ↦
        let (was_recorded, net) = record_passenger_event m.network event in
        (
          record m {
            network = net;
            last_error_code = if was_recorded then ok else could_not_record_passenger_event;
          },
          [],
        )
  ]

  unfoldable pub on_quiet_route_client_connect :
      Monitor Double → StompServerError → Bytes → Monitor Double × List MonitorEffect
  on_quiet_route_client_connect m e id =
      (record m { connected_clients = insert id tt m.connected_clients; last_error_code = ok }, [])

  -- `server_->Close(connectionId)` and `connectedClients_.erase(connectionId)`
  unfoldable pub turn_away : Monitor Double → Bytes → MonitorHandled Double
  turn_away m id = elim m.server [
    | none ↦ undefined
    | some s ↦ close header_order s id false >>= λ (s', es). returns (
      record m { server = some s'; connected_clients = erase id m.connected_clients },
      map of_server es,
    )
  ]

  -- The stations of a request, `none` when the parsing throws.
  unfoldable pub parse_request : Bytes → Option (Bytes × Bytes)
  parse_request msg = elim (json.parse msg) [
    | none ↦ none
    | some v ↦ elim (string_at json v (bytes "start_station_id")) [
      | none ↦ none
      | some start ↦ elim (string_at json v (bytes "end_station_id")) [
        | none ↦ none
        | some end_id ↦ some (start, end_id)
      ]
    ]
  ]

  -- The reply with a travel route; `dump` throws where a text of the route is not UTF-8.
  unfoldable pub reply : Monitor Double → Bytes → Bytes → TravelRoute → MonitorHandled Double
  reply m id request_id route = elim (json.dump (route_to_json json route)) [
    | none ↦ throws (bytes "type_error")
    | some content ↦ elim m.server [
      | none ↦ undefined
      | some s ↦
          send_to header_order server_id s id quiet_route_destination content false request_id
          >>= λ (_, (s', es)). returns (
            record m { server = some s'; last_error_code = ok; last_travel_route = route },
            map of_server es,
          )
    ]
  ]

  unfoldable pub on_quiet_route_client_message :
      Monitor Double → StompServerError → Bytes → Bytes → Bytes → Bytes → MonitorHandled Double
  unfolding turn_away parse_request reply
  on_quiet_route_client_message m e id destination request_id msg =
      elim (eq_bytes destination quiet_route_destination) [
        | false ↦ turn_away m id
        | true ↦ elim (parse_request msg) [
          | none ↦ turn_away m id >>= λ (m', es).
              returns (record m' { last_error_code = could_not_parse_quiet_route_request }, es)
          | some (start, end_id) ↦
              get_quiet_travel_route float pops sorts later m.network start end_id
                m.config.quiet_route_max_slowdown_pc m.config.quiet_route_min_quietness_pc
                m.config.quiet_route_max_n_paths
              >>= λ route. reply m id request_id route
        ]
      ]

  unfoldable pub on_quiet_route_client_disconnect :
      Monitor Double → StompServerError → Bytes → Monitor Double × List MonitorEffect
  on_quiet_route_client_disconnect m e id = (
    record m {
      connected_clients = erase id m.connected_clients;
      last_error_code = stomp_server_client_disconnected;
    },
    [],
  )

  unfoldable pub on_quiet_route_disconnect :
      Monitor Double → StompServerError → Monitor Double × List MonitorEffect
  on_quiet_route_disconnect m e = (record m { last_error_code = stomp_server_disconnected }, [])

  -- `Run`, up to the call of the I/O context.
  unfoldable pub begin_run : Monitor Double → Monitor Double
  begin_run m = record m { last_error_code = ok }

  unfoldable pub set_monitor_crowding : Monitor Double → List (Bytes × ℤ) → Monitor Double
  set_monitor_crowding m counts = record m { network = set_network_crowding m.network counts }
