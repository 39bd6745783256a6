-- ===== src/Monitor/Networks.antt =====
-- What the handlers of the monitor do to its network.
pub mod Tally
use metro_network_monitor.Base.{
  ◌≡◌, inl, inr, true, false, Option, none, some, List, [], ◌∷◌, ◌++◌, map, Bool-cases,
  Option-cases, nat_eq, Bytes, eq_bytes, bytes_eq,
}
use metro_network_monitor.Network.Types.{
  PassengerEvent, Network, TravelRoute, Outcome, returns, throws, undefined, unfinished, ◌>>=◌,
}
use metro_network_monitor.Network.Json.{route_to_json}
use metro_network_monitor.Search.Quiet.{get_quiet_travel_route}
use metro_network_monitor.Stomp.ClientErrors.{StompClientError, eq_client_error}
use metro_network_monitor.Stomp.ClientErrors
use metro_network_monitor.Stomp.ServerErrors.{StompServerError}
use metro_network_monitor.Stomp.Client.{
  Client, connect_done, disconnected, subscribe_done, subscription_message,
}
use metro_network_monitor.Stomp.Client.Requests.{subscribe_to, close_client}
use metro_network_monitor.Stomp.Server.{
  Server, client_connected, client_message, client_disconnected, server_disconnected,
}
use metro_network_monitor.Stomp.Server.Requests.{send_to, close, stop}
use metro_network_monitor.Monitor.{could_not_subscribe_to_passenger_events}
use metro_network_monitor.Monitor.State.{
  Libraries, Monitor, MonitorEffect, of_client, of_server, MonitorHandled, subscription_destination,
  quiet_route_destination,
}
use metro_network_monitor.Monitor.Handlers.{
  close_and_stop, after_subscribe, on_network_events_connect, on_network_events_message,
  parse_event, turn_away, parse_request, reply, on_quiet_route_client_message,
}
use metro_network_monitor.Monitor.Callbacks.{on_client_effect, on_server_effect, on_effect}

module _ (lib : Libraries) where
  -- The passenger event that a callback brings.
  unfoldable pub event_in : MonitorEffect → Option PassengerEvent
  event_in (of_client (subscription_message id e msg)) = parse_event lib msg
  event_in _ = none

module _ (lib : Libraries) (P : Network → Type 0) where
  open lib use {float, json}
  open float use {Double}

  -- What is left has the property if the handler returns.
  abbrev pub Leaves : MonitorHandled Double → Type 0
  Leaves (returns (m, es)) = P m.network
  Leaves (throws text) = Unit
  Leaves undefined = Unit
  Leaves unfinished = Unit

  -- After a part of a handler comes the rest.
  then-Leaves {ℓ} :
      {A : Type ℓ} (r : Outcome A) (k : A → MonitorHandled Double)
      → ((a : A) → Leaves (k a))
      → Leaves (r >>= k)
  then-Leaves (returns a) k h = h a
  then-Leaves (throws m) k h = tt
  then-Leaves undefined k h = tt
  then-Leaves unfinished k h = tt

  chain-Leaves :
      (r : MonitorHandled Double) (k : Monitor Double × List MonitorEffect → MonitorHandled Double)
      → Leaves r
      → ((m : Monitor Double) (es : List MonitorEffect) → P m.network → Leaves (k (m, es)))
      → Leaves (r >>= k)
  chain-Leaves (returns (m, es)) k h each = each m es h
  chain-Leaves (throws m) k h each = tt
  chain-Leaves undefined k h each = tt
  chain-Leaves unfinished k h each = tt

  module _ (m : Monitor Double) (h : P m.network) where
    close_and_stop-Leaves : (m' : Monitor Double) → P m'.network → Leaves (close_and_stop lib m')
    unfolding close_and_stop
    close_and_stop-Leaves m' h' = by_parts m'.client m'.server
      where
        by_parts :
            (c : Option Client) (s : Option Server)
            → Leaves (elim c [
              | none ↦ undefined
              | some c ↦ elim s [
                | none ↦ undefined
                | some s ↦
                    let (c', es) = close_client c false in
                    let (s', fs) = stop s in
                    returns (
                      record m' { client = some c'; server = some s' },
                      map of_client es ++ map of_server fs,
                    )
              ]
            ])
        by_parts none s = tt
        by_parts (some c) none = tt
        by_parts (some c) (some s) = h'

    connect-Leaves : (e : StompClientError) → Leaves (on_network_events_connect lib m e)
    unfolding on_network_events_connect after_subscribe
    connect-Leaves e = elim (Bool-cases (eq_client_error e ClientErrors.ok)) [
      | inr failed ↦ rw (failed, on_network_events_connect) (close_and_stop-Leaves _ h)
      | inl fine ↦ elim (Option-cases m.client) [
        | inl missing ↦ rw (fine, missing, on_network_events_connect) tt
        | inr (c, found) ↦
            rw (fine, found, on_network_events_connect)
              (then-Leaves
                (subscribe_to lib.header_order lib.client_id c subscription_destination true true) _
                (λ (id, (c', es)). by_id (record m { client = some c' }) id (map of_client es) h))
      ]
    ]
      where
        by_id :
            (m' : Monitor Double) (id : Bytes) (es : List MonitorEffect)
            → P m'.network
            → Leaves (after_subscribe lib m' id es)
        by_id m' [] es h' =
            chain-Leaves
              (close_and_stop lib
                (record m' { last_error_code = could_not_subscribe_to_passenger_events }))
              _ (close_and_stop-Leaves _ h') (λ m'' fs h''. h'')
        by_id m' (x ∷ id) es h' = h'

    turn_away-Leaves : (id : Bytes) → Leaves (turn_away lib m id)
    unfolding turn_away
    turn_away-Leaves id = elim (Option-cases m.server) [
      | inl missing ↦ rw (missing, turn_away) tt
      | inr (s, found) ↦
          rw (found, turn_away) (then-Leaves (close lib.header_order s id false) _ (λ (s', es). h))
    ]

    reply-Leaves :
        (id request_id : Bytes) (route : TravelRoute) → Leaves (reply lib m id request_id route)
    unfolding reply
    reply-Leaves id request_id route = elim (Option-cases (json.dump (route_to_json json route))) [
      | inl bad ↦ rw (bad, reply) tt
      | inr (content, written) ↦ elim (Option-cases m.server) [
        | inl missing ↦ rw (written, missing, reply) tt
        | inr (s, found) ↦
            rw (written, found, reply)
              (then-Leaves
                (send_to lib.header_order lib.server_id s id quiet_route_destination content false
                  request_id)
                _ (λ (sent, (s', es)). h))
      ]
    ]

    request-Leaves :
        (e : StompServerError) (id destination request_id msg : Bytes)
        → Leaves (on_quiet_route_client_message lib m e id destination request_id msg)
    unfolding on_quiet_route_client_message
    request-Leaves e id destination request_id msg =
        elim (Bool-cases (eq_bytes destination quiet_route_destination)) [
          | inr other ↦ rw (other, on_quiet_route_client_message) (turn_away-Leaves id)
          | inl same ↦ elim (Option-cases (parse_request lib msg)) [
            | inl bad ↦
                rw (same, bad, on_quiet_route_client_message)
                  (chain-Leaves (turn_away lib m id) _ (turn_away-Leaves id) (λ m' es h'. h'))
            | inr ((start, end_id), read) ↦
                rw (same, read, on_quiet_route_client_message)
                  (then-Leaves
                    (get_quiet_travel_route lib.float lib.pops lib.sorts lib.later m.network start
                      end_id m.config.quiet_route_max_slowdown_pc
                      m.config.quiet_route_min_quietness_pc m.config.quiet_route_max_n_paths)
                    _ (λ route. reply-Leaves id request_id route))
          ]
        ]

    -- A callback that is not of a passenger event leaves the network as it is.
    pub other-Leaves : (e : MonitorEffect) → event_in lib e ≡ none → Leaves (on_effect lib m e)
    unfolding on_effect on_client_effect on_server_effect event_in
    other-Leaves (of_client (connect_done e)) none_in = connect-Leaves e
    other-Leaves (of_client (disconnected e)) none_in = h
    other-Leaves (of_client (subscribe_done id e sid)) none_in = h
    other-Leaves (of_client (subscription_message id e msg)) none_in =
        rw (none_in, on_network_events_message) h
    other-Leaves (of_client _) none_in = h
    other-Leaves (of_server (client_connected e id)) none_in = h
    other-Leaves (of_server (client_message e id destination request_id msg)) none_in =
        request-Leaves e id destination request_id msg
    other-Leaves (of_server (client_disconnected e id)) none_in = h
    other-Leaves (of_server (server_disconnected e)) none_in = h
    other-Leaves (of_server _) none_in = h
