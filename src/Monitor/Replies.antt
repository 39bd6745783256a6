-- ===== src/Monitor/Replies.antt =====
-- A quiet-route request of a client and its reply.
use metro_network_monitor.Base.{
  ℕ, ◌<◌, ◌≡◌, refl, sym, ap, subst, ◌∙◌, ◌≢◌, Bool, false, some, [], ◌∷◌, length, nat_eq, lookup,
  Bytes, eq_bytes, bytes_eq,
}
use metro_network_monitor.Network.Types.{TravelRoute, returns}
use metro_network_monitor.Network.Json.{route_to_json}
use metro_network_monitor.Search.Quiet.{get_quiet_travel_route}
use metro_network_monitor.Stomp.Parse.{size_max}
use metro_network_monitor.Stomp.RoundTrip.{lacks}
use metro_network_monitor.Stomp.ServerErrors.{StompServerError}
use metro_network_monitor.Stomp.ClientErrors
use metro_network_monitor.Stomp.Server.{Connection, Server, connected_status, ws_send}
use metro_network_monitor.Stomp.Server.Requests.{send_text, request_id_of, send_to}
use metro_network_monitor.Stomp.Client.{Client, message_received}
use metro_network_monitor.Stomp.Client.Handlers.{tells, on_ws_message}
use metro_network_monitor.Stomp.Session.Parts.{IsValue}
use metro_network_monitor.Stomp.Session.Sending.{SentToClient, sends_to}
use metro_network_monitor.Monitor.{ok}
use metro_network_monitor.Monitor.State.{Libraries, Monitor, of_server, quiet_route_destination}
use metro_network_monitor.Monitor.Handlers.{parse_request, reply, on_quiet_route_client_message}

-- A request with an ID is answered under it.
request_id_of-given :
    (generate_id : ℕ → Bytes) (s : Server) (given : Bytes)
    → given ≢ []
    → request_id_of generate_id s given ≡ (given, s)
request_id_of-given generate_id s [] full = absurd (full refl)
request_id_of-given generate_id s (x ∷ given) full = refl

module _ (lib : Libraries) where
  open lib use {float, json}
  open float use {Double}

  -- What is left of the monitor, and what is sent, by a reply.
  pub record Replied (m : Monitor Double) (e : StompServerError) (s : Server)
      (id request_id msg content : Bytes) (route : TravelRoute) (ws : ℕ) (c : Client) : Type 0 where
    pub text : Bytes
    -- the handler sends one frame to the session, and keeps the route
    pub replies :
        on_quiet_route_client_message lib m e id quiet_route_destination request_id msg
        ≡ returns (
          record m { server = some s; last_error_code = ok; last_travel_route = route },
          of_server (ws_send ws text) ∷ [],
        )
    -- the client gives the route to its user
    pub hears :
        (failed : Bool)
        → on_ws_message c failed text
          ≡ returns (
            c,
            tells c.on_message (message_received ClientErrors.ok quiet_route_destination content),
          )

  reply-sent :
      (m : Monitor Double) (s : Server) (id request_id content text : Bytes) (route : TravelRoute)
      (ws : ℕ)
      → json.dump (route_to_json json route) ≡ some content
      → m.server ≡ some s
      → send_to lib.header_order lib.server_id s id quiet_route_destination content false request_id
        ≡ returns (request_id, (s, ws_send ws text ∷ []))
      → reply lib m id request_id route
        ≡ returns (
          record m { server = some s; last_error_code = ok; last_travel_route = route },
          of_server (ws_send ws text) ∷ [],
        )
  unfolding reply
  reply-sent m s id request_id content text route ws written here sent =
      rw (written, here, sent, reply) refl

  -- When the client of a connected session asks for a quiet route in a request that can be parsed,
  -- under a request ID that can be the value of a header, and the search returns a route that can be
  -- written as JSON, the monitor keeps the route as the last one and sends one frame to the session:
  -- the client that gets it gives its user the route's JSON.
  pub on_quiet_route_client_message-Replied :
      (m : Monitor Double) (e : StompServerError) (s : Server)
      (id request_id msg content start end_id : Bytes) (route : TravelRoute) (ws : ℕ)
      (connection : Connection) (c : Client)
      → m.server ≡ some s
      → parse_request lib msg ≡ some (start, end_id)
      → get_quiet_travel_route lib.float lib.pops lib.sorts lib.later m.network start end_id
          m.config.quiet_route_max_slowdown_pc m.config.quiet_route_min_quietness_pc
          m.config.quiet_route_max_n_paths
        ≡ returns route
      → json.dump (route_to_json json route) ≡ some content
      → length content < size_max
      → lookup id s.sessions ≡ some ws
      → lookup ws s.connections ≡ some connection
      → connection.status ≡ connected_status
      → IsValue request_id
      → Replied m e s id request_id msg content route ws c
  unfolding on_quiet_route_client_message eq_bytes lacks
  on_quiet_route_client_message-Replied m e s id request_id msg content start end_id route ws
        connection c here read searched written small used found open' value =
      let same = request_id_of-given lib.server_id s request_id value.full in
      let sent : SentToClient lib.header_order lib.server_id s c id quiet_route_destination content
          false request_id ws =
        sends_to _ _ s c id quiet_route_destination content false request_id ws connection used
          found open' (subst (λ v. IsValue v.0) (sym same) value)
          (record { full = λ e. cc; line = refl }) small in
      record {
        text = sent.text;
        replies =
            rw (read, searched, on_quiet_route_client_message)
              (reply-sent m s id request_id content sent.text route ws written here (
                sent.sends
                ∙ ap
                    (λ (v : Bytes × Server).
                      returns (v.0, (v.1, send_text ws sent.text v.0 false ∷ [])))
                    same));
        hears = sent.hears;
      }
