-- ===== src/Monitor/Events.antt =====
-- A passenger event, from the frame that the client gets to the counts of the network.
use metro_network_monitor.Base.{
  ℕ, ◌≡◌, refl, ap, ◌∙◌, Bool, true, some, [], ◌∷◌, if◌then◌else◌, nat_eq, lookup, Bytes, eq_bytes,
  eq_bytes_refl, bytes_eq,
}
use metro_network_monitor.Base.Int.{pos, ◌+ℤ◌}
use metro_network_monitor.Network.Types.{PassengerEvent, returns}
use metro_network_monitor.Network.Build.{get_station}
use metro_network_monitor.Network.Passengers.{record_passenger_event, get_passenger_count}
use metro_network_monitor.Network.WellFormed.{IsWellFormed}
use metro_network_monitor.Network.Counts.{one, get_passenger_count-record_passenger_event}
use metro_network_monitor.Stomp.Commands.{message}
use metro_network_monitor.Stomp.Headers.{destination_header, subscription_header}
use metro_network_monitor.Stomp.Errors
use metro_network_monitor.Stomp.ClientErrors
use metro_network_monitor.Stomp.Frame.{Frame, get_header_value, frame_of_text}
use metro_network_monitor.Stomp.Client.{Subscription, Client, subscription_message}
use metro_network_monitor.Stomp.Client.Handlers.{
  handle_subscription_message, handle_frame, on_ws_message,
}
use metro_network_monitor.Stomp.Session.Connecting.{on_ws_message-frame}
use metro_network_monitor.Monitor.{ok}
use metro_network_monitor.Monitor.State.{Libraries, Monitor}
use metro_network_monitor.Monitor.Handlers.{parse_event, on_network_events_message}
use metro_network_monitor.Monitor.Callbacks.{on_client_effect}

-- The client gives a message of a subscription to its user.
handle_subscription_message-known :
    (c : Client) (f : Frame) (sub : Subscription)
    → lookup (get_header_value f.headers subscription_header) c.subscriptions ≡ some sub
    → sub.on_message ≡ true
    → get_header_value f.headers destination_header ≡ sub.destination
    → handle_subscription_message c f ≡ (
      c,
      subscription_message (get_header_value f.headers subscription_header) ClientErrors.ok f.body
          ∷ [],
    )
unfolding handle_subscription_message
handle_subscription_message-known c f sub found set same =
    rw (found, handle_subscription_message) (rw (same, eq_bytes_refl sub.destination, set) refl)

module _ (lib : Libraries) where
  open lib use {float}
  open float use {Double}

  -- What a message of the subscription does.
  pub record Counted (m : Monitor Double) (c : Client) (text id body : Bytes)
      (event : PassengerEvent) (station : Bytes) (q : ℕ) : Type 0 where
    pub after : Monitor Double
    -- the client posts the callback of the subscription
    pub posts :
        (failed : Bool)
        → on_ws_message c failed text
          ≡ returns (c, subscription_message id ClientErrors.ok body ∷ [])
    -- the callback records the event
    pub records :
        on_client_effect lib m (subscription_message id ClientErrors.ok body) ≡ returns (after, [])
    pub no_error : after.last_error_code ≡ ok
    -- the count of the station goes up or down by one if the event is of the station, and else stays
    pub counts :
        get_passenger_count after.network station
        ≡ returns (
            (m.network.node q).passenger_count
            +ℤ (if eq_bytes event.station_id station then one event.type else pos 0))

  -- A MESSAGE frame for a subscription of the client, with the destination of the subscription and a
  -- passenger event of a known station as its body, reaches the monitor, which records no error and
  -- changes the count of that station of its well-formed network by one: the count of any known station
  -- goes up or down by one if the event is of it, and else it stays.
  pub events-Counted :
      (m : Monitor Double) (c : Client) (text id : Bytes) (f : Frame) (sub : Subscription)
      (event : PassengerEvent) (p : ℕ) (station : Bytes) (q : ℕ)
      → frame_of_text text ≡ returns (Errors.ok, f)
      → f.command ≡ message
      → get_header_value f.headers subscription_header ≡ id
      → lookup id c.subscriptions ≡ some sub
      → sub.on_message ≡ true
      → get_header_value f.headers destination_header ≡ sub.destination
      → parse_event lib f.body ≡ some event
      → IsWellFormed m.network
      → get_station m.network event.station_id ≡ some p
      → get_station m.network station ≡ some q
      → Counted m c text id f.body event station q
  unfolding handle_frame on_client_effect on_network_events_message record_passenger_event
  events-Counted m c text id f sub event p station q parses kind named found set same read h known
        at_station =
      record {
        after = record m {
          network = (record_passenger_event m.network event).1;
          last_error_code = ok;
        };
        posts = λ failed.
            on_ws_message-frame c failed text f parses
            ∙ (ap (λ v. returns (handle_frame c f v)) kind
                ∙ (ap returns (
                      handle_subscription_message-known c f sub
                        (ap (λ v. lookup v c.subscriptions) named ∙ found) set same)
                    ∙ ap (λ v. returns (c, subscription_message v ClientErrors.ok f.body ∷ []))
                        named));
        records = rw (read, known, on_network_events_message, record_passenger_event) refl;
        no_error = refl;
        counts = get_passenger_count-record_passenger_event m.network event station q h at_station;
      }
