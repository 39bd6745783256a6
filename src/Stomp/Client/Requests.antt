-- ===== src/Stomp/Client/Requests.antt =====
-- What the user asks of the client: `Connect`, `Close`, `Subscribe` and `Send`.
use metro_network_monitor.Base.{ℕ, suc, Bytes, bytes, List, [], ◌∷◌, Bool, true, false, length}
use metro_network_monitor.Network.Types.{Outcome, returns, ◌>>=◌}
use metro_network_monitor.Stomp.Commands.{send, subscribe}
use metro_network_monitor.Stomp.Headers.{
  ack_header, content_length_header, content_type_header, destination_header, id_header,
  receipt_header,
}
use metro_network_monitor.Stomp.Errors.{ok, eq_error}
use metro_network_monitor.Stomp.Parse.{Headers}
use metro_network_monitor.Stomp.Frame.{frame_of_parts}
use metro_network_monitor.Stomp.Decimal.{to_string}
use metro_network_monitor.Stomp.Compose.{HeaderOrder}
use metro_network_monitor.Stomp.Client.{
  Subscription, Client, ClientEffect, ws_connect, ws_close, ws_send, ws_send_subscribe, ws_send_for,
}

-- `Connect`, with the callbacks that are set.
unfoldable pub connect_client :
    Client → Bytes → Bytes → Bool → Bool → Bool → Client × List ClientEffect
connect_client s username password connect message disconnect = (
  record s {
    username = username;
    password = password;
    on_connect = connect;
    on_message = message;
    on_disconnect = disconnect;
  },
  ws_connect ∷ [],
)

unfoldable pub close_client : Client → Bool → Client × List ClientEffect
close_client s on_close = (record s { subscriptions = [] }, ws_close on_close ∷ [])

-- A request returns an ID, which is empty when nothing is sent.
abbrev pub Requested : Type 0
Requested = Outcome (Bytes × (Client × List ClientEffect))

abbrev pub subscribe_headers : Bytes → Bytes → Headers
subscribe_headers id destination =
    (id_header, id)
    ∷ (destination_header, destination)
    ∷ (ack_header, bytes "auto")
    ∷ (receipt_header, id)
    ∷ []

abbrev pub client_send_headers : Bytes → Bytes → Bytes → Headers
client_send_headers request_id destination content =
    (id_header, request_id)
    ∷ (destination_header, destination)
    ∷ (content_type_header, bytes "application/json")
    ∷ (content_length_header, to_string (length content))
    ∷ []

-- `Send` with the callback `onSend` if it is set.
abbrev pub client_send_text : Bytes → Bytes → Bool → ClientEffect
client_send_text text request_id false = ws_send text
client_send_text text request_id true = ws_send_for text request_id

-- `GenerateId`
abbrev pub next_id : (ℕ → Bytes) → Client → Bytes × Client
next_id generate_id s = (generate_id s.generated, record s { generated = suc s.generated })

unfoldable pub subscribe_to : HeaderOrder → (ℕ → Bytes) → Client → Bytes → Bool → Bool → Requested
subscribe_to o generate_id s destination on_subscribe on_message =
    let (id, s') = next_id generate_id s in
    let sub : Subscription = record {
      destination = destination;
      on_subscribe = on_subscribe;
      on_message = on_message;
    } in
    frame_of_parts subscribe (o.order (subscribe_headers id destination)) [] >>= λ (e, f).
    elim (eq_error e ok) [
      | false ↦ returns ([], (s', []))
      | true ↦ returns (id, (s', ws_send_subscribe f.plain id sub ∷ []))
    ]

unfoldable pub send_from : HeaderOrder → (ℕ → Bytes) → Client → Bytes → Bytes → Bool → Requested
send_from o generate_id s destination content on_send =
    let (request_id, s') = next_id generate_id s in
    frame_of_parts send (o.order (client_send_headers request_id destination content)) content
    >>= λ (e, f). elim (eq_error e ok) [
      | false ↦ returns ([], (s', []))
      | true ↦ returns (request_id, (s', client_send_text f.plain request_id on_send ∷ []))
    ]
