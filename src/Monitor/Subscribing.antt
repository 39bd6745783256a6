-- ===== src/Monitor/Subscribing.antt =====
-- The monitor subscribes to the passenger events.
use metro_network_monitor.Base.{
  ℕ, suc, ◌≡◌, refl, ap, ◌∙◌, ◌≢◌, true, false, none, some, List, [], ◌∷◌, nat_eq, lookup, insert,
  lookup-insert_self, Bytes, bytes, bytes_eq,
}
use metro_network_monitor.Network.Types.{returns}
use metro_network_monitor.Stomp.Commands.{receipt, subscribe}
use metro_network_monitor.Stomp.Headers.{
  ack_header, destination_header, id_header, receipt_header, receipt_id_header, header_eq,
}
use metro_network_monitor.Stomp.Errors.{eq_error}
use metro_network_monitor.Stomp.Errors
use metro_network_monitor.Stomp.ClientErrors.{StompClientError, eq_client_error}
use metro_network_monitor.Stomp.ClientErrors
use metro_network_monitor.Stomp.Frame.{Frame, get_header_value, frame_of_text, frame_of_parts}
use metro_network_monitor.Stomp.RoundTrip.{lacks}
use metro_network_monitor.Stomp.Compose.{HeaderOrder}
use metro_network_monitor.Stomp.Client.{Subscription, Client, ws_send_subscribe, subscribe_done}
use metro_network_monitor.Stomp.Client.Handlers.{
  emplace, on_ws_send_subscribe, handle_subscription_receipt, handle_frame, on_ws_message,
}
use metro_network_monitor.Stomp.Client.Requests.{subscribe_headers, subscribe_to}
use metro_network_monitor.Stomp.Session.Parts.{IsValue, subscribe-ArePartsOf}
use metro_network_monitor.Stomp.Session.Frames.{Made, made}
use metro_network_monitor.Stomp.Session.Connecting.{on_ws_message-frame}
use metro_network_monitor.Monitor.{ok}
use metro_network_monitor.Monitor.State.{
  Libraries, Monitor, MonitorEffect, of_client, subscription_destination,
}
use metro_network_monitor.Monitor.Handlers.{is_nil, after_subscribe, on_network_events_connect}

abbrev pub passengers_subscription : Subscription
passengers_subscription = record {
  destination = subscription_destination;
  on_subscribe = true;
  on_message = true;
}

is_nil_ne : (v : Bytes) → v ≢ [] → is_nil v ≡ false
is_nil_ne [] full = absurd (full refl)
is_nil_ne (x ∷ v) full = refl

subscribe_to-made :
    (o : HeaderOrder) (generate_id : ℕ → Bytes) (c : Client) (f : Frame)
    → frame_of_parts subscribe
        (o.order (subscribe_headers (generate_id c.generated) subscription_destination))
        []
      ≡ returns (Errors.ok, f)
    → subscribe_to o generate_id c subscription_destination true true
      ≡ returns (
        generate_id c.generated,
        (
          record c { generated = suc c.generated },
          ws_send_subscribe f.plain (generate_id c.generated) passengers_subscription ∷ [],
        ),
      )
unfolding subscribe_to
subscribe_to-made o generate_id c f e = rw (e, subscribe_to) refl

receipt-known :
    (c : Client) (f : Frame) (sub : Subscription)
    → lookup (get_header_value f.headers receipt_id_header) c.subscriptions ≡ some sub
    → sub.on_subscribe ≡ true
    → handle_subscription_receipt c f ≡ (
      c,
      subscribe_done
            (get_header_value f.headers receipt_id_header)
            ClientErrors.ok
            (get_header_value f.headers receipt_id_header)
          ∷ [],
    )
unfolding handle_subscription_receipt
receipt-known c f sub found set = rw (found, handle_subscription_receipt) (rw set refl)

module _ (lib : Libraries) where
  open lib use {float}
  open float use {Double}

  after_subscribe-full :
      (m : Monitor Double) (id : Bytes) (es : List MonitorEffect)
      → id ≢ []
      → after_subscribe lib m id es ≡ returns (record m { last_error_code = ok }, es)
  unfolding after_subscribe
  after_subscribe-full m id es full = rw (is_nil_ne id full, after_subscribe) refl

  -- A subscription from the connection to the receipt.
  pub record Subscribed (m : Monitor Double) (c : Client) (answer : Bytes) : Type 0 where
    pub text : Bytes
    pub frame : Frame
    -- the monitor sends the SUBSCRIBE frame and records no error
    pub asks :
        on_network_events_connect lib m ClientErrors.ok
        ≡ returns (
          record m {
            client = some (record c { generated = suc c.generated });
            last_error_code = ok;
          },
          of_client (ws_send_subscribe text (lib.client_id c.generated) passengers_subscription)
              ∷ [],
        )
    -- the text is that of a SUBSCRIBE frame for the passenger events, which asks for a receipt
    pub parses : frame_of_text text ≡ returns (Errors.ok, frame)
    pub same_command : frame.command ≡ subscribe
    pub same_id : get_header_value frame.headers id_header ≡ lib.client_id c.generated
    pub same_destination : get_header_value frame.headers destination_header ≡ bytes "/passengers"
    pub same_ack : get_header_value frame.headers ack_header ≡ bytes "auto"
    pub same_receipt : get_header_value frame.headers receipt_header ≡ lib.client_id c.generated
    pub after : Client
    -- the client keeps the subscription when the frame is sent
    pub keeps :
        on_ws_send_subscribe
          (record c { generated = suc c.generated })
          false
          (lib.client_id c.generated)
          passengers_subscription
        ≡ (after, [])
    -- the receipt is passed on
    pub confirms :
        on_ws_message after false answer
        ≡ returns (
          after,
          subscribe_done (lib.client_id c.generated) ClientErrors.ok (lib.client_id c.generated)
              ∷ [],
        )

  -- When the client of the monitor is connected and the next ID is new to it and can be the value of a
  -- header, the monitor sends the text of a SUBSCRIBE frame with this ID and the destination
  -- `/passengers` that asks for a receipt with the ID, and records no error; when the text is sent the
  -- client keeps the subscription, and a RECEIPT frame with the ID posts the callback for it.
  pub subscribing-Subscribed :
      (m : Monitor Double) (c : Client) (answer : Bytes) (f : Frame)
      → m.client ≡ some c
      → IsValue (lib.client_id c.generated)
      → lookup (lib.client_id c.generated) c.subscriptions ≡ none
      → frame_of_text answer ≡ returns (Errors.ok, f)
      → f.command ≡ receipt
      → get_header_value f.headers receipt_id_header ≡ lib.client_id c.generated
      → Subscribed m c answer
  unfolding on_network_events_connect on_ws_send_subscribe handle_frame lacks lookup
  subscribing-Subscribed m c answer f here value new parses kind named =
      let id = lib.client_id c.generated in
      let asked : Made lib.header_order subscribe (subscribe_headers id subscription_destination)
          [] =
        made _ _ _ _ (
          subscribe-ArePartsOf id subscription_destination value
            (record { full = λ e. cc; line = refl })) in
      let after' : Client = record c {
        generated = suc c.generated;
        subscriptions = insert id passengers_subscription c.subscriptions;
      } in
      let kept : lookup id after'.subscriptions ≡ some passengers_subscription =
        lookup-insert_self id passengers_subscription c.subscriptions in
      record {
        text = asked.frame.plain;
        frame = asked.frame;
        parses = asked.again;
        same_command = asked.same_command;
        same_id = asked.value id_header _ refl;
        same_destination = asked.value destination_header _ refl;
        same_ack = asked.value ack_header _ refl;
        same_receipt = asked.value receipt_header _ refl;
        asks =
            rw
              (
                here,
                subscribe_to-made lib.header_order lib.client_id c asked.frame asked.parts,
                on_network_events_connect,
              )
              (after_subscribe-full
                (record m { client = some (record c { generated = suc c.generated }) }) id _
                value.full);
        after = after';
        keeps = rw (new, on_ws_send_subscribe, emplace) refl;
        confirms =
            on_ws_message-frame after' false answer f parses
            ∙ (ap (λ v. returns (handle_frame after' f v)) kind
                ∙ (ap returns (
                      receipt-known after' f passengers_subscription
                        (ap (λ v. lookup v after'.subscriptions) named ∙ kept) refl)
                    ∙ ap (λ v. returns (after', subscribe_done v ClientErrors.ok v ∷ [])) named));
      }
