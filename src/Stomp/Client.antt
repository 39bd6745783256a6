-- ===== src/Stomp/Client.antt =====
-- The STOMP client (include/stomp-client.h): its state and what it asks of its surroundings.
pub mod Handlers
pub mod Requests
use metro_network_monitor.Base.{ℕ, Bytes, List, [], Bool}
use metro_network_monitor.Network.Types.{Outcome}
use metro_network_monitor.Stomp.ClientErrors.{StompClientError}

-- The flags say which of the user's callbacks are set.
pub record Subscription : Type 0 where
  pub destination : Bytes
  pub on_subscribe : Bool
  pub on_message : Bool

-- `url` is `url_`, the flags say which of the user's callbacks are set, and `generated` counts the IDs
-- generated so far.
pub record Client : Type 0 where
  pub url : Bytes
  pub on_connect : Bool
  pub on_message : Bool
  pub on_disconnect : Bool
  pub username : Bytes
  pub password : Bytes
  pub subscriptions : List (Bytes × Subscription)
  pub generated : ℕ

-- What the client does outside its state, in order: calls of the WebSocket client, with what their
-- callback keeps, and the user's callbacks that are posted. A callback of a subscription is named by
-- the subscription's ID.
pub data ClientEffect : Type 0 where
  ws_connect : ClientEffect
  ws_close : Bool → ClientEffect
  ws_send : Bytes → ClientEffect
  ws_send_stomp : Bytes → ClientEffect
  ws_send_subscribe : Bytes → Bytes → Subscription → ClientEffect
  ws_send_for : Bytes → Bytes → ClientEffect
  connect_done : StompClientError → ClientEffect
  message_received : StompClientError → Bytes → Bytes → ClientEffect
  disconnected : StompClientError → ClientEffect
  close_done : StompClientError → ClientEffect
  send_done : StompClientError → Bytes → ClientEffect
  subscribe_done : Bytes → StompClientError → Bytes → ClientEffect
  subscription_message : Bytes → StompClientError → Bytes → ClientEffect

-- A handler leaves a state and a list of effects.
abbrev pub ClientHandled : Type 0
ClientHandled = Outcome (Client × List ClientEffect)

-- The constructor.
abbrev pub new_client : Bytes → Client
new_client url = record {
  url = url;
  on_connect = Bool.false;
  on_message = Bool.false;
  on_disconnect = Bool.false;
  username = [];
  password = [];
  subscriptions = [];
  generated = 0;
}
