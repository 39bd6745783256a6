-- ===== src/Monitor/Callbacks.antt =====
-- The callbacks that `Configure` and `OnNetworkEventsConnect` hand to the STOMP client and to the STOMP
-- server (include/network-monitor.h).
use metro_network_monitor.Base.{List, [], ◌∷◌, ◌++◌}
use metro_network_monitor.Network.Types.{returns, ◌>>=◌}
use metro_network_monitor.Stomp.Client.{
  ClientEffect, connect_done, disconnected, subscribe_done, subscription_message,
}
use metro_network_monitor.Stomp.Server.{
  Effect, client_connected, client_message, client_disconnected, server_disconnected,
}
use metro_network_monitor.Monitor.State.{
  Libraries, Monitor, MonitorEffect, of_client, of_server, MonitorHandled,
}
use metro_network_monitor.Monitor.Handlers.{
  on_network_events_connect, on_network_events_disconnect, on_subscribe, on_network_events_message,
  on_quiet_route_client_connect, on_quiet_route_client_message, on_quiet_route_client_disconnect,
  on_quiet_route_disconnect,
}

module _ (lib : Libraries) where
  open lib use {float}
  open float use {Double}

  -- A callback of the client that is posted. The client is given no callback for messages that are not
  -- of a subscription.
  unfoldable pub on_client_effect : Monitor Double → ClientEffect → MonitorHandled Double
  unfolding on_network_events_connect on_network_events_disconnect on_subscribe
      on_network_events_message
  on_client_effect m (connect_done e) = on_network_events_connect lib m e
  on_client_effect m (disconnected e) = returns (on_network_events_disconnect lib m e)
  on_client_effect m (subscribe_done id e sid) = returns (on_subscribe lib m e sid)
  on_client_effect m (subscription_message id e msg) =
      returns (on_network_events_message lib m e msg)
  on_client_effect m _ = returns (m, [])

  -- A callback of the server that is posted.
  unfoldable pub on_server_effect : Monitor Double → Effect → MonitorHandled Double
  unfolding on_quiet_route_client_connect on_quiet_route_client_message
      on_quiet_route_client_disconnect on_quiet_route_disconnect
  on_server_effect m (client_connected e id) = returns (on_quiet_route_client_connect lib m e id)
  on_server_effect m (client_message e id destination request_id msg) =
      on_quiet_route_client_message lib m e id destination request_id msg
  on_server_effect m (client_disconnected e id) =
      returns (on_quiet_route_client_disconnect lib m e id)
  on_server_effect m (server_disconnected e) = returns (on_quiet_route_disconnect lib m e)
  on_server_effect m _ = returns (m, [])

  unfoldable pub on_effect : Monitor Double → MonitorEffect → MonitorHandled Double
  unfolding on_client_effect on_server_effect
  on_effect m (of_client e) = on_client_effect m e
  on_effect m (of_server e) = on_server_effect m e

  -- The callbacks that are posted, one after the other.
  unfoldable pub on_effects : Monitor Double → List MonitorEffect → MonitorHandled Double
  unfolding on_effect
  on_effects m [] = returns (m, [])
  on_effects m (e ∷ es) =
      on_effect m e >>= λ (m', fs). on_effects m' es >>= λ (m'', gs). returns (m'', fs ++ gs)
