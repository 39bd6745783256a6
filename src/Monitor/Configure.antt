-- ===== src/Monitor/Configure.antt =====
-- `Configure` (include/network-monitor.h).
use metro_network_monitor.Base.{
  Bytes, bytes, List, [], ◌++◌, Bool, true, false, Option, none, some, map, if◌then◌else◌,
}
use metro_network_monitor.Files.{Files, download_file, parse_json_file}
use metro_network_monitor.Network.Types.{Outcome, returns, throws, ◌>>=◌}
use metro_network_monitor.Network.Json.{
  Loaded, loaded, bad_json, bad_station, bad_line, network_left, network_of_json,
}
use metro_network_monitor.Stomp.ServerErrors.{StompServerError, eq_server_error}
use metro_network_monitor.Stomp.ServerErrors
use metro_network_monitor.Stomp.Client.{new_client}
use metro_network_monitor.Stomp.Client.Requests.{connect_client}
use metro_network_monitor.Stomp.Server.{new_server}
use metro_network_monitor.Stomp.Server.Requests.{run}
use metro_network_monitor.Monitor.{
  NetworkMonitorError, ok, could_not_start_stomp_server, failed_network_layout_file_download,
  failed_network_layout_file_parsing, failed_transport_network_construction, missing_ca_cert_file,
  missing_network_layout_file,
}
use metro_network_monitor.Monitor.State.{
  Libraries, Config, Monitor, MonitorEffect, of_client, of_server, network_layout_endpoint,
}
use metro_network_monitor.Monitor.Handlers.{is_nil}

-- The TLS contexts: a certificate that cannot be loaded is an exception with a message. `starts_server`
-- says whether the WebSocket server starts.
pub record Outside : Type 0 where
  pub certificate_error : Bytes → Option Bytes
  pub server_certificate_error : Option Bytes
  pub starts_server : Bool

module _ (lib : Libraries) (files : Files lib.json) (outside : Outside) where
  open lib use {float, json}
  open float use {Double}

  abbrev pub Configured : Type 0
  Configured = Outcome (NetworkMonitorError × (Monitor Double × List MonitorEffect))

  -- The sanity checks and the download; `none` stands for success.
  unfoldable pub prepare : Config Double → Option NetworkMonitorError
  prepare config = elim (files.exists config.ca_cert_file) [
    | false ↦ some missing_ca_cert_file
    | true ↦ elim (is_nil config.network_layout_file) [
      | false ↦
          if files.exists config.network_layout_file then none else some missing_network_layout_file
      | true ↦
          let url = bytes "https://" ++ (config.network_events_url ++ network_layout_endpoint) in
          if download_file json files url files.layout_file config.ca_cert_file
          then none
          else some failed_network_layout_file_download
    ]
  ]

  abbrev pub layout_file_of : Config Double → Bytes
  layout_file_of config =
      if is_nil config.network_layout_file then files.layout_file else config.network_layout_file

  -- `load_verify_file`, and `LoadTestServerCertificate`, where an exception ends the method.
  abbrev pub or_throw : Option Bytes → Configured → Configured
  or_throw none k = k
  or_throw (some text) k = throws text

  -- The STOMP server is made and started.
  unfoldable pub start_server : Monitor Double → Config Double → List MonitorEffect → Configured
  start_server m config es = or_throw (outside.certificate_error config.ca_cert_file) (
      or_throw outside.server_certificate_error (
        let (e, (s, fs)) =
          run (new_server config.quiet_route_hostname) true true true true
            (if outside.starts_server then false else true) in
        let m' = record m { server = some s } in
        let all = es ++ map of_server fs in
        elim (eq_server_error e ServerErrors.ok) [
          | false ↦ returns (could_not_start_stomp_server, (m', all))
          | true ↦ returns (ok, (record m' { config = config }, all))
        ]))

  -- The STOMP client is made and connected, then the server.
  unfoldable pub start_client : Monitor Double → Config Double → Configured
  unfolding start_server
  start_client m config = or_throw (outside.certificate_error config.ca_cert_file) (
      let (c, es) =
        connect_client (new_client config.network_events_url) config.network_events_username
          config.network_events_password true false true in
      start_server (record m { client = some c }) config (map of_client es))

  abbrev pub is_loaded : Loaded → Bool
  is_loaded (loaded done net) = done
  is_loaded (bad_json net) = false
  is_loaded (bad_station id net) = false
  is_loaded (bad_line id net) = false

  unfoldable pub configure : Monitor Double → Config Double → Configured
  unfolding prepare start_client
  configure m config = elim (prepare config) [
    | some e ↦ returns (e, (m, []))
    | none ↦
        let parsed = parse_json_file json files (layout_file_of config) in
        elim (json.is_empty parsed) [
          | true ↦ returns (failed_network_layout_file_parsing, (m, []))
          | false ↦ network_of_json json m.network parsed >>= λ l.
              let m' = record m { network = network_left l } in
              elim (is_loaded l) [
                | false ↦ returns (failed_transport_network_construction, (m', []))
                | true ↦ start_client m' config
              ]
        ]
  ]
