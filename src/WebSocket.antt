-- ===== src/WebSocket.antt =====
-- The wrappers of Boost.Beast (include/websocket-client.h, include/websocket-server.h): the error codes
-- of Boost, and what a wrapper does outside its state.
pub mod Reads
pub mod Client
pub mod Session
pub mod Server
use metro_network_monitor.Base.{ℕ, Bytes, List, [], ◌∷◌, Bool, true, false, if◌then◌else◌}

-- `boost::system::error_code`: success, `boost::asio::error::operation_aborted`,
-- `boost::beast::websocket::error::closed`, and all other codes.
pub data ErrorCode : Type 0 where
  success aborted closed_by_peer : ErrorCode
  failure : ℕ → ErrorCode

-- The conversion to `bool`.
abbrev pub is_failure : ErrorCode → Bool
is_failure success = false
is_failure e = true

-- In order: the asynchronous operations that are started, each to be completed by one call of its
-- handler, and the calls of the user's callbacks. A write and a close keep whether they have a
-- callback of the user.
pub data StreamEffect : Type 0 where
  resolves connects_socket dispatches shakes_tls shakes_web_socket reads : StreamEffect
  writes : Bytes → Bool → StreamEffect
  closes : Bool → StreamEffect
  tells_connect : ErrorCode → StreamEffect
  tells_message : ErrorCode → Bytes → StreamEffect
  tells_disconnect : ErrorCode → StreamEffect
  tells_sent : ErrorCode → StreamEffect
  tells_closed : ErrorCode → StreamEffect

-- A callback that is called if it is set.
abbrev pub calls : Bool → StreamEffect → List StreamEffect
calls set effect = if set then effect ∷ [] else []
