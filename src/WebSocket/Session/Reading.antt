-- ===== src/WebSocket/Session/Reading.antt =====
-- The reads of a session.
use metro_network_monitor.Base.{
  ◌≡◌, refl, Bytes, List, [], ◌∷◌, ◌++◌, Bool, true, false, not, ◌&&◌, All,
}
use metro_network_monitor.WebSocket.{
  ErrorCode, success, aborted, closed_by_peer, failure, StreamEffect, reads, tells_disconnect,
  calls,
}
use metro_network_monitor.WebSocket.Reads.{follow, messages, follow-messages}
use metro_network_monitor.WebSocket.Session.{
  WebSocketSession, is_over, on_session_read, after_session_read, session_listen,
}

-- What comes of a read when the reads from it on end with the codes and with the buffers.
pub session_reading : WebSocketSession → List (ErrorCode × Bytes) → List StreamEffect
unfolding after_session_read
session_reading s [] = reads ∷ []
session_reading s ((e, msg) ∷ ends) = follow (after_session_read s e msg) (session_reading s ends)

last_read :
    (s : WebSocketSession) (e : ErrorCode) (msg : Bytes) (after : List (ErrorCode × Bytes))
    → is_over e ≡ true
    → session_reading s ((e, msg) ∷ after)
      ≡ calls (s.on_disconnect && not s.closed) (tells_disconnect e)
unfolding session_reading after_session_read on_session_read session_listen
last_read s success msg after over = cc
last_read s aborted msg after over = told (s.on_disconnect && not s.closed)
  where
    told :
        (b : Bool)
        → follow (calls b (tells_disconnect aborted)) (session_reading s after)
          ≡ calls b (tells_disconnect aborted)
    told true = refl
    told false = refl
last_read s closed_by_peer msg after over = told (s.on_disconnect && not s.closed)
  where
    told :
        (b : Bool)
        → follow (calls b (tells_disconnect closed_by_peer)) (session_reading s after)
          ≡ calls b (tells_disconnect closed_by_peer)
    told true = refl
    told false = refl
last_read s (failure n) msg after over = cc

-- A session whose reads end, the last of them because the connection is closed or aborted, gives its
-- user the messages of the reads that succeed, and then tells of the disconnection, with its code, when
-- the callback is set and the session was not closed from this side; it reads no more.
pub session_reading-messages :
    (s : WebSocketSession) (before after : List (ErrorCode × Bytes)) (e : ErrorCode) (msg : Bytes)
    → All (λ (r : ErrorCode × Bytes). is_over r.0 ≡ false) before
    → is_over e ≡ true
    → session_reading s (before ++ ((e, msg) ∷ after))
      ≡ messages s.on_message before ++ calls (s.on_disconnect && not s.closed) (tells_disconnect e)
unfolding session_reading messages after_session_read on_session_read session_listen
session_reading-messages s [] after e msg h over = last_read s e msg after over
session_reading-messages s ((success, m) ∷ before) after e msg (h, hs) over =
    follow-messages s.on_message success m (messages s.on_message before) _ _
      (session_reading-messages s before after e msg hs over)
session_reading-messages s ((aborted, m) ∷ before) after e msg (h, hs) over = cc
session_reading-messages s ((closed_by_peer, m) ∷ before) after e msg (h, hs) over = cc
session_reading-messages s ((failure n, m) ∷ before) after e msg (h, hs) over =
    session_reading-messages s before after e msg hs over
