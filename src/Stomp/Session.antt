-- ===== src/Stomp/Session.antt =====
-- The STOMP client and the STOMP server over one WebSocket session (include/stomp-client.h,
-- include/stomp-server.h).
pub mod Parts
pub mod Frames
pub mod Connecting
pub mod Sending
pub mod Closing
