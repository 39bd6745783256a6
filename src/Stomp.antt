-- ===== src/Stomp.antt =====
-- The STOMP protocol (include/stomp-frame.h, src/stomp-frame.cpp).
pub mod Commands
pub mod Headers
pub mod Errors
pub mod Parse
pub mod Frame
pub mod Ends
pub mod Valid
pub mod RoundTrip
pub mod ServerErrors
pub mod Client
pub mod ClientErrors
pub mod Decimal
pub mod Compose
pub mod Server
pub mod Session
