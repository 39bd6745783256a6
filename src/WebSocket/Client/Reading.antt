-- ===== src/WebSocket/Client/Reading.antt =====
-- The reads of the WebSocket client.
use metro_network_monitor.Base.{Bytes, List, [], ◌∷◌}
use metro_network_monitor.WebSocket.{ErrorCode, StreamEffect, reads}
use metro_network_monitor.WebSocket.Reads.{follow}
use metro_network_monitor.WebSocket.Client.{WebSocketClient, after_read}

-- What comes of a read when the reads from it on end with the codes and with the buffers.
pub reading : WebSocketClient → List (ErrorCode × Bytes) → List StreamEffect
unfolding after_read
reading c [] = reads ∷ []
reading c ((e, msg) ∷ ends) = follow (after_read c e msg) (reading c ends)
