-- ===== src/Search.antt =====
-- Path finding over the network (src/transport-network.cpp).
pub mod Stops
pub mod Queue
pub mod Dijkstra
pub mod Fastest
pub mod Alternatives
pub mod Quiet
