-- ===== src/Network.antt =====
-- The transport network (include/transport-network.h, src/transport-network.cpp).
pub mod Json
pub mod Types
pub mod Build
pub mod Passengers
pub mod Serving
pub mod Times
pub mod WellFormed
pub mod Counts
pub mod Adjacent
pub mod Stations
