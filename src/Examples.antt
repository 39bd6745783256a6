-- ===== src/Examples.antt =====
-- Concrete instances: rules of the queue and the sort, a small network, and the theorems applied to
-- them.
pub mod Rules
pub mod Small
pub mod Witnesses
pub mod Frames
pub mod Sessions
pub mod Monitors
pub mod Values
pub mod Streams
pub mod Paths
pub mod Subscriptions
pub mod Layouts
