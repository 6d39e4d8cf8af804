-- ===== src/Examples.antt =====
-- The theorems at concrete inputs.
pub mod Messages
pub mod Services
pub mod Sessions
pub mod Exchanges
pub mod Edges
