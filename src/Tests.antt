-- ===== src/Tests.antt =====
-- The theorems at concrete inputs, module by module, and the data for that.
pub mod Sample
pub mod Codec
pub mod Checks
pub mod Cycles
pub mod Interleaving
pub mod Signals
pub mod Channels
pub mod Router
pub mod Handlers
pub mod Sockets
pub mod Watching
pub mod Failover
pub mod Polling
pub mod Sessions
