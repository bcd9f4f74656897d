-- ===== src/Ws.antt =====
-- proxy/ws.rs: the WebSocket proxy.
pub mod Json
pub mod Tracker
pub mod Messages
pub mod Replay
pub mod Session
pub mod Watch
pub mod Signals
pub mod Channels
