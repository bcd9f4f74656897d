-- ===== src/UnitTests.antt =====
-- The program's own unit tests, as Boolean tests of the definitions: `assert!` is a conjunct, and a
-- mocked server is a network that answers as it does.
pub mod Selection
pub mod El
pub mod Cl
pub mod State
pub mod Tracker
pub mod Monitor
pub mod Http
pub mod Config
