-- ===== src/Health.antt =====
-- health/: the checks of the nodes.
pub mod Number
pub mod Net
pub mod El
pub mod Cl
pub mod Hex
pub mod Grace
pub mod Beacon
