-- ===== src/Examples.antt =====
-- The programs under `examples` that use the client.
pub mod Servers
pub mod Bench
pub mod TwoPhase
pub mod Demos
