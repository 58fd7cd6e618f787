-- ===== src/Tests.antt =====
-- Runs of the theorems at concrete values.
pub mod Overflow
pub mod Protocol
pub mod Wire
pub mod Object
pub mod Async
pub mod Stats
pub mod Interval
pub mod Session
pub mod Threads
pub mod Examples
