-- ===== src/Sync.antt =====
-- _sync.py: the connection, the command functions and the high-level types.
pub mod Conn
pub mod Commands
pub mod State
pub mod Hooks
pub mod Lifecycle
pub mod Renewal
pub mod Invariant
pub mod Grant
pub mod Leak
pub mod Interval
pub mod Session
pub mod Defaults
pub mod Close
