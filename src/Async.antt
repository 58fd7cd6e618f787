-- ===== src/Async.antt =====
-- _async.py: the asyncio mirror of _sync.py.
pub mod Conn
pub mod Commands
pub mod State
pub mod Hooks
pub mod Lifecycle
pub mod Renewal
pub mod Invariant
pub mod Leak
pub mod Interval
pub mod Grant
