-- ===== src/Async/Invariant.antt =====
-- The invariant of an async lock object between two calls or rounds.
pub mod Defs
pub mod Touch
pub mod With
pub mod Closing
pub mod Resetting
pub mod Opening
pub mod Grants
pub mod Calls
pub mod Ends
pub mod Rounds
