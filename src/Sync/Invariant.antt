-- ===== src/Sync/Invariant.antt =====
-- The invariant of a lock object between two calls or rounds.
pub mod Defs
pub mod Touch
pub mod With
pub mod Closing
pub mod Opening
pub mod Grants
pub mod Calls
pub mod Ends
pub mod Rounds
use dflockd_client_py.Base.{ℕ, ◌≤◌, ◌<◌, ◌≡◌, ◌≢◌, true, Option, none, some, Str}
use dflockd_client_py.Base.Int.{ℤ, pos}
use dflockd_client_py.Sync.State.{SyncBase}
