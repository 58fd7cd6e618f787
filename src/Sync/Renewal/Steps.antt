-- ===== src/Sync/Renewal/Steps.antt =====
-- The renew thread's round in the steps between which another thread can run.
--
-- A tick holds `_io_lock`. What follows it, the test of the stop event and `_update_lease`, holds
-- no lock, and a call that has given up joining the thread can come between its steps.
pub mod Late
use dflockd_client_py.Base.{ℕ, zero, suc, Bool, ◌&&◌, not, Option, none, some, if◌then◌else◌}
use dflockd_client_py.Base.Int.{ℤ, pos, ltb_ℤ}
use dflockd_client_py.Errors.{Result, ok, err}
use dflockd_client_py.Sync.State.{SyncBase}
use dflockd_client_py.Sync.Renewal.{is_some, renew_tick, end_thread}

-- Where the thread stands: it sleeps; or its tick returned a time; or it has seen that the event
-- is not set; or the test of `_update_lease` has passed; or it has ended.
pub data Place : Type 0 where
  asleep : Place
  answered : ℤ → Place
  unstopped : ℤ → Place
  tested : ℤ → Place
  ended : Place

abbrev pub ends_at : ℕ → SyncBase → Place × SyncBase
ends_at e s = (ended, end_thread e s)

abbrev placed : ℕ → Result (Option ℤ) × SyncBase → Place × SyncBase
placed e (err x, s) = ends_at e s
placed e (ok none, s) = ends_at e s
placed e (ok (some remaining), s) = (answered remaining, s)

-- The test of `_update_lease`.
abbrev pub may_update : ℤ → SyncBase → Bool
may_update remaining s = ltb_ℤ (pos 0) remaining && is_some s.token && not s.closed

-- One step of the thread with the event `e`.
unfoldable pub thread_step : ℕ → Place × SyncBase → Place × SyncBase
thread_step e (asleep, s) = if s.events e then ends_at e s else placed e (renew_tick e s)
thread_step e (answered remaining, s) = if s.events e then ends_at e s else (unstopped remaining, s)
thread_step e (unstopped remaining, s) =
    if may_update remaining s then (tested remaining, s) else (asleep, s)
thread_step e (tested remaining, s) = (asleep, record s { lease = remaining })
thread_step e (ended, s) = (ended, s)

unfoldable pub thread_steps : ℕ → ℕ → Place × SyncBase → Place × SyncBase
unfolding thread_step
thread_steps zero e x = x
thread_steps (suc n) e x = thread_steps n e (thread_step e x)
