-- ===== src/Examples/TwoPhase.antt =====
-- The programs that enqueue first and wait later: examples/two_phase_demo.py, and
-- `_demo_lock_ordering` of examples/client_demo.py. What they print is left out.
--
-- What happens while a program sleeps is a parameter: rounds of the renew task, and a cancellation.
pub mod Ends
use dflockd_client_py.Base.{Bool, true, false, none, some, if◌then◌else◌}
use dflockd_client_py.Base.Int.{pos}
use dflockd_client_py.Errors.{Result, ok, err}
use dflockd_client_py.Action.{Action, pure, continue, ◌>>=◌, ◌>>◌, leave}
use dflockd_client_py.Protocol.Validate.{Scalar}
use dflockd_client_py.Async.State.{AsyncBase}
use dflockd_client_py.Async.Lifecycle.{enqueue_unlocked, wait_unlocked, release_unlocked}

-- A release whose result is not used.
abbrev pub released : Action AsyncBase (Unit {0})
released = do _ ← release_unlocked; pure tt

module _ (sleep : Action AsyncBase (Unit {0})) where
  -- What follows the wait.
  abbrev pub if_granted : Bool → Action AsyncBase (Unit {0})
  if_granted granted s = if granted then (sleep >> released) s else (ok tt, s)

  -- `demo_two_phase`, of the object that it constructed.
  pub demo_two_phase : Action AsyncBase (Unit {0})
  demo_two_phase = do
    _ ← enqueue_unlocked
    granted ← wait_unlocked (some (Scalar.int (pos 10)))
    if_granted granted

  -- `_two_phase_worker`
  pub two_phase_worker : Action AsyncBase (Unit {0})
  two_phase_worker = do
    _ ← enqueue_unlocked
    granted ← wait_unlocked (some (Scalar.int (pos 30)))
    if_granted granted

  -- `_demo_lock_ordering`, with `finally: await task_info.lock.release()`.
  pub demo_lock_ordering : Action AsyncBase (Unit {0})
  demo_lock_ordering = do
    granted ← wait_unlocked none
    λ s. if granted then leave released (sleep s) else (ok tt, s)
