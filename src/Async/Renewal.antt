-- ===== src/Async/Renewal.antt =====
-- The renew task: one round of its loop, and the calls and rounds that can follow one another.
use dflockd_client_py.Base.{ℕ, true, ◌&&◌, not, Option, none, some, ◌==◌, if◌then◌else◌, ◌≡◌, any}
use dflockd_client_py.Base.Int.{ℤ, pos, ltb_ℤ}
use dflockd_client_py.Base.{Str}
use dflockd_client_py.Errors.{exception, is_subclass, class_of, Result, ok, err}
use dflockd_client_py.Action.{Action}
use dflockd_client_py.Protocol.Validate.{Scalar}
use dflockd_client_py.Sync.Renewal.{is_conn, is_some}
use dflockd_client_py.Async.State.{AsyncBase, close_conn_nowait, end_task}
use dflockd_client_py.Async.Hooks.{proto_renew}
use dflockd_client_py.Async.Lifecycle.{
  clear_held_state, close_unlocked, acquire_unlocked, enqueue_unlocked, wait_unlocked,
  release_unlocked,
}

-- The log line is left out.
abbrev forget_conn : ℕ → AsyncBase → AsyncBase
forget_conn i s =
    if is_conn s.conn i
    then close_conn_nowait i (clear_held_state (record s { conn = none }))
    else s

unfoldable pub handle_renew_failure : ℕ → AsyncBase → AsyncBase
handle_renew_failure i s = if s.closed then s else forget_conn i s

-- The `try`. What is no `Exception` passes, and ends the task.
abbrev pub settle_renew : ℕ → Result ℤ × AsyncBase → Result (Option ℤ) × AsyncBase
settle_renew i (ok remaining, s) = (ok (some remaining), s)
settle_renew i (err e, s) =
    if is_subclass (class_of e) exception then (ok none, handle_renew_failure i s) else (err e, s)

abbrev pub renew_if_held : Option ℕ → Option Str → Action AsyncBase (Option ℤ)
renew_if_held none token s = (ok none, s)
renew_if_held (some i) none s = (ok none, s)
renew_if_held (some i) (some token) s = settle_renew i (proto_renew s.config.kind i token s)

unfoldable pub safe_renew_once : Action AsyncBase (Option ℤ)
safe_renew_once s = renew_if_held s.conn s.token s

-- `_renew_tick`, under `_io_lock`.
unfoldable pub renew_tick : Action AsyncBase (Option ℤ)
renew_tick s = if s.closed then (ok none, s) else safe_renew_once s

unfoldable pub update_lease : ℤ → AsyncBase → AsyncBase
update_lease remaining s =
    if ltb_ℤ (pos 0) remaining && is_some s.token && not s.closed
    then record s { lease = remaining }
    else s

-- What the loop does with the tick's result.
abbrev pub after_tick : ℕ → Result (Option ℤ) × AsyncBase → AsyncBase
after_tick e (err x, s) = end_task e s
after_tick e (ok none, s) = end_task e s
after_tick e (ok (some remaining), s) = update_lease remaining s

-- One round of `_renew_loop_body` of the task `e`, after its sleep.
unfoldable pub loop_round : ℕ → AsyncBase → AsyncBase
loop_round e s = after_tick e (renew_tick s)

-- What can happen to an object: a public method is called, or a running task makes a round.
pub data Event : Type 0 where
  acquire enqueue release close : Event
  wait : Option Scalar → Event
  round : ℕ → Event

unfoldable pub perform : Event → AsyncBase → AsyncBase
perform acquire s = (acquire_unlocked s).1
perform enqueue s = (enqueue_unlocked s).1
perform release s = (release_unlocked s).1
perform close s = (close_unlocked s).1
perform (wait timeout_s) s = (wait_unlocked timeout_s s).1
perform (round e) s = loop_round e s

-- A round is made by a task that runs; the calls can be made at any time.
abbrev pub Allowed : Event → AsyncBase → Type 0
Allowed (round e) s = any (λ d. d == e) s.running ≡ true
Allowed acquire s = Unit
Allowed enqueue s = Unit
Allowed release s = Unit
Allowed close s = Unit
Allowed (wait timeout_s) s = Unit

pub data Step (s : AsyncBase) (t : AsyncBase) : Type 0 where
  step : (x : Event) → Allowed x s → t ≡ perform x s → Step s t

pub data Reach (s : AsyncBase) : AsyncBase → Type 0 where
  here : Reach s s
  next : {t u : AsyncBase} → Reach s t → Step t u → Reach s u
