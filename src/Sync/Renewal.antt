-- ===== src/Sync/Renewal.antt =====
-- The renew thread: one round of its loop, and the calls and rounds that can follow one another.
pub mod Ends
pub mod Stale
pub mod Steps
use dflockd_client_py.Base.{
  ℕ, Bool, true, false, ◌&&◌, ◌||◌, not, Option, none, some, ◌==◌, if◌then◌else◌, ◌≡◌, any, Str,
}
use dflockd_client_py.Base.Int.{ℤ, pos, ltb_ℤ}
use dflockd_client_py.Errors.{exception, is_subclass, class_of, Result, ok, err}
use dflockd_client_py.Action.{Action}
use dflockd_client_py.Protocol.Validate.{Scalar}
use dflockd_client_py.Sync.State.{SyncBase, close_conn, without}
use dflockd_client_py.Sync.Hooks.{proto_renew}
use dflockd_client_py.Sync.Lifecycle.{
  clear_held_state, close_unlocked, acquire_unlocked, enqueue_unlocked, wait_unlocked,
  release_unlocked,
}

abbrev pub is_conn : Option ℕ → ℕ → Bool
is_conn none i = false
is_conn (some j) i = j == i

-- The log line is left out.
unfoldable pub handle_renew_failure : ℕ → SyncBase → SyncBase
handle_renew_failure i s =
    if is_conn s.conn i then close_conn i (clear_held_state (record s { conn = none })) else s

-- The `try`. What is no `Exception` passes, and ends the thread.
abbrev pub settle_renew : ℕ → Result ℤ × SyncBase → Result (Option ℤ) × SyncBase
settle_renew i (ok remaining, s) = (ok (some remaining), s)
settle_renew i (err e, s) =
    if is_subclass (class_of e) exception then (ok none, handle_renew_failure i s) else (err e, s)

abbrev pub renew_if_held : Option ℕ → Option Str → Action SyncBase (Option ℤ)
renew_if_held none token s = (ok none, s)
renew_if_held (some i) none s = (ok none, s)
renew_if_held (some i) (some token) s = settle_renew i (proto_renew s.config.kind i token s)

unfoldable pub safe_renew_once : Action SyncBase (Option ℤ)
unfolding handle_renew_failure
safe_renew_once s = renew_if_held s.conn s.token s

-- `_renew_tick` of the thread with the stop event `e`, under `_io_lock`.
unfoldable pub renew_tick : ℕ → Action SyncBase (Option ℤ)
renew_tick e s = if s.closed || s.events e then (ok none, s) else safe_renew_once s

abbrev pub is_some {ℓ} : {A : Type ℓ} → Option A → Bool
is_some none = false
is_some (some a) = true

unfoldable pub update_lease : ℤ → SyncBase → SyncBase
update_lease remaining s =
    if ltb_ℤ (pos 0) remaining && is_some s.token && not s.closed
    then record s { lease = remaining }
    else s

-- The thread with the event `e` ends.
unfoldable pub end_thread : ℕ → SyncBase → SyncBase
end_thread e s = record s { running = without e s.running }

-- What the loop does with the tick's result.
abbrev pub after_tick : ℕ → Result (Option ℤ) × SyncBase → SyncBase
after_tick e (err x, s) = end_thread e s
after_tick e (ok none, s) = end_thread e s
after_tick e (ok (some remaining), s) =
    if s.events e then end_thread e s else update_lease remaining s

-- One round of `_renew_loop` after its sleep: `wait` returns whether the event is set.
unfoldable pub loop_round : ℕ → SyncBase → SyncBase
loop_round e s = if s.events e then end_thread e s else after_tick e (renew_tick e s)

-- What can happen to an object: a public method is called, or a running thread makes a round.
pub data Event : Type 0 where
  acquire enqueue release close : Event
  wait : Option Scalar → Event
  round : ℕ → Event

unfoldable pub perform : Event → SyncBase → SyncBase
perform acquire s = (acquire_unlocked s).1
perform enqueue s = (enqueue_unlocked s).1
perform release s = (release_unlocked s).1
perform close s = close_unlocked s
perform (wait timeout_s) s = (wait_unlocked timeout_s s).1
perform (round e) s = loop_round e s

-- A round is made by a thread that runs; the calls can be made at any time.
abbrev pub Allowed : Event → SyncBase → Type 0
Allowed (round e) s = any (λ d. d == e) s.running ≡ true
Allowed acquire s = Unit
Allowed enqueue s = Unit
Allowed release s = Unit
Allowed close s = Unit
Allowed (wait timeout_s) s = Unit

pub data Step (s : SyncBase) (t : SyncBase) : Type 0 where
  step : (x : Event) → Allowed x s → t ≡ perform x s → Step s t

pub data Reach (s : SyncBase) : SyncBase → Type 0 where
  here : Reach s s
  next : {t u : SyncBase} → Reach s t → Step t u → Reach s u
