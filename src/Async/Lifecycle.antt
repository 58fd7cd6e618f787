-- ===== src/Async/Lifecycle.antt =====
-- The methods of `_AsyncBase`. A public method holds `_state_lock`, and what it sends goes out
-- under the connection's lock; each is a function on the state.
use dflockd_client_py.Base.{
  ℕ, ◌+◌, ◌&&◌, Bool, true, false, Option, none, some, ◌∷◌, Str, codes, if◌then◌else◌,
}
use dflockd_client_py.Base.Int.{ℤ, pos}
use dflockd_client_py.Errors.{
  exception, dflockd_timeout_error, runtime_error, timeout_error, not_connected, timed_out,
  is_subclass, class_of, Result, ok, err, raise,
}
use dflockd_client_py.Action.{Action, continue, with_statement}
use dflockd_client_py.Protocol.Validate.{Scalar}
use dflockd_client_py.Protocol.Decode.{Enqueued, acquired, queued}
use dflockd_client_py.Async.State.{AsyncBase, close_conn_nowait, close_conn, await_point, end_task}
use dflockd_client_py.Async.Hooks.{
  proto_acquire, proto_release, proto_enqueue, proto_wait, open_and_authenticate,
}

-- ----- the renew task

-- `_cancel_and_wait`: what the task itself raises is dropped, a cancellation of the caller is not.
unfoldable pub cancel_and_wait : ℕ → Action AsyncBase (Unit {0})
unfolding await_point end_task
cancel_and_wait e s = await_point (end_task e s)

-- No method is called by the renew task.
abbrev pub cancel_held : Option ℕ → Action AsyncBase (Unit {0})
cancel_held none s = (ok tt, s)
cancel_held (some e) s = cancel_and_wait e s

unfoldable pub cancel_renew : Action AsyncBase (Unit {0})
cancel_renew s = cancel_held s.renew_task (record s { renew_task = none })

unfoldable pub cancel_renew_locked : Action AsyncBase (Unit {0})
cancel_renew_locked s = cancel_held s.renew_task (record s { renew_task = none })

unfoldable pub start_renew : AsyncBase → AsyncBase
start_renew s = record s {
  renew_task = some s.started;
  started = s.started + 1;
  running = s.started ∷ s.running;
}

-- ----- closing

unfoldable pub clear_held_state : AsyncBase → AsyncBase
clear_held_state s = record s { token = none; lease = pos 0 }

-- The state after `_detach_conn`, which returns the connection that `s` has.
unfoldable pub detach_conn : AsyncBase → AsyncBase
unfolding clear_held_state
detach_conn s = clear_held_state (record s { conn = none })

abbrev pub is_none {ℓ} : {A : Type ℓ} → Option A → Bool
is_none none = true
is_none (some a) = false

-- With the connection that was detached.
abbrev pub close_detached : Option ℕ → Action AsyncBase (Unit {0})
close_detached none s = cancel_renew s
close_detached (some i) s = continue (cancel_renew (close_conn_nowait i s)) (λ _ t. close_conn i t)

unfoldable pub close_unlocked : Action AsyncBase (Unit {0})
unfolding detach_conn clear_held_state
close_unlocked s =
    if s.closed && is_none s.conn && is_none s.renew_task
    then (ok tt, clear_held_state s)
    else close_detached s.conn (detach_conn (record s { closed = true }))

unfoldable pub reset_for_new_attempt : Action AsyncBase (Unit {0})
reset_for_new_attempt s =
    continue (cancel_renew s)
      (λ _ t. continue (close_unlocked t) (λ _ u. (ok tt, record u { closed = false })))

-- `except …: await self._close_unlocked()`, then what follows it.
abbrev pub closing {ℓ} : {A : Type ℓ} → Result A → Action AsyncBase A
closing r s = continue (close_unlocked s) (λ _ t. (r, t))

-- ----- acquire

abbrev pub hold : Str → ℤ → AsyncBase → AsyncBase
hold token lease s = record s { token = some token; lease = lease }

-- The `try` of `_invoke_acquire` and `_invoke_wait`.
unfoldable pub settle_grant : Result (Str × ℤ) × AsyncBase → Result Bool × AsyncBase
settle_grant (ok (token, lease), s) = (ok true, start_renew (hold token lease s))
settle_grant (err e, s) =
    if is_subclass (class_of e) dflockd_timeout_error
    then closing (ok false) s
    else closing (err e) s

unfoldable pub require_conn :
    {A : Type 0} → Option ℕ → Str → (ℕ → Action AsyncBase A) → Action AsyncBase A
require_conn none message f s = (raise runtime_error (not_connected message), s)
require_conn (some i) message f s = f i s

-- `_require_conn` stands inside the `try`.
unfoldable pub invoke_acquire : Action AsyncBase Bool
unfolding settle_grant require_conn
invoke_acquire s =
    settle_grant (require_conn s.conn (codes "not connected") (proto_acquire s.config.kind) s)

unfoldable pub acquire_unlocked : Action AsyncBase Bool
acquire_unlocked s =
    continue (reset_for_new_attempt s)
      (λ _ t. continue (open_and_authenticate t) (λ _. invoke_acquire))

-- ----- enqueue and wait

unfoldable pub handle_enqueue_status : Enqueued → AsyncBase → AsyncBase
handle_enqueue_status (acquired token lease) s = start_renew (hold token lease s)
handle_enqueue_status queued s = s

unfoldable pub settle_enqueue : Result Enqueued × AsyncBase → Result Enqueued × AsyncBase
unfolding handle_enqueue_status
settle_enqueue (ok status, s) = (ok status, handle_enqueue_status status s)
settle_enqueue (err e, s) = closing (err e) s

unfoldable pub invoke_enqueue : Action AsyncBase Enqueued
unfolding settle_enqueue require_conn
invoke_enqueue s =
    settle_enqueue (require_conn s.conn (codes "not connected") (proto_enqueue s.config.kind) s)

unfoldable pub enqueue_unlocked : Action AsyncBase Enqueued
enqueue_unlocked s =
    continue (reset_for_new_attempt s)
      (λ _ t. continue (open_and_authenticate t) (λ _. invoke_enqueue))

-- `_require_conn_for_wait` stands before the `try`.
abbrev pub wait_on : Option ℕ → Scalar → Action AsyncBase Bool
wait_on none timeout_s s =
    (raise runtime_error (not_connected (codes "not connected; call enqueue() first")), s)
wait_on (some i) timeout_s s = settle_grant (proto_wait s.config.kind i timeout_s s)

unfoldable pub invoke_wait : Scalar → Action AsyncBase Bool
invoke_wait timeout_s s = wait_on s.conn timeout_s s

abbrev timeout_or : Option Scalar → Scalar → Scalar
timeout_or none default = default
timeout_or (some t) default = t

abbrev pub wait_unless : Option Str → Option Scalar → Action AsyncBase Bool
wait_unless (some token) timeout_s s = (ok true, s)
wait_unless none timeout_s s = invoke_wait (timeout_or timeout_s s.config.acquire_timeout_s) s

unfoldable pub wait_unlocked : Option Scalar → Action AsyncBase Bool
wait_unlocked timeout_s s = wait_unless s.token timeout_s s

-- ----- release

-- `except Exception`: another exception passes.
abbrev pub caught : Result (Unit {0}) × AsyncBase → Result Bool × AsyncBase
caught (ok _, s) = (ok true, s)
caught (err e, s) = if is_subclass (class_of e) exception then (ok false, s) else (err e, s)

unfoldable pub safe_release : ℕ → Str → Action AsyncBase Bool
safe_release i token s = caught (proto_release s.config.kind i token s)

abbrev pub send_if_held : Option ℕ → Option Str → Action AsyncBase Bool
send_if_held none token s = (ok false, s)
send_if_held (some i) none s = (ok false, s)
send_if_held (some i) (some token) s = safe_release i token s

unfoldable pub send_release_quietly : Action AsyncBase Bool
send_release_quietly s = send_if_held s.conn s.token s

-- The `try`: the wait for `_io_lock`, the renew task's end and the send.
unfoldable pub release_locked : Action AsyncBase Bool
release_locked s =
    continue (await_point s) (λ _ t. continue (cancel_renew_locked t) (λ _. send_release_quietly))

-- `finally: await self._close_unlocked()`
abbrev pub finally_close : Result Bool × AsyncBase → Result Bool × AsyncBase
finally_close (r, s) = closing r s

unfoldable pub release_unlocked : Action AsyncBase Bool
release_unlocked s = finally_close (release_locked s)

-- `__aenter__`
unfoldable pub enter : Action AsyncBase (Unit {0})
enter s =
    continue (acquire_unlocked s)
      (λ held t. if held then (ok tt, t) else (raise timeout_error (timed_out t.config.key), t))

-- `__aexit__`, which swallows an `Exception` of `release`.
abbrev pub swallow : Result Bool × AsyncBase → Result (Unit {0}) × AsyncBase
swallow (ok released, s) = (ok tt, s)
swallow (err e, s) = if is_subclass (class_of e) exception then (ok tt, s) else (err e, s)

unfoldable pub exit : Action AsyncBase (Unit {0})
exit s = swallow (release_unlocked s)

-- `async with lock:`
unfoldable pub with_lock {ℓ} : {A : Type ℓ} → Action AsyncBase A → Action AsyncBase A
with_lock body s = with_statement enter exit body s
