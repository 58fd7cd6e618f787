-- ===== src/Sync/Lifecycle.antt =====
-- The methods of `_SyncBase`. A public method holds `_state_lock`, and what it sends goes out
-- under `_io_lock`; each is a function on the state.
use dflockd_client_py.Base.{
  ℕ, ◌+◌, Bool, true, false, Option, none, some, ◌∷◌, Str, codes, if◌then◌else◌,
}
use dflockd_client_py.Base.Int.{ℤ, pos}
use dflockd_client_py.Errors.{
  exception, dflockd_timeout_error, runtime_error, timeout_error, not_connected, timed_out,
  is_subclass, class_of, Result, ok, err, raise,
}
use dflockd_client_py.Action.{Action, continue, with_statement}
use dflockd_client_py.Protocol.Validate.{Scalar}
use dflockd_client_py.Protocol.Decode.{Enqueued, acquired, queued}
use dflockd_client_py.Sync.State.{SyncBase, update, set_event, close_conn}
use dflockd_client_py.Sync.Hooks.{
  proto_acquire, proto_release, proto_enqueue, proto_wait, open_and_authenticate,
}

-- ----- closing

unfoldable pub clear_held_state : SyncBase → SyncBase
clear_held_state s = record s { token = none; lease = pos 0 }

unfoldable pub begin_close : SyncBase → SyncBase
begin_close s = set_event s.stop_event (record s { closed = true })

-- `shutdown_read` wakes a blocked read and changes no state of this model.
abbrev close_held : Option ℕ → SyncBase → SyncBase
close_held none s = s
close_held (some i) s = record (close_conn i s) { conn = none }

unfoldable pub shutdown_and_close_conn : SyncBase → SyncBase
shutdown_and_close_conn s = close_held s.conn s

unfoldable pub join_renew_thread : SyncBase → SyncBase
join_renew_thread s = record s { renew_thread = none }

unfoldable pub tear_down_conn_and_thread : SyncBase → SyncBase
unfolding shutdown_and_close_conn join_renew_thread clear_held_state
tear_down_conn_and_thread s = clear_held_state (join_renew_thread (shutdown_and_close_conn s))

unfoldable pub close_unlocked : SyncBase → SyncBase
unfolding tear_down_conn_and_thread begin_close
close_unlocked s = if s.closed then s else tear_down_conn_and_thread (begin_close s)

abbrev stop_held : Option ℕ → SyncBase → SyncBase
stop_held none s = s
stop_held (some e) s = record (set_event s.stop_event s) { renew_thread = none }

unfoldable pub stop_renew : SyncBase → SyncBase
stop_renew s = stop_held s.renew_thread s

-- A new event replaces the old one.
unfoldable pub rearm : SyncBase → SyncBase
rearm s = record s {
  closed = false;
  stop_event = s.created;
  events = update s.events s.created false;
  created = s.created + 1;
}

unfoldable pub reset_for_new_attempt : SyncBase → SyncBase
unfolding stop_renew close_unlocked rearm
reset_for_new_attempt s = rearm (close_unlocked (stop_renew s))

-- The new thread is given the current event.
unfoldable pub start_renew : SyncBase → SyncBase
start_renew s = record s { renew_thread = some s.stop_event; running = s.stop_event ∷ s.running }

-- ----- acquire

abbrev pub hold : Str → ℤ → SyncBase → SyncBase
hold token lease s = record s { token = some token; lease = lease }

-- The `try` of `_invoke_acquire` and `_invoke_wait`.
unfoldable pub settle_grant : Result (Str × ℤ) × SyncBase → Result Bool × SyncBase
settle_grant (ok (token, lease), s) = (ok true, start_renew (hold token lease s))
settle_grant (err e, s) =
    if is_subclass (class_of e) dflockd_timeout_error
    then (ok false, close_unlocked s)
    else (err e, close_unlocked s)

require_conn : {A : Type 0} → Option ℕ → Str → (ℕ → Action SyncBase A) → Action SyncBase A
require_conn none message f s = (raise runtime_error (not_connected message), s)
require_conn (some i) message f s = f i s

-- `_require_conn` stands inside the `try`.
unfoldable pub invoke_acquire : Action SyncBase Bool
unfolding settle_grant require_conn start_renew
invoke_acquire s =
    settle_grant (require_conn s.conn (codes "not connected") (proto_acquire s.config.kind) s)

unfoldable pub acquire_unlocked : Action SyncBase Bool
unfolding reset_for_new_attempt
acquire_unlocked s =
    continue (open_and_authenticate (reset_for_new_attempt s)) (λ _. invoke_acquire)

-- ----- enqueue and wait

unfoldable pub handle_enqueue_status : Enqueued → SyncBase → SyncBase
unfolding start_renew
handle_enqueue_status (acquired token lease) s = start_renew (hold token lease s)
handle_enqueue_status queued s = s

unfoldable pub settle_enqueue : Result Enqueued × SyncBase → Result Enqueued × SyncBase
unfolding handle_enqueue_status
settle_enqueue (ok status, s) = (ok status, handle_enqueue_status status s)
settle_enqueue (err e, s) = (err e, close_unlocked s)

unfoldable pub invoke_enqueue : Action SyncBase Enqueued
unfolding settle_enqueue require_conn
invoke_enqueue s =
    settle_enqueue (require_conn s.conn (codes "not connected") (proto_enqueue s.config.kind) s)

unfoldable pub enqueue_unlocked : Action SyncBase Enqueued
unfolding reset_for_new_attempt
enqueue_unlocked s =
    continue (open_and_authenticate (reset_for_new_attempt s)) (λ _. invoke_enqueue)

-- `_require_conn_for_wait` stands before the `try`.
wait_on : Option ℕ → Scalar → Action SyncBase Bool
wait_on none timeout_s s =
    (raise runtime_error (not_connected (codes "not connected; call enqueue() first")), s)
wait_on (some i) timeout_s s = settle_grant (proto_wait s.config.kind i timeout_s s)

unfoldable pub invoke_wait : Scalar → Action SyncBase Bool
unfolding wait_on settle_grant start_renew
invoke_wait timeout_s s = wait_on s.conn timeout_s s

abbrev timeout_or : Option Scalar → Scalar → Scalar
timeout_or none default = default
timeout_or (some t) default = t

abbrev pub wait_unless : Option Str → Option Scalar → Action SyncBase Bool
wait_unless (some token) timeout_s s = (ok true, s)
wait_unless none timeout_s s = invoke_wait (timeout_or timeout_s s.config.acquire_timeout_s) s

unfoldable pub wait_unlocked : Option Scalar → Action SyncBase Bool
wait_unlocked timeout_s s = wait_unless s.token timeout_s s

-- ----- release

-- `except Exception`: another exception passes.
abbrev pub caught : Result (Unit {0}) × SyncBase → Result Bool × SyncBase
caught (ok _, s) = (ok true, s)
caught (err e, s) = if is_subclass (class_of e) exception then (ok false, s) else (err e, s)

unfoldable pub safe_release : ℕ → Str → Action SyncBase Bool
safe_release i token s = caught (proto_release s.config.kind i token s)

abbrev pub send_if_held : Option ℕ → Option Str → Action SyncBase Bool
send_if_held none token s = (ok false, s)
send_if_held (some i) none s = (ok false, s)
send_if_held (some i) (some token) s = safe_release i token s

unfoldable pub send_release_quietly : Action SyncBase Bool
unfolding safe_release
send_release_quietly s = send_if_held s.conn s.token s

unfoldable pub release_unlocked : Action SyncBase Bool
unfolding send_release_quietly stop_renew
release_unlocked s =
    continue (send_release_quietly (stop_renew s)) (λ released t. (ok released, close_unlocked t))

-- `__enter__`
unfoldable pub enter : Action SyncBase (Unit {0})
enter s =
    continue (acquire_unlocked s)
      (λ held t. if held then (ok tt, t) else (raise timeout_error (timed_out t.config.key), t))

-- `__exit__`, which swallows an `Exception` of `release`.
abbrev pub swallow : Result Bool × SyncBase → Result (Unit {0}) × SyncBase
swallow (ok released, s) = (ok tt, s)
swallow (err e, s) = if is_subclass (class_of e) exception then (ok tt, s) else (err e, s)

unfoldable pub exit : Action SyncBase (Unit {0})
exit s = swallow (release_unlocked s)

-- `with lock:`
unfoldable pub with_lock {ℓ} : {A : Type ℓ} → Action SyncBase A → Action SyncBase A
with_lock body s = with_statement enter exit body s
