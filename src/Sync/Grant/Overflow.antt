-- ===== src/Sync/Grant/Overflow.antt =====
-- `_acquire_unlocked` with an acquire timeout that leads to a read timeout which `settimeout` does
-- not take.
use dflockd_client_py.Action.{continue}
use dflockd_client_py.Base.{
  ℕ, ◌+◌, ◌<◌, ◌≡◌, refl, true, false, Bool, none, some, List, [], ◌∷◌, Str, Bytes, codes, arith,
  ltb, ap,
}
use dflockd_client_py.Errors.{
  Result, ok, err, raised, is_subclass, overflow_error, timeout_too_large, dflockd_timeout_error,
}
use dflockd_client_py.Protocol.Encode.{encode_lines}
use dflockd_client_py.Sync.Conn as Conn
use dflockd_client_py.Sync.Conn.{SyncConn, Trouble, exchange, command, max_socket_timeout_s}
use dflockd_client_py.Sync.Commands.{acquire, seconds}
use dflockd_client_py.Sync.State.{lock, Dial, connected, SyncBase, update, command_at}
use dflockd_client_py.Sync.Hooks.{
  proto_acquire, open_socket, open_conn, maybe_authenticate, open_and_authenticate,
}
use dflockd_client_py.Sync.Lifecycle.{
  invoke_acquire, reset_for_new_attempt, close_unlocked, settle_grant, acquire_unlocked,
}
use dflockd_client_py.Sync.Grant.{IsReady, lock_prefix, reset_for_new_attempt-dials}

too_late : (t : ℕ) → max_socket_timeout_s < t → ltb max_socket_timeout_s t ≡ true
too_late t late = ground arith

-- A command whose read timeout the socket does not take sends nothing and closes.
pub command_overflows :
    (cmd key arg : Str) (t : ℕ) (frame : Bytes) (c : SyncConn)
    → max_socket_timeout_s < t
    → encode_lines (cmd ∷ key ∷ arg ∷ []) ≡ ok frame
    → command cmd key arg t c
      ≡ (err (raised overflow_error timeout_too_large), record c { closed = true })
unfolding command exchange Conn.close
command_overflows cmd key arg t frame c late built = simp (built, too_late t late) refl

abbrev overflow {ℓ} : {A : Type ℓ} → Result A
overflow = err (raised overflow_error timeout_too_large)

proto_acquire-overflows :
    (i : ℕ) (s : SyncBase) (arg : Str) (frame : Bytes)
    → IsReady s.config arg frame
    → max_socket_timeout_s < seconds s.config.acquire_timeout_s + 30
    → proto_acquire lock i s
      ≡ (overflow, record s { conns = update s.conns i (record (s.conns i) { closed = true }) })
unfolding proto_acquire acquire command_at
proto_acquire-overflows i s arg frame ready late =
    rw
      (
        lock_prefix.0,
        ready.key_valid,
        ready.arg_built,
        lock_prefix.1,
        command_overflows (codes "l") s.config.key arg (seconds s.config.acquire_timeout_s + 30)
            frame (s.conns i) late ready.frame_built,
      )
      refl

-- The object is closed and empty, and nothing was sent on its connection `i`, nor read.
abbrev pub Overflows : ℕ → Bytes → Result Bool × SyncBase → Type 0
Overflows i inbox x =
    (x.0 ≡ overflow)
    × (x.1.closed ≡ true)
    × (x.1.conn ≡ none)
    × (x.1.token ≡ none)
    × (x.1.renew_thread ≡ none)
    × ((x.1.conns i).closed ≡ true)
    × ((x.1.conns i).outbox ≡ [])
    × ((x.1.conns i).inbox ≡ inbox)

overflow_no_timeout : is_subclass overflow_error dflockd_timeout_error ≡ false
unfolding is_subclass
overflow_no_timeout = refl

invoke_acquire-Overflows :
    (s : SyncBase) (i : ℕ) (arg : Str) (frame inbox : Bytes)
    → IsReady s.config arg frame
    → max_socket_timeout_s < seconds s.config.acquire_timeout_s + 30
    → s.conn ≡ some i
    → (s.conns i).outbox ≡ []
    → (s.conns i).inbox ≡ inbox
    → s.closed ≡ false
    → Overflows i inbox (invoke_acquire s)
unfolding invoke_acquire settle_grant close_unlocked Conn.close
invoke_acquire-Overflows s i arg frame inbox ready late has unsent unread alive =
    simp
      (
        has,
        ready.a_lock,
        proto_acquire-overflows i s arg frame ready late,
        overflow_no_timeout,
        alive,
      )
      (ground (arith, unsent, unread))

-- The connection that the attempt opens.
abbrev new_conn : Bytes → List Trouble → SyncConn
new_conn inbox troubles = record {
  closed = false;
  timeout = 0;
  inbox = inbox;
  outbox = [];
  troubles = troubles;
}

abbrev on_connection : SyncBase → SyncConn → List Dial → SyncBase
on_connection s c ds = record s {
  conns = update s.conns s.opened c;
  opened = s.opened + 1;
  dials = ds;
  conn = some s.opened;
}

opened-connected :
    (s : SyncBase) (arg : Str) (frame inbox : Bytes) (troubles : List Trouble) (ds : List Dial)
    → IsReady s.config arg frame
    → s.dials ≡ connected inbox troubles ∷ ds
    → open_and_authenticate s ≡ (ok tt, on_connection s (new_conn inbox troubles) ds)
unfolding open_and_authenticate open_conn open_socket maybe_authenticate
opened-connected s arg frame inbox troubles ds ready next =
    simp (ready.picked, ready.timeout_valid, ready.endpoint_valid, next, ready.no_auth)

opened-Overflows :
    (s : SyncBase) (i : ℕ) (arg : Str) (frame inbox : Bytes) (troubles : List Trouble)
    (ds : List Dial)
    → IsReady s.config arg frame
    → max_socket_timeout_s < seconds s.config.acquire_timeout_s + 30
    → s.opened ≡ i
    → s.dials ≡ connected inbox troubles ∷ ds
    → s.closed ≡ false
    → Overflows i inbox (continue (open_and_authenticate s) (λ _. invoke_acquire))
opened-Overflows s i arg frame inbox troubles ds ready late name next alive =
    rw (opened-connected s arg frame inbox troubles ds ready next) (
      invoke_acquire-Overflows (on_connection s (new_conn inbox troubles) ds) i arg frame inbox
        ready late (ap some name) (ground (arith, name)) (ground (arith, name)) alive)

-- From any state of a lock without an auth token, with valid values and a strategy that names a
-- server, if the acquire timeout with 30 seconds added is above 9223372036 seconds, which is the
-- most that `settimeout` takes, and the next attempt to connect succeeds, then
-- `_acquire_unlocked` raises `OverflowError`, whatever the server sends and whatever trouble
-- there is; nothing was sent on the new connection nor read from it, it is closed, and the object
-- is closed with neither connection nor token nor renew thread.
pub acquire_unlocked-Overflows :
    (s : SyncBase) (arg : Str) (frame inbox : Bytes) (troubles : List Trouble) (ds : List Dial)
    → IsReady s.config arg frame
    → max_socket_timeout_s < seconds s.config.acquire_timeout_s + 30
    → s.dials ≡ connected inbox troubles ∷ ds
    → Overflows s.opened inbox (acquire_unlocked s)
unfolding acquire_unlocked
acquire_unlocked-Overflows s arg frame inbox troubles ds ready late next =
    let (config, dials, opened, armed) = reset_for_new_attempt-dials s in
    opened-Overflows (reset_for_new_attempt s) s.opened arg frame inbox troubles ds
      (rw config ready) (rw config late) opened (rw dials next) armed.0
