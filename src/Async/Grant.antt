-- ===== src/Async/Grant.antt =====
-- The async `_acquire_unlocked` of a lock that its server grants.
use dflockd_client_py.Action.{continue}
use dflockd_client_py.Base.{
  ℕ, ◌+◌, ◌≡◌, refl, true, false, Bool, some, ◌++◌, List, [], ◌∷◌, Str, Bytes, codes, arith, ap,
  any, ◌==◌,
}
use dflockd_client_py.Base.Int.{pos}
use dflockd_client_py.Text.Words.Laws.{IsWord}
use dflockd_client_py.Errors.{Result, ok}
use dflockd_client_py.Protocol.Encode.{encode_lines, op_label}
use dflockd_client_py.Protocol.Decode.Grants.{
  granted_line, IsLease, parse_grant_response-granted_line,
}
use dflockd_client_py.Sync.Conn.{SyncConn}
use dflockd_client_py.Sync.Conn.Wire as SyncWire
use dflockd_client_py.Sync.Conn.Wire.{IsResponse}
use dflockd_client_py.Sync.Commands.{seconds}
use dflockd_client_py.Sync.State.{lock, Config, Dial, connected, update}
use dflockd_client_py.Sync.Hooks as SyncHooks
use dflockd_client_py.Sync.Grant.{IsReady, lock_prefix}
use dflockd_client_py.Async.Conn.{AsyncConn, command}
use dflockd_client_py.Async.Conn.Agree.{both_return, both_raise, Agrees, command-Agrees}
use dflockd_client_py.Async.Commands.{acquire}
use dflockd_client_py.Async.State.{AsyncBase, command_at, await_point, end_task, close_conn}
use dflockd_client_py.Async.Hooks.{
  proto_acquire, open_connection, open_conn, maybe_authenticate, pick_server, open_and_authenticate,
}
use dflockd_client_py.Async.Lifecycle.{
  invoke_acquire, reset_for_new_attempt, cancel_renew, cancel_and_wait, close_unlocked, detach_conn,
  clear_held_state, settle_grant, start_renew, acquire_unlocked,
}

-- The sync connection that is like an open async one.
abbrev alike_conn : AsyncConn → SyncConn
alike_conn d = record {
  closed = d.closed;
  timeout = 0;
  inbox = d.inbox;
  outbox = d.outbox;
  troubles = d.troubles;
}

read_alike :
    {A : Type 0} (a : A) (d : AsyncConn) (rest frame : Bytes) (t : ℕ) (y : Result A × AsyncConn)
    → d.closed ≡ false
    → Agrees
        (ok a, record (alike_conn d) { timeout = t; inbox = rest; outbox = d.outbox ++ frame })
        y
    → y ≡ (ok a, record d { inbox = rest; outbox = d.outbox ++ frame })
read_alike a d rest frame t (r, e) is_open (both_raise x z p q similar, alike) =
    absurd (ground (arith, p))
read_alike a d rest frame t (r, e) is_open (both_return line p q, alike) = ground (
  arith,
  p,
  q,
  alike.same_closed,
  alike.same_outbox,
  alike.same_inbox is_open,
  alike.same_troubles is_open,
)

command_reads :
    (cmd key arg : Str) (t : ℕ) (resp : Str) (b rest frame : Bytes) (d : AsyncConn)
    → d.closed ≡ false
    → d.troubles ≡ []
    → d.inbox ≡ b ++ (10 ∷ rest)
    → IsResponse resp b
    → encode_lines (cmd ∷ key ∷ arg ∷ []) ≡ ok frame
    → command cmd key arg t d ≡ (ok resp, record d { inbox = rest; outbox = d.outbox ++ frame })
unfolding command
command_reads cmd key arg t resp b rest frame d is_open quiet sent r e =
    read_alike resp d rest frame 0 (command cmd key arg t d) is_open (
      rw
        (SyncWire.command_reads cmd key arg 0 resp b rest frame (alike_conn d) (omega arith) is_open
          quiet sent r e)
        at
        (command-Agrees cmd key arg 0 (alike_conn d) d (omega arith) (record {
          same_closed = refl;
          same_outbox = refl;
          same_inbox = λ h. refl;
          same_troubles = λ h. refl;
        })))

pick_server-eq : (c : Config) → pick_server c ≡ SyncHooks.pick_server c
unfolding pick_server SyncHooks.pick_server
pick_server-eq c = refl

-- The answered acquire command on the connection `i`.
proto_acquire-granted :
    (i : ℕ) (s : AsyncBase) (c : AsyncConn) (arg : Str) (frame : Bytes) (token : Str) (n : ℕ)
    (b rest : Bytes)
    → IsReady s.config arg frame
    → s.conns i ≡ c
    → c.closed ≡ false
    → c.troubles ≡ []
    → c.inbox ≡ b ++ (10 ∷ rest)
    → IsResponse (granted_line (codes "ok") token n) b
    → IsWord token
    → IsLease n
    → proto_acquire lock i s ≡ (
      ok (token, pos n),
      record s { conns = update s.conns i (record c { inbox = rest; outbox = c.outbox ++ frame }) },
    )
unfolding proto_acquire acquire command_at
proto_acquire-granted i s c arg frame token n b rest ready at is_open quiet sent resp word lease =
    rw
      (
        lock_prefix.0,
        ready.key_valid,
        ready.arg_built,
        lock_prefix.1,
        at,
        command_reads (codes "l") s.config.key arg (seconds s.config.acquire_timeout_s + 30)
            (granted_line (codes "ok") token n) b rest frame c is_open quiet sent resp
            ready.frame_built,
      )
      (rw (parse_grant_response-granted_line (op_label [] (codes "acquire")) token n word lease)
        refl)

-- A reset that is not cancelled keeps the configuration, the attempts to come and the names of
-- the connections.
abbrev Kept : AsyncBase → Result (Unit {0}) × AsyncBase → Type 0
Kept s x = (x.0 ≡ ok tt) × (x.1.config ≡ s.config) × (x.1.dials ≡ s.dials) × (x.1.opened ≡ s.opened)

reset_for_new_attempt-Kept : (s : AsyncBase) → s.cancels ≡ [] → Kept s (reset_for_new_attempt s)
unfolding reset_for_new_attempt cancel_renew cancel_and_wait close_unlocked close_conn detach_conn
    clear_held_state await_point end_task
reset_for_new_attempt-Kept s calm = ground (arith, calm)

-- A new connection with nothing sent and nothing read.
abbrev fresh_conn : Bytes → AsyncConn
fresh_conn inbox = record { closed = false; inbox = inbox; outbox = []; troubles = [] }

abbrev on_connection : AsyncBase → Bytes → List Dial → AsyncBase
on_connection s inbox ds = record s {
  conns = update s.conns s.opened (fresh_conn inbox);
  opened = s.opened + 1;
  dials = ds;
  conn = some s.opened;
}

open_and_authenticate-connected :
    (s : AsyncBase) (arg : Str) (frame inbox : Bytes) (ds : List Dial)
    → IsReady s.config arg frame
    → s.dials ≡ connected inbox [] ∷ ds
    → open_and_authenticate s ≡ (ok tt, on_connection s inbox ds)
unfolding open_and_authenticate open_conn open_connection maybe_authenticate
open_and_authenticate-connected s arg frame inbox ds ready next = simp (
  pick_server-eq s.config,
  ready.picked,
  ready.timeout_valid,
  ready.endpoint_valid,
  next,
  ready.no_auth,
)

-- What an acquire leaves when the server granted it.
abbrev pub AcquireGranted : ℕ → Str → ℕ → Bytes → Bytes → Result Bool × AsyncBase → Type 0
AcquireGranted i token n frame rest x =
    (x.0 ≡ ok true)
    × (x.1.token ≡ some token)
    × (x.1.lease ≡ pos n)
    × (x.1.conn ≡ some i)
    × ((x.1.conns i).outbox ≡ frame)
    × ((x.1.conns i).inbox ≡ rest)
    × ((e : ℕ) × (x.1.renew_task ≡ some e) × (any (λ d. d == e) x.1.running ≡ true))

invoke_acquire-AcquireGranted :
    (s : AsyncBase) (i : ℕ) (arg : Str) (frame : Bytes) (token : Str) (n : ℕ) (b rest : Bytes)
    → IsReady s.config arg frame
    → s.conn ≡ some i
    → s.conns i ≡ fresh_conn (b ++ (10 ∷ rest))
    → IsResponse (granted_line (codes "ok") token n) b
    → IsWord token
    → IsLease n
    → AcquireGranted i token n frame rest (invoke_acquire s)
unfolding invoke_acquire settle_grant start_renew
invoke_acquire-AcquireGranted s i arg frame token n b rest ready has at resp word lease =
    simp
      (
        has,
        ready.a_lock,
        proto_acquire-granted i s (fresh_conn (b ++ (10 ∷ rest))) arg frame token n b rest ready at
            refl refl refl resp word lease,
      )
      (
        ground arith,
        ground arith,
        ground arith,
        ground arith,
        ground arith,
        ground arith,
        (s.started, ground arith, ground arith),
      )

opened-AcquireGranted :
    (s : AsyncBase) (i : ℕ) (arg : Str) (frame : Bytes) (token : Str) (n : ℕ) (b rest : Bytes)
    (ds : List Dial)
    → s.opened ≡ i
    → IsReady s.config arg frame
    → s.dials ≡ connected (b ++ (10 ∷ rest)) [] ∷ ds
    → IsResponse (granted_line (codes "ok") token n) b
    → IsWord token
    → IsLease n
    → AcquireGranted i token n frame rest (continue (open_and_authenticate s) (λ _. invoke_acquire))
opened-AcquireGranted s i arg frame token n b rest ds name ready next resp word lease =
    rw (open_and_authenticate-connected s arg frame (b ++ (10 ∷ rest)) ds ready next) (
      invoke_acquire-AcquireGranted (on_connection s (b ++ (10 ∷ rest)) ds) i arg frame token n b
        rest ready (ap some name) (ground (arith, name)) resp word lease)

reset-AcquireGranted :
    (s : AsyncBase) (x : Result (Unit {0}) × AsyncBase) (arg : Str) (frame : Bytes) (token : Str)
    (n : ℕ) (b rest : Bytes) (ds : List Dial)
    → Kept s x
    → IsReady s.config arg frame
    → s.dials ≡ connected (b ++ (10 ∷ rest)) [] ∷ ds
    → IsResponse (granted_line (codes "ok") token n) b
    → IsWord token
    → IsLease n
    → AcquireGranted s.opened token n frame rest
        (continue x (λ _ t. continue (open_and_authenticate t) (λ _. invoke_acquire)))
reset-AcquireGranted s (r, t) arg frame token n b rest ds (q, config, dials, opened) ready next resp
      word lease =
    rw q (
      opened-AcquireGranted t s.opened arg frame token n b rest ds opened (rw config ready)
        (rw dials next) resp word lease)

-- From any state of an async lock without an auth token, with valid values and a strategy that
-- names a server, if nothing cancels the caller, the next attempt to connect succeeds without
-- trouble and the server sends `ok`, a token without whitespace and a lease time from 1 to the
-- limit of the protocol in a line of allowed length, then `_acquire_unlocked` returns true, the
-- object has that token and lease time, the new connection and a renew task that runs, exactly
-- the frame of the acquire command was sent on that connection, and what the server sent after
-- the line stays unread.
pub acquire_unlocked-AcquireGranted :
    (s : AsyncBase) (arg : Str) (frame : Bytes) (token : Str) (n : ℕ) (b rest : Bytes)
    (ds : List Dial)
    → s.cancels ≡ []
    → IsReady s.config arg frame
    → s.dials ≡ connected (b ++ (10 ∷ rest)) [] ∷ ds
    → IsResponse (granted_line (codes "ok") token n) b
    → IsWord token
    → IsLease n
    → AcquireGranted s.opened token n frame rest (acquire_unlocked s)
unfolding acquire_unlocked
acquire_unlocked-AcquireGranted s arg frame token n b rest ds calm ready next resp word lease =
    reset-AcquireGranted s (reset_for_new_attempt s) arg frame token n b rest ds
      (reset_for_new_attempt-Kept s calm) ready next resp word lease
