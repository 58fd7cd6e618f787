-- ===== src/Sync/Grant.antt =====
-- `_acquire_unlocked` of a lock that its server grants.
pub mod Overflow
use dflockd_client_py.Action.{continue}
use dflockd_client_py.Base.{
  ℕ, ◌+◌, ◌≡◌, refl, true, false, Bool, none, some, ◌++◌, List, [], ◌∷◌, Str, Bytes, codes, arith,
  ap, any, ◌==◌, ◌≤◌,
}
use dflockd_client_py.Base.Int.{ℤ, pos}
use dflockd_client_py.Text.Words.Laws.{IsWord}
use dflockd_client_py.Errors.{Result, ok}
use dflockd_client_py.Protocol.Validate.{
  Scalar, validate_prefix, validate_prefix_limit, validate_key, validate_connect_timeout_s,
}
use dflockd_client_py.Protocol.Encode.{encode_lines, make_acquire_arg, cmd_name, op_label}
use dflockd_client_py.Protocol.Decode.Grants.{
  granted_line, IsLease, parse_grant_response-granted_line,
}
use dflockd_client_py.Sharding.{Host, validate_server_endpoint}
use dflockd_client_py.Sync.Conn.{SyncConn, max_socket_timeout_s}
use dflockd_client_py.Sync.Conn.Wire.{IsResponse, command_reads}
use dflockd_client_py.Sync.Commands.{acquire, seconds}
use dflockd_client_py.Sync.State.{lock, Config, Dial, connected, SyncBase, update, command_at}
use dflockd_client_py.Sync.Hooks.{
  proto_acquire, open_socket, open_conn, maybe_authenticate, pick_server, open_and_authenticate,
}
use dflockd_client_py.Sync.Lifecycle.{
  invoke_acquire, reset_for_new_attempt, rearm, stop_renew, close_unlocked, settle_grant,
  start_renew, acquire_unlocked,
}

-- A configuration of a lock without an auth token whose values are valid and whose strategy names
-- a server, with the argument and the frame of its acquire command.
pub record IsReady (c : Config) (arg : Str) (frame : Bytes) : Type 0 where
  pub a_lock : c.kind ≡ lock
  pub no_auth : c.auth_token ≡ none
  pub key_valid : validate_key (codes "key") c.key ≡ ok tt
  pub arg_built : make_acquire_arg c.acquire_timeout_s none c.lease_ttl_s ≡ ok arg
  pub frame_built : encode_lines (codes "l" ∷ c.key ∷ arg ∷ []) ≡ ok frame
  pub timeout_valid : validate_connect_timeout_s c.connect_timeout_s ≡ ok tt
  pub host : Host
  pub port : Scalar
  pub picked : pick_server c ≡ ok (host, port)
  pub address : Str × ℤ
  pub endpoint_valid : validate_server_endpoint host port ≡ ok address

pub lock_prefix :
    (validate_prefix_limit [] none ≡ ok tt) × (cmd_name [] (codes "l") ≡ ok (codes "l"))
unfolding validate_prefix_limit validate_prefix cmd_name
lock_prefix = ground arith

-- The answered acquire command on the connection `i`.
proto_acquire-granted :
    (i : ℕ) (s : SyncBase) (c : SyncConn) (arg : Str) (frame : Bytes) (token : Str) (n : ℕ)
    (b rest : Bytes)
    → IsReady s.config arg frame
    → seconds s.config.acquire_timeout_s + 30 ≤ max_socket_timeout_s
    → s.conns i ≡ c
    → c.closed ≡ false
    → c.troubles ≡ []
    → c.inbox ≡ b ++ (10 ∷ rest)
    → IsResponse (granted_line (codes "ok") token n) b
    → IsWord token
    → IsLease n
    → proto_acquire lock i s ≡ (
      ok (token, pos n),
      record s {
        conns = update s.conns i (record c {
          timeout = seconds s.config.acquire_timeout_s + 30;
          inbox = rest;
          outbox = c.outbox ++ frame;
        });
      },
    )
unfolding proto_acquire acquire command_at
proto_acquire-granted i s c arg frame token n b rest ready fits at is_open quiet sent resp word
      lease =
    rw
      (
        lock_prefix.0,
        ready.key_valid,
        ready.arg_built,
        lock_prefix.1,
        at,
        command_reads (codes "l") s.config.key arg (seconds s.config.acquire_timeout_s + 30)
            (granted_line (codes "ok") token n) b rest frame c fits is_open quiet sent resp
            ready.frame_built,
      )
      (rw (parse_grant_response-granted_line (op_label [] (codes "acquire")) token n word lease)
        refl)

-- The object is not closed, and its stop event is not set.
abbrev pub IsArmed : SyncBase → Type 0
IsArmed s = (s.closed ≡ false) × (s.events s.stop_event ≡ false)

-- A reset keeps the configuration, the attempts to come and the names of the connections.
pub reset_for_new_attempt-dials :
    (s : SyncBase)
    → ((reset_for_new_attempt s).config ≡ s.config)
      × ((reset_for_new_attempt s).dials ≡ s.dials)
      × ((reset_for_new_attempt s).opened ≡ s.opened)
      × IsArmed (reset_for_new_attempt s)
unfolding reset_for_new_attempt rearm stop_renew close_unlocked
reset_for_new_attempt-dials s = ground arith

-- A new connection with nothing sent and nothing read.
abbrev pub fresh_conn : Bytes → SyncConn
fresh_conn inbox = record { closed = false; timeout = 0; inbox = inbox; outbox = []; troubles = [] }

abbrev on_connection : SyncBase → Bytes → List Dial → SyncBase
on_connection s inbox ds = record s {
  conns = update s.conns s.opened (fresh_conn inbox);
  opened = s.opened + 1;
  dials = ds;
  conn = some s.opened;
}

open_and_authenticate-connected :
    (s : SyncBase) (arg : Str) (frame inbox : Bytes) (ds : List Dial)
    → IsReady s.config arg frame
    → s.dials ≡ connected inbox [] ∷ ds
    → open_and_authenticate s ≡ (ok tt, on_connection s inbox ds)
unfolding open_and_authenticate open_conn open_socket maybe_authenticate
open_and_authenticate-connected s arg frame inbox ds ready next =
    simp (ready.picked, ready.timeout_valid, ready.endpoint_valid, next, ready.no_auth)

-- What an acquire leaves when the server granted it.
abbrev pub Granted : Config → ℕ → Str → ℕ → Bytes → Bytes → Result Bool × SyncBase → Type 0
Granted c i token n frame rest x =
    (x.0 ≡ ok true)
    × (x.1.token ≡ some token)
    × (x.1.lease ≡ pos n)
    × (x.1.conn ≡ some i)
    × ((x.1.conns i).outbox ≡ frame)
    × ((x.1.conns i).inbox ≡ rest)
    × (x.1.renew_thread ≡ some x.1.stop_event)
    × (x.1.config ≡ c)
    × ((x.1.conns i).closed ≡ false)
    × ((x.1.conns i).troubles ≡ [])
    × IsArmed x.1
    × (any (λ d. d == x.1.stop_event) x.1.running ≡ true)

invoke_acquire-Granted :
    (c : Config) (s : SyncBase) (i : ℕ) (arg : Str) (frame : Bytes) (token : Str) (n : ℕ)
    (b rest : Bytes)
    → s.config ≡ c
    → IsReady s.config arg frame
    → seconds s.config.acquire_timeout_s + 30 ≤ max_socket_timeout_s
    → s.conn ≡ some i
    → s.conns i ≡ fresh_conn (b ++ (10 ∷ rest))
    → IsResponse (granted_line (codes "ok") token n) b
    → IsWord token
    → IsLease n
    → IsArmed s
    → Granted c i token n frame rest (invoke_acquire s)
unfolding invoke_acquire settle_grant start_renew
invoke_acquire-Granted c s i arg frame token n b rest config ready fits has at resp word lease
      armed =
    simp
      (
        has,
        ready.a_lock,
        proto_acquire-granted i s (fresh_conn (b ++ (10 ∷ rest))) arg frame token n b rest ready
            fits at refl refl refl resp word lease,
      )
      (ground arith)

opened-Granted :
    (c : Config) (s : SyncBase) (i : ℕ) (arg : Str) (frame : Bytes) (token : Str) (n : ℕ)
    (b rest : Bytes) (ds : List Dial)
    → s.config ≡ c
    → s.opened ≡ i
    → IsReady s.config arg frame
    → seconds s.config.acquire_timeout_s + 30 ≤ max_socket_timeout_s
    → s.dials ≡ connected (b ++ (10 ∷ rest)) [] ∷ ds
    → IsResponse (granted_line (codes "ok") token n) b
    → IsWord token
    → IsLease n
    → IsArmed s
    → Granted c i token n frame rest (continue (open_and_authenticate s) (λ _. invoke_acquire))
opened-Granted c s i arg frame token n b rest ds config name ready fits next resp word lease armed =
    rw (open_and_authenticate-connected s arg frame (b ++ (10 ∷ rest)) ds ready next) (
      invoke_acquire-Granted c (on_connection s (b ++ (10 ∷ rest)) ds) i arg frame token n b rest
        config ready fits (ap some name) (ground (arith, name)) resp word lease armed)

-- From any state of a lock without an auth token, with valid values, of which the acquire timeout
-- is at least 30 seconds below the most that `settimeout` takes, 9223372036 seconds, and a
-- strategy that names a server, if the next attempt to connect succeeds without trouble and the
-- server sends `ok`, a token without whitespace and a lease time from 1 to the limit of the
-- protocol in a line of allowed length, then `_acquire_unlocked` returns true, the object has
-- that token and lease time, the new connection, which is open, and a renew thread that runs with
-- the current stop event, which is not set, exactly the frame of the acquire command was sent on
-- that connection, and what the server sent after the line stays unread.
pub acquire_unlocked-Granted :
    (s : SyncBase) (arg : Str) (frame : Bytes) (token : Str) (n : ℕ) (b rest : Bytes)
    (ds : List Dial)
    → IsReady s.config arg frame
    → seconds s.config.acquire_timeout_s + 30 ≤ max_socket_timeout_s
    → s.dials ≡ connected (b ++ (10 ∷ rest)) [] ∷ ds
    → IsResponse (granted_line (codes "ok") token n) b
    → IsWord token
    → IsLease n
    → Granted s.config s.opened token n frame rest (acquire_unlocked s)
unfolding acquire_unlocked
acquire_unlocked-Granted s arg frame token n b rest ds ready fits next resp word lease =
    let (config, dials, opened, armed) = reset_for_new_attempt-dials s in
    opened-Granted s.config (reset_for_new_attempt s) s.opened arg frame token n b rest ds config
      opened (rw config ready) (rw config fits) (rw dials next) resp word lease armed
