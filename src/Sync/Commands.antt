-- ===== src/Sync/Commands.antt =====
-- The command functions of _sync.py: validate, send one command, parse the response line.
--
-- They take the connection's `command` as an argument, and so run on a bare connection as on one
-- that a lock object holds.
pub mod Requests
use dflockd_client_py.Base.{ℕ, ◌+◌, Option, some, Str, codes}
use dflockd_client_py.Base.Int.{ℤ, pos_part}
use dflockd_client_py.Action.{Action, lift, ◌>>=◌, ◌>>◌}
use dflockd_client_py.Errors.{Result}
use dflockd_client_py.Protocol.Stats.{Json, Members, parse_stats_response}
use dflockd_client_py.Protocol.Validate.{
  Scalar, validate_prefix, validate_prefix_limit, validate_key, validate_token, validate_auth_token,
}
use dflockd_client_py.Protocol.Encode.{
  cmd_name, op_label, make_acquire_arg, make_renew_arg, make_enqueue_arg, make_wait_arg,
}
use dflockd_client_py.Protocol.Decode.{
  Enqueued, parse_grant_response, parse_renew_response, parse_enqueue_response,
  parse_release_response, parse_auth_response,
}

-- Seconds that a read waits longer than the server is asked to.
abbrev pub io_slack_s : ℕ
io_slack_s = 30

abbrev pub renew_read_timeout_s : ℕ
renew_read_timeout_s = 5

abbrev pub release_read_timeout_s : ℕ
release_read_timeout_s = io_slack_s

-- The seconds of a timeout that has been validated.
abbrev pub seconds : Scalar → ℕ
seconds (Scalar.int z) = pos_part z
seconds (Scalar.bool b) = 0
seconds (Scalar.other s) = 0

module _ {S : Type 0} (command : Str → Str → Str → ℕ → Action S Str) where
  unfoldable pub authenticate : Str → Action S (Unit {0})
  authenticate auth_token = do
    lift (validate_auth_token auth_token)
    resp ← command (codes "auth") (codes "_") auth_token io_slack_s
    lift (parse_auth_response resp)

  unfoldable pub acquire : Str → Scalar → Option Scalar → Str → Option Scalar → Action S (Str × ℤ)
  acquire key acquire_timeout_s lease_ttl_s prefix limit = do
    lift (validate_prefix_limit prefix limit)
    lift (validate_key (codes "key") key)
    arg ← lift (make_acquire_arg acquire_timeout_s limit lease_ttl_s)
    cmd ← lift (cmd_name prefix (codes "l"))
    resp ← command cmd key arg (seconds acquire_timeout_s + io_slack_s)
    lift (parse_grant_response resp (op_label prefix (codes "acquire")))

  unfoldable pub release : Str → Str → Str → Action S (Unit {0})
  release key token prefix = do
    lift (validate_prefix prefix)
    lift (validate_key (codes "key") key)
    lift (validate_token token)
    cmd ← lift (cmd_name prefix (codes "r"))
    resp ← command cmd key token release_read_timeout_s
    lift (parse_release_response resp (op_label prefix (codes "release")))

  unfoldable pub renew : Str → Str → Option Scalar → Str → ℕ → Action S ℤ
  renew key token lease_ttl_s prefix read_timeout = do
    lift (validate_prefix prefix)
    lift (validate_key (codes "key") key)
    arg ← lift (make_renew_arg token lease_ttl_s)
    cmd ← lift (cmd_name prefix (codes "n"))
    resp ← command cmd key arg read_timeout
    lift (parse_renew_response resp (op_label prefix (codes "renew")))

  unfoldable pub enqueue : Str → Option Scalar → Str → Option Scalar → Action S Enqueued
  enqueue key lease_ttl_s prefix limit = do
    lift (validate_prefix_limit prefix limit)
    lift (validate_key (codes "key") key)
    arg ← lift (make_enqueue_arg limit lease_ttl_s)
    cmd ← lift (cmd_name prefix (codes "e"))
    resp ← command cmd key arg io_slack_s
    lift (parse_enqueue_response resp (op_label prefix (codes "enqueue")))

  unfoldable pub wait : Str → Scalar → Str → Action S (Str × ℤ)
  wait key wait_timeout_s prefix = do
    lift (validate_prefix prefix)
    lift (validate_key (codes "key") key)
    arg ← lift (make_wait_arg wait_timeout_s)
    cmd ← lift (cmd_name prefix (codes "w"))
    resp ← command cmd key arg (seconds wait_timeout_s + io_slack_s)
    lift (parse_grant_response resp (op_label prefix (codes "wait")))

  -- With `json.loads` as a parameter.
  unfoldable pub stats : (Str → Result Json) → Action S Members
  stats loads = do
    resp ← command (codes "stats") (codes "_") (codes "_") io_slack_s
    lift (parse_stats_response loads resp)

  unfoldable pub sem_acquire : Str → Scalar → Scalar → Option Scalar → Action S (Str × ℤ)
  unfolding acquire
  sem_acquire key acquire_timeout_s limit lease_ttl_s =
      acquire key acquire_timeout_s lease_ttl_s (codes "s") (some limit)

  unfoldable pub sem_release : Str → Str → Action S (Unit {0})
  unfolding release
  sem_release key token = release key token (codes "s")

  unfoldable pub sem_renew : Str → Str → Option Scalar → Action S ℤ
  unfolding renew
  sem_renew key token lease_ttl_s = renew key token lease_ttl_s (codes "s") io_slack_s

  unfoldable pub sem_enqueue : Str → Scalar → Option Scalar → Action S Enqueued
  unfolding enqueue
  sem_enqueue key limit lease_ttl_s = enqueue key lease_ttl_s (codes "s") (some limit)

  unfoldable pub sem_wait : Str → Scalar → Action S (Str × ℤ)
  unfolding wait
  sem_wait key wait_timeout_s = wait key wait_timeout_s (codes "s")
