-- ===== src/Async/Hooks.antt =====
-- The `_proto_*` methods of the async `DistributedLock` and `DistributedSemaphore`, the checks of
-- `__post_init__`, and the connecting.
use dflockd_client_py.Base.{
  ℕ, ◌+◌, ◌&&◌, not, false, Option, none, some, List, [], ◌∷◌, Str, codes, length, get_elem?, Bool,
}
use dflockd_client_py.Base.Int.{ℤ}
use dflockd_client_py.Base.Float.{Float, gt_nat, lt_nat}
use dflockd_client_py.Errors.{
  value_error, os_error, connection_lost, ratio_range, Result, ok, err, raise, raise_if, ◌>>◌,
}
use dflockd_client_py.Action.{Action, lift, continue}
use dflockd_client_py.Protocol.Validate.{
  Scalar, validate_key, validate_timeout_s, validate_lease_ttl_s, validate_connect_timeout_s,
  validate_semaphore_limit,
}
use dflockd_client_py.Protocol.Decode.{Enqueued}
use dflockd_client_py.Sharding.{
  Host, validate_servers, validate_server_endpoint, validate_shard_index,
}
use dflockd_client_py.Sync.Conn.{fault_class}
use dflockd_client_py.Sync.State.{
  Kind, lock, semaphore, Config, Dial, refused, tls_fails, connected, update,
}
use dflockd_client_py.Sync.Hooks.{members, endpoint}
use dflockd_client_py.Async.Commands.{
  authenticate, acquire, release, renew, enqueue, wait, renew_read_timeout_s,
}
use dflockd_client_py.Async.State.{AsyncBase, close_conn, command_at, initial}

unfoldable pub validate_renew_ratio : Float → Result (Unit {0})
validate_renew_ratio ratio =
    raise_if (not (gt_nat ratio 0 && lt_nat ratio 1)) value_error ratio_range

-- `_AsyncBase.__post_init__`
unfoldable pub post_init_base : Config → Result (Unit {0})
post_init_base c = do
  validate_key (codes "key") c.key
  validate_timeout_s (codes "acquire_timeout_s") c.acquire_timeout_s
  validate_lease_ttl_s c.lease_ttl_s
  validate_connect_timeout_s c.connect_timeout_s
  validate_servers c.servers
  validate_renew_ratio c.renew_ratio

-- `__post_init__` of the two classes.
abbrev post_init_of : Kind → Config → Result (Unit {0})
post_init_of lock c = post_init_base c
post_init_of (semaphore limit) c = do validate_semaphore_limit limit; post_init_base c

unfoldable pub post_init : Config → Result (Unit {0})
post_init c = post_init_of c.kind c

-- An object whose construction succeeded.
unfoldable pub construct : Config → List Dial → List Bool → Result AsyncBase
construct c dials cancels = elim (post_init c) [
  | ok _ ↦ ok (initial c dials cancels)
  | err e ↦ err e
]

unfoldable pub proto_acquire : Kind → ℕ → Action AsyncBase (Str × ℤ)
proto_acquire lock i s =
    acquire (command_at i) s.config.key s.config.acquire_timeout_s s.config.lease_ttl_s [] none s
proto_acquire (semaphore limit) i s =
    acquire (command_at i) s.config.key s.config.acquire_timeout_s s.config.lease_ttl_s (codes "s")
      (some limit) s

unfoldable pub proto_release : Kind → ℕ → Str → Action AsyncBase (Unit {0})
proto_release lock i token s = release (command_at i) s.config.key token [] s
proto_release (semaphore limit) i token s = release (command_at i) s.config.key token (codes "s") s

unfoldable pub proto_renew : Kind → ℕ → Str → Action AsyncBase ℤ
proto_renew lock i token s =
    renew (command_at i) s.config.key token s.config.lease_ttl_s [] renew_read_timeout_s s
proto_renew (semaphore limit) i token s =
    renew (command_at i) s.config.key token s.config.lease_ttl_s (codes "s") renew_read_timeout_s s

unfoldable pub proto_enqueue : Kind → ℕ → Action AsyncBase Enqueued
proto_enqueue lock i s = enqueue (command_at i) s.config.key s.config.lease_ttl_s [] none s
proto_enqueue (semaphore limit) i s =
    enqueue (command_at i) s.config.key s.config.lease_ttl_s (codes "s") (some limit) s

unfoldable pub proto_wait : Kind → ℕ → Scalar → Action AsyncBase (Str × ℤ)
proto_wait lock i timeout_s s = wait (command_at i) s.config.key timeout_s [] s
proto_wait (semaphore limit) i timeout_s s =
    wait (command_at i) s.config.key timeout_s (codes "s") s

-- `asyncio.open_connection` under its timeout, and the `AsyncConn` on it, by how the attempt
-- fares. What fails leaves no transport behind.
unfoldable pub open_connection : List Dial → Action AsyncBase ℕ
open_connection [] s = (raise os_error connection_lost, s)
open_connection (refused f ∷ ds) s =
    (raise (fault_class f) connection_lost, record s { dials = ds })
open_connection (tls_fails f ∷ ds) s =
    (raise (fault_class f) connection_lost, record s { dials = ds })
open_connection (connected inbox troubles ∷ ds) s = (
  ok s.opened,
  record s {
    conns =
        update s.conns s.opened
          (record { closed = false; inbox = inbox; outbox = []; troubles = troubles });
    opened = s.opened + 1;
    dials = ds;
  },
)

unfoldable pub open_conn : Host → Scalar → Action AsyncBase ℕ
open_conn host port s =
    continue (lift (validate_connect_timeout_s s.config.connect_timeout_s) s) (λ _ t.
      continue (lift (validate_server_endpoint host port) t) (λ _ u. open_connection u.dials u))

-- `except BaseException: await conn.close(); raise`
abbrev pub close_on_error : ℕ → Result (Unit {0}) × AsyncBase → Result ℕ × AsyncBase
close_on_error i (ok _, s) = (ok i, s)
close_on_error i (err e, s) = continue (close_conn i s) (λ _ t. (err e, t))

unfoldable pub maybe_authenticate : ℕ → Option Str → Action AsyncBase ℕ
maybe_authenticate i none s = (ok i, s)
maybe_authenticate i (some auth_token) s =
    close_on_error i (authenticate (command_at i) auth_token s)

unfoldable pub pick_server : Config → Result (Host × Scalar)
pick_server c = elim (c.sharding_strategy c.key (length (members c.servers))) [
  | err e ↦ err e
  | ok index ↦ elim (validate_shard_index index (length (members c.servers))) [
    | err e ↦ err e
    | ok idx ↦ endpoint (get_elem? (members c.servers) idx)
  ]
]

unfoldable pub open_and_authenticate : Action AsyncBase (Unit {0})
open_and_authenticate s = continue (lift (pick_server s.config) s) (λ server t.
    continue (open_conn server.0 server.1 t) (λ i u.
      continue (maybe_authenticate i u.config.auth_token u)
        (λ i' v. (ok tt, record v { conn = some i' }))))
