-- ===== src/Sync/Hooks.antt =====
-- The `_proto_*` methods of `DistributedLock` and `DistributedSemaphore`, the checks of
-- `__post_init__`, and the connecting.
use dflockd_client_py.Base.{
  ℕ, ◌+◌, ◌&&◌, not, false, Option, none, some, List, [], ◌∷◌, Str, codes, length, get_elem?,
}
use dflockd_client_py.Base.Int.{ℤ}
use dflockd_client_py.Base.Float.{Float, gt_nat, lt_nat}
use dflockd_client_py.Errors.{
  value_error, type_error, index_error, os_error, servers_not_pairs, connection_lost, ratio_range,
  Result, ok, err, raise, raise_if,
}
use dflockd_client_py.Action.{Action, lift, ◌>>=◌, ◌>>◌}
use dflockd_client_py.Protocol.Validate.{
  Scalar, validate_key, validate_timeout_s, validate_lease_ttl_s, validate_connect_timeout_s,
  validate_semaphore_limit,
}
use dflockd_client_py.Protocol.Decode.{Enqueued}
use dflockd_client_py.Sharding.{
  Host, Server, pair, Servers, listed, validate_servers, validate_server_endpoint,
  validate_shard_index,
}
use dflockd_client_py.Sync.Conn.{fault_class}
use dflockd_client_py.Sync.Commands.{
  authenticate, acquire, release, renew, enqueue, wait, renew_read_timeout_s,
}
use dflockd_client_py.Sync.State.{
  Kind, lock, semaphore, Config, Dial, refused, tls_fails, connected, SyncBase, update, close_conn,
  command_at, initial,
}

unfoldable pub validate_renew_ratio : Float → Result (Unit {0})
validate_renew_ratio ratio =
    raise_if (not (gt_nat ratio 0 && lt_nat ratio 1)) value_error ratio_range

abbrev both : Result (Unit {0}) → Result (Unit {0}) → Result (Unit {0})
both (ok _) k = k
both (err e) k = err e

-- `_SyncBase.__post_init__`
unfoldable pub post_init_base : Config → Result (Unit {0})
post_init_base c = both (validate_key (codes "key") c.key) (
    both (validate_timeout_s (codes "acquire_timeout_s") c.acquire_timeout_s) (
      both (validate_lease_ttl_s c.lease_ttl_s) (
        both (validate_connect_timeout_s c.connect_timeout_s)
          (both (validate_servers c.servers) (validate_renew_ratio c.renew_ratio)))))

-- `__post_init__` of the two classes.
unfoldable pub post_init : Config → Result (Unit {0})
unfolding post_init_base
post_init c = elim c.kind [
  | lock ↦ post_init_base c
  | semaphore limit ↦ both (validate_semaphore_limit limit) (post_init_base c)
]

-- An object whose construction succeeded.
unfoldable pub construct : Config → List Dial → Result SyncBase
construct c dials = elim (post_init c) [ ok _ ↦ ok (initial c dials) | err e ↦ err e ]

unfoldable pub proto_acquire : Kind → ℕ → Action SyncBase (Str × ℤ)
proto_acquire lock i s =
    acquire (command_at i) s.config.key s.config.acquire_timeout_s s.config.lease_ttl_s [] none s
proto_acquire (semaphore limit) i s =
    acquire (command_at i) s.config.key s.config.acquire_timeout_s s.config.lease_ttl_s (codes "s")
      (some limit) s

unfoldable pub proto_release : Kind → ℕ → Str → Action SyncBase (Unit {0})
proto_release lock i token s = release (command_at i) s.config.key token [] s
proto_release (semaphore limit) i token s = release (command_at i) s.config.key token (codes "s") s

unfoldable pub proto_renew : Kind → ℕ → Str → Action SyncBase ℤ
proto_renew lock i token s =
    renew (command_at i) s.config.key token s.config.lease_ttl_s [] renew_read_timeout_s s
proto_renew (semaphore limit) i token s =
    renew (command_at i) s.config.key token s.config.lease_ttl_s (codes "s") renew_read_timeout_s s

unfoldable pub proto_enqueue : Kind → ℕ → Action SyncBase Enqueued
proto_enqueue lock i s = enqueue (command_at i) s.config.key s.config.lease_ttl_s [] none s
proto_enqueue (semaphore limit) i s =
    enqueue (command_at i) s.config.key s.config.lease_ttl_s (codes "s") (some limit) s

unfoldable pub proto_wait : Kind → ℕ → Scalar → Action SyncBase (Str × ℤ)
proto_wait lock i timeout_s s = wait (command_at i) s.config.key timeout_s [] s
proto_wait (semaphore limit) i timeout_s s =
    wait (command_at i) s.config.key timeout_s (codes "s") s

-- `_open_socket` and the `SyncConn` on it, by how the attempt fares. A socket whose TLS handshake
-- fails is closed there and becomes no connection.
unfoldable pub open_socket : List Dial → Action SyncBase ℕ
open_socket [] s = (raise os_error connection_lost, s)
open_socket (refused f ∷ ds) s = (raise (fault_class f) connection_lost, record s { dials = ds })
open_socket (tls_fails f ∷ ds) s = (raise (fault_class f) connection_lost, record s { dials = ds })
open_socket (connected inbox troubles ∷ ds) s = (
  ok s.opened,
  record s {
    conns =
        update s.conns s.opened
          (record { closed = false; timeout = 0; inbox = inbox; outbox = []; troubles = troubles });
    opened = s.opened + 1;
    dials = ds;
  },
)

unfoldable pub open_conn : Host → Scalar → Action SyncBase ℕ
open_conn host port s =
    (do
      lift (validate_connect_timeout_s s.config.connect_timeout_s)
      _ ← lift (validate_server_endpoint host port)
      open_socket s.dials)
      s

-- `except BaseException: conn.close(); raise`
abbrev pub close_on_error : ℕ → Result (Unit {0}) × SyncBase → Result ℕ × SyncBase
close_on_error i (ok _, s) = (ok i, s)
close_on_error i (err e, s) = (err e, close_conn i s)

unfoldable pub maybe_authenticate : ℕ → Option Str → Action SyncBase ℕ
maybe_authenticate i none s = (ok i, s)
maybe_authenticate i (some auth_token) s =
    close_on_error i (authenticate (command_at i) auth_token s)

abbrev pub members : Servers → List Server
members (listed servers) = servers
members Servers.other = []

-- `self.servers[idx]`, taken apart into a host and a port.
abbrev pub endpoint : Option Server → Result (Host × Scalar)
endpoint none = raise index_error connection_lost
endpoint (some Server.other) = raise type_error servers_not_pairs
endpoint (some (pair host port)) = ok (host, port)

unfoldable pub pick_server : Config → Result (Host × Scalar)
pick_server c = elim (c.sharding_strategy c.key (length (members c.servers))) [
  | err e ↦ err e
  | ok index ↦ elim (validate_shard_index index (length (members c.servers))) [
    | err e ↦ err e
    | ok idx ↦ endpoint (get_elem? (members c.servers) idx)
  ]
]

unfoldable pub open_and_authenticate : Action SyncBase (Unit {0})
open_and_authenticate s =
    (do
      server ← lift (pick_server s.config)
      i ← open_conn server.0 server.1
      i' ← maybe_authenticate i s.config.auth_token
      λ t. (ok tt, record t { conn = some i' }))
      s
