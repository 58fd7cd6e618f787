-- ===== src/Sync/Defaults.antt =====
-- A lock object with the defaults of its fields: `SyncDistributedLock(key)`.
pub mod Session
use dflockd_client_py.Base.{
  ◌++◌, All, length, ℕ, ◌≡◌, refl, none, some, List, [], ◌∷◌, Str, Bytes, codes, arith, ◌<◌, false,
}
use dflockd_client_py.Base.Int.{pos}
use dflockd_client_py.Base.Float.{finite}
use dflockd_client_py.Text.Utf8.{encode}
use dflockd_client_py.Text.Decimal.{show_int, show_nat}
use dflockd_client_py.Errors.{ok, Result, map_result, >>-ok}
use dflockd_client_py.Protocol.Validate.{
  Scalar, Number, validate_key, validate_int, validate_seconds_range, validate_timeout_s,
  validate_lease_ttl_s, validate_connect_timeout_s, encode_text, byte_len, has_newline,
  has_whitespace, check_no_newlines, validate_protocol_line, validate_token,
}
use dflockd_client_py.Protocol.Validate.Laws.{validate_protocol_line_iff}
use dflockd_client_py.Protocol.Encode.{
  encode_lines, make_acquire_arg, make_renew_arg, build_acquire_arg, build_renew_arg,
  append_optional_int, join_spaces, show_scalar,
}
use dflockd_client_py.Protocol.Encode.Sendable.{
  IsSendable, encode_lines-built, key-IsSendable, token-IsSendable, encode_text-some, token-line,
}
use dflockd_client_py.Sharding as Sharding
use dflockd_client_py.Sharding.{
  Host, Servers, validate_servers, validate_shard_index, validate_server_endpoint,
  stable_hash_shard,
}
use dflockd_client_py.Sharding.Laws.{validate_servers_iff, stable_hash_shard-validate_shard_index}
use dflockd_client_py.Sync.State.{Kind, Config, Dial, connected, SyncBase, initial}
use dflockd_client_py.Sync.Hooks.{
  construct, post_init, post_init_base, validate_renew_ratio, pick_server,
}
use dflockd_client_py.Sync.Grant.{IsReady}
use dflockd_client_py.Sync.Session.{IsHeld}

-- `stable_hash_shard` as a strategy.
pub hash_strategy : Str → ℕ → Result Scalar
hash_strategy key n = map_result (λ r. Scalar.int (pos r)) (stable_hash_shard key (pos n))

-- The defaults of the fields that the caller can give.
unfoldable pub default_config : Str → Config
unfolding hash_strategy
default_config key = record {
  kind = Kind.lock;
  key = key;
  acquire_timeout_s = Scalar.int (pos 10);
  lease_ttl_s = none;
  servers =
      Servers.listed (Sharding.pair (Host.text (codes "127.0.0.1")) (Scalar.int (pos 6388)) ∷ []);
  sharding_strategy = hash_strategy;
  renew_ratio = finite (pos 1) 1;
  auth_token = none;
  connect_timeout_s = Number.float (finite (pos 10) 0);
}

default_servers : (key : Str) → validate_servers (default_config key).servers ≡ ok tt
unfolding default_config
default_servers key = (validate_servers_iff _).1 (
  Sharding.pair (Host.text (codes "127.0.0.1")) (Scalar.int (pos 6388)) ∷ [],
  refl,
  ground arith,
  ((codes "127.0.0.1", 6388, refl, ground arith, ground arith, omega arith, omega arith), tt),
)

pub default_config-constructed :
    (key : Str) (dials : List Dial)
    → validate_key (codes "key") key ≡ ok tt
    → construct (default_config key) dials ≡ ok (initial (default_config key) dials)
unfolding construct post_init post_init_base default_config validate_renew_ratio validate_timeout_s
    validate_lease_ttl_s validate_connect_timeout_s validate_int validate_seconds_range
default_config-constructed key dials valid = ground (arith, valid, default_servers key)

-- ----- what its commands need

default_picked :
    (key : Str)
    → validate_key (codes "key") key ≡ ok tt
    → pick_server (default_config key) ≡ ok (Host.text (codes "127.0.0.1"), Scalar.int (pos 6388))
unfolding pick_server default_config hash_strategy
default_picked key valid =
    let (plain, (b, q)) = key-IsSendable key valid in
    let (r, hashed, low, checked) =
      stable_hash_shard-validate_shard_index key 1 (encode_text-some key q) (omega arith) in
    let only : r ≡ 0 = omega (arith, low) in ground (arith, hashed, checked, only)

default_endpoint :
    validate_server_endpoint (Host.text (codes "127.0.0.1")) (Scalar.int (pos 6388))
    ≡ ok (codes "127.0.0.1", pos 6388)
unfolding validate_server_endpoint has_whitespace
default_endpoint = ground arith

default_arg : make_acquire_arg (Scalar.int (pos 10)) none none ≡ ok (codes "10")
unfolding make_acquire_arg build_acquire_arg append_optional_int join_spaces show_scalar show_int
    show_nat validate_timeout_s validate_lease_ttl_s validate_int validate_seconds_range
    validate_protocol_line check_no_newlines has_newline byte_len encode_text encode
default_arg = refl

words-IsSendable :
    IsSendable (codes "l")
    × IsSendable (codes "n")
    × IsSendable (codes "r")
    × IsSendable (codes "10")
unfolding encode
words-IsSendable = (
  ((ground arith), (codes "l", refl)),
  ((ground arith), (codes "n", refl)),
  ((ground arith), (codes "r", refl)),
  ((ground arith), (codes "10", refl)),
)

pub default_config-IsReady :
    (key : Str)
    → validate_key (codes "key") key ≡ ok tt
    → (frame : Bytes) × IsReady (default_config key) (codes "10") frame
unfolding default_config validate_connect_timeout_s
default_config-IsReady key valid =
    let (frame, built) =
      encode_lines-built (codes "l" ∷ key ∷ codes "10" ∷ [])
        (words-IsSendable.0, (key-IsSendable key valid, (words-IsSendable.3, tt))) in
    (
      frame,
      record {
        a_lock = refl;
        no_auth = refl;
        key_valid = valid;
        arg_built = default_arg;
        frame_built = built;
        timeout_valid = ground arith;
        host = Host.text (codes "127.0.0.1");
        port = Scalar.int (pos 6388);
        picked = default_picked key valid;
        address = (codes "127.0.0.1", pos 6388);
        endpoint_valid = default_endpoint;
      },
    )

renew_arg-token :
    (token : Str) → validate_token token ≡ ok tt → make_renew_arg token none ≡ ok token
unfolding make_renew_arg validate_lease_ttl_s build_renew_arg
renew_arg-token token valid = rw (valid, token-line (codes "renew argument") token valid) refl

pub default_config-IsHeld :
    (key token : Str)
    → validate_key (codes "key") key ≡ ok tt
    → validate_token token ≡ ok tt
    → (renewing : Bytes) × (releasing : Bytes) × IsHeld
        (default_config key)
        token
        token
        renewing
        releasing
unfolding default_config
default_config-IsHeld key token valid token_valid =
    let (renewing, built_n) =
      encode_lines-built (codes "n" ∷ key ∷ token ∷ []) (
        words-IsSendable.1,
        (key-IsSendable key valid, (token-IsSendable token token_valid, tt)),
      ) in
    let (releasing, built_r) =
      encode_lines-built (codes "r" ∷ key ∷ token ∷ []) (
        words-IsSendable.2,
        (key-IsSendable key valid, (token-IsSendable token token_valid, tt)),
      ) in
    (
      renewing,
      releasing,
      record {
        a_lock = refl;
        key_valid = valid;
        token_valid = token_valid;
        arg_built = renew_arg-token token token_valid;
        renewing_built = built_n;
        releasing_built = built_r;
      },
    )
