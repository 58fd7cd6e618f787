-- ===== src/Sharding/Laws.antt =====
-- What the checks of sharding.py accept, and the range of the CRC-32 strategy.
use native.Mathlib.Nat.{mod-lt}
use dflockd_client_py.Base.{
  ℕ, zero, suc, ◌%◌, ◌≤◌, ◌<◌, ◌≡◌, ◌≢◌, ◌↔◌, inl, inr, refl, List, [], ◌∷◌, Str, Bytes, All, arith,
}
use dflockd_client_py.Base.Int.{ℤ, pos, negsuc}
use dflockd_client_py.Errors.{ok, Result-cases}
use dflockd_client_py.Protocol.Validate.{Scalar, encode_text}
use dflockd_client_py.Protocol.Validate.Laws.{IsPlain, has_whitespace_iff}
use dflockd_client_py.Sharding.{
  Host, Server, pair, Servers, listed, max_tcp_port, validate_server_endpoint, validate_server,
  check_port, validate_each, validate_servers, validate_shard_index, stable_hash_shard,
}
use dflockd_client_py.Sharding.Crc.{crc32}

-- A host without whitespace and a TCP port.
abbrev pub IsServer : Server → Type 0
IsServer server =
    (host : Str) × (port : ℕ) × (server ≡ pair (Host.text host) (Scalar.int (pos port)))
    × (host ≢ [])
    × All IsPlain host
    × (1 ≤ port)
    × (port ≤ max_tcp_port)

validate_server_iff :
    (server : Server) → ((x : Str × ℤ) × (validate_server server ≡ ok x)) ↔ IsServer server
unfolding validate_server_endpoint check_port
validate_server_iff Server.other = (λ h. ground arith, λ h. ground arith)
validate_server_iff (pair Host.other port) = (λ h. ground arith, λ h. ground arith)
validate_server_iff (pair (Host.text host) (Scalar.bool b)) = (λ h. ground arith, λ h. ground arith)
validate_server_iff (pair (Host.text host) (Scalar.other s)) =
    (λ h. ground arith, λ h. ground arith)
validate_server_iff (pair (Host.text host) (Scalar.int (negsuc n))) =
    (λ h. ground arith, λ h. ground arith)
validate_server_iff (pair (Host.text host) (Scalar.int (pos n))) = (
  λ h. (
    host,
    n,
    refl,
    ground arith,
    (has_whitespace_iff host).0 (ground arith),
    ground arith,
    ground arith,
  ),
  λ h. ((host, pos n), ground (arith, (has_whitespace_iff host).1)),
)

validate_each_iff : (servers : List Server) → (validate_each servers ≡ ok tt) ↔ All IsServer servers
unfolding validate_each
validate_each_iff [] = (λ h. tt, λ h. refl)
validate_each_iff (server ∷ servers) =
    let ih = validate_each_iff servers in
    elim (Result-cases (validate_server server)) [
      | inl (x, q) ↦ rw q (λ h. ((validate_server_iff server).0 (x, q), ih.0 h), λ h. ih.1 h.1)
      | inr (e, q) ↦ rw q (
        λ h. absurd (ground arith),
        λ h. absurd (let (x, p) = (validate_server_iff server).1 h.0 in ground (arith, p, q)),
      )
    ]

-- `_validate_servers` accepts exactly the non-empty lists or tuples whose members are all pairs
-- of a host and a port, the host a non-empty text without spaces, tabs and line ends, and the
-- port an `int` from 1 to 65535.
pub validate_servers_iff :
    (v : Servers)
    → (validate_servers v ≡ ok tt)
      ↔ ((servers : List Server) × (v ≡ listed servers) × (servers ≢ []) × All IsServer servers)
unfolding validate_servers
validate_servers_iff Servers.other = (λ h. ground arith, λ h. ground arith)
validate_servers_iff (listed []) = (λ h. ground arith, λ h. ground arith)
validate_servers_iff (listed (server ∷ servers)) =
    let ih = validate_each_iff (server ∷ servers) in
    (
      λ h. (server ∷ servers, refl, (λ q. ground arith), ih.0 h),
      λ (l, q, n, a). ih.1 (ground (arith, q, a)),
    )

-- For a key that has a UTF-8 form and a positive number of servers, `stable_hash_shard` returns
-- an index below that number, and `_validate_shard_index` returns that index unchanged.
pub stable_hash_shard-validate_shard_index :
    (key : Str) (n : ℕ) {b : Bytes}
    → encode_text key ≡ ok b
    → 1 ≤ n
    → (r : ℕ) × (stable_hash_shard key (pos n) ≡ ok r)
      × (r < n)
      × (validate_shard_index (Scalar.int (pos r)) n ≡ ok r)
unfolding stable_hash_shard validate_shard_index
stable_hash_shard-validate_shard_index key zero q h = absurd (omega (arith, h))
stable_hash_shard-validate_shard_index key (suc n) {b} q h =
    let low : crc32 b % suc n < suc n = mod-lt (crc32 b) (omega arith) in
    rw q (crc32 b % suc n, refl, low, ground (arith, low))
