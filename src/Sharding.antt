-- ===== src/Sharding.antt =====
-- sharding.py: the checks on servers, ports and shard indexes, and the CRC-32 strategy.
pub mod Crc
pub mod Laws
use dflockd_client_py.Base.{
  ℕ, zero, suc, ◌%◌, ◌&&◌, ◌||◌, not, Bool, true, false, Option, none, some, List, [], ◌∷◌, Str,
  codes, ltb, leb, ◌==◌, ◌=?◌, any, length, if◌then◌else◌,
}
use dflockd_client_py.Base.Int.{ℤ, pos, negsuc, ltb_ℤ, leb_ℤ, pos_part}
use dflockd_client_py.Errors.{
  value_error, type_error, index_error, host_not_text, host_empty, host_whitespace,
  port_not_integer, port_range, servers_empty, servers_not_pairs, index_not_integer,
  index_out_of_range, num_servers_not_positive, Result, ok, err, ◌>>=◌, ◌>>◌, raise, raise_if,
}
use dflockd_client_py.Protocol.Validate.{Scalar, encode_text, has_whitespace}
use dflockd_client_py.Sharding.Crc.{crc32}

abbrev pub max_tcp_port : ℕ
max_tcp_port = 65535

-- A value given for a host: a text, or any other object.
pub data Host : Type 0 where
  text : Str → Host
  other : Host

-- A member of `servers`: a tuple of two, or any other object.
pub data Server : Type 0 where
  pair : Host → Scalar → Server
  other : Server

-- A value given for `servers`: a list or a tuple, or any other object.
pub data Servers : Type 0 where
  listed : List Server → Servers
  other : Servers

check_port : Str → Scalar → Result (Str × ℤ)
check_port host (Scalar.int port) = do
  raise_if (not (ltb_ℤ (pos 0) port && leb_ℤ port (pos max_tcp_port))) value_error port_range
  ok (host, port)
check_port host (Scalar.bool b) = raise type_error port_not_integer
check_port host (Scalar.other s) = raise type_error port_not_integer

unfoldable pub validate_server_endpoint : Host → Scalar → Result (Str × ℤ)
unfolding check_port
validate_server_endpoint Host.other port = raise type_error host_not_text
validate_server_endpoint (Host.text host) port = do
  raise_if (host =? []) value_error host_empty
  raise_if (has_whitespace host) value_error host_whitespace
  check_port host port

abbrev validate_server : Server → Result (Str × ℤ)
validate_server Server.other = raise type_error servers_not_pairs
validate_server (pair host port) = validate_server_endpoint host port

-- The loop of `_validate_servers`.
validate_each : List Server → Result (Unit {0})
validate_each [] = ok tt
validate_each (server ∷ servers) = do _ ← validate_server server; validate_each servers

unfoldable pub validate_servers : Servers → Result (Unit {0})
unfolding validate_each
validate_servers Servers.other = raise value_error servers_empty
validate_servers (listed []) = raise value_error servers_empty
validate_servers (listed (server ∷ servers)) = validate_each (server ∷ servers)

-- The index that a sharding strategy returned.
unfoldable pub validate_shard_index : Scalar → ℕ → Result ℕ
validate_shard_index (Scalar.int index) num_servers = do
  raise_if (not (leb_ℤ (pos 0) index && ltb_ℤ index (pos num_servers))) index_error
      (index_out_of_range index num_servers)
  ok (pos_part index)
validate_shard_index (Scalar.bool b) num_servers = raise type_error index_not_integer
validate_shard_index (Scalar.other s) num_servers = raise type_error index_not_integer

-- `num_servers` is an `int`: it is `len(self.servers)` where the client calls it.
unfoldable pub stable_hash_shard : Str → ℤ → Result ℕ
stable_hash_shard key (negsuc n) = raise value_error num_servers_not_positive
stable_hash_shard key (pos zero) = raise value_error num_servers_not_positive
stable_hash_shard key (pos (suc n)) = do b ← encode_text key; ok (crc32 b % suc n)
