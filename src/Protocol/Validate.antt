-- ===== src/Protocol/Validate.antt =====
-- The validators of _protocol.py, and the limits that they enforce.
pub mod Laws
pub mod Rejects
use dflockd_client_py.Base.{
  ℕ, ◌*◌, ◌&&◌, ◌||◌, not, Bool, true, false, Option, none, some, List, [], ◌∷◌, Str, Bytes, codes,
  ltb, leb, ◌==◌, ◌=?◌, any, length, if◌then◌else◌,
}
use dflockd_client_py.Base.Int.{ℤ, pos, negsuc, ltb_ℤ, leb_ℤ}
use dflockd_client_py.Base.Float.{Float, is_finite, le_nat, gt_nat}
use dflockd_client_py.Text.Utf8.{encode}
use dflockd_client_py.Errors.{
  value_error, type_error, unicode_encode_error, Message, must_not_be_empty, no_newlines,
  no_whitespace, must_be_an_integer, must_be_positive, too_long, at_least, too_large, not_encodable,
  must_be_a_number, must_be_finite, bad_prefix, limit_not_for_lock, limit_required, Result, ok, err,
  ◌>>=◌, ◌>>◌, raise, raise_if,
}

abbrev pub max_line_bytes : ℕ
max_line_bytes = 256

abbrev pub max_auth_token_bytes : ℕ
max_auth_token_bytes = 64 * 1024

abbrev pub max_response_line_bytes : ℕ
max_response_line_bytes = 1 * 1024 * 1024

abbrev pub max_protocol_seconds : ℕ
max_protocol_seconds = 9_223_372_036

-- A value given for an `int` argument: an `int`, a `bool`, or any other object, by its `str`.
pub data Scalar : Type 0 where
  int : ℤ → Scalar
  bool : Bool → Scalar
  other : Str → Scalar

-- A value given for a `float` argument.
pub data Number : Type 0 where
  int : ℤ → Number
  bool : Bool → Number
  float : Float → Number
  other : Number

-- `s.encode("utf-8")`
unfoldable pub encode_text : Str → Result Bytes
encode_text s = elim (encode s) [ none ↦ raise unicode_encode_error not_encodable | some b ↦ ok b ]

unfoldable pub byte_len : Str → Result ℕ
byte_len s = do b ← encode_text s; ok (length b)

unfoldable pub has_whitespace : Str → Bool
has_whitespace s = any (λ c. (c == 32) || (c == 9) || (c == 10) || (c == 13)) s

unfoldable pub has_newline : Str → Bool
has_newline s = any (λ c. (c == 10) || (c == 13)) s

unfoldable pub check_no_newlines : Str → Str → Result (Unit {0})
check_no_newlines name value = raise_if (has_newline value) value_error (no_newlines name)

unfoldable pub validate_protocol_line : Str → Str → Bool → Result (Unit {0})
validate_protocol_line name value allow_empty = do
  raise_if (not allow_empty && value =? []) value_error (must_not_be_empty name)
  check_no_newlines name value
  n ← byte_len value
  raise_if (ltb max_line_bytes n) value_error (too_long name max_line_bytes)

unfoldable pub validate_key : Str → Str → Result (Unit {0})
validate_key name value = do
  validate_protocol_line name value false
  raise_if (has_whitespace value) value_error (no_whitespace name)

unfoldable pub validate_token : Str → Result (Unit {0})
validate_token token = do
  validate_protocol_line (codes "token") token false
  raise_if (has_whitespace token) value_error (no_whitespace (codes "token"))

-- `_validate_int`: the integer that is held, since what follows computes with it.
unfoldable pub validate_int : Str → Scalar → Result ℤ
validate_int name (Scalar.int z) = ok z
validate_int name (Scalar.bool b) = raise type_error (must_be_an_integer name)
validate_int name (Scalar.other s) = raise type_error (must_be_an_integer name)

unfoldable pub validate_seconds_range : Str → ℤ → ℕ → Result (Unit {0})
validate_seconds_range name value min_value = do
  raise_if (ltb_ℤ value (pos min_value)) value_error (at_least name min_value)
  raise_if (ltb_ℤ (pos max_protocol_seconds) value) value_error
      (too_large name max_protocol_seconds)

unfoldable pub validate_timeout_s : Str → Scalar → Result (Unit {0})
validate_timeout_s name value = do z ← validate_int name value; validate_seconds_range name z 0

unfoldable pub validate_lease_ttl_s : Option Scalar → Result (Unit {0})
validate_lease_ttl_s none = ok tt
validate_lease_ttl_s (some value) = do
  z ← validate_int (codes "lease_ttl_s") value
  validate_seconds_range (codes "lease_ttl_s") z 1

unfoldable pub validate_semaphore_limit : Scalar → Result (Unit {0})
validate_semaphore_limit limit = do
  z ← validate_int (codes "limit") limit
  raise_if (leb_ℤ z (pos 0)) value_error (must_be_positive (codes "limit"))

unfoldable pub validate_auth_token : Str → Result (Unit {0})
validate_auth_token token = do
  check_no_newlines (codes "auth token") token
  n ← byte_len token
  raise_if (ltb max_auth_token_bytes n) value_error
      (too_long (codes "auth token") max_auth_token_bytes)

abbrev connect_timeout : Str
connect_timeout = codes "connect_timeout_s"

-- The tests after the class test, with what `<=` and `>` say of the value.
abbrev validate_connect_range : Bool → Bool → Result (Unit {0})
validate_connect_range not_positive above = do
  raise_if not_positive value_error (must_be_positive connect_timeout)
  raise_if above value_error (too_large connect_timeout max_protocol_seconds)

unfoldable pub validate_connect_timeout_s : Number → Result (Unit {0})
validate_connect_timeout_s (Number.bool b) = raise type_error (must_be_a_number connect_timeout)
validate_connect_timeout_s Number.other = raise type_error (must_be_a_number connect_timeout)
validate_connect_timeout_s (Number.int z) =
    validate_connect_range (leb_ℤ z (pos 0)) (ltb_ℤ (pos max_protocol_seconds) z)
validate_connect_timeout_s (Number.float x) = do
  raise_if (not (is_finite x)) value_error (must_be_finite connect_timeout)
  validate_connect_range (le_nat x 0) (gt_nat x max_protocol_seconds)

unfoldable pub validate_prefix : Str → Result (Unit {0})
validate_prefix prefix =
    raise_if (not (prefix =? [] || prefix =? codes "s")) value_error (bad_prefix prefix)

unfoldable pub require_limit_for_semaphore : Option Scalar → Result (Unit {0})
require_limit_for_semaphore none = raise value_error limit_required
require_limit_for_semaphore (some limit) = validate_semaphore_limit limit

abbrev reject_limit : Option Scalar → Result (Unit {0})
reject_limit none = ok tt
reject_limit (some limit) = raise value_error limit_not_for_lock

unfoldable pub validate_prefix_limit : Str → Option Scalar → Result (Unit {0})
validate_prefix_limit prefix limit = do
  validate_prefix prefix
  if prefix =? codes "s" then require_limit_for_semaphore limit else reject_limit limit
