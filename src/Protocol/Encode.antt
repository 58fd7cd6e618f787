-- ===== src/Protocol/Encode.antt =====
-- The encoders: protocol frames, command arguments and command names.
pub mod Frames
pub mod Sendable
pub mod Args
use dflockd_client_py.Base.{
  ℕ, Bool, true, false, Option, none, some, List, [], ◌∷◌, ◌++◌, Str, Bytes, codes, ◌=?◌,
  if◌then◌else◌,
}
use dflockd_client_py.Base.Int.{ℤ}
use dflockd_client_py.Text.Decimal.{show_int}
use dflockd_client_py.Errors.{Result, ok, err, ◌>>=◌, ◌>>◌}
use dflockd_client_py.Protocol.Validate.{
  Scalar, encode_text, check_no_newlines, validate_protocol_line, validate_token,
  validate_timeout_s, validate_lease_ttl_s, validate_prefix,
}

check_lines : List Str → Result (Unit {0})
check_lines [] = ok tt
check_lines (ln ∷ lines) = check_no_newlines (codes "protocol argument") ln >> check_lines lines

-- Each line with its line end.
join_lines : List Str → Str
join_lines [] = []
join_lines (ln ∷ lines) = ln ++ (10 ∷ join_lines lines)

unfoldable pub encode_lines : List Str → Result Bytes
unfolding check_lines join_lines
encode_lines lines = do check_lines lines; encode_text (join_lines lines)

-- `str(value)`
unfoldable pub show_scalar : Scalar → Str
show_scalar (Scalar.int z) = show_int z
show_scalar (Scalar.bool true) = codes "True"
show_scalar (Scalar.bool false) = codes "False"
show_scalar (Scalar.other s) = s

-- `" ".join(parts)`
unfoldable pub join_spaces : List Str → Str
join_spaces [] = []
join_spaces (p ∷ []) = p
join_spaces (p ∷ q ∷ parts) = p ++ (32 ∷ join_spaces (q ∷ parts))

-- The list after `_append_optional_int`.
unfoldable pub append_optional_int : List Str → Option Scalar → List Str
append_optional_int parts none = parts
append_optional_int parts (some value) = parts ++ (show_scalar value ∷ [])

unfoldable pub build_acquire_arg : Scalar → Option Scalar → Option Scalar → Str
unfolding append_optional_int join_spaces
build_acquire_arg timeout_s limit lease_ttl_s =
    join_spaces
      (append_optional_int (append_optional_int (show_scalar timeout_s ∷ []) limit) lease_ttl_s)

unfoldable pub build_renew_arg : Str → Option Scalar → Str
build_renew_arg token none = token
build_renew_arg token (some lease_ttl_s) = token ++ (32 ∷ show_scalar lease_ttl_s)

unfoldable pub build_enqueue_arg : Option Scalar → Option Scalar → Str
unfolding append_optional_int join_spaces
build_enqueue_arg limit lease_ttl_s =
    join_spaces (append_optional_int (append_optional_int [] limit) lease_ttl_s)

unfoldable pub build_wait_arg : Scalar → Str
build_wait_arg timeout_s = show_scalar timeout_s

unfoldable pub cmd_name : Str → Str → Result Str
cmd_name prefix op = do validate_prefix prefix; ok (prefix ++ op)

unfoldable pub op_label : Str → Str → Str
op_label prefix op = if prefix =? codes "s" then codes "sem_" ++ op else op

unfoldable pub make_acquire_arg : Scalar → Option Scalar → Option Scalar → Result Str
make_acquire_arg timeout_s limit lease_ttl_s = do
  validate_timeout_s (codes "acquire_timeout_s") timeout_s
  validate_lease_ttl_s lease_ttl_s
  let arg = build_acquire_arg timeout_s limit lease_ttl_s
  validate_protocol_line (codes "acquire argument") arg true
  ok arg

unfoldable pub make_renew_arg : Str → Option Scalar → Result Str
make_renew_arg token lease_ttl_s = do
  validate_token token
  validate_lease_ttl_s lease_ttl_s
  let arg = build_renew_arg token lease_ttl_s
  validate_protocol_line (codes "renew argument") arg true
  ok arg

unfoldable pub make_enqueue_arg : Option Scalar → Option Scalar → Result Str
make_enqueue_arg limit lease_ttl_s = do
  validate_lease_ttl_s lease_ttl_s
  let arg = build_enqueue_arg limit lease_ttl_s
  validate_protocol_line (codes "enqueue argument") arg true
  ok arg

unfoldable pub make_wait_arg : Scalar → Result Str
make_wait_arg timeout_s = do
  validate_timeout_s (codes "wait_timeout_s") timeout_s
  let arg = build_wait_arg timeout_s
  validate_protocol_line (codes "wait argument") arg true
  ok arg
