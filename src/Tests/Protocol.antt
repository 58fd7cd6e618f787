-- ===== src/Tests/Protocol.antt =====
-- The theorems on validators, encoders and decoders and on sharding, at concrete values.
use dflockd_client_py.Base.{
  ◌^◌, ℕ, ◌<◌, ◌≡◌, ◌≢◌, ◌↔◌, ◌⊎◌, refl, true, false, none, some, map, ◌++◌, List, [], ◌∷◌, Str,
  Bytes, codes, arith, All, length, take,
}
use dflockd_client_py.Base.Int.{pos}
use dflockd_client_py.Text.Utf8.{encode, decode}
use dflockd_client_py.Text.Words.{is_space, split, starts_with}
use dflockd_client_py.Text.Words.Laws.{IsWord}
use dflockd_client_py.Text.Decimal.{parse_int, show_int, show_nat}
use dflockd_client_py.Errors.{
  ok, err, raised, dflockd_timeout_error, timed_out, bad_response, runtime_error, value_error,
  Message,
}
use dflockd_client_py.Protocol.Validate.{
  Scalar, encode_text, byte_len, has_newline, check_no_newlines, validate_protocol_line,
  validate_key, validate_int, validate_seconds_range, validate_timeout_s, validate_lease_ttl_s,
}
use dflockd_client_py.Protocol.Validate.Laws.{IsPlain, FitsIn, validate_key_iff}
use dflockd_client_py.Protocol.Fence.{all_hex, is_hex, hex_value, hex_number, fence_from_token}
use dflockd_client_py.Protocol.Fence.Laws.{fence_from_token_bounds}
use dflockd_client_py.Protocol.Fence.Order.{lex_lt, fence_order}
use dflockd_client_py.Protocol.Encode.{
  encode_lines, show_scalar, join_spaces, append_optional_int, build_acquire_arg, build_enqueue_arg,
  make_acquire_arg, make_enqueue_arg,
}
use dflockd_client_py.Protocol.Encode.Frames.{pieces, decode-pieces-encode_lines}
use dflockd_client_py.Protocol.Encode.Args.{given, listed, make_acquire_arg-fields}
use dflockd_client_py.Protocol.Status.{status_error}
use dflockd_client_py.Protocol.Decode.{parse_grant_response, parse_renew_response}
use dflockd_client_py.Protocol.Decode.Grants.{
  granted_line, IsLease, parse_grant_response-granted_line, parse_grant_response_cases,
  parse_renew_response-show_int,
}
use dflockd_client_py.Sharding as Sharding
use dflockd_client_py.Sharding.{Servers, stable_hash_shard, validate_servers, validate_shard_index}
use dflockd_client_py.Sharding.Laws.{IsServer, validate_servers_iff}

abbrev key : Str
key = codes "job"

validate_key_iff_example :
    (validate_key (codes "key") key ≡ ok tt) ↔ ((key ≢ []) × All IsPlain key × FitsIn 256 key)
validate_key_iff_example = validate_key_iff (codes "key") key

abbrev lines : List Str
lines = codes "l" ∷ key ∷ codes "10" ∷ []

abbrev frame : Bytes
frame = codes "l" ++ (10 ∷ (codes "job" ++ (10 ∷ (codes "10" ++ (10 ∷ [])))))

frame_run : encode_lines lines ≡ ok frame
unfolding encode_lines check_no_newlines has_newline encode_text encode
frame_run = refl

frames_example : map decode (pieces frame) ≡ map some lines ++ (some [] ∷ [])
frames_example = decode-pieces-encode_lines lines (ground arith) frame_run

acquire_arg_run :
    make_acquire_arg (Scalar.int (pos 10)) (given (some (pos 3))) (given (some (pos 33)))
    ≡ ok (codes "10 3 33")
unfolding make_acquire_arg build_acquire_arg append_optional_int join_spaces show_scalar show_int
    show_nat validate_timeout_s validate_lease_ttl_s validate_int validate_seconds_range
    validate_protocol_line check_no_newlines has_newline byte_len encode_text encode
acquire_arg_run = refl

acquire_arg_example :
    map parse_int (split (codes "10 3 33"))
    ≡ map some (pos 10 ∷ (listed (some (pos 3)) ++ listed (some (pos 33))))
acquire_arg_example =
    make_acquire_arg-fields (pos 10) (some (pos 3)) (some (pos 33)) acquire_arg_run

enqueue_arg_run : make_enqueue_arg (given none) (given (some (pos 33))) ≡ ok (codes "33")
unfolding make_enqueue_arg build_enqueue_arg append_optional_int join_spaces show_scalar show_int
    show_nat validate_lease_ttl_s validate_int validate_seconds_range validate_protocol_line
    check_no_newlines has_newline byte_len encode_text encode
enqueue_arg_run = refl

abbrev token : Str
token = codes "00000000000000ff0123456789abcdef"

token-IsWord : IsWord token
unfolding is_space
token-IsWord = ground arith

grant_example :
    parse_grant_response (granted_line (codes "ok") token 33) (codes "acquire") ≡ ok (token, pos 33)
grant_example =
    parse_grant_response-granted_line (codes "acquire") token 33 token-IsWord
      (omega arith, omega arith)

renew_run : parse_renew_response (codes "ok " ++ show_int (pos 33)) (codes "renew") ≡ ok (pos 33)
renew_run = parse_renew_response-show_int (codes "renew") 33 (omega arith)

grant_cases_example :
    ((codes "error" ≡ codes "timeout")
      × (parse_grant_response (codes "error") (codes "wait")
          ≡ err (raised dflockd_timeout_error (timed_out (codes "wait")))))
    ⊎ ((codes "error" ≢ codes "timeout")
        × (starts_with (codes "ok ") (codes "error") ≡ false)
        × (parse_grant_response (codes "error") (codes "wait")
            ≡ err (status_error (codes "wait") (codes "error"))))
    ⊎ ((starts_with (codes "ok ") (codes "error") ≡ true)
        × (parse_grant_response (codes "error") (codes "wait")
            ≡ err (raised runtime_error (bad_response (codes "wait") (codes "error")))))
    ⊎ ((starts_with (codes "ok ") (codes "error") ≡ true)
        × ((token : Str) × (n : ℕ) × (parse_grant_response (codes "error") (codes "wait")
              ≡ ok (token, pos n))
            × IsWord token
            × IsLease n))
grant_cases_example = parse_grant_response_cases (codes "error") (codes "wait")

fence_bounds_example :
    ((length token ≡ 32)
      × (all_hex token ≡ true)
      × ((n : ℕ) × (fence_from_token token ≡ ok n) × (n < 2 ^ 64)))
    ⊎ (((length token ≢ 32) ⊎ (all_hex token ≡ false))
        × ((m : Message) × (fence_from_token token ≡ err (raised value_error m))))
fence_bounds_example = fence_from_token_bounds token

abbrev later : Str
later = codes "00000000000001000123456789abcdef"

token_fence : fence_from_token token ≡ ok 255
unfolding fence_from_token all_hex is_hex hex_number hex_value
token_fence = refl

later_fence : fence_from_token later ≡ ok 256
unfolding fence_from_token all_hex is_hex hex_number hex_value
later_fence = refl

fence_order_example : (255 < 256) ↔ (lex_lt (take 16 token) (take 16 later) ≡ true)
fence_order_example = fence_order token later (ground arith) (ground arith) token_fence later_fence

abbrev tail : Str
tail = codes "0123456789abcdef"

tail-all_hex : all_hex tail ≡ true
unfolding all_hex is_hex
tail-all_hex = refl

abbrev servers : Servers
servers =
    Servers.listed
      (Sharding.pair (Sharding.Host.text (codes "127.0.0.1")) (Scalar.int (pos 6388)) ∷ [])

validate_servers_iff_example :
    (validate_servers servers ≡ ok tt)
    ↔ ((l : List Sharding.Server) × (servers ≡ Servers.listed l) × (l ≢ []) × All IsServer l)
validate_servers_iff_example = validate_servers_iff servers

key_bytes : encode_text key ≡ ok key
unfolding encode_text encode
key_bytes = refl
