-- ===== src/Protocol/Decode.antt =====
-- The decoders of response lines, without `parse_stats_response`.
pub mod Grants
use dflockd_client_py.Base.{
  ℕ, ◌&&◌, ◌||◌, not, Bool, true, false, Option, none, some, List, [], ◌∷◌, Str, codes, ◌=?◌,
  if◌then◌else◌,
}
use dflockd_client_py.Base.Int.{ℤ, pos, ltb_ℤ}
use dflockd_client_py.Text.Words.{split, starts_with}
use dflockd_client_py.Text.Decimal.{int_str}
use dflockd_client_py.Errors.{
  runtime_error, dflockd_timeout_error, bad_response, timed_out, Result, ok, err, ◌>>=◌, ◌>>◌,
  raise, raise_if,
}
use dflockd_client_py.Protocol.Validate.{max_protocol_seconds}
use dflockd_client_py.Protocol.Status.{raise_status_error, raise_auth_error}

unfoldable pub parse_int_field : Str → Str → Str → ℕ → Result ℤ
parse_int_field raw op resp min_value = elim (int_str raw) [
  | none ↦ raise runtime_error (bad_response op resp)
  | some value ↦
      if ltb_ℤ value (pos min_value) || ltb_ℤ (pos max_protocol_seconds) value
      then raise runtime_error (bad_response op resp)
      else ok value
]

-- The three-field test and what follows it, on the fields.
abbrev token_lease_of : List Str → Str → Str → Str → Result (Str × ℤ)
token_lease_of (word ∷ token ∷ lease ∷ []) resp status op =
    if word =? status
    then (do n ← parse_int_field lease op resp 1; ok (token, n))
    else raise runtime_error (bad_response op resp)
token_lease_of _ resp status op = raise runtime_error (bad_response op resp)

unfoldable pub decode_token_lease : Str → Str → Str → Result (Str × ℤ)
decode_token_lease resp status op = token_lease_of (split resp) resp status op

abbrev remaining_of : List Str → Str → Str → Result ℤ
remaining_of (word ∷ remaining ∷ []) resp op =
    if word =? codes "ok"
    then parse_int_field remaining op resp 0
    else raise runtime_error (bad_response op resp)
remaining_of _ resp op = raise runtime_error (bad_response op resp)

unfoldable pub decode_remaining : Str → Str → Result ℤ
decode_remaining resp op = remaining_of (split resp) resp op

unfoldable pub parse_grant_response : Str → Str → Result (Str × ℤ)
parse_grant_response resp op =
    if resp =? codes "timeout"
    then raise dflockd_timeout_error (timed_out op)
    else if starts_with (codes "ok ") resp
    then decode_token_lease resp (codes "ok") op
    else raise_status_error op resp

unfoldable pub parse_renew_response : Str → Str → Result ℤ
parse_renew_response resp op =
    if starts_with (codes "ok") resp then decode_remaining resp op else raise_status_error op resp

-- What `enqueue` returns: `("acquired", token, lease)` or `("queued", None, None)`.
pub data Enqueued : Type 0 where
  acquired : Str → ℤ → Enqueued
  queued : Enqueued

unfoldable pub parse_enqueue_response : Str → Str → Result Enqueued
parse_enqueue_response resp op =
    if resp =? codes "queued"
    then ok queued
    else if starts_with (codes "acquired ") resp
    then (do grant ← decode_token_lease resp (codes "acquired") op; ok (acquired grant.0 grant.1))
    else raise_status_error op resp

unfoldable pub parse_release_response : Str → Str → Result (Unit {0})
parse_release_response resp op = if resp =? codes "ok" then ok tt else raise_status_error op resp

unfoldable pub parse_auth_response : Str → Result (Unit {0})
parse_auth_response resp = if resp =? codes "ok" then ok tt else raise_auth_error resp
