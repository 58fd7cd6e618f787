-- ===== src/Tests/Stats.antt =====
-- The theorem on `stats` responses, at a response that is accepted.
use dflockd_client_py.Base.{◌≡◌, Str, codes, ◌=?◌, if◌then◌else◌, arith}
use dflockd_client_py.Base.Int.{pos}
use dflockd_client_py.Errors.{json_decode_error, not_encodable, Result, ok, raise}
use dflockd_client_py.Protocol.Stats.{
  Json, int, list, dict, no_values, value, Members, no_members, member, parse_stats_response,
  decode_stats_json, validate_stats_result,
}
use dflockd_client_py.Protocol.Stats.Accepted.{Decides, parse_stats_response-Decides}

abbrev sample : Members
sample = member (codes "connections") (int (pos 2)) (
    member (codes "locks") (list (value (dict no_members) no_values)) (
      member (codes "semaphores") (list no_values) (
        member (codes "idle_locks") (list no_values)
          (member (codes "idle_semaphores") (list no_values) no_members))))

-- A decoder that knows one payload.
abbrev loads : Str → Result Json
loads payload =
    if payload =? codes "sample" then ok (dict sample) else raise json_decode_error not_encodable

stats_example : Decides loads (codes "ok sample") (parse_stats_response loads (codes "ok sample"))
stats_example = parse_stats_response-Decides loads (codes "ok sample")

stats_accepted : parse_stats_response loads (codes "ok sample") ≡ ok sample
unfolding parse_stats_response decode_stats_json validate_stats_result
stats_accepted = ground arith
