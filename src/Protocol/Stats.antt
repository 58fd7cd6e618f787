-- ===== src/Protocol/Stats.antt =====
-- The decoder of the `stats` response. `json.loads` is the parameter `loads`.
pub mod Accepted
use dflockd_client_py.Base.{
  ◌&&◌, not, Bool, true, false, Option, none, some, List, [], ◌∷◌, Str, codes, ◌=?◌, if◌then◌else◌,
  drop,
}
use dflockd_client_py.Base.Int.{ℤ, pos, ltb_ℤ}
use dflockd_client_py.Base.Float.{Float}
use dflockd_client_py.Text.Words.{starts_with}
use dflockd_client_py.Errors.{
  runtime_error, json_decode_error, bad_response, is_subclass, class_of, Result, ok, err, ◌>>◌,
  raise, raise_if,
}
use dflockd_client_py.Protocol.Status.{raise_status_error}

-- What `json.loads` returns. The members of a dict are in their order.
mutual
  pub data Json : Type 0 where
    null : Json
    bool : Bool → Json
    int : ℤ → Json
    float : Float → Json
    str : Str → Json
    list : Values → Json
    dict : Members → Json

  pub data Values : Type 0 where
    no_values : Values
    value : Json → Values → Values

  pub data Members : Type 0 where
    no_members : Members
    member : Str → Json → Members → Members

-- `decoded.get(field)`
abbrev pub get : Str → Members → Option Json
get field no_members = none
get field (member name v ms) = if name =? field then some v else get field ms

abbrev pub stats_list_fields : List Str
stats_list_fields =
    codes "locks" ∷ codes "semaphores" ∷ codes "idle_locks" ∷ codes "idle_semaphores" ∷ []

-- `isinstance(value, dict)`
abbrev pub is_dict : Json → Bool
is_dict (dict ms) = true
is_dict null = false
is_dict (bool b) = false
is_dict (int z) = false
is_dict (float x) = false
is_dict (str s) = false
is_dict (list vs) = false

abbrev pub all_dicts : Values → Bool
all_dicts no_values = true
all_dicts (value v vs) = is_dict v && all_dicts vs

-- The test of `connections`: a `bool` is an `int` in Python, and is refused.
abbrev pub bad_connections : Option Json → Bool
bad_connections (some (int z)) = ltb_ℤ z (pos 0)
bad_connections (some (bool b)) = true
bad_connections (some _) = true
bad_connections none = true

-- The test of a list field.
abbrev pub bad_list : Option Json → Bool
bad_list (some (list vs)) = not (all_dicts vs)
bad_list (some _) = true
bad_list none = true

-- The `for` loop over the list fields.
abbrev pub check_lists : List Str → Members → Str → Result (Unit {0})
check_lists [] ms payload = ok tt
check_lists (field ∷ fields) ms payload =
    raise_if (bad_list (get field ms)) runtime_error (bad_response (codes "stats") payload)
    >> check_lists fields ms payload

abbrev pub validate_members : Members → Str → Result Members
validate_members ms payload =
    raise_if (bad_connections (get (codes "connections") ms)) runtime_error
      (bad_response (codes "stats") payload)
    >> check_lists stats_list_fields ms payload
    >> ok ms

unfoldable pub validate_stats_result : Json → Str → Result Members
validate_stats_result (dict ms) payload = validate_members ms payload
validate_stats_result _ payload = raise runtime_error (bad_response (codes "stats") payload)

-- What the `except` makes of an exception of `json.loads`.
abbrev pub decoded : Result Json → Str → Result Members
decoded (ok v) payload = validate_stats_result v payload
decoded (err e) payload =
    if is_subclass (class_of e) json_decode_error
    then raise runtime_error (bad_response (codes "stats") payload)
    else err e

module _ (loads : Str → Result Json) where
  unfoldable pub decode_stats_json : Str → Result Members
  decode_stats_json payload = decoded (loads payload) payload

  unfoldable pub parse_stats_response : Str → Result Members
  unfolding decode_stats_json
  parse_stats_response resp =
      if starts_with (codes "ok ") resp
      then decode_stats_json (drop 3 resp)
      else raise_status_error (codes "stats") resp
