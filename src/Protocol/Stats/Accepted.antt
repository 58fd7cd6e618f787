-- ===== src/Protocol/Stats/Accepted.antt =====
-- Which `stats` responses are accepted, and what the others raise.
use dflockd_client_py.Text.Words.Laws.{begins-append, append-begins}
use dflockd_client_py.Text.Words.{starts_with}
use dflockd_client_py.Protocol.Status.{raise_status_error, status_error}
use dflockd_client_py.Base.{
  ℕ, ◌≡◌, ◌⊎◌, inl, inr, refl, Bool, true, false, Option, none, some, List, [], ◌∷◌, ◌++◌, Str,
  codes, All, arith, not, Bool-cases, drop,
}
use dflockd_client_py.Base.Int.{pos, negsuc}
use dflockd_client_py.Errors.{
  Error, runtime_error, is_subclass, class_of, Result, ok, err, ◌>>◌, raise_if, bad_response,
  json_decode_error,
}
use dflockd_client_py.Protocol.Stats.{
  Json, null, bool, int, float, str, list, dict, Values, no_values, value, Members, get,
  stats_list_fields, is_dict, all_dicts, bad_connections, bad_list, check_lists, validate_members,
  validate_stats_result, decoded, decode_stats_json, parse_stats_response,
}

abbrev pub IsCount : Option Json → Type 0
IsCount o = (n : ℕ) × (o ≡ some (int (pos n)))

-- Every value is a dict.
abbrev pub IsDicts : Values → Type 0
IsDicts no_values = Unit
IsDicts (value v vs) = ((ms : Members) × (v ≡ dict ms)) × IsDicts vs

abbrev pub IsDictList : Option Json → Type 0
IsDictList o = (vs : Values) × (o ≡ some (list vs)) × IsDicts vs

-- A dict as `StatsResult` has it.
pub record IsStats (ms : Members) : Type 0 where
  pub connections : IsCount (get (codes "connections") ms)
  pub lists : All (λ field. IsDictList (get field ms)) stats_list_fields

-- ----- the tests

-- A test is true exactly where the predicate does not hold.
abbrev Refutes : Bool → Type 0 → Type 0
Refutes b P = ((b ≡ true) × (¬ P)) ⊎ ((b ≡ false) × P)

bad_connections-Refutes : (o : Option Json) → Refutes (bad_connections o) (IsCount o)
bad_connections-Refutes none = inl (refl, λ h. cc)
bad_connections-Refutes (some null) = inl (refl, λ h. cc)
bad_connections-Refutes (some (bool b)) = inl (refl, λ h. cc)
bad_connections-Refutes (some (int (pos n))) = inr (ground arith, (n, refl))
bad_connections-Refutes (some (int (negsuc n))) = inl (ground arith, λ h. cc)
bad_connections-Refutes (some (float x)) = inl (refl, λ h. cc)
bad_connections-Refutes (some (str s)) = inl (refl, λ h. cc)
bad_connections-Refutes (some (list vs)) = inl (refl, λ h. cc)
bad_connections-Refutes (some (dict ms)) = inl (refl, λ h. cc)

is_dict-cases : (v : Json) → Refutes (not (is_dict v)) ((ms : Members) × (v ≡ dict ms))
is_dict-cases null = inl (refl, λ h. cc)
is_dict-cases (bool b) = inl (refl, λ h. cc)
is_dict-cases (int z) = inl (refl, λ h. cc)
is_dict-cases (float x) = inl (refl, λ h. cc)
is_dict-cases (str s) = inl (refl, λ h. cc)
is_dict-cases (list vs) = inl (refl, λ h. cc)
is_dict-cases (dict ms) = inr (refl, (ms, refl))

all_dicts-Refutes : (vs : Values) → Refutes (not (all_dicts vs)) (IsDicts vs)
all_dicts-Refutes no_values = inr (refl, tt)
all_dicts-Refutes (value v vs) = elim (is_dict-cases v) [
  | inl (q, other) ↦ inl (ground (arith, q), λ h. other h.0)
  | inr (q, known) ↦ elim (all_dicts-Refutes vs) [
    | inl (p, others) ↦ inl (ground (arith, q, p), λ h. others h.1)
    | inr (p, all) ↦ inr (ground (arith, q, p), (known, all))
  ]
]

bad_list-Refutes : (o : Option Json) → Refutes (bad_list o) (IsDictList o)
bad_list-Refutes none = inl (refl, λ h. cc)
bad_list-Refutes (some null) = inl (refl, λ h. cc)
bad_list-Refutes (some (bool b)) = inl (refl, λ h. cc)
bad_list-Refutes (some (int z)) = inl (refl, λ h. cc)
bad_list-Refutes (some (float x)) = inl (refl, λ h. cc)
bad_list-Refutes (some (str s)) = inl (refl, λ h. cc)
bad_list-Refutes (some (list vs)) = elim (all_dicts-Refutes vs) [
  | inl (q, other) ↦ inl (q, λ (ws, p, all). let same : vs ≡ ws = cc in other (rw same all))
  | inr (q, all) ↦ inr (q, (vs, refl, all))
]
bad_list-Refutes (some (dict ms)) = inl (refl, λ h. cc)

-- ----- the response

-- A response that is accepted with these members.
abbrev pub Accepts : (Str → Result Json) → Str → Members → Type 0
Accepts loads resp ms =
    (payload : Str) × (resp ≡ codes "ok " ++ payload) × (loads payload ≡ ok (dict ms)) × IsStats ms

abbrev IsRuntimeError : Error → Type 0
IsRuntimeError e = is_subclass (class_of e) runtime_error ≡ true

-- A check that passes exactly where the predicate holds.
abbrev Checks : {A : Type 0} → Result A → A → Type 0 → Type 0
Checks r a P = ((r ≡ ok a) × P) ⊎ ((e : Error) × (r ≡ err e) × IsRuntimeError e × (¬ P))

raise_if-Checks :
    (b : Bool) (resp : Str) (P : Type 0)
    → Refutes b P
    → Checks (raise_if b runtime_error (bad_response (codes "stats") resp)) tt P
unfolding is_subclass
raise_if-Checks b resp P (inl (q, other)) = rw q (inr (_, refl, refl, other))
raise_if-Checks b resp P (inr (q, p)) = rw q (inl (refl, p))

-- A check after another.
>>-Checks :
    {A : Type 0} {P Q : Type 0} (r : Result (Unit {0})) (k : Result A) (a : A)
    → Checks r tt P
    → Checks k a Q
    → Checks (r >> k) a (P × Q)
>>-Checks r k a (inr (e, q, runtime, other)) g = rw q (inr (e, refl, runtime, λ h. other h.0))
>>-Checks r k a (inl (q, p)) (inl (w, z)) = rw q (inl (w, (p, z)))
>>-Checks r k a (inl (q, p)) (inr (e, w, runtime, other)) =
    rw q (inr (e, w, runtime, λ h. other h.1))

check_lists-Checks :
    (fields : List Str) (ms : Members) (payload : Str)
    → Checks (check_lists fields ms payload) tt (All (λ field. IsDictList (get field ms)) fields)
check_lists-Checks [] ms payload = inl (refl, tt)
check_lists-Checks (field ∷ fields) ms payload =
    >>-Checks _ (check_lists fields ms payload) tt
      (raise_if-Checks (bad_list (get field ms)) payload (IsDictList (get field ms))
        (bad_list-Refutes (get field ms)))
      (check_lists-Checks fields ms payload)

-- A result that is the one that satisfies the predicate, or a `RuntimeError` where none does.
abbrev Settles : Result Members → (Members → Type 0) → Type 0
Settles r P =
    ((ms : Members) × (r ≡ ok ms) × P ms)
    ⊎ ((e : Error) × (r ≡ err e) × IsRuntimeError e × (¬ ((ms : Members) × P ms)))

validate_members-Checks :
    (ms : Members) (payload : Str) → Checks (validate_members ms payload) ms (IsStats ms)
validate_members-Checks ms payload =
    let count =
      raise_if-Checks (bad_connections (get (codes "connections") ms)) payload
        (IsCount (get (codes "connections") ms))
        (bad_connections-Refutes (get (codes "connections") ms)) in
    let lists = check_lists-Checks stats_list_fields ms payload in
    let both = >>-Checks _ (check_lists stats_list_fields ms payload) tt count lists in
    elim (>>-Checks _ (ok ms) ms both (inl (refl, tt))) [
      | inl (q, ((c, ls), _)) ↦ inl (q, record { connections = c; lists = ls })
      | inr (e, q, runtime, other) ↦
          inr (e, q, runtime, λ stats. other ((stats.connections, stats.lists), tt))
    ]

validate_members-Settles :
    (ms : Members) (payload : Str)
    → Settles (validate_members ms payload) (λ xs. (dict ms ≡ dict xs) × IsStats xs)
validate_members-Settles ms payload = elim (validate_members-Checks ms payload) [
  | inl (q, stats) ↦ inl (ms, q, (refl, stats))
  | inr (e, q, runtime, other) ↦
      inr (e, q, runtime, λ (xs, (same, stats)). let eq : ms ≡ xs = cc in other (rw eq stats))
]

validate_stats_result-Settles :
    (v : Json) (payload : Str)
    → Settles (validate_stats_result v payload) (λ xs. (v ≡ dict xs) × IsStats xs)
unfolding validate_stats_result is_subclass
validate_stats_result-Settles (dict ms) payload = validate_members-Settles ms payload
validate_stats_result-Settles null payload = inr (_, refl, refl, λ h. cc)
validate_stats_result-Settles (bool b) payload = inr (_, refl, refl, λ h. cc)
validate_stats_result-Settles (int z) payload = inr (_, refl, refl, λ h. cc)
validate_stats_result-Settles (float x) payload = inr (_, refl, refl, λ h. cc)
validate_stats_result-Settles (str s) payload = inr (_, refl, refl, λ h. cc)
validate_stats_result-Settles (list vs) payload = inr (_, refl, refl, λ h. cc)

status_error-runtime : (op resp : Str) → IsRuntimeError (status_error op resp)
unfolding status_error is_subclass
status_error-runtime op resp = ground arith

-- An exception of `json.loads` that the `except` lets pass.
abbrev Passes : Result Json → Result Members → Type 0
Passes r x =
    (e : Error) × (r ≡ err e) × (is_subclass (class_of e) json_decode_error ≡ false) × (x ≡ err e)

decoded-Settles :
    (r : Result Json) (payload : Str)
    → Settles (decoded r payload) (λ xs. (r ≡ ok (dict xs)) × IsStats xs)
      ⊎ Passes r (decoded r payload)
decoded-Settles (ok v) payload = inl (elim (validate_stats_result-Settles v payload) [
  | inl (ms, q, (same, stats)) ↦ inl (ms, q, (rw same refl, stats))
  | inr (e, q, runtime, other) ↦
      inr (e, q, runtime, λ (xs, (same, stats)). other (xs, (ground (arith, same), stats)))
])
decoded-Settles (err e) payload = elim (Bool-cases (is_subclass (class_of e) json_decode_error)) [
  | inl known ↦ rw known (inl (inr (_, refl, (unfold is_subclass in refl), λ h. cc)))
  | inr other ↦ inr (e, refl, other, rw other refl)
]

-- A dict that is accepted, or a `RuntimeError` where none is, or what `json.loads` raised of the
-- payload, other than a `JSONDecodeError`.
abbrev pub Decides : (Str → Result Json) → Str → Result Members → Type 0
Decides loads resp r =
    ((ms : Members) × (r ≡ ok ms) × Accepts loads resp ms)
    ⊎ ((e : Error) × (r ≡ err e) × IsRuntimeError e × (¬ ((ms : Members) × Accepts loads resp ms)))
    ⊎ ((payload : Str) × (resp ≡ codes "ok " ++ payload) × Passes (loads payload) r)

module _ (loads : Str → Result Json) where
  decode_stats_json-Decides :
      (resp payload : Str)
      → resp ≡ codes "ok " ++ payload
      → Decides loads resp (decode_stats_json loads payload)
  unfolding decode_stats_json
  decode_stats_json-Decides resp payload split = elim (decoded-Settles (loads payload) payload) [
    | inr passes ↦ inr (inr (payload, split, passes))
    | inl decided ↦ elim decided [
      | inl (ms, q, (same, stats)) ↦ inl (ms, q, (payload, split, same, stats))
      | inr (e, q, runtime, other) ↦ inr (
          inl (
            e,
            q,
            runtime,
            λ (ms, (rest, same_line, same, stats)).
                let eq : payload ≡ rest = cc in other (ms, (rw eq same, stats)),
          ))
    ]
  ]

  -- Whatever `json.loads` is, `parse_stats_response` either returns a dict, and then the line is
  -- `ok ` and a payload that `json.loads` decodes to that dict, whose `connections` is a
  -- non-negative `int` and no `bool` and whose four list fields are lists of dicts; or it raises
  -- a `RuntimeError`, and then no dict is of that form; or the line is `ok ` and a payload on
  -- which `json.loads` raises another exception than a `JSONDecodeError`, and it raises that
  -- exception.
  pub parse_stats_response-Decides :
      (resp : Str) → Decides loads resp (parse_stats_response loads resp)
  unfolding parse_stats_response raise_status_error
  parse_stats_response-Decides resp = elim (Bool-cases (starts_with (codes "ok ") resp)) [
    | inl begins ↦
        rw begins
          (decode_stats_json-Decides resp (drop 3 resp) (begins-append (codes "ok ") resp begins))
    | inr other ↦ rw other (
        inr (
          inl (
            status_error (codes "stats") resp,
            refl,
            status_error-runtime (codes "stats") resp,
            λ (ms, (payload, split, same, stats)).
                let begins = append-begins (codes "ok ") payload in
                ground (arith, other, split, begins),
          )))
  ]
