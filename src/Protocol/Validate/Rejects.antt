-- ===== src/Protocol/Validate/Rejects.antt =====
-- The exceptions that the validators raise.
use mathlib.Core.Path.{subst}
use dflockd_client_py.Base.{
  ℕ, ◌≡◌, refl, ◌||◌, Bool, true, false, Option, none, some, List, Str, codes, ◌=?◌, if◌then◌else◌,
}
use dflockd_client_py.Base.Int.{ℤ}
use dflockd_client_py.Text.Utf8.{encode}
use dflockd_client_py.Errors.{
  ErrorClass, Message, value_error, type_error, unicode_encode_error, not_encodable, is_subclass,
  Error, raised, class_of, Result, ok, err, ◌>>=◌, raise, raise_if,
}
use dflockd_client_py.Protocol.Validate.{
  Scalar, encode_text, byte_len, has_newline, check_no_newlines, validate_protocol_line,
  validate_key, validate_token, validate_int, validate_seconds_range, validate_timeout_s,
  validate_lease_ttl_s, validate_semaphore_limit, validate_auth_token, validate_prefix,
  validate_prefix_limit, reject_limit, require_limit_for_semaphore,
}

-- A class that `except (ValueError, TypeError)` catches.
abbrev pub IsRejection : ErrorClass → Type 0
IsRejection c = (is_subclass c value_error || is_subclass c type_error) ≡ true

-- The call returns, or raises such an exception.
pub data Rejects {ℓ} {A : Type ℓ} : Result A → Type ℓ where
  accepts : (a : A) → Rejects (ok a)
  rejects : (e : Error) → IsRejection (class_of e) → Rejects (err e)

value : (m : Message) → IsRejection (class_of (raised value_error m))
unfolding is_subclass
value m = refl

type : (m : Message) → IsRejection (class_of (raised type_error m))
unfolding is_subclass
type m = refl

unicode : (m : Message) → IsRejection (class_of (raised unicode_encode_error m))
unfolding is_subclass
unicode m = refl

pub Rejects-err {ℓ} :
    {A : Type ℓ} {e : Error} {r : Result A} → Rejects r → r ≡ err e → IsRejection (class_of e)
Rejects-err {e = e'} (accepts a) q = cc
Rejects-err {e = e'} (rejects e h) q =
    let p : e ≡ e' = cc in subst (λ x. IsRejection (class_of x)) p h

pub >>=-Rejects {ℓ κ} :
    {A : Type ℓ} {B : Type κ} {m : Result A} {f : A → Result B}
    → Rejects m
    → ((a : A) → Rejects (f a))
    → Rejects (m >>= f)
>>=-Rejects (accepts a) k = k a
>>=-Rejects (rejects e h) k = rejects e h

pub raise_if-Rejects : (b : Bool) (m : Message) → Rejects (raise_if b value_error m)
raise_if-Rejects true m = rejects _ (value m)
raise_if-Rejects false m = accepts tt

pub value-Rejects {ℓ} : {A : Type ℓ} (m : Message) → Rejects {A = A} (err (raised value_error m))
value-Rejects m = rejects (raised value_error m) (value m)

pub type-Rejects {ℓ} : {A : Type ℓ} (m : Message) → Rejects {A = A} (err (raised type_error m))
type-Rejects m = rejects (raised type_error m) (type m)

-- A chain of tests, step by step.
pub ruleset reject_rules = (accepts, value-Rejects, type-Rejects, raise_if-Rejects, >>=-Rejects)

pub encode_text-Rejects : (s : Str) → Rejects (encode_text s)
unfolding encode_text
encode_text-Rejects s = by_bytes (encode s)
  where
    by_bytes :
        (o : Option (List ℕ))
        → Rejects (elim o as (λ x. Result (List ℕ)) [
          | none ↦ raise unicode_encode_error not_encodable
          | some b ↦ ok b
        ])
    by_bytes none = rejects _ (unicode not_encodable)
    by_bytes (some b) = accepts b

byte_len-Rejects : (s : Str) → Rejects (byte_len s)
unfolding byte_len
byte_len-Rejects s = >>=-Rejects (encode_text-Rejects s) (λ b. accepts _)

pub check_no_newlines-Rejects : (name s : Str) → Rejects (check_no_newlines name s)
unfolding check_no_newlines
check_no_newlines-Rejects name s = raise_if-Rejects (has_newline s) _

pub validate_protocol_line-Rejects :
    (name s : Str) (allow_empty : Bool) → Rejects (validate_protocol_line name s allow_empty)
unfolding validate_protocol_line
validate_protocol_line-Rejects name s allow_empty = >>=-Rejects (raise_if-Rejects _ _) (λ _.
    >>=-Rejects (check_no_newlines-Rejects name s)
      (λ _. >>=-Rejects (byte_len-Rejects s) (λ n. raise_if-Rejects _ _)))

pub validate_key-Rejects : (name s : Str) → Rejects (validate_key name s)
unfolding validate_key
validate_key-Rejects name s =
    >>=-Rejects (validate_protocol_line-Rejects name s false) (λ _. raise_if-Rejects _ _)

pub validate_token-Rejects : (s : Str) → Rejects (validate_token s)
unfolding validate_token
validate_token-Rejects s =
    >>=-Rejects (validate_protocol_line-Rejects (codes "token") s false) (λ _. raise_if-Rejects _ _)

validate_int-Rejects : (name : Str) (v : Scalar) → Rejects (validate_int name v)
unfolding validate_int
validate_int-Rejects name (Scalar.int z) = accepts z
validate_int-Rejects name (Scalar.bool b) = search reject_rules
validate_int-Rejects name (Scalar.other s) = search reject_rules

validate_seconds_range-Rejects :
    (name : Str) (z : ℤ) (n : ℕ) → Rejects (validate_seconds_range name z n)
unfolding validate_seconds_range
validate_seconds_range-Rejects name z n = search reject_rules

pub validate_timeout_s-Rejects : (name : Str) (v : Scalar) → Rejects (validate_timeout_s name v)
unfolding validate_timeout_s
validate_timeout_s-Rejects name v =
    >>=-Rejects (validate_int-Rejects name v) (λ z. validate_seconds_range-Rejects name z 0)

pub validate_lease_ttl_s-Rejects : (v : Option Scalar) → Rejects (validate_lease_ttl_s v)
unfolding validate_lease_ttl_s
validate_lease_ttl_s-Rejects none = accepts tt
validate_lease_ttl_s-Rejects (some v) =
    >>=-Rejects (validate_int-Rejects _ v) (λ z. validate_seconds_range-Rejects _ z 1)

pub validate_prefix-Rejects : (prefix : Str) → Rejects (validate_prefix prefix)
unfolding validate_prefix
validate_prefix-Rejects prefix = raise_if-Rejects _ _

validate_semaphore_limit-Rejects : (v : Scalar) → Rejects (validate_semaphore_limit v)
unfolding validate_semaphore_limit
validate_semaphore_limit-Rejects v =
    >>=-Rejects (validate_int-Rejects (codes "limit") v) (λ z. raise_if-Rejects _ _)

require_limit-Rejects : (limit : Option Scalar) → Rejects (require_limit_for_semaphore limit)
unfolding require_limit_for_semaphore
require_limit-Rejects none = search reject_rules
require_limit-Rejects (some v) = validate_semaphore_limit-Rejects v

reject_limit-Rejects : (limit : Option Scalar) → Rejects (reject_limit limit)
reject_limit-Rejects none = accepts tt
reject_limit-Rejects (some v) = search reject_rules

if-Rejects {ℓ} :
    {A : Type ℓ} (b : Bool) {r s : Result A} → Rejects r → Rejects s → Rejects (if b then r else s)
if-Rejects true h k = h
if-Rejects false h k = k

pub validate_prefix_limit-Rejects :
    (prefix : Str) (limit : Option Scalar) → Rejects (validate_prefix_limit prefix limit)
unfolding validate_prefix_limit
validate_prefix_limit-Rejects prefix limit = >>=-Rejects (validate_prefix-Rejects prefix) (λ _.
    if-Rejects (prefix =? codes "s") (require_limit-Rejects limit) (reject_limit-Rejects limit))

pub validate_auth_token-Rejects : (token : Str) → Rejects (validate_auth_token token)
unfolding validate_auth_token
validate_auth_token-Rejects token =
    >>=-Rejects (check_no_newlines-Rejects _ token)
      (λ _. >>=-Rejects (byte_len-Rejects token) (λ n. raise_if-Rejects _ _))
