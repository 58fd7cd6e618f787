-- ===== src/Errors.antt =====
-- The exception classes of errors.py with the built-in ones that the client raises or catches,
-- and a call's result.
use dflockd_client_py.Base.{
  ℕ, ◌≡◌, Bool, true, false, ◌⊎◌, inl, inr, refl, List, [], ◌∷◌, Str, ite, any,
}
use dflockd_client_py.Base.Int.{ℤ}

pub data ErrorClass : Type 0 where
  base_exception exception interrupt : ErrorClass
  value_error unicode_encode_error json_decode_error type_error index_error runtime_error :
      ErrorClass
  overflow_error os_error connection_error permission_error timeout_error : ErrorClass
  dflockd_error dflockd_timeout_error auth_error max_locks_error max_waiters_error : ErrorClass
  limit_mismatch_error not_queued_error already_queued_error : ErrorClass
  lease_expired_error draining_error : ErrorClass

abbrev exceptions : List ErrorClass
exceptions = exception ∷ base_exception ∷ []

abbrev runtime_errors : List ErrorClass
runtime_errors = runtime_error ∷ exceptions

abbrev os_errors : List ErrorClass
os_errors = os_error ∷ exceptions

abbrev dflockd_errors : List ErrorClass
dflockd_errors = dflockd_error ∷ runtime_errors

-- A class and those it derives from, less the ones that no `except` of the client names. `interrupt` stands for the exceptions that are no
-- `Exception`: `KeyboardInterrupt`, `SystemExit`, `asyncio.CancelledError`.
unfoldable pub ancestors : ErrorClass → List ErrorClass
ancestors base_exception = base_exception ∷ []
ancestors exception = exceptions
ancestors interrupt = interrupt ∷ base_exception ∷ []
ancestors value_error = value_error ∷ exceptions
ancestors unicode_encode_error = unicode_encode_error ∷ value_error ∷ exceptions
ancestors json_decode_error = json_decode_error ∷ value_error ∷ exceptions
ancestors type_error = type_error ∷ exceptions
ancestors index_error = index_error ∷ exceptions
ancestors runtime_error = runtime_errors
ancestors overflow_error = overflow_error ∷ exceptions
ancestors os_error = os_errors
ancestors connection_error = connection_error ∷ os_errors
ancestors permission_error = permission_error ∷ os_errors
ancestors timeout_error = timeout_error ∷ os_errors
ancestors dflockd_error = dflockd_errors
ancestors dflockd_timeout_error = dflockd_timeout_error ∷ timeout_error ∷ os_errors
ancestors auth_error = auth_error ∷ dflockd_errors
ancestors max_locks_error = max_locks_error ∷ dflockd_errors
ancestors max_waiters_error = max_waiters_error ∷ dflockd_errors
ancestors limit_mismatch_error = limit_mismatch_error ∷ dflockd_errors
ancestors not_queued_error = not_queued_error ∷ dflockd_errors
ancestors already_queued_error = already_queued_error ∷ dflockd_errors
ancestors lease_expired_error = lease_expired_error ∷ dflockd_errors
ancestors draining_error = draining_error ∷ dflockd_errors

pub ErrorClass-discrete : Discrete ErrorClass
ErrorClass-discrete = hlevel

-- `isinstance` of an exception of class `c`, and so whether `except d` catches it.
unfoldable pub is_subclass : ErrorClass → ErrorClass → Bool
unfolding ancestors ErrorClass-discrete
is_subclass c d = any (λ a. ite (ErrorClass-discrete a d) true false) (ancestors c)

-- The message of an exception: which of the source's texts it is, and what is put into it.
pub data Message : Type 0 where
  must_not_be_empty no_newlines no_whitespace must_be_an_integer must_be_positive : Str → Message
  too_long : Str → ℕ → Message
  at_least too_large : Str → ℕ → Message
  not_encodable : Message
  must_be_a_number must_be_finite : Str → Message
  bad_prefix : Str → Message
  limit_not_for_lock limit_required : Message
  token_length : ℕ → Message
  token_not_hex : Str → Message
  -- An operation and the response line.
  failed bad_response : Str → Str → Message
  timed_out : Str → Message
  host_not_text host_empty host_whitespace port_not_integer port_range : Message
  servers_empty servers_not_pairs : Message
  index_not_integer : Message
  index_out_of_range : ℤ → ℕ → Message
  num_servers_not_positive : Message
  ratio_range : Message
  not_connected : Str → Message
  server_closed response_too_large response_not_utf8 connection_lost : Message
  line_limit_exceeded cancelled timeout_too_large : Message
  too_few_values : Message
  bad_int_literal : Str → Message

pub data Error : Type 0 where
  raised : ErrorClass → Message → Error

abbrev pub class_of : Error → ErrorClass
class_of (raised c m) = c

pub data Result {ℓ} (A : Type ℓ) : Type ℓ where
  ok : A → Result A
  err : Error → Result A

abbrev pub raise {ℓ} : {A : Type ℓ} → ErrorClass → Message → Result A
raise c m = err (raised c m)

infixl 5 ◌>>=◌ ◌>>◌
abbrev pub ◌>>=◌ {ℓ κ} : {A : Type ℓ} {B : Type κ} → Result A → (A → Result B) → Result B
err e >>= next = err e
ok x >>= next = next x

abbrev pub ◌>>◌ {ℓ} : {B : Type ℓ} → Result (Unit {0}) → Result B → Result B
first >> second = first >>= λ _. second

-- `if test: raise …`
abbrev pub raise_if : Bool → ErrorClass → Message → Result (Unit {0})
raise_if true c m = raise c m
raise_if false c m = ok tt

abbrev pub map_result {ℓ κ} : {A : Type ℓ} {B : Type κ} → (A → B) → Result A → Result B
map_result f (ok a) = ok (f a)
map_result f (err e) = err e

-- Every exception that a call ends with is of a class that satisfies `P`.
abbrev pub Raises {ℓ κ} : {A : Type ℓ} → (ErrorClass → Type κ) → Result A → Type κ
Raises P (ok a) = Unit
Raises P (err e) = P (class_of e)

pub Result-cases {ℓ} :
    {A : Type ℓ} (r : Result A) → ((a : A) × (r ≡ ok a)) ⊎ ((e : Error) × (r ≡ err e))
Result-cases (ok a) = inl (a, refl)
Result-cases (err e) = inr (e, refl)

-- A chain raises what satisfies `P`, if each step does.
pub >>=-Raises {ℓ κ μ} :
    {A : Type ℓ} {B : Type κ} (P : ErrorClass → Type μ) (m : Result A) (f : A → Result B)
    → Raises P m
    → ((a : A) → m ≡ ok a → Raises P (f a))
    → Raises P (m >>= f)
>>=-Raises P (ok a) f h k = k a refl
>>=-Raises P (err e) f h k = h

-- A step that is followed by another, both with success.
pub >>-ok {ℓ} :
    {B : Type ℓ} (m : Result (Unit {0})) (k : Result B) {b : B}
    → (m >> k) ≡ ok b
    → (m ≡ ok tt) × (k ≡ ok b)
>>-ok (ok tt) k h = (refl, h)
>>-ok (err e) k h = cc

pub >>=-ok {ℓ κ} :
    {A : Type ℓ} {B : Type κ} (r : Result A) (next : A → Result B) {x : B}
    → (r >>= next) ≡ ok x
    → (a : A) × (r ≡ ok a) × (next a ≡ ok x)
>>=-ok (err e) next h = cc
>>=-ok (ok a) next h = (a, refl, h)
