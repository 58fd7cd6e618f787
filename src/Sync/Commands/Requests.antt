-- ===== src/Sync/Commands/Requests.antt =====
-- What each command function checks, sends and returns.
use dflockd_client_py.Base.{ℕ, ◌+◌, ◌≡◌, refl, ◌⊎◌, inl, inr, Option, ◌++◌, Str, codes, arith}
use dflockd_client_py.Errors.{Error, class_of, Result, ok, err, Result-cases}
use dflockd_client_py.Action.{Action, lift, ◌>>=◌, ◌>>◌, continue}
use dflockd_client_py.Protocol.Validate.{
  validate_token, validate_auth_token, Scalar, validate_prefix, validate_prefix_limit, validate_key,
}
use dflockd_client_py.Protocol.Validate.Rejects.{
  validate_auth_token-Rejects, IsRejection, Rejects, Rejects-err, >>=-Rejects, accepts,
  validate_prefix-Rejects, validate_prefix_limit-Rejects, validate_key-Rejects,
  validate_token-Rejects, validate_timeout_s-Rejects, validate_lease_ttl_s-Rejects,
  validate_protocol_line-Rejects,
}
use dflockd_client_py.Protocol.Encode.{
  cmd_name, op_label, make_acquire_arg, make_renew_arg, make_enqueue_arg, make_wait_arg,
}
use dflockd_client_py.Protocol.Decode.{
  parse_release_response, parse_auth_response, parse_grant_response, parse_renew_response,
  parse_enqueue_response,
}
use dflockd_client_py.Sync.Commands.{release, authenticate, seconds, acquire, renew, enqueue, wait}

cmd_name-Rejects : (prefix op : Str) → Rejects (cmd_name prefix op)
unfolding cmd_name
cmd_name-Rejects prefix op = >>=-Rejects (validate_prefix-Rejects prefix) (λ _. accepts _)

make_acquire_arg-Rejects :
    (t : Scalar) (limit lease : Option Scalar) → Rejects (make_acquire_arg t limit lease)
unfolding make_acquire_arg
make_acquire_arg-Rejects t limit lease = >>=-Rejects (validate_timeout_s-Rejects _ t) (λ _.
    >>=-Rejects (validate_lease_ttl_s-Rejects lease)
      (λ _. >>=-Rejects (validate_protocol_line-Rejects _ _ _) (λ _. accepts _)))

make_renew_arg-Rejects :
    (token : Str) (lease : Option Scalar) → Rejects (make_renew_arg token lease)
unfolding make_renew_arg
make_renew_arg-Rejects token lease = >>=-Rejects (validate_token-Rejects token) (λ _.
    >>=-Rejects (validate_lease_ttl_s-Rejects lease)
      (λ _. >>=-Rejects (validate_protocol_line-Rejects _ _ _) (λ _. accepts _)))

make_enqueue_arg-Rejects : (limit lease : Option Scalar) → Rejects (make_enqueue_arg limit lease)
unfolding make_enqueue_arg
make_enqueue_arg-Rejects limit lease =
    >>=-Rejects (validate_lease_ttl_s-Rejects lease)
      (λ _. >>=-Rejects (validate_protocol_line-Rejects _ _ _) (λ _. accepts _))

make_wait_arg-Rejects : (t : Scalar) → Rejects (make_wait_arg t)
unfolding make_wait_arg
make_wait_arg-Rejects t =
    >>=-Rejects (validate_timeout_s-Rejects _ t)
      (λ _. >>=-Rejects (validate_protocol_line-Rejects _ _ _) (λ _. accepts _))

cmd_name-eq : (prefix op : Str) {cmd : Str} → cmd_name prefix op ≡ ok cmd → cmd ≡ prefix ++ op
unfolding cmd_name
cmd_name-eq prefix op h = ground arith

-- A call that raises for an argument, and leaves the state as it was.
abbrev pub Refused : {S A : Type 0} → Action S A → S → Type 0
Refused call s = (e : Error) × (call s ≡ (err e, s)) × IsRejection (class_of e)

module _ {S A : Type 0} (command : Str → Str → Str → ℕ → Action S Str)
    (parse : Str → Result A) where
  -- The common shape of the command functions.
  abbrev request :
      Result (Unit {0}) → Result (Unit {0}) → Result Str → Result Str → Str → ℕ → Action S A
  request p k m c key t = do
    lift p
    lift k
    arg ← lift m
    cmd ← lift c
    resp ← command cmd key arg t
    lift (parse resp)

  request_sends :
      (p k : Result (Unit {0})) (m : Result Str) (prefix op key : Str) (t : ℕ) (s : S)
      → Rejects p
      → Rejects k
      → Rejects m
      → Refused (request p k m (cmd_name prefix op) key t) s
        ⊎ ((arg : Str) × (p ≡ ok tt)
            × (k ≡ ok tt)
            × (m ≡ ok arg)
            × (request p k m (cmd_name prefix op) key t s
                ≡ continue (command (prefix ++ op) key arg t s) (λ resp. lift (parse resp))))
  request_sends (err e) k m prefix op key t s hp hk hm = inl (e, refl, Rejects-err hp refl)
  request_sends (ok _) (err e) m prefix op key t s hp hk hm = inl (e, refl, Rejects-err hk refl)
  request_sends (ok _) (ok _) (err e) prefix op key t s hp hk hm =
      inl (e, refl, Rejects-err hm refl)
  request_sends (ok _) (ok _) (ok arg) prefix op key t s hp hk hm =
      elim (Result-cases (cmd_name prefix op)) [
        | inr (e, bad) ↦ inl (e, rw bad, Rejects-err (cmd_name-Rejects prefix op) bad)
        | inl (cmd, good) ↦ inr (arg, refl, refl, refl, rw (good, cmd_name-eq prefix op good))
      ]

module _ {S : Type 0} (command : Str → Str → Str → ℕ → Action S Str) where
  -- `acquire` either raises `ValueError` or `TypeError` and leaves the state as it was; or the
  -- prefix with the limit, the key and the argument are valid, it sends the one command `l` under
  -- its prefix with the key and the argument and a read timeout 30 seconds past the acquire
  -- timeout, and its result is the parsed response.
  pub acquire_sends :
      (key : Str) (timeout : Scalar) (lease : Option Scalar) (prefix : Str) (limit : Option Scalar)
      (s : S)
      → Refused (acquire command key timeout lease prefix limit) s
        ⊎ ((arg : Str) × (validate_prefix_limit prefix limit ≡ ok tt)
            × (validate_key (codes "key") key ≡ ok tt)
            × (make_acquire_arg timeout limit lease ≡ ok arg)
            × (acquire command key timeout lease prefix limit s
                ≡ continue
                    (command (prefix ++ codes "l") key arg (seconds timeout + 30) s)
                    (λ resp. lift (parse_grant_response resp (op_label prefix (codes "acquire"))))))
  unfolding acquire
  acquire_sends key timeout lease prefix limit s =
      request_sends command _ _ _ _ prefix (codes "l") key (seconds timeout + 30) s
        (validate_prefix_limit-Rejects prefix limit) (validate_key-Rejects _ key)
        (make_acquire_arg-Rejects timeout limit lease)

  -- `renew` either raises `ValueError` or `TypeError` and leaves the state as it was; or the
  -- prefix, the key and the argument are valid, it sends the one command `n` under its prefix
  -- with the key and the argument and the given read timeout, and its result is the parsed
  -- response.
  pub renew_sends :
      (key token : Str) (lease : Option Scalar) (prefix : Str) (t : ℕ) (s : S)
      → Refused (renew command key token lease prefix t) s
        ⊎ ((arg : Str) × (validate_prefix prefix ≡ ok tt)
            × (validate_key (codes "key") key ≡ ok tt)
            × (make_renew_arg token lease ≡ ok arg)
            × (renew command key token lease prefix t s
                ≡ continue
                    (command (prefix ++ codes "n") key arg t s)
                    (λ resp. lift (parse_renew_response resp (op_label prefix (codes "renew"))))))
  unfolding renew
  renew_sends key token lease prefix t s =
      request_sends command _ _ _ _ prefix (codes "n") key t s (validate_prefix-Rejects prefix)
        (validate_key-Rejects _ key) (make_renew_arg-Rejects token lease)

  -- `enqueue` either raises `ValueError` or `TypeError` and leaves the state as it was; or the
  -- prefix with the limit, the key and the argument are valid, it sends the one command `e` under
  -- its prefix with the key and the argument and a read timeout of 30 seconds, and its result is
  -- the parsed response.
  pub enqueue_sends :
      (key : Str) (lease : Option Scalar) (prefix : Str) (limit : Option Scalar) (s : S)
      → Refused (enqueue command key lease prefix limit) s
        ⊎ ((arg : Str) × (validate_prefix_limit prefix limit ≡ ok tt)
            × (validate_key (codes "key") key ≡ ok tt)
            × (make_enqueue_arg limit lease ≡ ok arg)
            × (enqueue command key lease prefix limit s
                ≡ continue (command (prefix ++ codes "e") key arg 30 s) (λ resp.
                  lift (parse_enqueue_response resp (op_label prefix (codes "enqueue"))))))
  unfolding enqueue
  enqueue_sends key lease prefix limit s =
      request_sends command _ _ _ _ prefix (codes "e") key 30 s
        (validate_prefix_limit-Rejects prefix limit) (validate_key-Rejects _ key)
        (make_enqueue_arg-Rejects limit lease)

  -- `wait` either raises `ValueError` or `TypeError` and leaves the state as it was; or the
  -- prefix, the key and the argument are valid, it sends the one command `w` under its prefix
  -- with the key and the argument and a read timeout 30 seconds past the wait timeout, and its
  -- result is the parsed response.
  pub wait_sends :
      (key : Str) (timeout : Scalar) (prefix : Str) (s : S)
      → Refused (wait command key timeout prefix) s
        ⊎ ((arg : Str) × (validate_prefix prefix ≡ ok tt)
            × (validate_key (codes "key") key ≡ ok tt)
            × (make_wait_arg timeout ≡ ok arg)
            × (wait command key timeout prefix s
                ≡ continue
                    (command (prefix ++ codes "w") key arg (seconds timeout + 30) s)
                    (λ resp. lift (parse_grant_response resp (op_label prefix (codes "wait"))))))
  unfolding wait
  wait_sends key timeout prefix s =
      request_sends command _ _ _ _ prefix (codes "w") key (seconds timeout + 30) s
        (validate_prefix-Rejects prefix) (validate_key-Rejects _ key)
        (make_wait_arg-Rejects timeout)

  -- `release` either raises `ValueError` or `TypeError` and leaves the state as it was; or the
  -- prefix, the key and the token are valid, it sends the one command `r` under its prefix with
  -- the key and the token and a read timeout of 30 seconds, and its result is the parsed
  -- response.
  pub release_sends :
      (key token prefix : Str) (s : S)
      → Refused (release command key token prefix) s
        ⊎ ((validate_prefix prefix ≡ ok tt)
            × (validate_key (codes "key") key ≡ ok tt)
            × (validate_token token ≡ ok tt)
            × (release command key token prefix s
                ≡ continue (command (prefix ++ codes "r") key token 30 s) (λ resp.
                  lift (parse_release_response resp (op_label prefix (codes "release"))))))
  unfolding release
  release_sends key token prefix s = elim (Result-cases (validate_prefix prefix)) [
    | inr (e, bad) ↦ inl (e, rw bad, Rejects-err (validate_prefix-Rejects prefix) bad)
    | inl (_, a) ↦ elim (Result-cases (validate_key (codes "key") key)) [
      | inr (e, bad) ↦ inl (e, rw (a, bad), Rejects-err (validate_key-Rejects _ key) bad)
      | inl (_, b) ↦ elim (Result-cases (validate_token token)) [
        | inr (e, bad) ↦ inl (e, rw (a, b, bad), Rejects-err (validate_token-Rejects token) bad)
        | inl (_, c) ↦ elim (Result-cases (cmd_name prefix (codes "r"))) [
          | inr (e, bad) ↦ inl (e, rw (a, b, c, bad), Rejects-err (cmd_name-Rejects prefix _) bad)
          | inl (cmd, d) ↦ inr (a, b, c, rw (a, b, c, d, cmd_name-eq prefix (codes "r") d))
        ]
      ]
    ]
  ]

  pub authenticate_sends :
      (auth_token : Str) (s : S)
      → Refused (authenticate command auth_token) s
        ⊎ ((validate_auth_token auth_token ≡ ok tt)
            × (authenticate command auth_token s
                ≡ continue
                    (command (codes "auth") (codes "_") auth_token 30 s)
                    (λ resp. lift (parse_auth_response resp))))
  unfolding authenticate
  authenticate_sends auth_token s = elim (Result-cases (validate_auth_token auth_token)) [
    | inr (e, bad) ↦ inl (e, rw bad, Rejects-err (validate_auth_token-Rejects auth_token) bad)
    | inl (_, a) ↦ inr (a, rw a)
  ]
