-- ===== src/Protocol/Decode/Grants.antt =====
-- The decoders of grants and renewals on the lines that a server prints, and on all lines.
use dflockd_client_py.Base.{
  text_discrete, ℕ, ◌≤◌, ◌≡◌, ◌≢◌, ◌⊎◌, inl, inr, refl, true, false, some, List, [], ◌∷◌, ◌++◌, Str,
  codes, arith, All, Bool-cases,
}
use dflockd_client_py.Base.Int.{ℤ, pos, negsuc}
use dflockd_client_py.Text.Words.{split, starts_with, is_space}
use dflockd_client_py.Text.Words.Laws.{IsWord, split-word, split-word_space, split-IsWord}
use dflockd_client_py.Text.Decimal.{show_int, parse_int}
use dflockd_client_py.Text.Decimal.RoundTrip.{show_int-IsWord, int_str-show_nat, int_str-parse_int}
use dflockd_client_py.Errors.{
  Result-cases, Error, runtime_error, dflockd_timeout_error, bad_response, timed_out, raised, ok,
  err,
}
use dflockd_client_py.Protocol.Validate.{max_protocol_seconds}
use dflockd_client_py.Protocol.Status.{status_error, raise_status_error}
use dflockd_client_py.Protocol.Decode.{
  parse_int_field, token_lease_of, decode_token_lease, decode_remaining, parse_grant_response,
  parse_renew_response, parse_enqueue_response, acquired, remaining_of,
}

-- A response of a word, a token and a lease time, as the server prints it.
abbrev pub granted_line : Str → Str → ℕ → Str
granted_line word token n = word ++ (32 ∷ (token ++ (32 ∷ show_int (pos n))))

-- A lease time that the protocol allows.
abbrev pub IsLease : ℕ → Type 0
IsLease n = (1 ≤ n) × (n ≤ max_protocol_seconds)

split-granted_line :
    (word token : Str) (n : ℕ)
    → IsWord word
    → IsWord token
    → split (granted_line word token n) ≡ word ∷ token ∷ show_int (pos n) ∷ []
split-granted_line word token n hw ht = rw (
  split-word_space word (token ++ (32 ∷ show_int (pos n))) hw,
  split-word_space token (show_int (pos n)) ht,
  split-word (show_int (pos n)) (show_int-IsWord (pos n)),
)

parse_int_field-show_int :
    (op resp : Str) (m n : ℕ)
    → m ≤ n
    → n ≤ max_protocol_seconds
    → parse_int_field (show_int (pos n)) op resp m ≡ ok (pos n)
unfolding parse_int_field show_int
parse_int_field-show_int op resp m n h k = ground (arith, int_str-show_nat n (omega (arith, k)))

decode_token_lease-granted_line :
    (status token op : Str) (n : ℕ)
    → IsWord status
    → IsWord token
    → IsLease n
    → decode_token_lease (granted_line status token n) status op ≡ ok (token, pos n)
unfolding decode_token_lease
decode_token_lease-granted_line status token op n hs ht hn =
    rw
      (
        split-granted_line status token n hs ht,
        parse_int_field-show_int op (granted_line status token n) 1 n hn.0 hn.1,
      )
      (ground arith)

ok-IsWord : IsWord (codes "ok")
unfolding is_space
ok-IsWord = ground arith

acquired-IsWord : IsWord (codes "acquired")
unfolding is_space
acquired-IsWord = ground arith

-- The line of `ok`, a token and a lease time in decimal, joined by single spaces, is parsed to
-- that token and time, for every non-empty token without whitespace and every time from 1 to the
-- limit of the protocol.
pub parse_grant_response-granted_line :
    (op token : Str) (n : ℕ)
    → IsWord token
    → IsLease n
    → parse_grant_response (granted_line (codes "ok") token n) op ≡ ok (token, pos n)
unfolding parse_grant_response
parse_grant_response-granted_line op token n ht hn =
    ground (arith, decode_token_lease-granted_line (codes "ok") token op n ok-IsWord ht hn)

-- The line of `acquired`, a token and a lease time in decimal, joined by single spaces, is parsed
-- to an acquired result with that token and time, for every non-empty token without whitespace
-- and every time from 1 to the limit of the protocol.
pub parse_enqueue_response-granted_line :
    (op token : Str) (n : ℕ)
    → IsWord token
    → IsLease n
    → parse_enqueue_response (granted_line (codes "acquired") token n) op
      ≡ ok (acquired token (pos n))
unfolding parse_enqueue_response
parse_enqueue_response-granted_line op token n ht hn =
    ground
      (arith, decode_token_lease-granted_line (codes "acquired") token op n acquired-IsWord ht hn)

-- The line of `ok` and a remaining time in decimal is parsed to that time, for every time from 0
-- to the limit of the protocol.
pub parse_renew_response-show_int :
    (op : Str) (n : ℕ)
    → n ≤ max_protocol_seconds
    → parse_renew_response (codes "ok " ++ show_int (pos n)) op ≡ ok (pos n)
unfolding parse_renew_response decode_remaining
parse_renew_response-show_int op n h =
    rw
      (
        split-word_space (codes "ok") (show_int (pos n)) ok-IsWord,
        split-word (show_int (pos n)) (show_int-IsWord (pos n)),
      )
      (ground
        (arith, parse_int_field-show_int op (codes "ok " ++ show_int (pos n)) 0 n (omega arith) h))

parse_int_field_sound :
    (raw op resp : Str) (m : ℕ) {z : ℤ}
    → parse_int_field raw op resp m ≡ ok z
    → (n : ℕ) × (z ≡ pos n) × (m ≤ n) × (n ≤ max_protocol_seconds) × (parse_int raw ≡ some (pos n))
unfolding parse_int_field
parse_int_field_sound raw op resp m {z = pos n} h =
    (n, refl, ground arith, ground arith, int_str-parse_int raw (ground arith))
parse_int_field_sound raw op resp m {z = negsuc n} h = absurd (ground arith)

token_lease_of_sound :
    (parts : List Str) (resp status op : Str) {token : Str} {z : ℤ}
    → token_lease_of parts resp status op ≡ ok (token, z)
    → (raw : Str) × (parts ≡ status ∷ token ∷ raw ∷ []) × (parse_int_field raw op resp 1 ≡ ok z)
token_lease_of_sound (word ∷ tok ∷ raw ∷ []) resp status op h = (raw, ground arith, ground arith)
token_lease_of_sound [] resp status op h = cc
token_lease_of_sound (word ∷ []) resp status op h = cc
token_lease_of_sound (word ∷ tok ∷ []) resp status op h = cc
token_lease_of_sound (word ∷ tok ∷ raw ∷ more ∷ rest) resp status op h = cc

-- Whatever the line, a grant that is accepted has a token without whitespace and a lease time
-- that the protocol allows; the line then consists of the status, the token and the time.
pub decode_token_lease_sound :
    (resp status op : Str) {token : Str} {z : ℤ}
    → decode_token_lease resp status op ≡ ok (token, z)
    → IsWord token
      × ((n : ℕ) × (raw : Str) × (z ≡ pos n)
          × IsLease n
          × (split resp ≡ status ∷ token ∷ raw ∷ [])
          × (parse_int raw ≡ some (pos n)))
unfolding decode_token_lease
decode_token_lease_sound resp status op {token} h =
    let (raw, fields, read) = token_lease_of_sound (split resp) resp status op h in
    let (n, value, low, high, parsed) = parse_int_field_sound raw op resp 1 read in
    let words : All IsWord (status ∷ token ∷ raw ∷ []) = rw fields at (split-IsWord resp) in
    (words.1.0, (n, raw, value, (low, high), fields, parsed))

parse_int_field_fault :
    (raw op resp : Str) (m : ℕ) {e : Error}
    → parse_int_field raw op resp m ≡ err e
    → e ≡ raised runtime_error (bad_response op resp)
unfolding parse_int_field
parse_int_field_fault raw op resp m h = ground arith

token_lease_of_fault :
    (parts : List Str) (resp status op : Str) {e : Error}
    → token_lease_of parts resp status op ≡ err e
    → e ≡ raised runtime_error (bad_response op resp)
token_lease_of_fault (word ∷ token ∷ raw ∷ []) resp status op {e} h =
    ground (arith, parse_int_field_fault raw op resp 1 {e = e})
token_lease_of_fault [] resp status op h = cc
token_lease_of_fault (word ∷ []) resp status op h = cc
token_lease_of_fault (word ∷ tok ∷ []) resp status op h = cc
token_lease_of_fault (word ∷ tok ∷ raw ∷ more ∷ rest) resp status op h = cc

decode_token_lease_fault :
    (resp status op : Str) {e : Error}
    → decode_token_lease resp status op ≡ err e
    → e ≡ raised runtime_error (bad_response op resp)
unfolding decode_token_lease
decode_token_lease_fault resp status op h = token_lease_of_fault (split resp) resp status op h

-- For every response line and operation, `parse_grant_response` raises the timeout error if the
-- line is `timeout`; raises the exception of the status if the line is not that and does not
-- begin with `ok `; and for a line that begins with `ok ` either raises a `RuntimeError` or
-- returns a token without whitespace and a lease time from 1 to the limit of the protocol.
pub parse_grant_response_cases :
    (resp op : Str)
    → ((resp ≡ codes "timeout")
        × (parse_grant_response resp op ≡ err (raised dflockd_timeout_error (timed_out op))))
      ⊎ ((resp ≢ codes "timeout")
          × (starts_with (codes "ok ") resp ≡ false)
          × (parse_grant_response resp op ≡ err (status_error op resp)))
      ⊎ ((starts_with (codes "ok ") resp ≡ true)
          × (parse_grant_response resp op ≡ err (raised runtime_error (bad_response op resp))))
      ⊎ ((starts_with (codes "ok ") resp ≡ true)
          × ((token : Str) × (n : ℕ) × (parse_grant_response resp op ≡ ok (token, pos n))
              × IsWord token
              × IsLease n))
unfolding parse_grant_response raise_status_error
parse_grant_response_cases resp op = elim (text_discrete resp (codes "timeout")) [
  | yes same ↦ inl (same, ground arith)
  | no other ↦ elim (Bool-cases (starts_with (codes "ok ") resp)) [
    | inr status ↦ inr (inl (other, status, ground arith))
    | inl grant ↦ elim (Result-cases (decode_token_lease resp (codes "ok") op)) [
      | inr (e, failed) ↦
          inr (
            inr (inl (grant, ground (arith, decode_token_lease_fault resp (codes "ok") op failed))))
      | inl ((token, z), read) ↦
          let (word, (n, raw, value, lease, fields, parsed)) =
            decode_token_lease_sound resp (codes "ok") op read in
          inr (inr (inr (grant, (token, n, ground arith, word, lease))))
    ]
  ]
]

-- What an accepted grant holds.
pub parse_grant_response_sound :
    (resp op : Str) {token : Str} {z : ℤ}
    → parse_grant_response resp op ≡ ok (token, z)
    → IsWord token × ((n : ℕ) × (z ≡ pos n) × IsLease n)
unfolding parse_grant_response raise_status_error
parse_grant_response_sound resp op {token} {z} h =
    let (word, (n, raw, value, lease, fields, parsed)) =
      decode_token_lease_sound resp (codes "ok") op {token = token} {z = z} (ground arith) in
    (word, (n, value, lease))

pub parse_enqueue_response_sound :
    (resp op : Str) {token : Str} {z : ℤ}
    → parse_enqueue_response resp op ≡ ok (acquired token z)
    → IsWord token × ((n : ℕ) × (z ≡ pos n) × IsLease n)
unfolding parse_enqueue_response raise_status_error
parse_enqueue_response_sound resp op {token} {z} h =
    let (word, (n, raw, value, lease, fields, parsed)) =
      decode_token_lease_sound resp (codes "acquired") op {token = token} {z = z} (ground arith) in
    (word, (n, value, lease))

remaining_of_sound :
    (parts : List Str) (resp op : Str) {z : ℤ}
    → remaining_of parts resp op ≡ ok z
    → (n : ℕ) × (z ≡ pos n) × (n ≤ max_protocol_seconds)
remaining_of_sound (word ∷ raw ∷ []) resp op {z} h =
    let (n, value, low, high, parsed) =
      parse_int_field_sound raw op resp 0 {z = z} (ground arith) in
    (n, value, high)
remaining_of_sound [] resp op h = cc
remaining_of_sound (word ∷ []) resp op h = cc
remaining_of_sound (word ∷ raw ∷ more ∷ rest) resp op h = cc

-- Whatever the response line, a remaining time that `parse_renew_response` returns is from 0 to
-- the limit of the protocol.
pub parse_renew_response_sound :
    (resp op : Str) {z : ℤ}
    → parse_renew_response resp op ≡ ok z
    → (n : ℕ) × (z ≡ pos n) × (n ≤ max_protocol_seconds)
unfolding parse_renew_response decode_remaining raise_status_error
parse_renew_response_sound resp op {z} h =
    remaining_of_sound (split resp) resp op {z = z} (ground arith)
