-- ===== src/Tests/Session.antt =====
-- The theorems on `with` statements, at concrete values.
use dflockd_client_py.Base.{false, ◌≡◌, refl, ◌++◌, [], ◌∷◌, codes, arith}
use dflockd_client_py.Errors.{ok}
use dflockd_client_py.Action.{Action}
use dflockd_client_py.Text.Utf8.{encode}
use dflockd_client_py.Text.Decimal.{show_int, show_nat}
use dflockd_client_py.Protocol.Validate.{validate_token, has_whitespace}
use dflockd_client_py.Protocol.Validate.Laws.{validate_protocol_line_iff}
use dflockd_client_py.Sync.Conn.Wire.{IsResponse}
use dflockd_client_py.Sync.State.{SyncBase, Dial}
use dflockd_client_py.Sync.Lifecycle.{with_lock}
use dflockd_client_py.Sync.Session.{renewed_line}
use dflockd_client_py.Sync.Session.Rows.{Renewal, IsRenewal, answers}
use dflockd_client_py.Sync.Defaults.Session.{Completes, default_lock-Completes}
use dflockd_client_py.Sync.Renewal.{Event, perform}
use dflockd_client_py.Sync.Invariant.Rounds.{initial-IsValid, perform-IsValid}
use dflockd_client_py.Sync.Invariant.With.{WithDecided, with_lock-WithDecided}
use dflockd_client_py.Async.State.{AsyncBase}
use dflockd_client_py.Async.Lifecycle as AsyncLifecycle
use dflockd_client_py.Async.Renewal as AsyncRenewal
use dflockd_client_py.Async.Invariant.Rounds as AsyncRounds
use dflockd_client_py.Async.Invariant.With.{AsyncWithDecided, with_lock-AsyncWithDecided}
use dflockd_client_py.Tests.Object.{demo, dials, demo_key, grant-IsResponse, token-IsWord}
use dflockd_client_py.Tests.Object as Object
use dflockd_client_py.Tests.Async as Async

-- A server that grants, renews once and confirms the release.
abbrev pub renewal : Renewal
renewal = record { remaining = 33; bytes = codes "ok 33" }

pub renewed-IsResponse : IsResponse (renewed_line 33) (codes "ok 33")
unfolding show_int show_nat encode
renewed-IsResponse = record {
  text = ground arith;
  one_line = ground arith;
  encoded = refl;
  short = omega arith;
}

renewal-IsRenewal : IsRenewal renewal
renewal-IsRenewal = record { line = renewed-IsResponse; in_range = omega arith }

pub ok-IsResponse : IsResponse (codes "ok") (codes "ok")
unfolding encode
ok-IsResponse = record {
  text = ground arith;
  one_line = ground arith;
  encoded = refl;
  short = omega arith;
}

pub demo_token : validate_token (codes "t") ≡ ok tt
unfolding validate_token has_whitespace encode
demo_token =
    let line =
      (validate_protocol_line_iff (codes "token") (codes "t") false).1
        (λ h. ground arith, ground arith, (codes "t", refl, omega arith)) in
    ground (arith, line)

default_lock_example :
    Completes
      (codes "job")
      (codes "t")
      (Dial.connected
          (codes "ok t 33" ++ (10 ∷ answers (renewal ∷ []) (codes "ok" ++ (10 ∷ []))))
          []
        ∷ [])
      (renewal ∷ [])
      []
default_lock_example =
    default_lock-Completes (codes "job") (codes "t") 33 (codes "ok t 33") (codes "ok") []
      (renewal ∷ []) [] demo_key demo_token token-IsWord (omega arith, omega arith) grant-IsResponse
      (renewal-IsRenewal, tt) ok-IsResponse

-- A body that waits while the renew thread makes a round.
abbrev body : Action SyncBase (Unit {0})
body s = (ok tt, perform (Event.round s.stop_event) s)

with_lock_example : WithDecided body Object.new (with_lock body Object.new)
with_lock_example =
    with_lock-WithDecided body Object.new (λ t v. perform-IsValid (Event.round t.stop_event) t v)
      (initial-IsValid demo dials)

abbrev async_body : Action AsyncBase (Unit {0})
async_body s = (ok tt, AsyncRenewal.perform (AsyncRenewal.Event.round 0) s)

async_with_lock_example :
    AsyncWithDecided async_body Async.new (AsyncLifecycle.with_lock async_body Async.new)
async_with_lock_example =
    with_lock-AsyncWithDecided async_body Async.new
      (λ t v. AsyncRounds.perform-IsValid (AsyncRenewal.Event.round 0) t v)
      (AsyncRounds.initial-IsValid demo dials _)
