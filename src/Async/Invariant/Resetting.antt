-- ===== src/Async/Invariant/Resetting.antt =====
-- The invariant through `_reset_for_new_attempt`.
use dflockd_client_py.Base.{◌≡◌, ◌⊎◌, inl, inr, refl, false, arith, none}
use dflockd_client_py.Errors.{Error, Result, ok, err}
use dflockd_client_py.Action.{continue}
use dflockd_client_py.Async.State.{AsyncBase}
use dflockd_client_py.Async.Lifecycle.{cancel_renew, close_unlocked, reset_for_new_attempt}
use dflockd_client_py.Async.Invariant.Defs.{IsValid, IsEmpty}
use dflockd_client_py.Async.Invariant.Closing.{
  IsInterrupt, Cancelled, cancel_renew-Cancelled, cancelled-IsValid, Closed, close_unlocked-Closed,
}

-- The caller was cancelled while the last attempt was torn down: there is no task, and what was
-- held is kept or given up as a whole.
abbrev pub IsCancelled : {A : Type 0} → AsyncBase → Result A × AsyncBase → Type 0
IsCancelled s x =
    ((e : Error) × (x.0 ≡ err e) × IsInterrupt e)
    × (x.1.renew_task ≡ none)
    × (((x.1.conn ≡ s.conn) × (x.1.token ≡ s.token)) ⊎ IsEmpty x.1)

-- How a reset ends: the object is open and empty, or the caller was cancelled.
abbrev pub Reset : AsyncBase → Result (Unit {0}) × AsyncBase → Type 0
Reset s x =
    IsValid x.1
    × (((x.0 ≡ ok tt) × IsEmpty x.1 × (x.1.closed ≡ false) × (x.1.renew_task ≡ none))
        ⊎ IsCancelled s x)

reopened-Reset :
    (s : AsyncBase) (x : Result (Unit {0}) × AsyncBase)
    → Closed x
    → Reset s (continue x (λ _ u. (ok tt, record u { closed = false })))
reopened-Reset s (err e, t) (v, empty, shut, outcome) =
    (v, inr ((e, refl, ground (arith, outcome)), v.closed_stopped shut, inr empty))
reopened-Reset s (ok _, t) (v, empty, shut, outcome) = (
  record {
    closed_empty = λ h. cc;
    closed_stopped = λ h. cc;
    held = v.held;
    no_lease = v.no_lease;
    token_word = v.token_word;
    lease_low = v.lease_low;
    lease_high = v.lease_high;
    others_closed = v.others_closed;
    conn_opened = v.conn_opened;
    one_renewer = v.one_renewer;
    idle = v.idle;
  },
  inl (
    refl,
    record { no_conn = empty.no_conn; no_token = empty.no_token; zero_lease = empty.zero_lease },
    refl,
    v.closed_stopped shut,
  ),
)

Cancelled-Reset :
    (s : AsyncBase) (x : Result (Unit {0}) × AsyncBase)
    → IsValid s
    → Cancelled s x
    → Reset s (
        continue x
          (λ _ t. continue (close_unlocked t) (λ _ u. (ok tt, record u { closed = false }))))
Cancelled-Reset s (err e, t) v ((es, cs, same, quiet), outcome) = rw same (
  cancelled-IsValid s es cs quiet v,
  inr ((e, refl, ground (arith, outcome)), refl, inl (refl, refl)),
)
Cancelled-Reset s (ok _, t) v ((es, cs, same, quiet), outcome) =
    reopened-Reset s (close_unlocked t)
      (close_unlocked-Closed t (rw same (cancelled-IsValid s es cs quiet v)))

pub reset_for_new_attempt-Reset : (s : AsyncBase) → IsValid s → Reset s (reset_for_new_attempt s)
unfolding reset_for_new_attempt
reset_for_new_attempt-Reset s v = Cancelled-Reset s (cancel_renew s) v (cancel_renew-Cancelled s v)
