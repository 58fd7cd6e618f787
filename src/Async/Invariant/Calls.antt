-- ===== src/Async/Invariant/Calls.antt =====
-- The invariant through the public methods of an async object, and what they leave.
use dflockd_client_py.Async.Invariant.Resetting.{IsCancelled, Reset, reset_for_new_attempt-Reset}
use dflockd_client_py.Base.{ℕ, ◌≡◌, ◌≢◌, ◌⊎◌, inl, inr, refl, true, false, Bool, none, some, Str}
use dflockd_client_py.Base.Int.{ℤ}
use dflockd_client_py.Errors.{Error, Result, ok, err}
use dflockd_client_py.Action.{continue}
use dflockd_client_py.Protocol.Decode.{Enqueued, acquired, queued}
use dflockd_client_py.Async.State.{AsyncBase}
use dflockd_client_py.Async.Hooks.{proto_acquire, proto_enqueue, open_and_authenticate}
use dflockd_client_py.Async.Lifecycle.{
  acquire_unlocked, invoke_acquire, reset_for_new_attempt, enqueue_unlocked, invoke_enqueue,
}
use dflockd_client_py.Async.Invariant.Defs.{IsValid, IsEmpty, IsHolding}
use dflockd_client_py.Async.Invariant.Touch.{proto_acquire-Touches, proto_enqueue-Touches}
use dflockd_client_py.Async.Invariant.Opening.{IsFresh, Opened, open_and_authenticate-Opened}
use dflockd_client_py.Async.Invariant.Grants.{
  Settled, settle_grant-Settled, IsQueued, IsEnqueued, settle_enqueue-IsEnqueued,
}

-- ----- acquire

abbrev pub AcquireDecided : AsyncBase → Result Bool × AsyncBase → Type 0
AcquireDecided s x =
    IsValid x.1
    × (((x.0 ≡ ok true) × IsHolding x.1) ⊎ ((x.0 ≢ ok true) × IsEmpty x.1) ⊎ IsCancelled s x)

Settled-AcquireDecided :
    (o : AsyncBase) (x : Result Bool × AsyncBase) → Settled x → AcquireDecided o x
Settled-AcquireDecided o x (v, inl (q, holding)) = (v, inl (q, holding))
Settled-AcquireDecided o x (v, inr (q, empty, shut)) = (v, inr (inl (q, empty)))

invoke_acquire-Settled :
    (i : ℕ) (s : AsyncBase)
    → s.conn ≡ some i
    → s.renew_task ≡ none
    → IsValid s
    → Settled (invoke_acquire s)
unfolding invoke_acquire
invoke_acquire-Settled i s e idle v = simp e (
    settle_grant-Settled i s (proto_acquire s.config.kind i s) e idle v
      (proto_acquire-Touches i s s.config.kind))

fresh-IsEmpty : (s : AsyncBase) → IsFresh s → IsEmpty s
fresh-IsEmpty s (v, no_conn, no_token, is_open, no_task) = record {
  no_conn = no_conn;
  no_token = no_token;
  zero_lease = v.no_lease no_token;
}

Opened-AcquireDecided :
    (o : AsyncBase) (x : Result (Unit {0}) × AsyncBase)
    → Opened x
    → AcquireDecided o (continue x (λ _. invoke_acquire))
Opened-AcquireDecided o (r, s) (inl (i, q, v, e, is_open, free, idle, alive)) =
    rw q (Settled-AcquireDecided o (invoke_acquire s) (invoke_acquire-Settled i s e idle v))
Opened-AcquireDecided o (r, s) (inr (e, q, fresh)) =
    rw q (fresh.0, inr (inl ((λ h. cc), fresh-IsEmpty s fresh)))

Reset-Opened :
    (t : AsyncBase)
    → IsValid t
    → t.renew_task ≡ none
    → IsEmpty t
    → t.closed ≡ false
    → Opened (open_and_authenticate t)
Reset-Opened t v idle empty alive =
    open_and_authenticate-Opened t (v, empty.no_conn, empty.no_token, alive, idle)

Reset-AcquireDecided :
    (s : AsyncBase) (x : Result (Unit {0}) × AsyncBase)
    → Reset s x
    → AcquireDecided s
        (continue x (λ _ t. continue (open_and_authenticate t) (λ _. invoke_acquire)))
Reset-AcquireDecided s (r, t) (v, inl (q, empty, alive, idle)) =
    rw q (Opened-AcquireDecided s (open_and_authenticate t) (Reset-Opened t v idle empty alive))
Reset-AcquireDecided s (r, t) (v, inr ((e, q, interrupted), idle, left)) =
    rw q (v, inr (inr ((e, refl, interrupted), idle, left)))

-- From a state that satisfies the invariant, the async `_acquire_unlocked` ends in one that
-- satisfies it; either it returned true and the object has a token, an open connection and a
-- renew task that runs; or it did not return true and the object has neither connection nor
-- token; or an exception that is no `Exception` came while the last attempt was torn down, and
-- there is no renew task, and the connection and the token are as they were or the object has
-- neither.
pub acquire_unlocked-AcquireDecided :
    (s : AsyncBase) → IsValid s → AcquireDecided s (acquire_unlocked s)
unfolding acquire_unlocked
acquire_unlocked-AcquireDecided s v =
    Reset-AcquireDecided s (reset_for_new_attempt s) (reset_for_new_attempt-Reset s v)

-- ----- enqueue

abbrev pub EnqueueDecided : AsyncBase → Result Enqueued × AsyncBase → Type 0
EnqueueDecided s x =
    IsValid x.1
    × (((token : Str) × (z : ℤ) × (x.0 ≡ ok (acquired token z)) × IsHolding x.1)
        ⊎ ((x.0 ≡ ok queued) × IsQueued x.1)
        ⊎ ((e : Error) × (x.0 ≡ err e) × IsEmpty x.1)
        ⊎ IsCancelled s x)

IsEnqueued-EnqueueDecided :
    (o : AsyncBase) (x : Result Enqueued × AsyncBase) → IsEnqueued x → EnqueueDecided o x
IsEnqueued-EnqueueDecided o x (v, inl holding) = (v, inl holding)
IsEnqueued-EnqueueDecided o x (v, inr (inl waiting)) = (v, inr (inl waiting))
IsEnqueued-EnqueueDecided o x (v, inr (inr (e, q, empty, shut))) =
    (v, inr (inr (inl (e, q, empty))))

invoke_enqueue-IsEnqueued :
    (i : ℕ) (s : AsyncBase)
    → s.conn ≡ some i
    → s.token ≡ none
    → s.renew_task ≡ none
    → IsValid s
    → IsEnqueued (invoke_enqueue s)
unfolding invoke_enqueue
invoke_enqueue-IsEnqueued i s e free idle v = simp e (
    settle_enqueue-IsEnqueued i s (proto_enqueue s.config.kind i s) e free idle v
      (proto_enqueue-Touches i s s.config.kind))

Opened-EnqueueDecided :
    (o : AsyncBase) (x : Result (Unit {0}) × AsyncBase)
    → Opened x
    → EnqueueDecided o (continue x (λ _. invoke_enqueue))
Opened-EnqueueDecided o (r, s) (inl (i, q, v, e, is_open, free, idle, alive)) =
    rw q
      (IsEnqueued-EnqueueDecided o (invoke_enqueue s) (invoke_enqueue-IsEnqueued i s e free idle v))
Opened-EnqueueDecided o (r, s) (inr (e, q, fresh)) =
    rw q (fresh.0, inr (inr (inl (e, refl, fresh-IsEmpty s fresh))))

Reset-EnqueueDecided :
    (s : AsyncBase) (x : Result (Unit {0}) × AsyncBase)
    → Reset s x
    → EnqueueDecided s
        (continue x (λ _ t. continue (open_and_authenticate t) (λ _. invoke_enqueue)))
Reset-EnqueueDecided s (r, t) (v, inl (q, empty, alive, idle)) =
    rw q (Opened-EnqueueDecided s (open_and_authenticate t) (Reset-Opened t v idle empty alive))
Reset-EnqueueDecided s (r, t) (v, inr ((e, q, interrupted), idle, left)) =
    rw q (v, inr (inr (inr ((e, refl, interrupted), idle, left))))

pub enqueue_unlocked-EnqueueDecided :
    (s : AsyncBase) → IsValid s → EnqueueDecided s (enqueue_unlocked s)
unfolding enqueue_unlocked
enqueue_unlocked-EnqueueDecided s v =
    Reset-EnqueueDecided s (reset_for_new_attempt s) (reset_for_new_attempt-Reset s v)
