-- ===== src/Sync/Invariant/Calls.antt =====
-- The invariant through `_acquire_unlocked` and `_enqueue_unlocked`, and what they leave.
use dflockd_client_py.Base.{ℕ, ◌≡◌, ◌≢◌, ◌⊎◌, inl, inr, refl, true, false, Bool, none, some, Str}
use dflockd_client_py.Base.Int.{ℤ}
use dflockd_client_py.Errors.{Error, Result, ok, err}
use dflockd_client_py.Action.{continue}
use dflockd_client_py.Protocol.Decode.{Enqueued, acquired, queued}
use dflockd_client_py.Sync.State.{SyncBase}
use dflockd_client_py.Sync.Hooks.{proto_acquire, proto_enqueue, open_and_authenticate}
use dflockd_client_py.Sync.Lifecycle.{
  acquire_unlocked, invoke_acquire, reset_for_new_attempt, enqueue_unlocked, invoke_enqueue,
}
use dflockd_client_py.Sync.Invariant.Defs.{IsValid}
use dflockd_client_py.Sync.Invariant.Touch.{proto_acquire-Touches, proto_enqueue-Touches}
use dflockd_client_py.Sync.Invariant.Closing.{IsEmpty, reset_for_new_attempt-IsValid}
use dflockd_client_py.Sync.Invariant.Opening.{Opened, open_and_authenticate-Opened}
use dflockd_client_py.Sync.Invariant.Grants.{
  IsHolding, Settled, IsEnqueued, settle_grant-Settled, settle_enqueue-IsEnqueued,
}

reset_for_new_attempt-Opened :
    (s : SyncBase) → IsValid s → Opened (open_and_authenticate (reset_for_new_attempt s))
reset_for_new_attempt-Opened s v =
    let (valid, empty, is_open) = reset_for_new_attempt-IsValid s v in
    open_and_authenticate-Opened (reset_for_new_attempt s)
      (valid, empty.no_conn, empty.no_token, is_open)

-- Whether the object holds after a call is what the call returned.
abbrev pub Decided : Result Bool × SyncBase → Type 0
Decided x = IsValid x.1 × (((x.0 ≡ ok true) × IsHolding x.1) ⊎ ((x.0 ≢ ok true) × IsEmpty x.1))

Settled-Decided : (x : Result Bool × SyncBase) → Settled x → Decided x
Settled-Decided x (v, inl (q, holding)) = (v, inl (q, holding))
Settled-Decided x (v, inr (q, empty, closed)) = (v, inr (q, empty))

invoke_acquire-Settled :
    (i : ℕ) (s : SyncBase) → s.conn ≡ some i → IsValid s → Settled (invoke_acquire s)
unfolding invoke_acquire
invoke_acquire-Settled i s e v = simp e (
    settle_grant-Settled i s (proto_acquire s.config.kind i s) e v
      (proto_acquire-Touches s.config.kind i s))

Opened-Decided :
    (x : Result (Unit {0}) × SyncBase) → Opened x → Decided (continue x (λ _. invoke_acquire))
Opened-Decided (r, s) (inl (i, q, v, e, is_open, free)) =
    rw q (Settled-Decided (invoke_acquire s) (invoke_acquire-Settled i s e v))
Opened-Decided (r, s) (inr (e, q, (v, no_conn, no_token, is_open))) =
    rw q (v, inr ((λ h. cc), record { no_conn = no_conn; no_token = no_token }))

-- From a state that satisfies the invariant, `_acquire_unlocked` ends in one that satisfies it;
-- either it returned true and the object has a token, an open connection and a renew thread with
-- the current stop event, or it did not return true and the object has neither connection nor
-- token.
pub acquire_unlocked-Decided : (s : SyncBase) → IsValid s → Decided (acquire_unlocked s)
unfolding acquire_unlocked
acquire_unlocked-Decided s v =
    Opened-Decided (open_and_authenticate (reset_for_new_attempt s))
      (reset_for_new_attempt-Opened s v)

-- How `enqueue` ends: it holds, or it waits in the queue, or the object is empty.
abbrev pub IsQueued : SyncBase → Type 0
IsQueued s = (i : ℕ) × (s.conn ≡ some i) × ((s.conns i).closed ≡ false) × (s.token ≡ none)

abbrev pub EnqueueDecided : Result Enqueued × SyncBase → Type 0
EnqueueDecided x =
    IsValid x.1
    × (((token : Str) × (z : ℤ) × (x.0 ≡ ok (acquired token z)) × IsHolding x.1)
        ⊎ ((x.0 ≡ ok queued) × IsQueued x.1)
        ⊎ ((e : Error) × (x.0 ≡ err e) × IsEmpty x.1))

enqueued-Decided : (x : Result Enqueued × SyncBase) → IsEnqueued x → EnqueueDecided x
enqueued-Decided x (v, inl holding) = (v, inl holding)
enqueued-Decided x (v, inr (inl (q, (i, e, is_open), free))) =
    (v, inr (inl (q, (i, e, is_open, free))))
enqueued-Decided x (v, inr (inr (e, q, empty, closed))) = (v, inr (inr (e, q, empty)))

invoke_enqueue-IsEnqueued :
    (i : ℕ) (s : SyncBase)
    → s.conn ≡ some i
    → s.token ≡ none
    → IsValid s
    → IsEnqueued (invoke_enqueue s)
unfolding invoke_enqueue
invoke_enqueue-IsEnqueued i s e free v = simp e (
    settle_enqueue-IsEnqueued i s (proto_enqueue s.config.kind i s) e free v
      (proto_enqueue-Touches s.config.kind i s))

Opened-EnqueueDecided :
    (x : Result (Unit {0}) × SyncBase)
    → Opened x
    → EnqueueDecided (continue x (λ _. invoke_enqueue))
Opened-EnqueueDecided (r, s) (inl (i, q, v, e, is_open, free)) =
    rw q (enqueued-Decided (invoke_enqueue s) (invoke_enqueue-IsEnqueued i s e free v))
Opened-EnqueueDecided (r, s) (inr (e, q, (v, no_conn, no_token, is_open))) =
    rw q (v, inr (inr (e, refl, record { no_conn = no_conn; no_token = no_token })))

-- From a state that satisfies the invariant, `_enqueue_unlocked` ends in one that satisfies it;
-- either it returned a grant and the object has a token, an open connection and a renew thread,
-- or it returned `queued` and the object has an open connection and no token, or it raised and
-- the object has neither connection nor token.
pub enqueue_unlocked-EnqueueDecided :
    (s : SyncBase) → IsValid s → EnqueueDecided (enqueue_unlocked s)
unfolding enqueue_unlocked
enqueue_unlocked-EnqueueDecided s v =
    Opened-EnqueueDecided (open_and_authenticate (reset_for_new_attempt s))
      (reset_for_new_attempt-Opened s v)
