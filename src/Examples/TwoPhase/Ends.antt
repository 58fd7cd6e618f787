-- ===== src/Examples/TwoPhase/Ends.antt =====
-- How the programs that enqueue first leave their lock.
use dflockd_client_py.Base.{◌≡◌, inl, inr, Bool, true, false, none, some, arith, ap, ◌∙◌}
use dflockd_client_py.Errors.{Result, ok, err}
use dflockd_client_py.Action.{Action, continue, leave}
use dflockd_client_py.Protocol.Validate.{Scalar}
use dflockd_client_py.Protocol.Decode.{Enqueued}
use dflockd_client_py.Async.State.{AsyncBase}
use dflockd_client_py.Async.Lifecycle.{enqueue_unlocked, wait_unlocked, release_unlocked}
use dflockd_client_py.Async.Invariant.Defs.{IsValid, IsEmpty}
use dflockd_client_py.Async.Invariant.Calls.{EnqueueDecided, enqueue_unlocked-EnqueueDecided}
use dflockd_client_py.Async.Invariant.Ends.{
  WaitDecided, wait_unlocked-WaitDecided, release_unlocked-ReleaseCloses,
}
use dflockd_client_py.Examples.TwoPhase.{
  released, if_granted, demo_two_phase, two_phase_worker, demo_lock_ordering,
}

-- A call that leaves an object without connection, token and lease time.
abbrev pub Empties {ℓ} : {A : Type ℓ} → Result A × AsyncBase → Type 0
Empties x = IsValid x.1 × IsEmpty x.1

no_conn-IsEmpty : (s : AsyncBase) → IsValid s → s.conn ≡ none → IsEmpty s
no_conn-IsEmpty s v q = record {
  no_conn = q;
  no_token = v.held q;
  zero_lease = v.no_lease (v.held q);
}

-- What follows keeps the state.
continue-Empties {ℓ κ} :
    {A : Type ℓ} {B : Type κ} (x : Result B × AsyncBase) (r : Result A)
    → Empties x
    → Empties (continue x (λ _ t. (r, t)))
continue-Empties (ok b, t) r empties = empties
continue-Empties (err e, t) r empties = empties

released-Empties : (s : AsyncBase) → IsValid s → Empties (released s)
released-Empties s v =
    let (w, empty, closed, outcome) = release_unlocked-ReleaseCloses s v in
    continue-Empties (release_unlocked s) (ok tt) (w, empty)

leave-Empties {ℓ} :
    {A : Type ℓ} (x : Result A × AsyncBase) → IsValid x.1 → Empties (leave released x)
leave-Empties (r, s) v = continue-Empties (released s) r (released-Empties s v)

-- A wait that was not granted, or raised, leaves the object empty.
waited-Empties :
    {A : Type 0} (s : AsyncBase) (x : Result Bool × AsyncBase) (f : Bool → Action AsyncBase A)
    → WaitDecided s x
    → ((t : AsyncBase) → IsValid t → Empties (f true t))
    → ((t : AsyncBase) → IsValid t → IsEmpty t → Empties (f false t))
    → Empties (continue x f)
waited-Empties s (ok true, t) f (v, how) granted refused = granted t v
waited-Empties s (ok false, t) f (v, inl (held, q)) granted refused = absurd (ground (arith, q))
waited-Empties s (ok false, t) f (v, inr (inl (free, alone, (e, q)))) granted refused =
    absurd (ground (arith, q))
waited-Empties s (ok false, t) f (v, inr (inr (free, conn, (w, inl (q, holding))))) granted
      refused =
    absurd (ground arith)
waited-Empties s (ok false, t) f (v, inr (inr (free, conn, (w, inr (q, empty, closed))))) granted
      refused =
    refused t v empty
waited-Empties s (err e, t) f (v, inl (held, q)) granted refused = absurd (ground (arith, q))
waited-Empties s (err e, t) f (v, inr (inl (free, alone, (d, q)))) granted refused =
    (v, no_conn-IsEmpty t v (ap (λ y. y.1.conn) q ∙ alone))
waited-Empties s (err e, t) f (v, inr (inr (free, conn, (w, inl (q, holding))))) granted refused =
    absurd (ground arith)
waited-Empties s (err e, t) f (v, inr (inr (free, conn, (w, inr (q, empty, closed))))) granted
      refused =
    (v, empty)

module _ (sleep : Action AsyncBase (Unit {0}))
    (sleep-IsValid : (t : AsyncBase) → IsValid t → IsValid (sleep t).1) where
  pub demo_lock_ordering-Empties :
      (s : AsyncBase) → IsValid s → Empties (demo_lock_ordering sleep s)
  unfolding demo_lock_ordering
  demo_lock_ordering-Empties s v =
      waited-Empties s (wait_unlocked none s) _ (wait_unlocked-WaitDecided none s v)
        (λ t w. leave-Empties (sleep t) (sleep-IsValid t w)) (λ t w empty. (w, empty))

  -- The sleep is not cancelled.
  module _ (undisturbed : (t : AsyncBase) → (sleep t).0 ≡ ok tt) where
    slept-Empties :
        (x : Result (Unit {0}) × AsyncBase)
        → x.0 ≡ ok tt
        → IsValid x.1
        → Empties (continue x (λ _. released))
    slept-Empties (ok _, t) q v = released-Empties t v
    slept-Empties (err e, t) q v = absurd (ground arith)

    waits-Empties :
        (timeout_s : Scalar) (s : AsyncBase)
        → IsValid s
        → Empties (continue (wait_unlocked (some timeout_s) s) (if_granted sleep))
    waits-Empties timeout_s s v =
        waited-Empties s (wait_unlocked (some timeout_s) s) _
          (wait_unlocked-WaitDecided (some timeout_s) s v)
          (λ t w. slept-Empties (sleep t) (undisturbed t) (sleep-IsValid t w))
          (λ t w empty. (w, empty))

    enqueued-Empties :
        (timeout_s : Scalar) (s : AsyncBase) (x : Result Enqueued × AsyncBase)
        → IsValid s
        → s.conn ≡ none
        → EnqueueDecided s x
        → Empties
            (continue x (λ _ t. continue (wait_unlocked (some timeout_s) t) (if_granted sleep)))
    enqueued-Empties timeout_s s (ok status, t) valid alone (v, how) = waits-Empties timeout_s t v
    enqueued-Empties timeout_s s (err e, t) valid alone (v, inl (token, z, q, holding)) =
        absurd (ground arith)
    enqueued-Empties timeout_s s (err e, t) valid alone (v, inr (inl (q, waiting))) =
        absurd (ground arith)
    enqueued-Empties timeout_s s (err e, t) valid alone (v, inr (inr (inl (d, q, empty)))) =
        (v, empty)
    enqueued-Empties timeout_s s (err e, t) valid alone
          (v, inr (inr (inr (interrupted, idle, inl (conn, token))))) =
        (v, no_conn-IsEmpty t v (conn ∙ alone))
    enqueued-Empties timeout_s s (err e, t) valid alone
          (v, inr (inr (inr (interrupted, idle, inr empty)))) =
        (v, empty)

    -- However `demo_two_phase` and `_two_phase_worker` of examples/two_phase_demo.py end, on an
    -- async object that satisfies the invariant and has no connection, whatever the server
    -- answers and wherever its calls are cancelled, the object has afterwards neither connection
    -- nor token and its lease time is 0, if what happens during the sleep keeps the invariant and
    -- the sleep is not cancelled.
    pub two_phase-Empties :
        (s : AsyncBase)
        → IsValid s
        → s.conn ≡ none
        → Empties (demo_two_phase sleep s) × Empties (two_phase_worker sleep s)
    unfolding demo_two_phase two_phase_worker
    two_phase-Empties s v alone = (
      enqueued-Empties _ s (enqueue_unlocked s) v alone (enqueue_unlocked-EnqueueDecided s v),
      enqueued-Empties _ s (enqueue_unlocked s) v alone (enqueue_unlocked-EnqueueDecided s v),
    )
