-- ===== src/Async/Invariant/With.antt =====
-- An `async with` statement on a lock object, whatever its body and its server do.
use dflockd_client_py.Action.{Action, leave, continue}
use dflockd_client_py.Base.{◌≡◌, ◌⊎◌, inl, inr, refl, Bool, true, false, arith, if◌then◌else◌}
use dflockd_client_py.Errors.{
  Error, Result, ok, err, class_of, is_subclass, exception, raise, timeout_error, timed_out,
}
use dflockd_client_py.Async.State.{AsyncBase}
use dflockd_client_py.Async.Lifecycle.{
  acquire_unlocked, release_unlocked, enter, exit, swallow, with_lock,
}
use dflockd_client_py.Async.Invariant.Defs.{IsValid, IsEmpty, IsHolding}
use dflockd_client_py.Async.Invariant.Closing.{IsInterrupt}
use dflockd_client_py.Async.Invariant.Resetting.{IsCancelled}
use dflockd_client_py.Async.Invariant.Calls.{AcquireDecided, acquire_unlocked-AcquireDecided}
use dflockd_client_py.Async.Invariant.Ends.{ReleaseCloses, release_unlocked-ReleaseCloses}

-- `__aenter__` returns with a lock that is held; or it raises and holds nothing, or was cancelled
-- before it had given up what the object held.
abbrev Entered : AsyncBase → Result (Unit {0}) × AsyncBase → Type 0
Entered s x =
    IsValid x.1
    × (((x.0 ≡ ok tt) × IsHolding x.1)
        ⊎ ((e : Error) × (x.0 ≡ err e) × (IsEmpty x.1 ⊎ IsCancelled s x)))

Decided-Entered :
    (s : AsyncBase) (x : Result Bool × AsyncBase)
    → AcquireDecided s x
    → Entered s (
        continue x (λ held t.
          if held then (ok tt, t) else (raise timeout_error (timed_out t.config.key), t)))
Decided-Entered s (ok true, t) (v, inl (q, holding)) = (v, inl (refl, holding))
Decided-Entered s (ok true, t) (v, inr (inl (q, empty))) = absurd (q refl)
Decided-Entered s (ok true, t) (v, inr (inr ((e, q, i), idle, kept))) = absurd (ground arith)
Decided-Entered s (ok false, t) (v, inl (q, holding)) = absurd (ground arith)
Decided-Entered s (ok false, t) (v, inr (inl (q, empty))) = (v, inr (_, refl, inl empty))
Decided-Entered s (ok false, t) (v, inr (inr ((e, q, i), idle, kept))) = absurd (ground arith)
Decided-Entered s (err e, t) (v, inl (q, holding)) = absurd (ground arith)
Decided-Entered s (err e, t) (v, inr (inl (q, empty))) = (v, inr (e, refl, inl empty))
Decided-Entered s (err e, t) (v, inr (inr ((d, q, i), idle, kept))) =
    (v, inr (e, refl, inr ((e, refl, ground (arith, q, i)), idle, kept)))

enter-Entered : (s : AsyncBase) → IsValid s → Entered s (enter s)
unfolding enter
enter-Entered s v = Decided-Entered s (acquire_unlocked s) (acquire_unlocked-AcquireDecided s v)

-- `__aexit__` always leaves a closed object that holds nothing.
abbrev Exited : Result (Unit {0}) × AsyncBase → Type 0
Exited x =
    IsValid x.1
    × IsEmpty x.1
    × (x.1.closed ≡ true)
    × ((x.0 ≡ ok tt) ⊎ ((e : Error) × (x.0 ≡ err e) × IsInterrupt e))

swallow-Exited : (x : Result Bool × AsyncBase) → ReleaseCloses x → Exited (swallow x)
swallow-Exited (ok released, t) (v, empty, closed, outcome) = (v, empty, closed, inl refl)
swallow-Exited (err e, t) (v, empty, closed, inl (b, q)) = absurd (ground arith)
swallow-Exited (err e, t) (v, empty, closed, inr (d, q, i)) =
    let same : is_subclass (class_of e) exception ≡ false = ground (arith, q, i) in
    rw same (v, empty, closed, inr (e, refl, ground (arith, q, i)))

exit-Exited : (s : AsyncBase) → IsValid s → Exited (exit s)
unfolding exit
exit-Exited s v = swallow-Exited (release_unlocked s) (release_unlocked-ReleaseCloses s v)

-- What an `async with` statement with the body ends in: `__aenter__` raised, and the body did not
-- run; or the body ran on the lock that `__aenter__` left, and the object is closed and empty.
abbrev pub AsyncWithDecided {ℓ} :
    {A : Type ℓ} → Action AsyncBase A → AsyncBase → Result A × AsyncBase → Type ℓ
AsyncWithDecided body s x =
    IsValid x.1
    × (((e : Error) × (enter s ≡ (err e, x.1))
          × (x.0 ≡ err e)
          × (IsEmpty x.1 ⊎ IsCancelled s (enter s)))
        ⊎ ((t : AsyncBase) × (enter s ≡ (ok tt, t))
            × IsHolding t
            × IsEmpty x.1
            × (x.1.closed ≡ true)
            × ((x.0 ≡ (body t).0) ⊎ ((e : Error) × (x.0 ≡ err e) × IsInterrupt e))))

left-AsyncWithDecided {ℓ} :
    {A : Type ℓ} (body : Action AsyncBase A) (s t : AsyncBase) (x : Result (Unit {0}) × AsyncBase)
    → enter s ≡ (ok tt, t)
    → IsHolding t
    → Exited x
    → AsyncWithDecided body s (continue x (λ _ u. ((body t).0, u)))
left-AsyncWithDecided body s t (ok _, u) got holding (v, empty, closed, outcome) =
    (v, inr (t, got, holding, empty, closed, inl refl))
left-AsyncWithDecided body s t (err e, u) got holding (v, empty, closed, inl q) =
    absurd (ground arith)
left-AsyncWithDecided body s t (err e, u) got holding (v, empty, closed, inr (d, q, i)) =
    (v, inr (t, got, holding, empty, closed, inr (e, refl, ground (arith, q, i))))

Entered-AsyncWithDecided {ℓ} :
    {A : Type ℓ} (body : Action AsyncBase A) (s : AsyncBase) (x : Result (Unit {0}) × AsyncBase)
    → ((t : AsyncBase) → IsValid t → IsValid (body t).1)
    → enter s ≡ x
    → Entered s x
    → AsyncWithDecided body s (continue x (λ _ t. leave exit (body t)))
Entered-AsyncWithDecided body s (ok _, t) keeps got (v, inl (q, holding)) =
    left-AsyncWithDecided body s t (exit (body t).1) got holding
      (exit-Exited (body t).1 (keeps t v))
Entered-AsyncWithDecided body s (ok _, t) keeps got (v, inr (e, q, rest)) = absurd (ground arith)
Entered-AsyncWithDecided body s (err e, t) keeps got (v, inl (q, holding)) = absurd (ground arith)
Entered-AsyncWithDecided body s (err e, t) keeps got (v, inr (d, q, inl empty)) =
    (v, inl (e, got, refl, inl empty))
Entered-AsyncWithDecided body s (err e, t) keeps got (v, inr (d, q, inr stopped)) =
    (v, inl (e, got, refl, inr (rw got stopped)))

-- From a state that satisfies the invariant, an `async with` statement on a lock object, whose
-- body keeps the invariant, ends in a state that satisfies it; either `__aenter__` raised, and
-- the object has neither connection nor token or was cancelled while the last attempt was torn
-- down; or the body ran on the lock that `__aenter__` left, with a token, an open connection and
-- a renew task, the object is closed and empty, and the statement's result is the body's or an
-- exception that is no `Exception`.
pub with_lock-AsyncWithDecided {ℓ} :
    {A : Type ℓ} (body : Action AsyncBase A) (s : AsyncBase)
    → ((t : AsyncBase) → IsValid t → IsValid (body t).1)
    → IsValid s
    → AsyncWithDecided body s (with_lock body s)
unfolding with_lock
with_lock-AsyncWithDecided body s keeps v =
    Entered-AsyncWithDecided body s (enter s) keeps refl (enter-Entered s v)
