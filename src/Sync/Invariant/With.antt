-- ===== src/Sync/Invariant/With.antt =====
-- A `with` statement on a lock object, whatever its body and its server do.
use dflockd_client_py.Action.{Action, leave, continue}
use dflockd_client_py.Base.{◌≡◌, ◌⊎◌, inl, inr, refl, Bool, true, false, arith, if◌then◌else◌}
use dflockd_client_py.Errors.{
  Error, Result, ok, err, class_of, is_subclass, exception, raise, timeout_error, timed_out,
}
use dflockd_client_py.Sync.State.{SyncBase}
use dflockd_client_py.Sync.Lifecycle.{
  acquire_unlocked, release_unlocked, enter, exit, swallow, with_lock,
}
use dflockd_client_py.Sync.Invariant.Defs.{IsValid}
use dflockd_client_py.Sync.Invariant.Grants.{IsHolding}
use dflockd_client_py.Sync.Invariant.Closing.{IsEmpty}
use dflockd_client_py.Sync.Invariant.Calls.{Decided, acquire_unlocked-Decided}
use dflockd_client_py.Sync.Invariant.Ends.{ReleaseDecided, release_unlocked-ReleaseDecided}

-- `__enter__` returns with a lock that is held, or raises and holds nothing.
abbrev Entered : Result (Unit {0}) × SyncBase → Type 0
Entered x =
    IsValid x.1 × (((x.0 ≡ ok tt) × IsHolding x.1) ⊎ ((e : Error) × (x.0 ≡ err e) × IsEmpty x.1))

Decided-Entered :
    (x : Result Bool × SyncBase)
    → Decided x
    → Entered (
        continue x (λ held t.
          if held then (ok tt, t) else (raise timeout_error (timed_out t.config.key), t)))
Decided-Entered (ok true, s) (v, inl (q, holding)) = (v, inl (refl, holding))
Decided-Entered (ok true, s) (v, inr (q, empty)) = absurd (q refl)
Decided-Entered (ok false, s) (v, inl (q, holding)) = absurd (ground arith)
Decided-Entered (ok false, s) (v, inr (q, empty)) = (v, inr (_, refl, empty))
Decided-Entered (err e, s) (v, inl (q, holding)) = absurd (ground arith)
Decided-Entered (err e, s) (v, inr (q, empty)) = (v, inr (e, refl, empty))

enter-Entered : (s : SyncBase) → IsValid s → Entered (enter s)
unfolding enter
enter-Entered s v = Decided-Entered (acquire_unlocked s) (acquire_unlocked-Decided s v)

-- `__exit__` returns with a closed object that holds nothing, or raises what is no `Exception`.
abbrev Exited : Result (Unit {0}) × SyncBase → Type 0
Exited x =
    IsValid x.1
    × (((x.0 ≡ ok tt) × IsEmpty x.1 × (x.1.closed ≡ true))
        ⊎ ((e : Error) × (x.0 ≡ err e) × (is_subclass (class_of e) exception ≡ false)))

swallow-Exited : (x : Result Bool × SyncBase) → ReleaseDecided x → Exited (swallow x)
swallow-Exited (ok released, s) (v, inl (r, q, empty, closed)) = (v, inl (refl, empty, closed))
swallow-Exited (ok released, s) (v, inr (e, q, other)) = absurd (ground arith)
swallow-Exited (err e, s) (v, inl (r, q, empty, closed)) = absurd (ground arith)
swallow-Exited (err e, s) (v, inr (d, q, other)) =
    let same : is_subclass (class_of e) exception ≡ false = ground (arith, q, other) in
    rw same (v, inr (e, refl, same))

exit-Exited : (s : SyncBase) → IsValid s → Exited (exit s)
unfolding exit
exit-Exited s v = swallow-Exited (release_unlocked s) (release_unlocked-ReleaseDecided s v)

-- What a `with` statement with the body ends in: `__enter__` raised, and the body did not run; or
-- the body ran on the lock that `__enter__` left, and its result is the statement's; or `__exit__`
-- raised after the body.
abbrev pub WithDecided {ℓ} :
    {A : Type ℓ} → Action SyncBase A → SyncBase → Result A × SyncBase → Type ℓ
WithDecided body s x =
    IsValid x.1
    × (((e : Error) × (enter s ≡ (err e, x.1)) × (x.0 ≡ err e) × IsEmpty x.1)
        ⊎ ((t : SyncBase) × (enter s ≡ (ok tt, t))
            × IsHolding t
            × (((x.0 ≡ (body t).0) × IsEmpty x.1 × (x.1.closed ≡ true))
                ⊎ ((e : Error) × (exit (body t).1 ≡ (err e, x.1))
                    × (x.0 ≡ err e)
                    × (is_subclass (class_of e) exception ≡ false)))))

left-WithDecided {ℓ} :
    {A : Type ℓ} (body : Action SyncBase A) (s t : SyncBase) (x : Result (Unit {0}) × SyncBase)
    → enter s ≡ (ok tt, t)
    → exit (body t).1 ≡ x
    → IsHolding t
    → Exited x
    → WithDecided body s (continue x (λ _ u. ((body t).0, u)))
left-WithDecided body s t (ok _, u) got left holding (v, inl (q, empty, closed)) =
    (v, inr (t, got, holding, inl (refl, empty, closed)))
left-WithDecided body s t (ok _, u) got left holding (v, inr (e, q, other)) = absurd (ground arith)
left-WithDecided body s t (err e, u) got left holding (v, inl (q, empty, closed)) =
    absurd (ground arith)
left-WithDecided body s t (err e, u) got left holding (v, inr (d, q, other)) =
    (v, inr (t, got, holding, inr (e, left, refl, ground (arith, q, other))))

Entered-WithDecided {ℓ} :
    {A : Type ℓ} (body : Action SyncBase A) (s : SyncBase) (x : Result (Unit {0}) × SyncBase)
    → ((t : SyncBase) → IsValid t → IsValid (body t).1)
    → enter s ≡ x
    → Entered x
    → WithDecided body s (continue x (λ _ t. leave exit (body t)))
Entered-WithDecided body s (ok _, t) keeps got (v, inl (q, holding)) =
    left-WithDecided body s t (exit (body t).1) got refl holding
      (exit-Exited (body t).1 (keeps t v))
Entered-WithDecided body s (ok _, t) keeps got (v, inr (e, q, empty)) = absurd (ground arith)
Entered-WithDecided body s (err e, t) keeps got (v, inl (q, holding)) = absurd (ground arith)
Entered-WithDecided body s (err e, t) keeps got (v, inr (d, q, empty)) =
    (v, inl (e, got, refl, empty))

-- From a state that satisfies the invariant, a `with` statement on a lock object, whose body
-- keeps the invariant, ends in a state that satisfies it; either `__enter__` raised, and the
-- object has neither connection nor token; or the body ran on the lock that `__enter__` left,
-- with a token, an open connection and a renew thread, the statement's result is the body's, and
-- the object is closed and empty; or `__exit__` raised, after the body, what is no `Exception`.
pub with_lock-WithDecided {ℓ} :
    {A : Type ℓ} (body : Action SyncBase A) (s : SyncBase)
    → ((t : SyncBase) → IsValid t → IsValid (body t).1)
    → IsValid s
    → WithDecided body s (with_lock body s)
unfolding with_lock
with_lock-WithDecided body s keeps v =
    Entered-WithDecided body s (enter s) keeps refl (enter-Entered s v)
