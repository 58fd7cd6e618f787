-- ===== src/Async/Invariant/Ends.antt =====
-- The invariant through the async `_wait_unlocked` and `_release_unlocked`, and what they leave.
use dflockd_client_py.Base.{
  ℕ, ◌≡◌, ◌≢◌, ◌⊎◌, inl, inr, refl, true, Bool, Bool-cases, Option, Option-cases, none, some, Str,
  arith,
}
use dflockd_client_py.Errors.{Error, Result, ok, err, exception, is_subclass, class_of}
use dflockd_client_py.Action.{continue}
use dflockd_client_py.Protocol.Validate.{Scalar}
use dflockd_client_py.Async.State.{AsyncBase, await_point}
use dflockd_client_py.Async.Hooks.{proto_wait, proto_release}
use dflockd_client_py.Async.Lifecycle.{
  invoke_wait, wait_unless, wait_unlocked, caught, safe_release, send_if_held, send_release_quietly,
  cancel_renew_locked, release_locked, finally_close, release_unlocked, close_unlocked,
}
use dflockd_client_py.Async.Invariant.Defs.{IsValid, IsEmpty}
use dflockd_client_py.Async.Invariant.Touch.{
  Touches, refused, sent, proto_wait-Touches, proto_release-Touches,
}
use dflockd_client_py.Async.Invariant.Closing.{
  IsInterrupt, Awaited, await_point-Awaited, Cancelled, cancel_held-Cancelled, cancelled-IsValid,
  Closed, close_unlocked-Closed, awaited-IsValid,
}
use dflockd_client_py.Async.Invariant.Grants.{update-IsValid, Settled, settle_grant-Settled}

-- ----- wait

abbrev pub WaitDecided : AsyncBase → Result Bool × AsyncBase → Type 0
WaitDecided s x =
    IsValid x.1
    × (((s.token ≢ none) × (x ≡ (ok true, s)))
        ⊎ ((s.token ≡ none) × (s.conn ≡ none) × ((e : Error) × (x ≡ (err e, s))))
        ⊎ ((s.token ≡ none) × (s.conn ≢ none) × Settled x))

invoke_wait-Settled :
    (i : ℕ) (t : Scalar) (s : AsyncBase)
    → s.conn ≡ some i
    → s.token ≡ none
    → IsValid s
    → Settled (invoke_wait t s)
unfolding invoke_wait
invoke_wait-Settled i t s e free v = simp e (
    settle_grant-Settled i s (proto_wait s.config.kind i t s) e (v.idle free (λ h. cc)) v
      (proto_wait-Touches i s s.config.kind t))

invoke_wait-no_conn :
    (t : Scalar) (s : AsyncBase) → s.conn ≡ none → (e : Error) × (invoke_wait t s ≡ (err e, s))
unfolding invoke_wait
invoke_wait-no_conn t s e = simp e (_, refl)

invoke_wait-WaitDecided :
    (t : Scalar) (s : AsyncBase) → IsValid s → s.token ≡ none → WaitDecided s (invoke_wait t s)
invoke_wait-WaitDecided t s v free = elim (Option-cases s.conn) [
  | inl no_conn ↦
      let (e, q) = invoke_wait-no_conn t s no_conn in rw q (v, inr (inl (free, no_conn, (e, refl))))
  | inr (i, has) ↦
      let settled = invoke_wait-Settled i t s has free v in
      (settled.0, inr (inr (free, (λ h. cc), settled)))
]

wait_unless-WaitDecided :
    (held : Option Str) (t : Option Scalar) (s : AsyncBase)
    → s.token ≡ held
    → IsValid s
    → WaitDecided s (wait_unless held t s)
wait_unless-WaitDecided none t s q v = invoke_wait-WaitDecided _ s v q
wait_unless-WaitDecided (some token) t s q v = (v, inl ((λ h. cc), refl))

pub wait_unlocked-WaitDecided :
    (t : Option Scalar) (s : AsyncBase) → IsValid s → WaitDecided s (wait_unlocked t s)
unfolding wait_unlocked
wait_unlocked-WaitDecided t s v = wait_unless-WaitDecided s.token t s refl v

-- ----- release

-- What the `try` lets through is no `Exception`.
abbrev Quiet : Result Bool → Type 0
Quiet r = (e : Error) → r ≡ err e → IsInterrupt e

caught-Quiet : (x : Result (Unit {0}) × AsyncBase) → Quiet (caught x).0 × ((caught x).1 ≡ x.1)
caught-Quiet (ok a, s) = ((λ e h. cc), refl)
caught-Quiet (err y, s) = elim (Bool-cases (is_subclass (class_of y) exception)) [
  | inl known ↦ rw known ((λ e h. cc), refl)
  | inr other ↦ rw other ((λ e h. ground (arith, other)), refl)
]

touched-IsValid :
    {A : Type 0} {parse : Str → Str → Result A} (i : ℕ) (s : AsyncBase) (x : Result A × AsyncBase)
    → s.conn ≡ some i
    → IsValid s
    → Touches i s parse x
    → IsValid x.1
touched-IsValid i s x q v (refused e p) = rw p v
touched-IsValid i s x q v (sent c p f) = rw p (update-IsValid i s c q v)

send_if_held-IsValid :
    (held : Option ℕ) (token : Option Str) (s : AsyncBase)
    → s.conn ≡ held
    → IsValid s
    → IsValid (send_if_held held token s).1 × Quiet (send_if_held held token s).0
send_if_held-IsValid none token s q v = (v, λ e h. cc)
send_if_held-IsValid (some i) none s q v = (v, λ e h. cc)
send_if_held-IsValid (some i) (some token) s q v =
    unfold safe_release in
    let (quiet, same) = caught-Quiet (proto_release s.config.kind i token s) in
    (
      rw same (
          touched-IsValid i s (proto_release s.config.kind i token s) q v
            (proto_release-Touches i s s.config.kind token)),
      quiet,
    )

-- The `try` of `_release_unlocked`.
abbrev Tried : Result Bool × AsyncBase → Type 0
Tried x = IsValid x.1 × Quiet x.0

Cancelled-Tried :
    (s : AsyncBase) (x : Result (Unit {0}) × AsyncBase)
    → IsValid s
    → Cancelled s x
    → Tried (continue x (λ _. send_release_quietly))
unfolding send_release_quietly
Cancelled-Tried s (err e, t) v ((es, cs, same, quiet), outcome) =
    (rw same (cancelled-IsValid s es cs quiet v), λ f h. ground (arith, outcome, h))
Cancelled-Tried s (ok _, t) v ((es, cs, same, quiet), outcome) =
    send_if_held-IsValid t.conn t.token t refl (rw same (cancelled-IsValid s es cs quiet v))

Awaited-Tried :
    (s : AsyncBase) (x : Result (Unit {0}) × AsyncBase)
    → IsValid s
    → Awaited s x
    → Tried (continue x (λ _ t. continue (cancel_renew_locked t) (λ _. send_release_quietly)))
unfolding cancel_renew_locked
Awaited-Tried s (err e, t) v ((rest, same), outcome) =
    (rw same (awaited-IsValid s rest v), λ f h. ground (arith, outcome, h))
Awaited-Tried s (ok _, t) v ((rest, same), outcome) =
    let valid : IsValid t = rw same (awaited-IsValid s rest v) in
    Cancelled-Tried t (cancel_renew_locked t) valid
      (cancel_held-Cancelled t.renew_task t valid.one_renewer)

-- How `release` ends: always with an empty, closed object, and with an answer or with what is no
-- `Exception`.
abbrev pub ReleaseCloses : Result Bool × AsyncBase → Type 0
ReleaseCloses x =
    IsValid x.1
    × IsEmpty x.1
    × (x.1.closed ≡ true)
    × (((released : Bool) × (x.0 ≡ ok released)) ⊎ ((e : Error) × (x.0 ≡ err e) × IsInterrupt e))

Closed-ReleaseCloses :
    (r : Result Bool) (x : Result (Unit {0}) × AsyncBase)
    → Quiet r
    → Closed x
    → ReleaseCloses (continue x (λ _ t. (r, t)))
Closed-ReleaseCloses r (err e, t) quiet (v, empty, shut, outcome) =
    (v, empty, shut, inr (e, refl, ground (arith, outcome)))
Closed-ReleaseCloses (ok b) (ok _, t) quiet (v, empty, shut, outcome) =
    (v, empty, shut, inl (b, refl))
Closed-ReleaseCloses (err e) (ok _, t) quiet (v, empty, shut, outcome) =
    (v, empty, shut, inr (e, refl, quiet e refl))

Tried-ReleaseCloses : (x : Result Bool × AsyncBase) → Tried x → ReleaseCloses (finally_close x)
Tried-ReleaseCloses (r, t) (v, quiet) =
    Closed-ReleaseCloses r (close_unlocked t) quiet (close_unlocked-Closed t v)

-- From a state that satisfies the invariant, the async `_release_unlocked` ends in one that
-- satisfies it and is closed, with neither connection nor token, whether it returned a Boolean or
-- raised; what it raises is no `Exception`.
pub release_unlocked-ReleaseCloses :
    (s : AsyncBase) → IsValid s → ReleaseCloses (release_unlocked s)
unfolding release_unlocked release_locked
release_unlocked-ReleaseCloses s v =
    Tried-ReleaseCloses (release_locked s)
      (Awaited-Tried s (await_point s) v (await_point-Awaited s))
