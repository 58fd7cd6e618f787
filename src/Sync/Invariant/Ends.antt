-- ===== src/Sync/Invariant/Ends.antt =====
-- The invariant through `_wait_unlocked` and `_release_unlocked`, and what they leave.
use dflockd_client_py.Base.{
  ℕ, ◌≡◌, ◌≢◌, ◌⊎◌, inl, inr, refl, true, false, Bool, Bool-cases, Option, none, some, Option-cases,
  Str, arith,
}
use dflockd_client_py.Errors.{Error, Result, ok, err, exception, is_subclass, class_of}
use dflockd_client_py.Action.{continue}
use dflockd_client_py.Protocol.Validate.{Scalar}
use dflockd_client_py.Sync.State.{SyncBase}
use dflockd_client_py.Sync.Hooks.{proto_wait, proto_release}
use dflockd_client_py.Sync.Lifecycle.{
  invoke_wait, wait_unlocked, wait_unless, caught, safe_release, send_if_held, send_release_quietly,
  release_unlocked, stop_renew, close_unlocked,
}
use dflockd_client_py.Sync.Invariant.Defs.{IsValid}
use dflockd_client_py.Sync.Invariant.Touch.{
  Touches, refused, sent, proto_wait-Touches, proto_release-Touches,
}
use dflockd_client_py.Sync.Invariant.Closing.{
  IsEmpty, close_unlocked-IsValid, close_unlocked-IsEmpty, stop_renew-IsValid,
}
use dflockd_client_py.Sync.Invariant.Grants.{Settled, update-IsValid, settle_grant-Settled}

-- How `wait` ends: without a token it is settled, or there was no connection.
abbrev pub WaitDecided : SyncBase → Result Bool × SyncBase → Type 0
WaitDecided s x =
    IsValid x.1
    × (((s.token ≢ none) × (x ≡ (ok true, s)))
        ⊎ ((s.token ≡ none) × (s.conn ≡ none) × ((e : Error) × (x ≡ (err e, s))))
        ⊎ ((s.token ≡ none) × (s.conn ≢ none) × Settled x))

invoke_wait-Settled :
    (i : ℕ) (t : Scalar) (s : SyncBase) → s.conn ≡ some i → IsValid s → Settled (invoke_wait t s)
unfolding invoke_wait
invoke_wait-Settled i t s e v = simp e (
    settle_grant-Settled i s (proto_wait s.config.kind i t s) e v
      (proto_wait-Touches s.config.kind i t s))

invoke_wait-no_conn :
    (t : Scalar) (s : SyncBase) → s.conn ≡ none → (e : Error) × (invoke_wait t s ≡ (err e, s))
unfolding invoke_wait
invoke_wait-no_conn t s e = simp e (_, refl)

wait_unless-Decided :
    (t : Scalar) (s : SyncBase) → IsValid s → s.token ≡ none → WaitDecided s (invoke_wait t s)
wait_unless-Decided t s v free = elim (Option-cases s.conn) [
  | inl no_conn ↦
      let (e, q) = invoke_wait-no_conn t s no_conn in rw q (v, inr (inl (free, no_conn, (e, refl))))
  | inr (i, has) ↦
      let settled = invoke_wait-Settled i t s has v in
      (settled.0, inr (inr (free, (λ h. cc), settled)))
]

wait_unless-WaitDecided :
    (held : Option Str) (t : Option Scalar) (s : SyncBase)
    → s.token ≡ held
    → IsValid s
    → WaitDecided s (wait_unless held t s)
wait_unless-WaitDecided none t s q v = wait_unless-Decided _ s v q
wait_unless-WaitDecided (some token) t s q v = (v, inl ((λ h. cc), refl))

-- From a state that satisfies the invariant, `_wait_unlocked` ends in one that satisfies it; with
-- a token it returns true and changes nothing; with neither token nor connection it raises and
-- changes nothing; with a connection alone it either returns true and holds, with an open
-- connection and a renew thread, or does not return true and leaves the object closed, with
-- neither connection nor token.
pub wait_unlocked-WaitDecided :
    (t : Option Scalar) (s : SyncBase) → IsValid s → WaitDecided s (wait_unlocked t s)
unfolding wait_unlocked
wait_unlocked-WaitDecided t s v = wait_unless-WaitDecided s.token t s refl v

-- ----- release

-- What `_safe_release` lets through is no `Exception`.
abbrev pub Quiet : Result Bool → Type 0
Quiet r = (e : Error) → r ≡ err e → is_subclass (class_of e) exception ≡ false

caught-Quiet : (x : Result (Unit {0}) × SyncBase) → Quiet (caught x).0 × ((caught x).1 ≡ x.1)
caught-Quiet (ok a, s) = ((λ e h. cc), refl)
caught-Quiet (err y, s) = elim (Bool-cases (is_subclass (class_of y) exception)) [
  | inl known ↦ rw known ((λ e h. cc), refl)
  | inr other ↦ rw other ((λ e h. ground (arith, other)), refl)
]

touched-IsValid :
    {A : Type 0} {parse : Str → Str → Result A} (i : ℕ) (s : SyncBase) (x : Result A × SyncBase)
    → s.conn ≡ some i
    → IsValid s
    → Touches i s parse x
    → IsValid x.1
touched-IsValid i s x q v (refused e p) = rw p v
touched-IsValid i s x q v (sent c p f) = rw p (update-IsValid i s c q v)

-- The send changes the connection in use alone.
send_if_held-IsValid :
    (held : Option ℕ) (token : Option Str) (s : SyncBase)
    → s.conn ≡ held
    → IsValid s
    → IsValid (send_if_held held token s).1 × Quiet (send_if_held held token s).0
send_if_held-IsValid none token s q v = (v, λ e h. cc)
send_if_held-IsValid (some i) none s q v = (v, λ e h. cc)
send_if_held-IsValid (some i) (some token) s q v =
    unfold safe_release in
    let (quiet, same) = caught-Quiet (proto_release s.config.kind i token s) in
    (
      rw same (
          touched-IsValid i s (proto_release s.config.kind i token s) q v
            (proto_release-Touches s.config.kind i token s)),
      quiet,
    )

pub send_release_quietly-IsValid :
    (s : SyncBase)
    → IsValid s
    → IsValid (send_release_quietly (stop_renew s)).1
      × Quiet (send_release_quietly (stop_renew s)).0
unfolding send_release_quietly
send_release_quietly-IsValid s v =
    send_if_held-IsValid (stop_renew s).conn (stop_renew s).token (stop_renew s) refl
      (stop_renew-IsValid s v)

-- How `release` ends: with an answer and an empty, closed object, or with an exception that is
-- no `Exception`.
abbrev pub ReleaseDecided : Result Bool × SyncBase → Type 0
ReleaseDecided x =
    IsValid x.1
    × (((released : Bool) × (x.0 ≡ ok released) × IsEmpty x.1 × (x.1.closed ≡ true))
        ⊎ ((e : Error) × (x.0 ≡ err e) × (is_subclass (class_of e) exception ≡ false)))

released-Decided :
    (x : Result Bool × SyncBase)
    → IsValid x.1
    → Quiet x.0
    → ReleaseDecided (continue x (λ released t. (ok released, close_unlocked t)))
released-Decided (ok released, s) v quiet =
    let (empty, closed) = close_unlocked-IsEmpty s v in
    (close_unlocked-IsValid s v, inl (released, refl, empty, closed))
released-Decided (err e, s) v quiet = (v, inr (e, refl, quiet e refl))

-- From a state that satisfies the invariant, `_release_unlocked` ends in one that satisfies it;
-- either it returned a Boolean and the object is closed, with neither connection nor token, or it
-- raised what is no `Exception`.
pub release_unlocked-ReleaseDecided :
    (s : SyncBase) → IsValid s → ReleaseDecided (release_unlocked s)
unfolding release_unlocked
release_unlocked-ReleaseDecided s v =
    let (valid, quiet) = send_release_quietly-IsValid s v in
    released-Decided (send_release_quietly (stop_renew s)) valid quiet
