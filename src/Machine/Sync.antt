-- ===== src/Machine/Sync.antt =====
-- The calls of the sync client as moves of the machine.
pub mod Rounds
pub mod Runs
use dflockd_client_py.Base.{
  ℕ, ◌≡◌, ◌≢◌, inl, inr, refl, Bool, Bool-cases, true, false, Option, Option-cases, none, some, Str,
  arith,
}
use dflockd_client_py.Errors.{Result, ok, err, exception, is_subclass, class_of}
use dflockd_client_py.Action.{continue}
use dflockd_client_py.Protocol.Decode.{Enqueued}
use dflockd_client_py.Sync.State.{SyncBase}
use dflockd_client_py.Sync.Lifecycle.{
  acquire_unlocked, enqueue_unlocked, wait_unlocked, release_unlocked, close_unlocked, stop_renew,
  send_if_held, send_release_quietly, safe_release, caught,
}
use dflockd_client_py.Sync.Renewal.{Event}
use dflockd_client_py.Sync.Hooks.{proto_release}
use dflockd_client_py.Sync.Invariant.Defs.{IsValid}
use dflockd_client_py.Sync.Invariant.Touch.{Touches, refused, sent, proto_release-Touches}
use dflockd_client_py.Sync.Invariant.Closing.{IsEmpty, close_unlocked-IsEmpty, stop_renew-conn}
use dflockd_client_py.Sync.Invariant.Grants.{IsHolding, Settled}
use dflockd_client_py.Sync.Invariant.Calls.{Decided, EnqueueDecided}
use dflockd_client_py.Sync.Invariant.Ends.{WaitDecided, Quiet}
use dflockd_client_py.Machine as Machine
use dflockd_client_py.Machine.Moves.{
  view_of-held, view_of-free, view_of-waiting, view_of-token, Decides, acquire-Move, wait-Move,
  enqueue-Move,
}
use dflockd_client_py.Machine.{
  View, free, waiting, held, view_of, Outcome, yes, no, interrupted, of_error-interrupted, of_bool,
  of_enqueued, Call, Move,
}

abbrev pub view : SyncBase → View
view s = view_of s.conn s.token

-- An exception that is no `Exception` in the middle of `release` leaves the object as it was.
pub data SyncMove : Call → Outcome → View → View → Type 0 where
  moves : {c : Call} {o : Outcome} {v w : View} → Move c o v w → SyncMove c o v w
  release_interrupted : (v : View) → SyncMove Machine.release interrupted v v

-- Which call an event is, and what its caller sees. The end of a round is seen by nobody.
abbrev pub call_of : Event → Call
call_of Event.acquire = Machine.acquire
call_of Event.enqueue = Machine.enqueue
call_of Event.release = Machine.release
call_of Event.close = Machine.close
call_of (Event.wait timeout_s) = Machine.wait
call_of (Event.round e) = Machine.round

abbrev pub outcome_of : Event → SyncBase → Outcome
outcome_of Event.acquire s = of_bool (acquire_unlocked s).0
outcome_of Event.enqueue s = of_enqueued (enqueue_unlocked s).0
outcome_of Event.release s = of_bool (release_unlocked s).0
outcome_of Event.close s = yes
outcome_of (Event.wait timeout_s) s = of_bool (wait_unlocked timeout_s s).0
outcome_of (Event.round e) s = yes

pub IsEmpty-view : (s : SyncBase) → IsEmpty s → view s ≡ free
IsEmpty-view s empty = view_of-free s.conn s.token empty.no_conn

IsHolding-view : (s : SyncBase) → IsHolding s → view s ≡ held
IsHolding-view s (token, i, q, p, is_open, thread) = view_of-held s.conn s.token p q

pub acquired-Move :
    (v : View) (x : Result Bool × SyncBase)
    → Decided x
    → Move Machine.acquire (of_bool x.0) v (view x.1)
acquired-Move v x (valid, inl (q, holding)) =
    acquire-Move v (view x.1) x.0 (inl (q, IsHolding-view x.1 holding))
acquired-Move v x (valid, inr (q, empty)) =
    acquire-Move v (view x.1) x.0 (inr (q, IsEmpty-view x.1 empty))

pub enqueued-Move :
    (v : View) (x : Result Enqueued × SyncBase)
    → EnqueueDecided x
    → Move Machine.enqueue (of_enqueued x.0) v (view x.1)
enqueued-Move v x (valid, inl (token, z, q, holding)) =
    enqueue-Move v (view x.1) x.0 (inl (token, z, q, IsHolding-view x.1 holding))
enqueued-Move v (r, t) (valid, inr (inl (q, (i, has, is_open, no_token)))) =
    enqueue-Move v (view t) r (inr (inl (q, ground (arith, has, no_token))))
enqueued-Move v x (valid, inr (inr (e, q, empty))) =
    enqueue-Move v (view x.1) x.0 (inr (inr (e, q, IsEmpty-view x.1 empty)))

Settled-Decides : (x : Result Bool × SyncBase) → Settled x → Decides x.0 (view x.1)
Settled-Decides x (valid, inl (q, holding)) = inl (q, IsHolding-view x.1 holding)
Settled-Decides x (valid, inr (q, empty, closed)) = inr (q, IsEmpty-view x.1 empty)

pub waited-Move :
    (s : SyncBase) (x : Result Bool × SyncBase)
    → IsValid s
    → WaitDecided s x
    → Move Machine.wait (of_bool x.0) (view s) (view x.1)
waited-Move s x v (valid, inl (has, q)) =
    rw (q, view_of-token s.conn s.token v.held has) Move.already_held
waited-Move s x v (valid, inr (inl (no_token, no_conn, (e, q)))) =
    rw (q, view_of-free s.conn s.token no_conn) (Move.not_waiting e)
waited-Move s x v (valid, inr (inr (no_token, has, settled))) =
    rw (view_of-waiting s.conn s.token has no_token)
      (wait-Move (view x.1) x.0 (Settled-Decides x settled))

-- ----- release

-- What the send of a release leaves: the object's connection and token, and true only of a holder.
abbrev Sent : View → SyncBase → Result Bool × SyncBase → Type 0
Sent v s x = (x.1.conn ≡ s.conn) × (x.1.token ≡ s.token) × (x.0 ≡ ok true → v ≡ held)

pub touched-fields :
    {A : Type 0} {parse : Str → Str → Result A} (i : ℕ) (s : SyncBase) (x : Result A × SyncBase)
    → Touches i s parse x
    → (x.1.conn ≡ s.conn) × (x.1.token ≡ s.token)
touched-fields i s x (refused e p) = rw p (refl, refl)
touched-fields i s x (sent c p f) = rw p (refl, refl)

caught-state : (x : Result (Unit {0}) × SyncBase) → (caught x).1 ≡ x.1
caught-state (ok a, s) = refl
caught-state (err y, s) = elim (Bool-cases (is_subclass (class_of y) exception)) [
  | inl known ↦ rw known refl
  | inr other ↦ rw other refl
]

send_if_held-Sent :
    (conn : Option ℕ) (token : Option Str) (s : SyncBase)
    → Sent (view_of conn token) s (send_if_held conn token s)
unfolding safe_release
send_if_held-Sent none token s = (refl, refl, λ h. absurd (ground arith))
send_if_held-Sent (some i) none s = (refl, refl, λ h. absurd (ground arith))
send_if_held-Sent (some i) (some token) s =
    let (conn, tok) =
      touched-fields i s (proto_release s.config.kind i token s)
        (proto_release-Touches s.config.kind i token s) in
    rw (caught-state (proto_release s.config.kind i token s)) (conn, tok, λ h. refl)

pub send_release_quietly-Sent :
    (s : SyncBase) → Sent (view s) s (send_release_quietly (stop_renew s))
unfolding send_release_quietly
send_release_quietly-Sent s =
    let (conn, token) = stop_renew-conn s in
    let (c, t, f) = send_if_held-Sent (stop_renew s).conn (stop_renew s).token (stop_renew s) in
    (ground (arith, c, conn), ground (arith, t, token), λ h. ground (arith, f h, conn, token))

pub release-SyncMove :
    (s : SyncBase) (x : Result Bool × SyncBase)
    → Sent (view s) s x
    → IsValid x.1
    → Quiet x.0
    → SyncMove Machine.release
        (of_bool (continue x (λ released t. (ok released, close_unlocked t))).0)
        (view s)
        (view (continue x (λ released t. (ok released, close_unlocked t))).1)
release-SyncMove s (ok true, t) (conn, token, f) v quiet =
    rw (f refl, IsEmpty-view (close_unlocked t) (close_unlocked-IsEmpty t v).0)
      (moves Move.released)
release-SyncMove s (ok false, t) (conn, token, f) v quiet =
    rw (IsEmpty-view (close_unlocked t) (close_unlocked-IsEmpty t v).0)
      (moves (Move.not_released (view s)))
release-SyncMove s (err e, t) (conn, token, f) v quiet =
    rw (conn, token, of_error-interrupted e (quiet e refl)) (release_interrupted (view s))
