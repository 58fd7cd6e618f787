-- ===== src/Machine/Async.antt =====
-- The calls of the async client as moves of the machine.
pub mod Rounds
pub mod Runs
use dflockd_client_py.Base.{
  ℕ, ◌≡◌, ◌≢◌, ◌⊎◌, inl, inr, refl, Bool, true, false, Option, none, some, Str, arith,
}
use dflockd_client_py.Base.Int.{ℤ}
use dflockd_client_py.Errors.{
  Error, Result, ok, err, Result-cases, exception, is_subclass, class_of,
}
use dflockd_client_py.Action.{continue}
use dflockd_client_py.Protocol.Decode.{Enqueued, acquired, queued}
use dflockd_client_py.Async.State.{AsyncBase, await_point}
use dflockd_client_py.Async.Lifecycle.{
  acquire_unlocked, enqueue_unlocked, wait_unlocked, release_unlocked, close_unlocked,
  cancel_renew_locked, send_if_held, send_release_quietly, safe_release, release_locked, caught,
  finally_close,
}
use dflockd_client_py.Async.Renewal.{Event}
use dflockd_client_py.Async.Hooks.{proto_release}
use dflockd_client_py.Async.Invariant.Defs.{IsValid, IsEmpty, IsHolding}
use dflockd_client_py.Async.Invariant.Touch.{Touches, refused, sent, proto_release-Touches}
use dflockd_client_py.Async.Invariant.Closing.{
  IsInterrupt, Closed, close_unlocked-Closed, Awaited, await_point-Awaited, Cancelled,
  cancel_held-Cancelled,
}
use dflockd_client_py.Async.Invariant.Resetting.{IsCancelled}
use dflockd_client_py.Async.Invariant.Grants.{Settled}
use dflockd_client_py.Async.Invariant.Calls.{AcquireDecided, EnqueueDecided}
use dflockd_client_py.Async.Invariant.Ends.{
  WaitDecided, ReleaseCloses, release_unlocked-ReleaseCloses,
}
use dflockd_client_py.Machine as Machine
use dflockd_client_py.Machine.Moves.{
  view_of-held, view_of-free, view_of-waiting, view_of-token, Decides, acquire-Move, wait-Move,
  enqueue-Move,
}
use dflockd_client_py.Machine.{
  View, free, waiting, held, view_of, Outcome, yes, no, interrupted, of_error-interrupted, of_bool,
  of_enqueued, of_unit, Call, Move,
}

abbrev pub view : AsyncBase → View
view s = view_of s.conn s.token

-- A cancellation while the last attempt is torn down leaves what there was; one in a `release` or
-- a `close` reaches the caller when all is given up.
pub data AsyncMove : Call → Outcome → View → View → Type 0 where
  moves : {c : Call} {o : Outcome} {v w : View} → Move c o v w → AsyncMove c o v w
  acquire_cancelled : (v : View) → AsyncMove Machine.acquire interrupted v v
  enqueue_cancelled : (v : View) → AsyncMove Machine.enqueue interrupted v v
  release_interrupted : (v : View) → AsyncMove Machine.release interrupted v free
  close_interrupted : (v : View) → AsyncMove Machine.close interrupted v free

-- Which call an event is, and what its caller sees. The end of a round is seen by nobody.
abbrev pub call_of : Event → Call
call_of Event.acquire = Machine.acquire
call_of Event.enqueue = Machine.enqueue
call_of Event.release = Machine.release
call_of Event.close = Machine.close
call_of (Event.wait timeout_s) = Machine.wait
call_of (Event.round e) = Machine.round

abbrev pub outcome_of : Event → AsyncBase → Outcome
outcome_of Event.acquire s = of_bool (acquire_unlocked s).0
outcome_of Event.enqueue s = of_enqueued (enqueue_unlocked s).0
outcome_of Event.release s = of_bool (release_unlocked s).0
outcome_of Event.close s = of_unit (close_unlocked s).0
outcome_of (Event.wait timeout_s) s = of_bool (wait_unlocked timeout_s s).0
outcome_of (Event.round e) s = yes

pub IsEmpty-view : (s : AsyncBase) → IsEmpty s → view s ≡ free
IsEmpty-view s empty = view_of-free s.conn s.token empty.no_conn

IsHolding-view : (s : AsyncBase) → IsHolding s → view s ≡ held
IsHolding-view s (token, i, e, q, p, is_open, task, runs) = view_of-held s.conn s.token p q

pub acquired-AsyncMove :
    (s : AsyncBase) (x : Result Bool × AsyncBase)
    → AcquireDecided s x
    → AsyncMove Machine.acquire (of_bool x.0) (view s) (view x.1)
acquired-AsyncMove s x (valid, inl (q, holding)) =
    moves (acquire-Move (view s) (view x.1) x.0 (inl (q, IsHolding-view x.1 holding)))
acquired-AsyncMove s x (valid, inr (inl (q, empty))) =
    moves (acquire-Move (view s) (view x.1) x.0 (inr (q, IsEmpty-view x.1 empty)))
acquired-AsyncMove s x (valid, inr (inr ((e, q, int), idle, inl (c, t)))) =
    rw (q, c, t, of_error-interrupted e int) (acquire_cancelled (view s))
acquired-AsyncMove s x (valid, inr (inr ((e, q, int), idle, inr empty))) =
    rw (q, IsEmpty-view x.1 empty) (moves (Move.acquire_fails e (view s)))

pub enqueued-AsyncMove :
    (s : AsyncBase) (x : Result Enqueued × AsyncBase)
    → EnqueueDecided s x
    → AsyncMove Machine.enqueue (of_enqueued x.0) (view s) (view x.1)
enqueued-AsyncMove s x (valid, inl (token, z, q, holding)) =
    moves (enqueue-Move (view s) (view x.1) x.0 (inl (token, z, q, IsHolding-view x.1 holding)))
enqueued-AsyncMove s (r, t) (valid, inr (inl (q, (i, has, is_open, no_token)))) =
    moves (enqueue-Move (view s) (view t) r (inr (inl (q, ground (arith, has, no_token)))))
enqueued-AsyncMove s x (valid, inr (inr (inl (e, q, empty)))) =
    moves (enqueue-Move (view s) (view x.1) x.0 (inr (inr (e, q, IsEmpty-view x.1 empty))))
enqueued-AsyncMove s x (valid, inr (inr (inr ((e, q, int), idle, inl (c, t))))) =
    rw (q, c, t, of_error-interrupted e int) (enqueue_cancelled (view s))
enqueued-AsyncMove s x (valid, inr (inr (inr ((e, q, int), idle, inr empty)))) =
    rw (q, IsEmpty-view x.1 empty) (moves (Move.enqueue_fails e (view s)))

Settled-Decides : (x : Result Bool × AsyncBase) → Settled x → Decides x.0 (view x.1)
Settled-Decides x (valid, inl (q, holding)) = inl (q, IsHolding-view x.1 holding)
Settled-Decides x (valid, inr (q, empty, closed)) = inr (q, IsEmpty-view x.1 empty)

pub waited-Move :
    (s : AsyncBase) (x : Result Bool × AsyncBase)
    → IsValid s
    → WaitDecided s x
    → Move Machine.wait (of_bool x.0) (view s) (view x.1)
waited-Move s x v (valid, inl (has, q)) =
    rw (q, view_of-token s.conn s.token v.held has) Move.already_held
waited-Move s x v (valid, inr (inl (no_token, no_conn, (e, q)))) =
    rw (q, view_of-free s.conn s.token no_conn) (Move.not_waiting e)
waited-Move s x v (valid, inr (inr (no_token, has, settled))) =
    rw (view_of-waiting s.conn s.token has no_token)
      (wait-Move (view x.1) x.0 (Settled-Decides x settled))

-- ----- release and close

pub touched-fields :
    {A : Type 0} {parse : Str → Str → Result A} (i : ℕ) (s : AsyncBase) (x : Result A × AsyncBase)
    → Touches i s parse x
    → (x.1.conn ≡ s.conn) × (x.1.token ≡ s.token)
touched-fields i s x (refused e p) = rw p (refl, refl)
touched-fields i s x (sent c p f) = rw p (refl, refl)

-- What the `try` of `_release_unlocked` leaves is true only of a holder.
abbrev Sent : View → Result Bool × AsyncBase → Type 0
Sent v x = x.0 ≡ ok true → v ≡ held

send_if_held-Sent :
    (conn : Option ℕ) (token : Option Str) (s : AsyncBase)
    → Sent (view_of conn token) (send_if_held conn token s)
send_if_held-Sent none token s = λ h. absurd (ground arith)
send_if_held-Sent (some i) none s = λ h. absurd (ground arith)
send_if_held-Sent (some i) (some token) s = λ h. refl

Cancelled-Sent :
    (s : AsyncBase) (x : Result (Unit {0}) × AsyncBase)
    → Cancelled s x
    → Sent (view s) (continue x (λ _. send_release_quietly))
unfolding send_release_quietly
Cancelled-Sent s (err e, t) ((es, cs, same, quiet), outcome) = λ h. absurd (ground arith)
Cancelled-Sent s (ok _, t) ((es, cs, same, quiet), outcome) =
    rw same (send_if_held-Sent s.conn s.token _)

Awaited-Sent :
    (s : AsyncBase) (x : Result (Unit {0}) × AsyncBase)
    → IsValid s
    → Awaited s x
    → Sent
        (view s)
        (continue x (λ _ t. continue (cancel_renew_locked t) (λ _. send_release_quietly)))
unfolding cancel_renew_locked
Awaited-Sent s (err e, t) v ((rest, same), outcome) = λ h. absurd (ground arith)
Awaited-Sent s (ok _, t) v ((rest, same), outcome) = rw same (
    Cancelled-Sent (record s { cancels = rest }) (cancel_renew_locked (record s { cancels = rest }))
      (cancel_held-Cancelled s.renew_task (record s { cancels = rest }) v.one_renewer))

-- The close that follows can only replace the result by an exception.
closed-Sent :
    (v : View) (r : Result Bool) (x : Result (Unit {0}) × AsyncBase)
    → (r ≡ ok true → v ≡ held)
    → Sent v (continue x (λ _ t. (r, t)))
closed-Sent v r (ok _, t) f = f
closed-Sent v r (err e, t) f = λ h. absurd (ground arith)

finally_close-Sent : (v : View) (x : Result Bool × AsyncBase) → Sent v x → Sent v (finally_close x)
finally_close-Sent v (r, t) f = closed-Sent v r (close_unlocked t) f

release_unlocked-Sent : (s : AsyncBase) → IsValid s → Sent (view s) (release_unlocked s)
unfolding release_unlocked release_locked
release_unlocked-Sent s v =
    finally_close-Sent (view s) (release_locked s)
      (Awaited-Sent s (await_point s) v (await_point-Awaited s))

-- A result, or an exception that is no `Exception`.
abbrev Returns : Result Bool → Type 0
Returns r = ((released : Bool) × (r ≡ ok released)) ⊎ ((e : Error) × (r ≡ err e) × IsInterrupt e)

released-AsyncMove :
    (v : View) (x : Result Bool × AsyncBase)
    → Sent v x
    → IsEmpty x.1
    → Returns x.0
    → AsyncMove Machine.release (of_bool x.0) v (view x.1)
released-AsyncMove v (r, t) f empty (inl (true, q)) =
    rw (q, f q, IsEmpty-view t empty) (moves Move.released)
released-AsyncMove v (r, t) f empty (inl (false, q)) =
    rw (q, IsEmpty-view t empty) (moves (Move.not_released v))
released-AsyncMove v (r, t) f empty (inr (e, q, int)) =
    rw (q, IsEmpty-view t empty, of_error-interrupted e int) (release_interrupted v)

pub release_unlocked-AsyncMove :
    (s : AsyncBase)
    → IsValid s
    → AsyncMove Machine.release
        (of_bool (release_unlocked s).0)
        (view s)
        (view (release_unlocked s).1)
release_unlocked-AsyncMove s v =
    let (valid, empty, shut, outcome) = release_unlocked-ReleaseCloses s v in
    released-AsyncMove (view s) (release_unlocked s) (release_unlocked-Sent s v) empty outcome

pub Closed-AsyncMove :
    (v : View) (x : Result (Unit {0}) × AsyncBase)
    → Closed x
    → AsyncMove Machine.close (of_unit x.0) v (view x.1)
Closed-AsyncMove v (r, t) (valid, empty, shut, inl q) =
    rw (q, IsEmpty-view t empty) (moves (Move.closed v))
Closed-AsyncMove v (r, t) (valid, empty, shut, inr (e, q, int)) =
    rw (q, IsEmpty-view t empty, of_error-interrupted e int) (close_interrupted v)
