-- ===== src/Machine/Async/Rounds.antt =====
-- The rounds of the async client's renew task as moves of the machine, and all that can happen.
use dflockd_client_py.Base.{ℕ, ◌≡◌, ◌⊎◌, inl, inr, refl, Bool-cases, Option, none, some, Str, arith}
use dflockd_client_py.Base.Int.{ℤ}
use dflockd_client_py.Errors.{Error, Result, ok, err, exception, is_subclass, class_of}
use dflockd_client_py.Sync.Renewal.{is_conn}
use dflockd_client_py.Async.State.{AsyncBase, end_task}
use dflockd_client_py.Async.Lifecycle.{
  acquire_unlocked, enqueue_unlocked, wait_unlocked, close_unlocked, clear_held_state,
}
use dflockd_client_py.Async.Renewal.{
  Event, perform, loop_round, handle_renew_failure, settle_renew, renew_if_held, safe_renew_once,
  renew_tick, after_tick, update_lease,
}
use dflockd_client_py.Async.Hooks.{proto_renew}
use dflockd_client_py.Async.Invariant.Defs.{IsValid}
use dflockd_client_py.Async.Invariant.Touch.{proto_renew-Touches}
use dflockd_client_py.Async.Invariant.Closing.{close_unlocked-Closed}
use dflockd_client_py.Async.Invariant.Calls.{
  acquire_unlocked-AcquireDecided, enqueue_unlocked-EnqueueDecided,
}
use dflockd_client_py.Async.Invariant.Ends.{wait_unlocked-WaitDecided}
use dflockd_client_py.Machine as Machine
use dflockd_client_py.Machine.{View, free, held, yes, Move}
use dflockd_client_py.Machine.Async.{
  view, AsyncMove, moves, call_of, outcome_of, acquired-AsyncMove, enqueued-AsyncMove, waited-Move,
  touched-fields, release_unlocked-AsyncMove, Closed-AsyncMove,
}

-- A round keeps the state, or loses what was held.
abbrev Kept : AsyncBase → AsyncBase → Type 0
Kept s t = ((t.conn ≡ s.conn) × (t.token ≡ s.token)) ⊎ ((view s ≡ held) × (view t ≡ free))

failed-Kept :
    (i : ℕ) (e : Error) (s t : AsyncBase)
    → view s ≡ held
    → t.conn ≡ s.conn
    → t.token ≡ s.token
    → Kept s (settle_renew i (err e, t)).1
unfolding handle_renew_failure clear_held_state
failed-Kept i e s t h p q = elim (Bool-cases (is_subclass (class_of e) exception)) [
  | inr other ↦ rw other (inl (p, q))
  | inl known ↦ rw known (elim (Bool-cases t.closed) [
    | inl shut ↦ rw shut (inl (p, q))
    | inr alive ↦ rw alive (elim (Bool-cases (is_conn t.conn i)) [
      | inl same ↦ rw same (inr (h, refl))
      | inr gone ↦ rw gone (inl (p, q))
    ])
  ])
]

settle_renew-Kept :
    (i : ℕ) (s : AsyncBase) (x : Result ℤ × AsyncBase)
    → view s ≡ held
    → (x.1.conn ≡ s.conn) × (x.1.token ≡ s.token)
    → Kept s (settle_renew i x).1
settle_renew-Kept i s (ok z, t) h (p, q) = inl (p, q)
settle_renew-Kept i s (err e, t) h (p, q) = failed-Kept i e s t h p q

renew_if_held-Kept :
    (conn : Option ℕ) (token : Option Str) (s : AsyncBase)
    → s.conn ≡ conn
    → s.token ≡ token
    → Kept s (renew_if_held conn token s).1
renew_if_held-Kept none token s p q = inl (refl, refl)
renew_if_held-Kept (some i) none s p q = inl (refl, refl)
renew_if_held-Kept (some i) (some token) s p q =
    settle_renew-Kept i s (proto_renew s.config.kind i token s) (ground (arith, p, q)) (
      touched-fields i s (proto_renew s.config.kind i token s)
        (proto_renew-Touches i s s.config.kind token))

renew_tick-Kept : (s : AsyncBase) → Kept s (renew_tick s).1
unfolding renew_tick safe_renew_once
renew_tick-Kept s = elim (Bool-cases s.closed) [
  | inl stopped ↦ rw stopped (inl (refl, refl))
  | inr runs ↦ simp runs (renew_if_held-Kept s.conn s.token s refl refl)
]

after_tick-fields :
    (e : ℕ) (x : Result (Option ℤ) × AsyncBase)
    → ((after_tick e x).conn ≡ x.1.conn) × ((after_tick e x).token ≡ x.1.token)
unfolding end_task update_lease
after_tick-fields e (err y, s) = (refl, refl)
after_tick-fields e (ok none, s) = (refl, refl)
after_tick-fields e (ok (some z), s) = ground arith

Kept-fields : (s t u : AsyncBase) → Kept s t → (u.conn ≡ t.conn) × (u.token ≡ t.token) → Kept s u
Kept-fields s t u (inl (p, q)) (c, k) = inl (ground (arith, c, p), ground (arith, k, q))
Kept-fields s t u (inr (h, f)) (c, k) = inr (h, rw (c, k) f)

loop_round-Kept : (e : ℕ) (s : AsyncBase) → Kept s (loop_round e s)
unfolding loop_round
loop_round-Kept e s =
    Kept-fields s (renew_tick s).1 (after_tick e (renew_tick s)) (renew_tick-Kept s)
      (after_tick-fields e (renew_tick s))

Kept-AsyncMove : (s t : AsyncBase) → Kept s t → AsyncMove Machine.round yes (view s) (view t)
Kept-AsyncMove s t (inl (p, q)) = rw (p, q) (moves (Move.renewed (view s)))
Kept-AsyncMove s t (inr (h, f)) = rw (h, f) (moves Move.lost)

pub perform-AsyncMove :
    (x : Event) (s : AsyncBase)
    → IsValid s
    → AsyncMove (call_of x) (outcome_of x s) (view s) (view (perform x s))
unfolding perform
perform-AsyncMove Event.acquire s v =
    acquired-AsyncMove s (acquire_unlocked s) (acquire_unlocked-AcquireDecided s v)
perform-AsyncMove Event.enqueue s v =
    enqueued-AsyncMove s (enqueue_unlocked s) (enqueue_unlocked-EnqueueDecided s v)
perform-AsyncMove Event.release s v = release_unlocked-AsyncMove s v
perform-AsyncMove Event.close s v =
    Closed-AsyncMove (view s) (close_unlocked s) (close_unlocked-Closed s v)
perform-AsyncMove (Event.wait t) s v =
    moves (waited-Move s (wait_unlocked t s) v (wait_unlocked-WaitDecided t s v))
perform-AsyncMove (Event.round e) s v = Kept-AsyncMove s (loop_round e s) (loop_round-Kept e s)
