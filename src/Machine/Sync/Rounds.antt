-- ===== src/Machine/Sync/Rounds.antt =====
-- The rounds of the sync client's renew thread as moves of the machine, and all that can happen.
use dflockd_client_py.Base.{
  ℕ, ◌≡◌, ◌⊎◌, inl, inr, refl, Bool-cases, Option, none, some, Str, arith, ◌||◌,
}
use dflockd_client_py.Base.Int.{ℤ}
use dflockd_client_py.Errors.{Error, Result, ok, err, exception, is_subclass, class_of}
use dflockd_client_py.Sync.State.{SyncBase}
use dflockd_client_py.Sync.Lifecycle.{
  acquire_unlocked, enqueue_unlocked, wait_unlocked, release_unlocked, close_unlocked, stop_renew,
  send_release_quietly, clear_held_state,
}
use dflockd_client_py.Sync.Renewal.{
  Event, perform, loop_round, handle_renew_failure, settle_renew, renew_if_held, safe_renew_once,
  renew_tick, after_tick, update_lease, end_thread, is_conn,
}
use dflockd_client_py.Sync.Hooks.{proto_renew}
use dflockd_client_py.Sync.Invariant.Defs.{IsValid}
use dflockd_client_py.Sync.Invariant.Touch.{proto_renew-Touches}
use dflockd_client_py.Sync.Invariant.Closing.{close_unlocked-IsEmpty}
use dflockd_client_py.Sync.Invariant.Calls.{
  acquire_unlocked-Decided, enqueue_unlocked-EnqueueDecided,
}
use dflockd_client_py.Sync.Invariant.Ends.{wait_unlocked-WaitDecided, send_release_quietly-IsValid}
use dflockd_client_py.Machine as Machine
use dflockd_client_py.Machine.{View, free, held, yes, Move}
use dflockd_client_py.Machine.Sync.{
  view, SyncMove, moves, call_of, outcome_of, IsEmpty-view, acquired-Move, enqueued-Move,
  waited-Move, touched-fields, send_release_quietly-Sent, release-SyncMove,
}

-- A round keeps the state, or loses what was held.
abbrev Kept : SyncBase → SyncBase → Type 0
Kept s t = ((t.conn ≡ s.conn) × (t.token ≡ s.token)) ⊎ ((view s ≡ held) × (view t ≡ free))

failed-Kept :
    (i : ℕ) (e : Error) (s t : SyncBase)
    → view s ≡ held
    → t.conn ≡ s.conn
    → t.token ≡ s.token
    → Kept s (settle_renew i (err e, t)).1
unfolding handle_renew_failure clear_held_state
failed-Kept i e s t h p q = elim (Bool-cases (is_subclass (class_of e) exception)) [
  | inr other ↦ rw other (inl (p, q))
  | inl known ↦ rw known (elim (Bool-cases (is_conn t.conn i)) [
    | inl same ↦ rw same (inr (h, refl))
    | inr gone ↦ rw gone (inl (p, q))
  ])
]

settle_renew-Kept :
    (i : ℕ) (s : SyncBase) (x : Result ℤ × SyncBase)
    → view s ≡ held
    → (x.1.conn ≡ s.conn) × (x.1.token ≡ s.token)
    → Kept s (settle_renew i x).1
settle_renew-Kept i s (ok z, t) h (p, q) = inl (p, q)
settle_renew-Kept i s (err e, t) h (p, q) = failed-Kept i e s t h p q

renew_if_held-Kept :
    (conn : Option ℕ) (token : Option Str) (s : SyncBase)
    → s.conn ≡ conn
    → s.token ≡ token
    → Kept s (renew_if_held conn token s).1
renew_if_held-Kept none token s p q = inl (refl, refl)
renew_if_held-Kept (some i) none s p q = inl (refl, refl)
renew_if_held-Kept (some i) (some token) s p q =
    settle_renew-Kept i s (proto_renew s.config.kind i token s) (ground (arith, p, q)) (
      touched-fields i s (proto_renew s.config.kind i token s)
        (proto_renew-Touches s.config.kind i token s))

renew_tick-Kept : (e : ℕ) (s : SyncBase) → Kept s (renew_tick e s).1
unfolding renew_tick safe_renew_once
renew_tick-Kept e s = elim (Bool-cases (s.closed || s.events e)) [
  | inl stopped ↦ rw stopped (inl (refl, refl))
  | inr runs ↦ rw runs (renew_if_held-Kept s.conn s.token s refl refl)
]

after_tick-fields :
    (e : ℕ) (x : Result (Option ℤ) × SyncBase)
    → ((after_tick e x).conn ≡ x.1.conn) × ((after_tick e x).token ≡ x.1.token)
unfolding end_thread update_lease
after_tick-fields e (err y, s) = (refl, refl)
after_tick-fields e (ok none, s) = (refl, refl)
after_tick-fields e (ok (some z), s) = ground arith

Kept-fields : (s t u : SyncBase) → Kept s t → (u.conn ≡ t.conn) × (u.token ≡ t.token) → Kept s u
Kept-fields s t u (inl (p, q)) (c, k) = inl (ground (arith, c, p), ground (arith, k, q))
Kept-fields s t u (inr (h, f)) (c, k) = inr (h, rw (c, k) f)

loop_round-Kept : (e : ℕ) (s : SyncBase) → Kept s (loop_round e s)
unfolding loop_round end_thread
loop_round-Kept e s = elim (Bool-cases (s.events e)) [
  | inl stopped ↦ rw stopped (inl (refl, refl))
  | inr runs ↦ rw runs (
      Kept-fields s (renew_tick e s).1 (after_tick e (renew_tick e s)) (renew_tick-Kept e s)
        (after_tick-fields e (renew_tick e s)))
]

Kept-SyncMove : (s t : SyncBase) → Kept s t → SyncMove Machine.round yes (view s) (view t)
Kept-SyncMove s t (inl (p, q)) = rw (p, q) (moves (Move.renewed (view s)))
Kept-SyncMove s t (inr (h, f)) = rw (h, f) (moves Move.lost)

pub perform-SyncMove :
    (x : Event) (s : SyncBase)
    → IsValid s
    → SyncMove (call_of x) (outcome_of x s) (view s) (view (perform x s))
unfolding perform
perform-SyncMove Event.acquire s v =
    moves (acquired-Move (view s) (acquire_unlocked s) (acquire_unlocked-Decided s v))
perform-SyncMove Event.enqueue s v =
    moves (enqueued-Move (view s) (enqueue_unlocked s) (enqueue_unlocked-EnqueueDecided s v))
perform-SyncMove Event.release s v =
    unfold release_unlocked in
    let (valid, quiet) = send_release_quietly-IsValid s v in
    release-SyncMove s (send_release_quietly (stop_renew s)) (send_release_quietly-Sent s) valid
      quiet
perform-SyncMove Event.close s v =
    rw (IsEmpty-view (close_unlocked s) (close_unlocked-IsEmpty s v).0)
      (moves (Move.closed (view s)))
perform-SyncMove (Event.wait t) s v =
    moves (waited-Move s (wait_unlocked t s) v (wait_unlocked-WaitDecided t s v))
perform-SyncMove (Event.round e) s v = Kept-SyncMove s (loop_round e s) (loop_round-Kept e s)
