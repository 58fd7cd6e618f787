-- ===== src/Machine/Async/Runs.antt =====
-- Sequences of what happens to an async object, as runs of the machine.
use dflockd_client_py.Base.{◌≡◌, inl, inr, List, [], ◌∷◌, arith, Bool}
use dflockd_client_py.Errors.{ok, Result-cases}
use dflockd_client_py.Sync.State.{Config, Dial}
use dflockd_client_py.Async.State.{AsyncBase, initial}
use dflockd_client_py.Async.Hooks.{construct, post_init}
use dflockd_client_py.Async.Renewal.{Event, perform}
use dflockd_client_py.Async.Invariant.Defs.{IsValid}
use dflockd_client_py.Async.Invariant.Rounds.{perform-IsValid, initial-IsValid}
use dflockd_client_py.Machine.{free, Call, Outcome, Run, stop, then}
use dflockd_client_py.Machine.Async.{view, AsyncMove, call_of, outcome_of}
use dflockd_client_py.Machine.Async.Rounds.{perform-AsyncMove}

abbrev pub run : List Event → AsyncBase → AsyncBase
run [] s = s
run (x ∷ xs) s = run xs (perform x s)

abbrev pub trace : List Event → AsyncBase → List (Call × Outcome)
trace [] s = []
trace (x ∷ xs) s = (call_of x, outcome_of x s) ∷ trace xs (perform x s)

run-Run :
    (xs : List Event) (s : AsyncBase)
    → IsValid s
    → Run AsyncMove (view s) (trace xs s) (view (run xs s))
run-Run [] s v = stop
run-Run (x ∷ xs) s v =
    then (perform-AsyncMove x s v) (run-Run xs (perform x s) (perform-IsValid x s v))

-- Whatever calls and rounds a newly constructed async object sees, in any order, whatever the
-- servers answer and wherever its callers are cancelled, they are a run of the same machine with
-- four moves more, each of which the caller sees as an exception that is no `Exception`: it may
-- leave the state as it was in `acquire` and `enqueue`, and ends a `release` or a `close` free.
pub construct-AsyncRun :
    (c : Config) (dials : List Dial) (cancels : List Bool) {s : AsyncBase} (xs : List Event)
    → construct c dials cancels ≡ ok s
    → Run AsyncMove free (trace xs s) (view (run xs s))
unfolding construct
construct-AsyncRun c dials cancels {s} xs h = elim (Result-cases (post_init c)) [
  | inl (_, q) ↦
      let same : initial c dials cancels ≡ s = ground (arith, h, q) in
      rw⁻¹ same (run-Run xs (initial c dials cancels) (initial-IsValid c dials cancels))
  | inr (e, q) ↦ absurd (ground (arith, h, q))
]
