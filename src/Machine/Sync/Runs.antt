-- ===== src/Machine/Sync/Runs.antt =====
-- Sequences of what happens to a sync object, as runs of the machine.
use dflockd_client_py.Base.{◌≡◌, inl, inr, List, [], ◌∷◌, arith}
use dflockd_client_py.Errors.{ok, Result-cases}
use dflockd_client_py.Sync.State.{Config, Dial}
use dflockd_client_py.Sync.State.{SyncBase, initial}
use dflockd_client_py.Sync.Hooks.{construct, post_init}
use dflockd_client_py.Sync.Renewal.{Event, perform}
use dflockd_client_py.Sync.Invariant.Defs.{IsValid}
use dflockd_client_py.Sync.Invariant.Rounds.{perform-IsValid, initial-IsValid}
use dflockd_client_py.Machine.{free, Call, Outcome, Run, stop, then}
use dflockd_client_py.Machine.Sync.{view, SyncMove, call_of, outcome_of}
use dflockd_client_py.Machine.Sync.Rounds.{perform-SyncMove}

abbrev pub run : List Event → SyncBase → SyncBase
run [] s = s
run (x ∷ xs) s = run xs (perform x s)

abbrev pub trace : List Event → SyncBase → List (Call × Outcome)
trace [] s = []
trace (x ∷ xs) s = (call_of x, outcome_of x s) ∷ trace xs (perform x s)

run-Run :
    (xs : List Event) (s : SyncBase)
    → IsValid s
    → Run SyncMove (view s) (trace xs s) (view (run xs s))
run-Run [] s v = stop
run-Run (x ∷ xs) s v =
    then (perform-SyncMove x s v) (run-Run xs (perform x s) (perform-IsValid x s v))

-- Whatever calls and rounds a newly constructed sync object sees, in any order and whatever the
-- servers answer, they are a run of the machine that begins free, with the outcomes that the
-- callers see: an `acquire` or `enqueue` that is granted and a `wait` that is granted end held
-- and the others free, or waiting if the server queued the caller; a `wait` is granted only from
-- waiting or held; a `release` returns true only from held and ends free unless an exception that
-- is no `Exception` interrupts it, which leaves the state as it was; a round keeps the state or
-- loses what was held.
pub construct-SyncRun :
    (c : Config) (dials : List Dial) {s : SyncBase} (xs : List Event)
    → construct c dials ≡ ok s
    → Run SyncMove free (trace xs s) (view (run xs s))
unfolding construct
construct-SyncRun c dials {s} xs h = elim (Result-cases (post_init c)) [
  | inl (_, q) ↦
      let same : initial c dials ≡ s = ground (arith, h, q) in
      rw⁻¹ same (run-Run xs (initial c dials) (initial-IsValid c dials))
  | inr (e, q) ↦ absurd (ground (arith, h, q))
]
