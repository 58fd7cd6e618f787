-- ===== src/Examples/Bench.antt =====
-- `worker` of examples/bench_sync.py: a thread that acquires and releases a lock again and again on
-- a connection of its own.
--
-- What the clock shows is a parameter: `elapsed` gives the time that a round took, by the number of
-- the rounds before it.
pub mod Ends
pub mod Round
pub mod Completes
use dflockd_client_py.Base.{ℕ, zero, suc, ◌+◌, Option, none, some, List, [], ◌∷◌, ◌++◌, Str, length}
use dflockd_client_py.Base.Int.{pos}
use dflockd_client_py.Errors.{Result, ok, err, raise, index_error, connection_lost}
use dflockd_client_py.Action.{Action, continue, ◌>>=◌, ◌>>◌}
use dflockd_client_py.Protocol.Validate.{Scalar}
use dflockd_client_py.Sync.Conn.{SyncConn, command, close}
use dflockd_client_py.Sync.Commands.{acquire, release}

-- `token, _ = acquire(...)` and `release(...)`
pub bench_round : Str → Scalar → Action SyncConn (Unit {0})
bench_round key timeout_s = do
  granted ← acquire command key timeout_s (some (Scalar.int (pos 10))) [] none
  release command key granted.0 []

-- `results[idx] = latencies`
abbrev cons_result {ℓ} : {A : Type ℓ} → A → Result (List A) → Result (List A)
cons_result a (ok rest) = ok (a ∷ rest)
cons_result a (err e) = err e

pub store {ℓ} : {A : Type ℓ} → List A → ℕ → A → Result (List A)
store [] idx a = raise index_error connection_lost
store (b ∷ bs) zero a = ok (a ∷ bs)
store (b ∷ bs) (suc idx) a = cons_result b (store bs idx a)

-- `finally: conn.close()`
abbrev pub finally_close {ℓ} : {A : Type ℓ} → Result A × SyncConn → Result A × SyncConn
finally_close (r, c) = (r, close c)

-- What a worker leaves: whether it raised, the shared results, and its connection if it got one.
abbrev pub Left : Type 0 → Type 0
Left Latency = Result (Unit {0}) × List (List Latency) × Option SyncConn

abbrev pub stored :
    {Latency : Type 0}
    → List (List Latency)
    → SyncConn
    → Result (List (List Latency))
    → Left Latency
stored results c (err e) = (err e, results, some c)
stored results c (ok changed) = (ok tt, changed, some c)

abbrev pub record_latencies :
    {Latency : Type 0} → ℕ → List (List Latency) → Result (List Latency) × SyncConn → Left Latency
record_latencies idx results (err e, c) = (err e, results, some c)
record_latencies idx results (ok latencies, c) = stored results c (store results idx latencies)

module _ {Latency : Type 0} (elapsed : ℕ → Latency) where
  -- The `for` loop with the latencies so far.
  pub bench_rounds : Str → Scalar → ℕ → List Latency → Action SyncConn (List Latency)
  unfolding bench_round
  bench_rounds key timeout_s zero latencies c = (ok latencies, c)
  bench_rounds key timeout_s (suc rounds) latencies c =
      continue (bench_round key timeout_s c)
        (λ _. bench_rounds key timeout_s rounds (latencies ++ (elapsed (length latencies) ∷ [])))

  -- `socket.create_connection` gives a connection or raises.
  pub worker : Str → ℕ → Scalar → Result SyncConn → List (List Latency) → ℕ → Left Latency
  unfolding bench_rounds store
  worker key rounds timeout_s (err e) results idx = (err e, results, none)
  worker key rounds timeout_s (ok c) results idx =
      record_latencies idx results (finally_close (bench_rounds key timeout_s rounds [] c))
