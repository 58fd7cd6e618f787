-- ===== src/Examples/Bench/Completes.antt =====
-- A worker whose server grants the lock and confirms the release in each of its rounds.
use mathlib.Core.Path.{sym}
use dflockd_client_py.Base.{
  ℕ, zero, suc, ◌+◌, ◌<◌, ◌≡◌, refl, false, true, some, List, [], ◌∷◌, ◌++◌, Str, Bytes, length,
  All, append_assoc, append-nil, ap, ◌∙◌, length-append,
}
use dflockd_client_py.Errors.{Result, ok}
use dflockd_client_py.Protocol.Validate.{Scalar}
use dflockd_client_py.Sync.Conn.{SyncConn, close}
use dflockd_client_py.Sync.Grant.{fresh_conn}
use dflockd_client_py.Examples.Bench.{bench_rounds, finally_close, Left, record_latencies, worker}
use dflockd_client_py.Examples.Bench.Ends.{Stores, store-Stores}
use dflockd_client_py.Examples.Bench.Round.{
  Round, IsRound, IsBench, answers, frames, after, bench_round-after,
}

module _ {Latency : Type 0} (elapsed : ℕ → Latency) where
  -- The times of so many rounds, from one on.
  abbrev pub times : ℕ → ℕ → List Latency
  times k zero = []
  times k (suc n) = elapsed k ∷ times (k + 1) n

  more_times :
      (latencies : List Latency) (n : ℕ)
      → (latencies ++ (elapsed (length latencies) ∷ []))
          ++ times (length (latencies ++ (elapsed (length latencies) ∷ []))) n
        ≡ latencies ++ (elapsed (length latencies) ∷ times (length latencies + 1) n)
  more_times latencies n =
      rw
        (
          length-append latencies (elapsed (length latencies) ∷ []),
          append_assoc latencies (elapsed (length latencies) ∷ []) (times (length latencies + 1) n),
        )
        refl

  abbrev Completed :
      Bytes → List Latency → Bytes → Bytes → Result (List Latency) × SyncConn → Type 0
  Completed sent measured frames rest x =
      (x.0 ≡ ok measured) × (x.1.outbox ≡ sent ++ frames) × (x.1.inbox ≡ rest)

  bench_rounds-Completed :
      (key : Str) (timeout_s : Scalar) (arg : Str) (frame : Bytes) (xs : List Round) (rest : Bytes)
      (latencies : List Latency) (c : SyncConn)
      → IsBench key timeout_s arg frame
      → All (IsRound key) xs
      → c.closed ≡ false
      → c.troubles ≡ []
      → c.inbox ≡ answers xs rest
      → Completed c.outbox
          (latencies ++ times (length latencies) (length xs))
          (frames frame xs)
          rest
          (bench_rounds elapsed key timeout_s (length xs) latencies c)
  unfolding bench_rounds
  bench_rounds-Completed key timeout_s arg frame [] rest latencies c ready all is_open quiet sent =
      (ap ok (sym (append-nil latencies)), sym (append-nil c.outbox), sent)
  bench_rounds-Completed key timeout_s arg frame (x ∷ xs) rest latencies c ready all is_open quiet
        sent =
      let (result, written, left) =
        bench_rounds-Completed key timeout_s arg frame xs rest
          (latencies ++ (elapsed (length latencies) ∷ [])) (after frame x (answers xs rest) c) ready
          all.1 is_open quiet refl in
      rw
        (bench_round-after key timeout_s arg frame x (answers xs rest) c ready all.0 is_open quiet
          sent)
        (
          result ∙ ap ok (more_times latencies (length xs)),
          written
              ∙ append_assoc (c.outbox ++ frame) x.releasing (frames frame xs)
              ∙ append_assoc c.outbox frame (x.releasing ++ frames frame xs),
          left,
        )

  -- What a worker leaves that completed: the times of its rounds are stored, exactly its frames
  -- were sent, and the connection is closed.
  abbrev pub WorkerCompletes :
      ℕ → List (List Latency) → List Latency → Bytes → Bytes → Left Latency → Type 0
  WorkerCompletes idx results measured sent rest x =
      (x.0 ≡ ok tt)
      × Stores results idx measured x.1
      × ((d : SyncConn) × (x.2 ≡ some d) × (d.closed ≡ true) × (d.outbox ≡ sent) × (d.inbox ≡ rest))

  recorded-WorkerCompletes :
      (idx : ℕ) (results : List (List Latency)) (measured : List Latency) (sent rest : Bytes)
      (x : Result (List Latency) × SyncConn)
      → idx < length results
      → Completed [] measured sent rest x
      → WorkerCompletes idx results measured sent rest
          (record_latencies idx results (finally_close x))
  unfolding close
  recorded-WorkerCompletes idx results measured sent rest (r, c) lt (result, written, left) =
      let (changed, q, stores) = store-Stores results idx measured lt in
      rw (result, q) (refl, stores, (close c, refl, refl, written, left))

  -- A worker of examples/bench_sync.py with a fresh connection on which the server grants and
  -- confirms all its rounds, with valid tokens and lease times in lines of allowed length, and
  -- with a timeout that is at least 30 seconds below the most that `settimeout` takes, 9223372036
  -- seconds, sends exactly the frames of an acquire and a release for each round in turn, leaves
  -- unread what the server sent after them, stores the times of its rounds, in their order, at
  -- its index, which is in range, and at no other, and closes the connection.
  pub worker-WorkerCompletes :
      (key : Str) (timeout_s : Scalar) (arg : Str) (frame : Bytes) (xs : List Round) (rest : Bytes)
      (results : List (List Latency)) (idx : ℕ)
      → IsBench key timeout_s arg frame
      → All (IsRound key) xs
      → idx < length results
      → WorkerCompletes idx results
          (times 0 (length xs))
          (frames frame xs)
          rest
          (worker elapsed key (length xs) timeout_s (ok (fresh_conn (answers xs rest))) results idx)
  unfolding worker
  worker-WorkerCompletes key timeout_s arg frame xs rest results idx ready all lt =
      recorded-WorkerCompletes idx results (times 0 (length xs)) (frames frame xs) rest _ lt (
        bench_rounds-Completed key timeout_s arg frame xs rest [] (fresh_conn (answers xs rest))
          ready all refl refl refl)
