-- ===== src/Examples/Bench/Ends.antt =====
-- What a worker leaves, however it ends.
use dflockd_client_py.Base.{
  ℕ, zero, suc, ◌+◌, ◌<◌, ◌≡◌, ◌≢◌, ◌⊎◌, inl, inr, refl, true, some, List, [], ◌∷◌, ◌++◌, Str,
  length, length-append, get_elem?, arith, ap,
}
use dflockd_client_py.Errors.{Error, Result, ok, err}
use dflockd_client_py.Action.{continue-ok}
use dflockd_client_py.Protocol.Validate.{Scalar}
use dflockd_client_py.Sync.Conn.{SyncConn, close}
use dflockd_client_py.Examples.Bench.{
  bench_round, bench_rounds, store, finally_close, Left, record_latencies, worker,
}

-- The list has the value at the index and is otherwise as before.
abbrev pub Stores {ℓ} : {A : Type ℓ} → List A → ℕ → A → List A → Type ℓ
Stores before idx a after =
    (get_elem? after idx ≡ some a)
    × (length after ≡ length before)
    × ((j : ℕ) → j ≢ idx → get_elem? after j ≡ get_elem? before j)

suc-others {ℓ} :
    {A : Type ℓ} (b : A) (after before : List A) (idx : ℕ)
    → ((j : ℕ) → j ≢ idx → get_elem? after j ≡ get_elem? before j)
    → (j : ℕ) → j ≢ suc idx
    → get_elem? (b ∷ after) j ≡ get_elem? (b ∷ before) j
suc-others b after before idx others zero h = refl
suc-others b after before idx others (suc j) h = others j (λ q. h (ap suc q))

zero-others {ℓ} :
    {A : Type ℓ} (a b : A) (xs : List A) (j : ℕ)
    → j ≢ zero
    → get_elem? (a ∷ xs) j ≡ get_elem? (b ∷ xs) j
zero-others a b xs zero h = absurd (h refl)
zero-others a b xs (suc j) h = refl

pub store-Stores {ℓ} :
    {A : Type ℓ} (xs : List A) (idx : ℕ) (a : A)
    → idx < length xs
    → (ys : List A) × (store xs idx a ≡ ok ys) × Stores xs idx a ys
unfolding store
store-Stores [] idx a lt = absurd (omega (arith, lt))
store-Stores (x ∷ xs) zero a lt = (a ∷ xs, refl, (refl, refl, zero-others a x xs))
store-Stores (x ∷ xs) (suc idx) a lt =
    let (ys, q, (here, same, others)) = store-Stores xs idx a (omega (arith, lt)) in
    (x ∷ ys, rw q refl, (here, ap suc same, suc-others x ys xs idx others))

-- ----- the rounds

module _ {Latency : Type 0} (elapsed : ℕ → Latency) where
  -- A loop that ends without an error has made all its rounds.
  bench_rounds-length :
      (key : Str) (timeout_s : Scalar) (rounds : ℕ) (latencies : List Latency) (c : SyncConn)
      {measured : List Latency}
      → (bench_rounds elapsed key timeout_s rounds latencies c).0 ≡ ok measured
      → length measured ≡ length latencies + rounds
  unfolding bench_rounds
  bench_rounds-length key timeout_s zero latencies c q = ground (arith, q)
  bench_rounds-length key timeout_s (suc rounds) latencies c q =
      let (u, fine, rest) = continue-ok (bench_round key timeout_s c) _ q in
      ground (
        arith,
        bench_rounds-length key timeout_s rounds (latencies ++ (elapsed (length latencies) ∷ []))
            (bench_round key timeout_s c).1 rest,
        length-append latencies (elapsed (length latencies) ∷ []),
      )

  -- How a worker ends that got a connection: it raised and left the results as they were, or it
  -- has stored as many times as it was to make rounds. Its connection is closed in both cases.
  abbrev pub WorkerEnds : ℕ → ℕ → List (List Latency) → Left Latency → Type 0
  WorkerEnds idx rounds results x =
      ((d : SyncConn) × (x.2 ≡ some d) × (d.closed ≡ true))
      × (((e : Error) × (x.0 ≡ err e) × (x.1 ≡ results))
          ⊎ ((x.0 ≡ ok tt)
              × ((latencies : List Latency) × (length latencies ≡ rounds)
                  × Stores results idx latencies x.1)))

  recorded-WorkerEnds :
      (idx rounds : ℕ) (results : List (List Latency)) (x : Result (List Latency) × SyncConn)
      → idx < length results
      → ((measured : List Latency) → x.0 ≡ ok measured → length measured ≡ rounds)
      → WorkerEnds idx rounds results (record_latencies idx results (finally_close x))
  unfolding close
  recorded-WorkerEnds idx rounds results (err e, c) lt all =
      ((close c, refl, refl), inl (e, refl, refl))
  recorded-WorkerEnds idx rounds results (ok measured, c) lt all =
      let (changed, q, stores) = store-Stores results idx measured lt in
      rw q ((close c, refl, refl), inr (refl, (measured, all measured refl, stores)))

  -- However a worker of examples/bench_sync.py with a connection and an index in range ends, its
  -- connection is closed; either it raised and the results are as they were, or as many times as
  -- it was to make rounds are stored at its index, and the other results are as they were.
  pub worker-WorkerEnds :
      (key : Str) (rounds : ℕ) (timeout_s : Scalar) (c : SyncConn) (results : List (List Latency))
      (idx : ℕ)
      → idx < length results
      → WorkerEnds idx rounds results (worker elapsed key rounds timeout_s (ok c) results idx)
  unfolding worker
  worker-WorkerEnds key rounds timeout_s c results idx lt =
      recorded-WorkerEnds idx rounds results (bench_rounds elapsed key timeout_s rounds [] c) lt
        (λ measured q. ground (arith, bench_rounds-length key timeout_s rounds [] c q))
