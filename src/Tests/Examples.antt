-- ===== src/Tests/Examples.antt =====
-- The theorems on the example programs, at concrete values.
use dflockd_client_py.Base.{ℕ, ◌≡◌, refl, none, some, ◌++◌, [], ◌∷◌, Bytes, codes, arith, map}
use dflockd_client_py.Base.Int.{pos}
use dflockd_client_py.Errors.{ok}
use dflockd_client_py.Action.{Action}
use dflockd_client_py.Text.Utf8.{encode}
use dflockd_client_py.Text.Decimal.{show_int, show_nat}
use dflockd_client_py.Protocol.Validate.{
  Scalar, validate_int, validate_seconds_range, validate_timeout_s, validate_lease_ttl_s,
  encode_text, byte_len, has_newline, check_no_newlines, validate_protocol_line,
}
use dflockd_client_py.Protocol.Encode.{
  encode_lines, make_acquire_arg, build_acquire_arg, append_optional_int, join_spaces, show_scalar,
}
use dflockd_client_py.Sync.Grant.{fresh_conn}
use dflockd_client_py.Async.State.{AsyncBase, initial}
use dflockd_client_py.Async.Invariant.Rounds.{initial-IsValid}
use dflockd_client_py.Examples.Servers.{parse_servers}
use dflockd_client_py.Examples.Servers.RoundTrip.{servers_text, parsed, parse_servers-servers_text}
use dflockd_client_py.Examples.Bench.{worker}
use dflockd_client_py.Examples.Bench.Ends.{WorkerEnds, worker-WorkerEnds}
use dflockd_client_py.Examples.Bench.Round.{Round, IsRound, IsBench, answers, frames}
use dflockd_client_py.Examples.Bench.Completes.{times, WorkerCompletes, worker-WorkerCompletes}
use dflockd_client_py.Examples.TwoPhase.{demo_two_phase, two_phase_worker}
use dflockd_client_py.Examples.TwoPhase.Ends.{Empties, two_phase-Empties}
use dflockd_client_py.Tests.Object.{demo, dials, demo_key, grant-IsResponse, token-IsWord}
use dflockd_client_py.Tests.Session.{ok-IsResponse, demo_token}

-- A host with colons.
parse_servers_example :
    parse_servers (servers_text (codes "::1", 6388) ((codes "a.example", 6389) ∷ []))
    ≡ ok (map parsed ((codes "::1", 6388) ∷ (codes "a.example", 6389) ∷ []))
parse_servers_example =
    parse_servers-servers_text (codes "::1", 6388) ((codes "a.example", 6389) ∷ [])
      (ground arith, omega arith) ((ground arith, omega arith), tt)

-- ----- the benchmark

abbrev elapsed : ℕ → ℕ
elapsed k = k

abbrev ten : Scalar
ten = Scalar.int (pos 10)

-- A server that closes at once.
bench_failed_example :
    WorkerEnds elapsed 0 2
      ([] ∷ [])
      (worker elapsed (codes "job") 2 ten (ok (fresh_conn [])) ([] ∷ []) 0)
bench_failed_example =
    worker-WorkerEnds elapsed (codes "job") 2 ten (fresh_conn []) ([] ∷ []) 0 (omega arith)

abbrev frame : Bytes
frame = codes "l" ++ (10 ∷ (codes "job" ++ (10 ∷ (codes "10 10" ++ (10 ∷ [])))))

bench_arg : make_acquire_arg ten none (some ten) ≡ ok (codes "10 10")
unfolding make_acquire_arg build_acquire_arg append_optional_int join_spaces show_scalar show_int
    show_nat validate_timeout_s validate_lease_ttl_s validate_int validate_seconds_range
    validate_protocol_line check_no_newlines has_newline byte_len encode_text encode
bench_arg = refl

bench_frame : encode_lines (codes "l" ∷ codes "job" ∷ codes "10 10" ∷ []) ≡ ok frame
unfolding encode_lines check_no_newlines has_newline encode_text encode
bench_frame = refl

ready-IsBench : IsBench (codes "job") ten (codes "10 10") frame
ready-IsBench = record {
  key_valid = demo_key;
  arg_built = bench_arg;
  frame_built = bench_frame;
  timeout_fits = omega arith;
}

abbrev one : Round
one = record {
  token = codes "t";
  lease = 33;
  granting = codes "ok t 33";
  confirming = codes "ok";
  releasing = codes "r" ++ (10 ∷ (codes "job" ++ (10 ∷ (codes "t" ++ (10 ∷ [])))));
}

release_frame : encode_lines (codes "r" ∷ codes "job" ∷ codes "t" ∷ []) ≡ ok one.releasing
unfolding encode_lines check_no_newlines has_newline encode_text encode
release_frame = refl

one-IsRound : IsRound (codes "job") one
one-IsRound = record {
  granted = grant-IsResponse;
  confirmed = ok-IsResponse;
  word = token-IsWord;
  in_range = (omega arith, omega arith);
  token_valid = demo_token;
  frame_built = release_frame;
}

bench_worker_example :
    WorkerCompletes elapsed 0 ([] ∷ []) (times elapsed 0 2) (frames frame (one ∷ one ∷ [])) [] (
      worker elapsed
        (codes "job")
        2
        ten
        (ok (fresh_conn (answers (one ∷ one ∷ []) [])))
        ([] ∷ [])
        0)
bench_worker_example =
    worker-WorkerCompletes elapsed (codes "job") ten (codes "10 10") frame (one ∷ one ∷ []) []
      ([] ∷ []) 0 ready-IsBench (one-IsRound, (one-IsRound, tt)) (omega arith)

-- ----- enqueue first

abbrev sleep : Action AsyncBase (Unit {0})
sleep s = (ok tt, s)

two_phase_example :
    Empties (demo_two_phase sleep (initial demo dials []))
    × Empties (two_phase_worker sleep (initial demo dials []))
two_phase_example =
    two_phase-Empties sleep (λ t v. v) (λ t. refl) (initial demo dials [])
      (initial-IsValid demo dials []) refl
