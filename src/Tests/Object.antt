-- ===== src/Tests/Object.antt =====
-- The theorems on a lock object, at concrete states.
use dflockd_client_py.Sync.Conn.Wire.{IsResponse}
use dflockd_client_py.Protocol.Decode.Grants.{granted_line}
use dflockd_client_py.Text.Words.Laws.{IsWord}
use dflockd_client_py.Text.Words.{is_space}
use dflockd_client_py.Text.Decimal.{show_int, show_nat}
use dflockd_client_py.Protocol.Encode.{
  encode_lines, make_acquire_arg, build_acquire_arg, append_optional_int, join_spaces, show_scalar,
}
use dflockd_client_py.Sync.Grant.{IsReady, Granted, acquire_unlocked-Granted}
use dflockd_client_py.Base.{◌≡◌, refl, false, none, ◌++◌, List, [], ◌∷◌, codes, arith, Bytes, some}
use dflockd_client_py.Base.Int.{pos}
use dflockd_client_py.Base.Float.{finite}
use dflockd_client_py.Text.Utf8.{encode}
use dflockd_client_py.Errors.{ok}
use dflockd_client_py.Protocol.Validate.{
  Scalar, Number, validate_key, validate_int, validate_seconds_range, validate_timeout_s,
  validate_lease_ttl_s, validate_connect_timeout_s, encode_text, byte_len, has_newline,
  has_whitespace, check_no_newlines, validate_protocol_line,
}
use dflockd_client_py.Sharding as Sharding
use dflockd_client_py.Sharding.{
  Servers, validate_servers, validate_shard_index, validate_server_endpoint,
}
use dflockd_client_py.Sharding.Laws.{validate_servers_iff}
use dflockd_client_py.Protocol.Validate.Laws.{validate_key_iff}
use dflockd_client_py.Sync.State.{Kind, Config, Dial, SyncBase, initial}
use dflockd_client_py.Sync.Hooks.{
  construct, post_init, post_init_base, validate_renew_ratio, pick_server,
}
use dflockd_client_py.Sync.Lifecycle.{
  acquire_unlocked, enqueue_unlocked, wait_unlocked, release_unlocked, close_unlocked,
}
use dflockd_client_py.Sync.Renewal.Ends.{runs, renew_loop, renew_loop_ends}
use dflockd_client_py.Machine.{free, Run}
use dflockd_client_py.Machine.Sync.{view, SyncMove}
use dflockd_client_py.Machine.Sync.Runs.{run, trace, construct-SyncRun}
use dflockd_client_py.Sync.Leak.{Collected, warn_if_leaked_conn, warn_if_leaked_conn-Collected}
use dflockd_client_py.Sync.Renewal.Stale.{finish_round, finish_round-end_thread}
use dflockd_client_py.Sync.Renewal.{end_thread, Event, perform, step, Reach, here, next}
use dflockd_client_py.Sync.Invariant.Defs.{IsValid}
use dflockd_client_py.Sync.Invariant.Calls.{
  Decided, EnqueueDecided, acquire_unlocked-Decided, enqueue_unlocked-EnqueueDecided,
}
use dflockd_client_py.Sync.Invariant.Ends.{
  WaitDecided, ReleaseDecided, wait_unlocked-WaitDecided, release_unlocked-ReleaseDecided,
}
use dflockd_client_py.Sync.Invariant.Rounds.{initial-IsValid, construct-IsValid}

abbrev pub demo : Config
demo = record {
  kind = Kind.lock;
  key = codes "job";
  acquire_timeout_s = Scalar.int (pos 10);
  lease_ttl_s = none;
  servers =
      Servers.listed
        (Sharding.pair (Sharding.Host.text (codes "127.0.0.1")) (Scalar.int (pos 6388)) ∷ []);
  sharding_strategy = λ key n. ok (Scalar.int (pos 0));
  renew_ratio = finite (pos 1) 1;
  auth_token = none;
  connect_timeout_s = Number.int (pos 10);
}

-- A server that grants a lock for 33 seconds and confirms the release.
abbrev pub dials : List Dial
dials = Dial.connected (codes "ok t 33" ++ (10 ∷ (codes "ok" ++ (10 ∷ [])))) [] ∷ []

abbrev pub new : SyncBase
new = initial demo dials

pub demo_key : validate_key (codes "key") (codes "job") ≡ ok tt
unfolding encode
demo_key =
    (validate_key_iff (codes "key") (codes "job")).1
      (ground arith, ground arith, (codes "job", refl, omega arith))

pub demo_servers : validate_servers demo.servers ≡ ok tt
demo_servers = (validate_servers_iff demo.servers).1 (
  Sharding.pair (Sharding.Host.text (codes "127.0.0.1")) (Scalar.int (pos 6388)) ∷ [],
  refl,
  ground arith,
  ((codes "127.0.0.1", 6388, refl, ground arith, ground arith, omega arith, omega arith), tt),
)

demo_constructed : construct demo dials ≡ ok new
unfolding construct post_init post_init_base validate_renew_ratio validate_timeout_s
    validate_lease_ttl_s validate_connect_timeout_s validate_int validate_seconds_range
demo_constructed = ground (arith, demo_key, demo_servers)

abbrev held : SyncBase
held = perform Event.acquire new

abbrev ended : SyncBase
ended = perform Event.release held

demo_reaches : Reach new ended
demo_reaches = next (next here (step Event.acquire tt refl)) (step Event.release tt refl)

construct_example : IsValid ended
construct_example = construct-IsValid demo dials demo_constructed demo_reaches

acquire_example : Decided (acquire_unlocked new)
acquire_example = acquire_unlocked-Decided new (initial-IsValid demo dials)

enqueue_unlocked_example : EnqueueDecided (enqueue_unlocked new)
enqueue_unlocked_example = enqueue_unlocked-EnqueueDecided new (initial-IsValid demo dials)

abbrev pub after_acquire : SyncBase
after_acquire = (acquire_unlocked new).1

pub after_acquire-IsValid : IsValid after_acquire
after_acquire-IsValid = (acquire_unlocked-Decided new (initial-IsValid demo dials)).0

release_example : ReleaseDecided (release_unlocked after_acquire)
release_example = release_unlocked-ReleaseDecided after_acquire after_acquire-IsValid

wait_example : WaitDecided after_acquire (wait_unlocked none after_acquire)
wait_example = wait_unlocked-WaitDecided none after_acquire after_acquire-IsValid

abbrev pub frame : Bytes
frame = codes "l" ++ (10 ∷ (codes "job" ++ (10 ∷ (codes "10" ++ (10 ∷ [])))))

demo_picked : pick_server demo ≡ ok (Sharding.Host.text (codes "127.0.0.1"), Scalar.int (pos 6388))
unfolding pick_server validate_shard_index
demo_picked = refl

pub demo_endpoint :
    validate_server_endpoint (Sharding.Host.text (codes "127.0.0.1")) (Scalar.int (pos 6388))
    ≡ ok (codes "127.0.0.1", pos 6388)
unfolding validate_server_endpoint has_whitespace
demo_endpoint = ground arith

demo_arg : make_acquire_arg (Scalar.int (pos 10)) none none ≡ ok (codes "10")
unfolding make_acquire_arg build_acquire_arg append_optional_int join_spaces show_scalar show_int
    show_nat validate_timeout_s validate_lease_ttl_s validate_int validate_seconds_range
    validate_protocol_line check_no_newlines has_newline byte_len encode_text encode
demo_arg = refl

demo_frame : encode_lines (codes "l" ∷ codes "job" ∷ codes "10" ∷ []) ≡ ok frame
unfolding encode_lines check_no_newlines has_newline encode_text encode
demo_frame = refl

pub demo-IsReady : IsReady demo (codes "10") frame
unfolding validate_connect_timeout_s
demo-IsReady = record {
  a_lock = refl;
  no_auth = refl;
  key_valid = demo_key;
  arg_built = demo_arg;
  frame_built = demo_frame;
  timeout_valid = ground arith;
  host = Sharding.Host.text (codes "127.0.0.1");
  port = Scalar.int (pos 6388);
  picked = demo_picked;
  address = (codes "127.0.0.1", pos 6388);
  endpoint_valid = demo_endpoint;
}

pub grant-IsResponse : IsResponse (granted_line (codes "ok") (codes "t") 33) (codes "ok t 33")
unfolding show_int show_nat encode
grant-IsResponse = record {
  text = ground arith;
  one_line = ground arith;
  encoded = refl;
  short = omega arith;
}

pub token-IsWord : IsWord (codes "t")
unfolding is_space
token-IsWord = ground arith

acquire_sent_example :
    Granted demo 0 (codes "t") 33 frame (codes "ok" ++ (10 ∷ [])) (acquire_unlocked new)
acquire_sent_example =
    acquire_unlocked-Granted new (codes "10") frame (codes "t") 33 (codes "ok t 33")
      (codes "ok" ++ (10 ∷ [])) [] demo-IsReady (omega arith) refl grant-IsResponse token-IsWord
      (omega arith, omega arith)

-- ----- runs

leak_example : Collected held (warn_if_leaked_conn false held)
leak_example =
    warn_if_leaked_conn-Collected demo dials demo_constructed
      (next here (step Event.acquire tt refl))

abbrev calls : List Event
calls = Event.acquire ∷ Event.round 1 ∷ Event.wait none ∷ Event.release ∷ Event.close ∷ []

run_example : Run SyncMove free (trace calls new) (view (run calls new))
run_example = construct-SyncRun demo dials calls demo_constructed

-- An object that holds, with a renew thread and a server that renews twice.
abbrev pub renewing : SyncBase
renewing = record new {
  conn = some 0;
  token = some (codes "t");
  lease = pos 33;
  renew_thread = some 0;
  conns = λ i. record {
    closed = false;
    timeout = 0;
    inbox = codes "ok 33" ++ (10 ∷ (codes "ok 33" ++ (10 ∷ [])));
    outbox = [];
    troubles = [];
  };
  opened = 1;
  running = 0 ∷ [];
}

renew_loop_example : runs 0 (renew_loop 13 0 renewing) ≡ false
renew_loop_example = renew_loop_ends 13 0 renewing (omega arith)

-- An answer for a connection that a closed object no longer has.
abbrev shut : SyncBase
shut = perform Event.close new

shut_reaches : Reach new shut
shut_reaches = next here (step Event.close tt refl)

shut_fields : (shut.stop_event ≡ 0) × (shut.conn ≡ none)
unfolding perform close_unlocked
shut_fields = (refl, refl)

stale_example : finish_round 1 0 (ok (pos 33)) shut ≡ end_thread 1 shut
stale_example =
    finish_round-end_thread demo dials 1 0 (ok (pos 33)) demo_constructed shut_reaches
      (ground (arith, shut_fields)) (ground (arith, shut_fields))
