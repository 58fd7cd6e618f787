-- ===== src/Tests/Async.antt =====
-- The theorems on the async client and on its agreement with the sync one, at concrete values.
use dflockd_client_py.Base.{
  ◌≡◌, refl, true, false, none, ◌++◌, List, [], ◌∷◌, Bool, codes, arith, some,
}
use dflockd_client_py.Errors.{ok, err, raised, interrupt, cancelled}
use dflockd_client_py.Protocol.Validate.{
  validate_int, validate_seconds_range, validate_timeout_s, validate_lease_ttl_s,
  validate_connect_timeout_s,
}
use dflockd_client_py.Sync.Conn as SyncConn
use dflockd_client_py.Sync.Conn.{SyncConn, Trouble, read_fails, deadline}
use dflockd_client_py.Async.Conn as AsyncConn
use dflockd_client_py.Async.Conn.{AsyncConn}
use dflockd_client_py.Async.State.{AsyncBase, initial, await_point, end_task}
use dflockd_client_py.Async.Hooks.{construct, post_init, post_init_base, validate_renew_ratio}
use dflockd_client_py.Async.Lifecycle.{
  acquire_unlocked, release_unlocked, reset_for_new_attempt, cancel_renew, cancel_and_wait,
}
use dflockd_client_py.Async.Renewal.{Event, perform, step, Reach, here, next}
use dflockd_client_py.Async.Invariant.Defs.{IsValid}
use dflockd_client_py.Async.Invariant.Calls.{AcquireDecided, acquire_unlocked-AcquireDecided}
use dflockd_client_py.Async.Invariant.Ends.{ReleaseCloses, release_unlocked-ReleaseCloses}
use dflockd_client_py.Async.Invariant.Rounds.{construct-Reach-IsValid}
use dflockd_client_py.Async.Grant.{AcquireGranted, acquire_unlocked-AcquireGranted}
use dflockd_client_py.Machine.{free, Run}
use dflockd_client_py.Machine.Async.{view, AsyncMove}
use dflockd_client_py.Machine.Async.Runs.{run, trace, construct-AsyncRun}
use dflockd_client_py.Tests.Object.{
  demo, dials, demo_key, demo_servers, frame, demo-IsReady, grant-IsResponse, token-IsWord,
}

-- ----- one connection

abbrev both : List Trouble
both = Trouble.fine ∷ read_fails deadline ∷ []

abbrev sync_conn : SyncConn
sync_conn = record {
  closed = false;
  timeout = 0;
  inbox = codes "ok t 33" ++ (10 ∷ []);
  outbox = [];
  troubles = both;
}

abbrev async_conn : AsyncConn
async_conn = record {
  closed = false;
  inbox = codes "ok t 33" ++ (10 ∷ []);
  outbox = [];
  troubles = both;
}

-- ----- an object

-- The second wait of a task is cancelled.
abbrev cancels : List Bool
cancels = false ∷ true ∷ []

abbrev pub new : AsyncBase
new = initial demo dials cancels

demo_constructed : construct demo dials cancels ≡ ok new
unfolding construct post_init post_init_base validate_renew_ratio validate_timeout_s
    validate_lease_ttl_s validate_connect_timeout_s validate_int validate_seconds_range
demo_constructed = ground (arith, demo_key, demo_servers)

abbrev held : AsyncBase
held = perform Event.acquire new

abbrev ended : AsyncBase
ended = perform Event.release held

demo_reaches : Reach new ended
demo_reaches = next (next here (step Event.acquire tt refl)) (step Event.release tt refl)

async_construct_example : IsValid ended
async_construct_example = construct-Reach-IsValid demo dials cancels demo_constructed demo_reaches

held-IsValid : IsValid held
held-IsValid =
    construct-Reach-IsValid demo dials cancels demo_constructed
      (next here (step Event.acquire tt refl))

async_acquire_example : AcquireDecided held (acquire_unlocked held)
async_acquire_example = acquire_unlocked-AcquireDecided held held-IsValid

async_release_example : ReleaseCloses (release_unlocked held)
async_release_example = release_unlocked-ReleaseCloses held held-IsValid

abbrev events : List Event
events = Event.acquire ∷ Event.round 0 ∷ Event.wait none ∷ Event.release ∷ Event.close ∷ []

async_run_example : Run AsyncMove free (trace events new) (view (run events new))
async_run_example = construct-AsyncRun demo dials cancels events demo_constructed

-- An acquire that nobody cancels.
abbrev calm : AsyncBase
calm = initial demo dials []

async_grant_example :
    AcquireGranted 0 (codes "t") 33 frame (codes "ok" ++ (10 ∷ [])) (acquire_unlocked calm)
async_grant_example =
    acquire_unlocked-AcquireGranted calm (codes "10") frame (codes "t") 33 (codes "ok t 33")
      (codes "ok" ++ (10 ∷ [])) [] refl demo-IsReady refl grant-IsResponse token-IsWord
      (omega arith, omega arith)

-- A caller that is cancelled while it waits for the end of the old renew task.
abbrev cancelled_caller : AsyncBase
cancelled_caller = record calm {
  conn = some 0;
  token = some (codes "t");
  renew_task = some 0;
  running = 0 ∷ [];
  cancels = true ∷ [];
}

cancelled_acquire_run :
    ((acquire_unlocked cancelled_caller).0 ≡ err (raised interrupt cancelled))
    × ((acquire_unlocked cancelled_caller).1.token ≡ some (codes "t"))
    × ((acquire_unlocked cancelled_caller).1.renew_task ≡ none)
unfolding acquire_unlocked reset_for_new_attempt cancel_renew cancel_and_wait await_point end_task
cancelled_acquire_run = (refl, refl, refl)
