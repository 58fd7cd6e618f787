-- ===== src/Examples/Demos.antt =====
-- `demo` and `demo_multi_server` of examples/sync_client_demo.py. What they print is left out.
--
-- What happens while `demo` sleeps is a parameter, and so is the network of each lock.
use dflockd_client_py.Base.{
  ◌≡◌, ◌⊎◌, inl, inr, false, some, List, [], ◌∷◌, Str, codes, arith, All, ◌++◌, All-append,
}
use dflockd_client_py.Base.Int.{pos}
use dflockd_client_py.Errors.{
  Error, Result, ok, err, Result-cases, class_of, is_subclass, exception,
}
use dflockd_client_py.Action.{Action, pure}
use dflockd_client_py.Protocol.Validate.{Scalar}
use dflockd_client_py.Sharding.{Servers, listed, pair, Host}
use dflockd_client_py.Sync.State.{Config, Dial, SyncBase}
use dflockd_client_py.Sync.Hooks.{construct}
use dflockd_client_py.Sync.Lifecycle.{with_lock}
use dflockd_client_py.Sync.Renewal.{here}
use dflockd_client_py.Sync.Defaults.{default_config}
use dflockd_client_py.Sync.Invariant.Defs.{IsValid}
use dflockd_client_py.Sync.Invariant.Closing.{IsEmpty}
use dflockd_client_py.Sync.Invariant.Rounds.{construct-IsValid}
use dflockd_client_py.Sync.Invariant.With.{WithDecided, with_lock-WithDecided}

-- `with DistributedLock(...) as lock:` and its body, with the object afterwards.
with_new : Action SyncBase (Unit {0}) → Result SyncBase → Result (Unit {0}) × List SyncBase
with_new body (err e) = (err e, [])
with_new body (ok s) = let (r, t) = with_lock body s in (r, t ∷ [])

demo : Action SyncBase (Unit {0}) → List Dial → Result (Unit {0}) × List SyncBase
unfolding with_new
demo sleep dials = with_new sleep (
    construct
      (record (default_config (codes "foo")) {
        acquire_timeout_s = Scalar.int (pos 10);
        lease_ttl_s = some (Scalar.int (pos 20));
      })
      dials)

-- The servers of `demo_multi_server`.
abbrev two_servers : Servers
two_servers = listed (
    pair (Host.text (codes "127.0.0.1")) (Scalar.int (pos 6388))
    ∷ pair (Host.text (codes "127.0.0.1")) (Scalar.int (pos 6389))
    ∷ [])

abbrev sharded : Str → Config
sharded key = record (default_config key) {
  acquire_timeout_s = Scalar.int (pos 10);
  servers = two_servers;
}

-- The next iteration of the loop, unless an exception ends it.
abbrev and_then :
    Result (Unit {0}) × List SyncBase
    → Result (Unit {0}) × List SyncBase
    → Result (Unit {0}) × List SyncBase
and_then (err e, objects) rest = (err e, objects)
and_then (ok _, objects) (r, more) = (r, objects ++ more)

-- The loop over the keys, each with the network of its lock.
each_key : List (Str × List Dial) → Result (Unit {0}) × List SyncBase
unfolding with_new
each_key [] = (ok tt, [])
each_key ((key, dials) ∷ keys) =
    let rest = each_key keys in and_then (with_new (pure tt) (construct (sharded key) dials)) rest

demo_multi_server : List Dial → List Dial → List Dial → Result (Unit {0}) × List SyncBase
unfolding each_key
demo_multi_server a b c =
    each_key ((codes "job-a", a) ∷ (codes "job-b", b) ∷ (codes "job-c", c) ∷ [])

-- ----- what they leave

-- The objects are empty, unless an exception that is no `Exception` ended the program.
abbrev pub LeavesEmpty : Result (Unit {0}) × List SyncBase → Type 0
LeavesEmpty (r, objects) =
    All IsEmpty objects ⊎ ((e : Error) × (r ≡ err e) × (is_subclass (class_of e) exception ≡ false))

Decided-LeavesEmpty :
    (body : Action SyncBase (Unit {0})) (s : SyncBase)
    → WithDecided body s (with_lock body s)
    → LeavesEmpty (with_new body (ok s))
unfolding with_new
Decided-LeavesEmpty body s (v, inl (e, got, q, empty)) = inl (empty, tt)
Decided-LeavesEmpty body s (v, inr (t, got, holding, inl (q, empty, closed))) = inl (empty, tt)
Decided-LeavesEmpty body s (v, inr (t, got, holding, inr (e, left, q, other))) = inr (e, q, other)

with_new-LeavesEmpty :
    (body : Action SyncBase (Unit {0})) (c : Config) (dials : List Dial)
    → ((t : SyncBase) → IsValid t → IsValid (body t).1)
    → LeavesEmpty (with_new body (construct c dials))
with_new-LeavesEmpty body c dials keeps = elim (Result-cases (construct c dials)) [
  | inl (s, made) ↦ rw made (
      Decided-LeavesEmpty body s
        (with_lock-WithDecided body s keeps (construct-IsValid c dials made here)))
  | inr (e, failed) ↦ rw failed (unfold with_new in inl tt)
]

and_then-LeavesEmpty :
    (x y : Result (Unit {0}) × List SyncBase)
    → LeavesEmpty x
    → LeavesEmpty y
    → LeavesEmpty (and_then x y)
and_then-LeavesEmpty (err e, xs) y h k = h
and_then-LeavesEmpty (ok _, xs) (r, ys) (inl empty) (inl more) =
    inl (All-append IsEmpty xs ys empty more)
and_then-LeavesEmpty (ok _, xs) (r, ys) (inl empty) (inr other) = inr other
and_then-LeavesEmpty (ok _, xs) (r, ys) (inr (e, q, other)) k = absurd (ground arith)

each_key-LeavesEmpty : (keys : List (Str × List Dial)) → LeavesEmpty (each_key keys)
unfolding each_key
each_key-LeavesEmpty [] = inl tt
each_key-LeavesEmpty ((key, dials) ∷ keys) =
    and_then-LeavesEmpty (with_new (pure tt) (construct (sharded key) dials)) (each_key keys)
      (with_new-LeavesEmpty (pure tt) (sharded key) dials (λ t v. v)) (each_key-LeavesEmpty keys)

-- `demo_multi_server`, and `demo` if what happens during its sleep keeps the invariant, leave every
-- lock that they constructed without connection and token, whatever the servers answer, unless an
-- exception that is no `Exception` ends them.
demos-LeavesEmpty :
    (sleep : Action SyncBase (Unit {0})) (a b c : List Dial)
    → ((t : SyncBase) → IsValid t → IsValid (sleep t).1)
    → LeavesEmpty (demo sleep a) × LeavesEmpty (demo_multi_server a b c)
unfolding demo demo_multi_server
demos-LeavesEmpty sleep a b c keeps = (
  with_new-LeavesEmpty sleep _ a keeps,
  each_key-LeavesEmpty ((codes "job-a", a) ∷ (codes "job-b", b) ∷ (codes "job-c", c) ∷ []),
)
