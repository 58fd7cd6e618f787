-- ===== src/Sync/Renewal/Stale.antt =====
-- The end of a round whose answer comes when the object has gone on without its thread: a `join`
-- gives up after 5 seconds, and the thread goes on by itself.
use dflockd_client_py.Base.{
  ℕ, ◌≡◌, ◌≢◌, inl, inr, refl, true, false, Bool-cases, none, some, List, arith, Option, Str,
}
use dflockd_client_py.Base.Int.{ℤ}
use dflockd_client_py.Errors.{Result, ok, err, exception, is_subclass, class_of}
use dflockd_client_py.Sync.State.{SyncBase, Config, Dial}
use dflockd_client_py.Sync.Hooks.{construct, proto_renew}
use dflockd_client_py.Sync.Renewal.{
  handle_renew_failure, settle_renew, renew_tick, safe_renew_once, after_tick, end_thread, Reach,
  is_conn, loop_round,
}
use dflockd_client_py.Sync.Invariant.Rounds.{construct-IsValid}

-- What the thread with the event `e` does when its renewal on the connection `i` has ended with `r`.
unfoldable pub finish_round : ℕ → ℕ → Result ℤ → SyncBase → SyncBase
finish_round e i r s = after_tick e (settle_renew i (r, s))

is_conn-other : (conn : Option ℕ) (i : ℕ) → conn ≢ some i → is_conn conn i ≡ false
is_conn-other none i h = refl
is_conn-other (some j) i h = ground (arith, h)

stale-end_thread :
    (e i : ℕ) (r : Result ℤ) (s : SyncBase)
    → s.events e ≡ true
    → s.conn ≢ some i
    → finish_round e i r s ≡ end_thread e s
unfolding finish_round handle_renew_failure
stale-end_thread e i (ok z) s set other = rw set refl
stale-end_thread e i (err x) s set other = elim (Bool-cases (is_subclass (class_of x) exception)) [
  | inl known ↦ rw (known, is_conn-other s.conn i other) refl
  | inr unknown ↦ rw unknown refl
]

-- If a sync object was constructed without an exception and any public calls and rounds have
-- followed, and a renewal ends that an earlier renew thread, with another stop event than the
-- current one, made on a connection that the object no longer has, then whatever the renewal
-- returned or raised, the rest of its round changes nothing but that the thread ends.
pub finish_round-end_thread :
    (c : Config) (dials : List Dial) {s t : SyncBase} (e i : ℕ) (r : Result ℤ)
    → construct c dials ≡ ok s
    → Reach s t
    → e ≢ t.stop_event
    → t.conn ≢ some i
    → finish_round e i r t ≡ end_thread e t
finish_round-end_thread c dials {s} {t} e i r h reach late other =
    stale-end_thread e i r t ((construct-IsValid c dials h reach).others_stopped e late) other

-- A round is a tick up to the answer, and this.
round-finish_round :
    (e i : ℕ) (token : Str) (s : SyncBase)
    → s.conn ≡ some i
    → s.token ≡ some token
    → s.closed ≡ false
    → s.events e ≡ false
    → loop_round e s ≡ (let (r, t) = proto_renew s.config.kind i token s in finish_round e i r t)
unfolding loop_round renew_tick safe_renew_once finish_round
round-finish_round e i token s conn held alive unset = simp (unset, alive, conn, held) refl
