-- ===== src/Sync/Session/With.antt =====
-- A lock that is held under a `with` statement while its renew thread makes rounds.
use dflockd_client_py.Action.{Action}
use dflockd_client_py.Base.{
  ℕ, ◌≤◌, ◌+◌, ◌≡◌, refl, true, Bool, ◌++◌, List, [], ◌∷◌, Str, Bytes, codes, length, All, ap,
}
use dflockd_client_py.Errors.{Result, ok}
use dflockd_client_py.Text.Words.Laws.{IsWord}
use dflockd_client_py.Protocol.Decode.Grants.{granted_line, IsLease}
use dflockd_client_py.Sync.Conn.Wire.{IsResponse}
use dflockd_client_py.Sync.Conn.{max_socket_timeout_s}
use dflockd_client_py.Sync.Commands.{seconds}
use dflockd_client_py.Sync.State.{Config, Dial, connected, SyncBase}
use dflockd_client_py.Sync.Lifecycle.{acquire_unlocked, release_unlocked, enter, exit, with_lock}
use dflockd_client_py.Sync.Renewal.Ends.{renew_loop}
use dflockd_client_py.Sync.Grant.{IsReady, Granted, acquire_unlocked-Granted}
use dflockd_client_py.Sync.Session.{IsLive, IsHeld}
use dflockd_client_py.Sync.Session.Rows.{Renewal, IsRenewal, answers, frames, renew_loop-IsLive}
use dflockd_client_py.Sync.Session.Release.{GivenUp, release_unlocked-Released}

-- The body of the statement waits while the renew thread makes so many rounds.
abbrev pub rounds : ℕ → Action SyncBase (Unit {0})
rounds n s = (ok tt, renew_loop n s.stop_event s)

-- An acquire that was granted leaves a lock that is held.
Granted-IsLive :
    (c : Config) (i : ℕ) (token : Str) (n : ℕ) (frame rest : Bytes) (x : Result Bool × SyncBase)
    → Granted c i token n frame rest x
    → IsLive c i token frame rest x.1
Granted-IsLive c i token n frame rest x g =
    let (_, held, _, conn, sent, left, _, config, is_open, quiet, armed, running) = g in
    record {
      config = config;
      conn = conn;
      held = held;
      alive = armed.0;
      unset = armed.1;
      runs_renewal = running;
      is_open = is_open;
      outbox = sent;
      inbox = left;
      quiet = quiet;
    }

enter-granted : (s t : SyncBase) → acquire_unlocked s ≡ (ok true, t) → enter s ≡ (ok tt, t)
unfolding enter
enter-granted s t q = rw q refl

exit-released : (s t : SyncBase) → release_unlocked s ≡ (ok true, t) → exit s ≡ (ok tt, t)
unfolding exit
exit-released s t q = rw q refl

-- The statement, from what its calls return.
with_lock-rounds :
    (n : ℕ) (s t u : SyncBase)
    → acquire_unlocked s ≡ (ok true, t)
    → release_unlocked (renew_loop n t.stop_event t) ≡ (ok true, u)
    → with_lock (rounds n) s ≡ (ok tt, u)
unfolding with_lock
with_lock-rounds n s t u got left =
    rw (enter-granted s t got, exit-released (renew_loop n t.stop_event t) u left) refl

pub with_lock-GivenUp :
    (s : SyncBase) (arg frame arg_n renewing releasing : Bytes) (token : Str) (n : ℕ)
    (b b_r rest : Bytes) (xs : List Renewal) (ds : List Dial)
    → IsReady s.config arg frame
    → seconds s.config.acquire_timeout_s + 30 ≤ max_socket_timeout_s
    → IsHeld s.config token arg_n renewing releasing
    → s.dials ≡ connected (b ++ (10 ∷ answers xs (b_r ++ (10 ∷ rest)))) [] ∷ ds
    → IsResponse (granted_line (codes "ok") token n) b
    → IsWord token
    → IsLease n
    → All IsRenewal xs
    → IsResponse (codes "ok") b_r
    → ((with_lock (rounds (length xs)) s).0 ≡ ok tt)
      × GivenUp s.opened
          ((frame ++ frames xs renewing) ++ releasing)
          rest
          (with_lock (rounds (length xs)) s).1
with_lock-GivenUp s arg frame arg_n renewing releasing token n b b_r rest xs ds ready fits held next
      resp word lease all confirmed =
    let given =
      acquire_unlocked-Granted s arg frame token n b (answers xs (b_r ++ (10 ∷ rest))) ds ready fits
        next resp word lease in
    let t : SyncBase = (acquire_unlocked s).1 in
    let live =
      Granted-IsLive s.config s.opened token n frame (answers xs (b_r ++ (10 ∷ rest)))
        (acquire_unlocked s) given in
    let u : SyncBase = renew_loop (length xs) t.stop_event t in
    let (done, ended) =
      release_unlocked-Released s.config s.opened token arg_n renewing releasing b_r rest
        (frame ++ frames xs renewing) u held
        (renew_loop-IsLive s.config s.opened token arg_n renewing releasing xs (b_r ++ (10 ∷ rest))
          frame t.stop_event t held all refl live)
        confirmed in
    rw
      (with_lock-rounds (length xs) s t (release_unlocked u).1 (ap (λ r. (r, t)) given.0)
        (ap (λ r. (r, (release_unlocked u).1)) done))
      (refl, ended)
