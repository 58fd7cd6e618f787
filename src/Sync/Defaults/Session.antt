-- ===== src/Sync/Defaults/Session.antt =====
-- A lock with default fields under a `with` statement.
use dflockd_client_py.Base.{
  ℕ, ◌≡◌, refl, List, [], ◌∷◌, ◌++◌, Str, Bytes, codes, All, length, arith,
}
use dflockd_client_py.Errors.{ok}
use dflockd_client_py.Text.Words.Laws.{IsWord}
use dflockd_client_py.Protocol.Validate.{validate_key, validate_token}
use dflockd_client_py.Protocol.Encode.{encode_lines}
use dflockd_client_py.Protocol.Decode.Grants.{granted_line, IsLease}
use dflockd_client_py.Sync.Conn.Wire.{IsResponse}
use dflockd_client_py.Sync.State.{Dial, connected, SyncBase, initial}
use dflockd_client_py.Sync.Hooks.{construct}
use dflockd_client_py.Sync.Lifecycle.{with_lock}
use dflockd_client_py.Sync.Session.Rows.{Renewal, IsRenewal, answers, frames}
use dflockd_client_py.Sync.Session.Release.{GivenUp}
use dflockd_client_py.Sync.Session.With.{rounds, with_lock-GivenUp}
use dflockd_client_py.Sync.Defaults.{
  default_config, default_config-constructed, default_config-IsReady, default_config-IsHeld,
}

-- The lock is constructed with the key, and a `with` statement on it ends without an exception,
-- with the frames of an acquire, of as many renewals as there are answers and of a release sent on
-- its one connection, and with the lock given up.
abbrev pub Completes : Str → Str → List Dial → List Renewal → Bytes → Type 0
Completes key token dials xs rest =
    (s : SyncBase) × (frame : Bytes) × (renewing : Bytes) × (releasing : Bytes) × (construct
        (default_config key) dials
      ≡ ok s)
    × (encode_lines (codes "l" ∷ key ∷ codes "10" ∷ []) ≡ ok frame)
    × (encode_lines (codes "n" ∷ key ∷ token ∷ []) ≡ ok renewing)
    × (encode_lines (codes "r" ∷ key ∷ token ∷ []) ≡ ok releasing)
    × ((with_lock (rounds (length xs)) s).0 ≡ ok tt)
    × GivenUp 0 ((frame ++ frames xs renewing) ++ releasing) rest
        (with_lock (rounds (length xs)) s).1

-- For every key that `validate_key` accepts, a lock that is constructed with the key alone and is
-- held under a `with` statement while its renew thread makes as many rounds as the server answers
-- renewals ends without an exception, if the connection succeeds without trouble and the server
-- grants a valid token without whitespace and a lease time from 1 to the limit of the protocol,
-- then answers each renewal with a time up to that limit and the release with `ok`, in lines of
-- allowed length: exactly the frames of one acquire, of these renewals and of one release were
-- sent in this order on the lock's one connection, which is closed, what the server sent after
-- its answers is unread, and the object is closed with neither connection nor token, its lease
-- time 0 and its stop event set.
pub default_lock-Completes :
    (key token : Str) (n : ℕ) (b b_r rest : Bytes) (xs : List Renewal) (ds : List Dial)
    → validate_key (codes "key") key ≡ ok tt
    → validate_token token ≡ ok tt
    → IsWord token
    → IsLease n
    → IsResponse (granted_line (codes "ok") token n) b
    → All IsRenewal xs
    → IsResponse (codes "ok") b_r
    → Completes key token (connected (b ++ (10 ∷ answers xs (b_r ++ (10 ∷ rest)))) [] ∷ ds) xs rest
unfolding default_config
default_lock-Completes key token n b b_r rest xs ds valid token_valid word lease resp all
      confirmed =
    let (frame, ready) = default_config-IsReady key valid in
    let (renewing, releasing, held) = default_config-IsHeld key token valid token_valid in
    let dials : List Dial = connected (b ++ (10 ∷ answers xs (b_r ++ (10 ∷ rest)))) [] ∷ ds in
    let (done, given_up) =
      with_lock-GivenUp (initial (default_config key) dials) (codes "10") frame token renewing
        releasing token n b b_r rest xs ds ready (omega arith) held refl resp word lease all
        confirmed in
    (
      initial (default_config key) dials,
      frame,
      renewing,
      releasing,
      default_config-constructed key dials valid,
      ready.frame_built,
      held.renewing_built,
      held.releasing_built,
      done,
      given_up,
    )
