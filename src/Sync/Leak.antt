-- ===== src/Sync/Leak.antt =====
-- `__del__` of the sync objects: the warning for an object that is collected with a connection.
use dflockd_client_py.Base.{
  ℕ, ◌≡◌, ◌≢◌, ◌⊎◌, inl, inr, refl, Bool, true, false, Option, none, some, List, arith,
  if◌then◌else◌,
}
use dflockd_client_py.Errors.{ok}
use dflockd_client_py.Sync.Conn.{close}
use dflockd_client_py.Sync.State.{SyncBase, Config, Dial, close_conn}
use dflockd_client_py.Sync.Hooks.{construct}
use dflockd_client_py.Sync.Renewal.{Reach}
use dflockd_client_py.Sync.Invariant.Defs.{IsValid}
use dflockd_client_py.Sync.Invariant.Rounds.{construct-IsValid}

-- Whether `warnings.warn` raises is up to the filters of the program; then the `close` after it is
-- skipped, and the exception is dropped.
abbrev warn_and_close : Bool → Option ℕ → SyncBase → Bool × SyncBase
warn_and_close raises none s = (false, s)
warn_and_close raises (some i) s = (true, if raises then s else close_conn i s)

-- Whether it warned, and the state after it.
unfoldable pub warn_if_leaked_conn : Bool → SyncBase → Bool × SyncBase
warn_if_leaked_conn raises s = warn_and_close raises s.conn s

-- A warning exactly for an object with a connection, and all connections are closed.
abbrev pub Collected : SyncBase → Bool × SyncBase → Type 0
Collected s x =
    (((x.0 ≡ true) × (s.conn ≢ none)) ⊎ ((x.0 ≡ false) × (s.conn ≡ none)))
    × ((i : ℕ) → (x.1.conns i).closed ≡ true)

collect-Collected :
    (conn : Option ℕ) (s : SyncBase)
    → s.conn ≡ conn
    → IsValid s
    → Collected s (warn_and_close false conn s)
unfolding close
collect-Collected none s q v = (inr (refl, q), λ i. v.others_closed i (ground (arith, q)))
collect-Collected (some i) s q v = (inl (refl, λ h. cc), λ j. ground (arith, v.others_closed j, q))

-- If an object that was constructed without an exception is collected after any sequence of
-- public calls and rounds of running renew threads, and `warnings.warn` does not raise,
-- `_warn_if_leaked_conn` warns exactly if the object has a connection, and every connection that
-- the object ever opened is closed after it.
pub warn_if_leaked_conn-Collected :
    (c : Config) (dials : List Dial) {s t : SyncBase}
    → construct c dials ≡ ok s
    → Reach s t
    → Collected t (warn_if_leaked_conn false t)
unfolding warn_if_leaked_conn
warn_if_leaked_conn-Collected c dials {s} {t} h r =
    collect-Collected t.conn t refl (construct-IsValid c dials h r)
