-- ===== src/Async/Leak.antt =====
-- `__del__` of the async objects: the warning for an object that is collected with a connection.
use dflockd_client_py.Base.{
  ℕ, ◌≡◌, ◌≢◌, ◌⊎◌, inl, inr, refl, Bool, true, false, Option, none, some, List, arith,
  if◌then◌else◌,
}
use dflockd_client_py.Errors.{ok}
use dflockd_client_py.Sync.State.{Config, Dial}
use dflockd_client_py.Async.Conn.{close_nowait}
use dflockd_client_py.Async.State.{AsyncBase, close_conn_nowait}
use dflockd_client_py.Async.Hooks.{construct}
use dflockd_client_py.Async.Renewal.{Reach}
use dflockd_client_py.Async.Invariant.Defs.{IsValid}
use dflockd_client_py.Async.Invariant.Rounds.{construct-Reach-IsValid}

-- Whether `warnings.warn` raises is up to the filters of the program; then the `close` after it is
-- skipped, and the exception is dropped.
abbrev warn_and_close : Bool → Option ℕ → AsyncBase → Bool × AsyncBase
warn_and_close raises none s = (false, s)
warn_and_close raises (some i) s = (true, if raises then s else close_conn_nowait i s)

-- Whether it warned, and the state after it.
unfoldable pub warn_if_leaked_conn : Bool → AsyncBase → Bool × AsyncBase
warn_if_leaked_conn raises s = warn_and_close raises s.conn s

-- A warning exactly for an object with a connection, and all connections are closed.
abbrev pub Collected : AsyncBase → Bool × AsyncBase → Type 0
Collected s x =
    (((x.0 ≡ true) × (s.conn ≢ none)) ⊎ ((x.0 ≡ false) × (s.conn ≡ none)))
    × ((i : ℕ) → (x.1.conns i).closed ≡ true)

collect-Collected :
    (conn : Option ℕ) (s : AsyncBase)
    → s.conn ≡ conn
    → IsValid s
    → Collected s (warn_and_close false conn s)
unfolding close_nowait
collect-Collected none s q v = (inr (refl, q), λ i. v.others_closed i (ground (arith, q)))
collect-Collected (some i) s q v = (inl (refl, λ h. cc), λ j. ground (arith, v.others_closed j, q))

pub warn_if_leaked_conn-Collected :
    (c : Config) (dials : List Dial) (cancels : List Bool) {s t : AsyncBase}
    → construct c dials cancels ≡ ok s
    → Reach s t
    → Collected t (warn_if_leaked_conn false t)
unfolding warn_if_leaked_conn
warn_if_leaked_conn-Collected c dials cancels {s} {t} h r =
    collect-Collected t.conn t refl (construct-Reach-IsValid c dials cancels h r)
