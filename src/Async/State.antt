-- ===== src/Async/State.antt =====
-- The fields of `_AsyncBase`, with the connections and renew tasks that it has created.
--
-- A connection and a task are named by the order of their creation. `dials` says how the further
-- attempts to connect fare, and `cancels` at which further waits for a task, a lock or a closing
-- transport the calling task is cancelled.
use dflockd_client_py.Base.{ℕ, Bool, true, false, Option, none, List, [], ◌∷◌, Str}
use dflockd_client_py.Base.Int.{ℤ, pos}
use dflockd_client_py.Errors.{interrupt, cancelled, ok, raise}
use dflockd_client_py.Action.{Action}
use dflockd_client_py.Sync.State.{Config, Dial, update, without}
use dflockd_client_py.Async.Conn.{AsyncConn, close_nowait, command}

pub record AsyncBase : Type 0 where
  pub config : Config
  pub conn : Option ℕ
  pub token : Option Str
  pub lease : ℤ
  pub renew_task : Option ℕ
  pub closed : Bool
  -- The connections by name, how many were opened, and the attempts to come.
  pub conns : ℕ → AsyncConn
  pub opened : ℕ
  pub dials : List Dial
  -- How many tasks were started, and those that neither ended nor were cancelled.
  pub started : ℕ
  pub running : List ℕ
  pub cancels : List Bool

-- An await at which the caller may be cancelled.
abbrev pub wait_at : List Bool → Action AsyncBase (Unit {0})
wait_at [] s = (ok tt, s)
wait_at (false ∷ rest) s = (ok tt, record s { cancels = rest })
wait_at (true ∷ rest) s = (raise interrupt cancelled, record s { cancels = rest })

unfoldable pub await_point : Action AsyncBase (Unit {0})
await_point s = wait_at s.cancels s

-- `conn.close_nowait()`
abbrev pub close_conn_nowait : ℕ → AsyncBase → AsyncBase
close_conn_nowait i s = record s { conns = update s.conns i (close_nowait (s.conns i)) }

-- `await conn.close()`: only a cancellation passes its `suppress`.
unfoldable pub close_conn : ℕ → Action AsyncBase (Unit {0})
unfolding await_point
close_conn i s = await_point (close_conn_nowait i s)

-- `await conn.command(...)`
unfoldable pub command_at : ℕ → Str → Str → Str → ℕ → Action AsyncBase Str
command_at i cmd key arg read_timeout s =
    let (r, c) = command cmd key arg read_timeout (s.conns i) in
    (r, record s { conns = update s.conns i c })

-- The task no longer runs: it ended, or its next await raises `CancelledError`, which ends it.
unfoldable pub end_task : ℕ → AsyncBase → AsyncBase
end_task e s = record s { running = without e s.running }

-- The object before its first call.
abbrev pub initial : Config → List Dial → List Bool → AsyncBase
initial config dials cancels = record {
  config = config;
  conn = none;
  token = none;
  lease = pos 0;
  renew_task = none;
  closed = false;
  conns = λ i. record { closed = true; inbox = []; outbox = []; troubles = [] };
  opened = 0;
  dials = dials;
  started = 0;
  running = [];
  cancels = cancels;
}
