-- ===== src/Async/Commands/Agree.antt =====
-- The command functions of _async.py against those of _sync.py, each on its own connection.
use dflockd_client_py.Base.{ℕ, Option, Str}
use dflockd_client_py.Errors.{Result}
use dflockd_client_py.Action.{◌>>=◌, ◌>>◌}
use dflockd_client_py.Protocol.Validate.{Scalar}
use dflockd_client_py.Protocol.Stats.{Json}
use dflockd_client_py.Sync.Conn as SyncConn
use dflockd_client_py.Sync.Conn.{SyncConn}
use dflockd_client_py.Sync.Commands as Sync
use dflockd_client_py.Async.Conn as AsyncConn
use dflockd_client_py.Async.Conn.{AsyncConn}
use dflockd_client_py.Async.Conn.Agree.{Agrees}
use dflockd_client_py.Async.Commands as Async

-- Each command function of one client against that of the other: `acquire` and `wait` with the
-- timeout `timeout`, `renew` with the read timeout `t`.
abbrev pub CommandsAgree : Scalar → ℕ → SyncConn → AsyncConn → Type 0
CommandsAgree timeout t c d =
    ((key : Str) (lease : Option Scalar) (prefix : Str) (limit : Option Scalar)
      → Agrees (Sync.acquire SyncConn.command key timeout lease prefix limit c)
          (Async.acquire AsyncConn.command key timeout lease prefix limit d))
    × ((key token : Str) (lease : Option Scalar) (prefix : Str)
        → Agrees (Sync.renew SyncConn.command key token lease prefix t c)
            (Async.renew AsyncConn.command key token lease prefix t d))
    × ((key : Str) (lease : Option Scalar) (prefix : Str) (limit : Option Scalar)
        → Agrees (Sync.enqueue SyncConn.command key lease prefix limit c)
            (Async.enqueue AsyncConn.command key lease prefix limit d))
    × ((key prefix : Str)
        → Agrees (Sync.wait SyncConn.command key timeout prefix c)
            (Async.wait AsyncConn.command key timeout prefix d))
    × ((key token prefix : Str)
        → Agrees (Sync.release SyncConn.command key token prefix c)
            (Async.release AsyncConn.command key token prefix d))
    × ((auth_token : Str)
        → Agrees (Sync.authenticate SyncConn.command auth_token c)
            (Async.authenticate AsyncConn.command auth_token d))
    × ((loads : Str → Result Json)
        → Agrees (Sync.stats SyncConn.command loads c) (Async.stats AsyncConn.command loads d))
