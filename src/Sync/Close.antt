-- ===== src/Sync/Close.antt =====
-- `_close_unlocked` of one thread, and the rounds of renew threads, step by step and in any order.
--
-- The closing thread holds `_state_lock`. A tick holds `_io_lock` from its tests to the end of its
-- renewal, and the closing thread takes that lock to close the connection.
pub mod Shrinks
pub mod Renewers
pub mod Safe
pub mod Finishes
use dflockd_client_py.Base.{
  ℕ, Bool, true, false, ◌||◌, Option, none, some, List, [], ◌∷◌, Str, ◌==◌, if◌then◌else◌,
}
use dflockd_client_py.Base.Int.{ℤ, pos}
use dflockd_client_py.Errors.{Result, ok, err}
use dflockd_client_py.Sync.Conn.{SyncConn, send_fails, broken}
use dflockd_client_py.Sync.State.{SyncBase, update, set_event, close_conn}
use dflockd_client_py.Sync.Hooks.{proto_renew}
use dflockd_client_py.Sync.Renewal.{settle_renew, end_thread}
use dflockd_client_py.Sync.Renewal.Steps.{
  Place, asleep, answered, unstopped, tested, ended, thread_step,
}

-- `SyncConn.shutdown_read`: the next command fails at the socket. A closed socket refuses the call,
-- which is ignored.
pub shutdown_read : SyncConn → SyncConn
shutdown_read c = if c.closed then c else record c { troubles = send_fails broken 0 ∷ c.troubles }

-- Where the closing thread stands: what it does next.
pub data Closer : Type 0 where
  to_test to_mark to_set to_look : Closer
  to_shut to_close : ℕ → Closer
  to_drop to_join to_clear_token to_clear_lease finished : Closer

-- Where a renew thread stands: it waits for an answer, with `_io_lock`, or it is elsewhere.
pub data Renewer : Type 0 where
  renewing : ℕ → Str → Renewer
  at : Place → Renewer

pub record Scene : Type 0 where
  pub object : SyncBase
  -- Which renew thread holds `_io_lock`.
  pub io_lock : Option ℕ
  pub closer : Closer
  pub renewers : ℕ → Renewer

-- ----- the closing thread

abbrev pub look : Option ℕ → Closer
look none = to_join
look (some i) = to_shut i

-- A join ends when the thread has ended or after 5 seconds, so it may end in any state.
--
-- What it does to the object, unless it has to wait for `_io_lock`, and what comes next.
abbrev pub close_step : Closer → Option ℕ → SyncBase → Closer × SyncBase
close_step to_test held s = if s.closed then (finished, s) else (to_mark, s)
close_step to_mark held s = (to_set, record s { closed = true })
close_step to_set held s = (to_look, set_event s.stop_event s)
close_step to_look held s = (look s.conn, s)
close_step (to_shut i) held s =
    (to_close i, record s { conns = update s.conns i (shutdown_read (s.conns i)) })
close_step (to_close i) none s = (to_drop, close_conn i s)
close_step (to_close i) (some e) s = (to_close i, s)
close_step to_drop held s = (to_join, record s { conn = none })
close_step to_join held s = (to_clear_token, record s { renew_thread = none })
close_step to_clear_token held s = (to_clear_lease, record s { token = none })
close_step to_clear_lease held s = (finished, record s { lease = pos 0 })
close_step finished held s = (finished, s)

-- ----- a renew thread

-- The lock, the thread and the object after a step of the thread.
abbrev pub Moved : Type 0
Moved = Option ℕ × Renewer × SyncBase

abbrev pub gone : Option ℕ → ℕ → SyncBase → Moved
gone held e s = (held, at ended, end_thread e s)

-- `_renew_tick` with the lock, up to its request.
abbrev pub begin_renewal : ℕ → Option ℕ → Option Str → SyncBase → Moved
begin_renewal e none token s = gone none e s
begin_renewal e (some i) none s = gone none e s
begin_renewal e (some i) (some token) s = (some e, renewing i token, s)

abbrev pub begin_tick : ℕ → SyncBase → Moved
begin_tick e s = if s.closed || s.events e then gone none e s else begin_renewal e s.conn s.token s

-- The thread waits while another has the lock.
abbrev pub wake : ℕ → Option ℕ → SyncBase → Moved
wake e none s = begin_tick e s
wake e (some d) s = (some d, at asleep, s)

-- The end of a renewal frees the lock.
abbrev pub end_renewal : ℕ → Result (Option ℤ) × SyncBase → Moved
end_renewal e (err x, s) = gone none e s
end_renewal e (ok none, s) = gone none e s
end_renewal e (ok (some remaining), s) = (none, at (answered remaining), s)

abbrev elsewhere : Option ℕ → Place × SyncBase → Moved
elsewhere held (p, s) = (held, at p, s)

abbrev pub renewer_step : ℕ → Renewer → Option ℕ → SyncBase → Moved
renewer_step e (renewing i token) held s =
    end_renewal e (settle_renew i (proto_renew s.config.kind i token s))
renewer_step e (at asleep) held s = if s.events e then gone held e s else wake e held s
renewer_step e (at (answered z)) held s = elsewhere held (thread_step e (answered z, s))
renewer_step e (at (unstopped z)) held s = elsewhere held (thread_step e (unstopped z, s))
renewer_step e (at (tested z)) held s = elsewhere held (thread_step e (tested z, s))
renewer_step e (at ended) held s = (held, at ended, s)

-- ----- the scene

pub data Turn : Type 0 where
  closing : Turn
  renew_thread : ℕ → Turn

pub take_turn : Turn → Scene → Scene
take_turn closing x =
    let (next, s) = close_step x.closer x.io_lock x.object in record x { object = s; closer = next }
take_turn (renew_thread e) x =
    let (held, next, s) = renewer_step e (x.renewers e) x.io_lock x.object in
    record x { object = s; io_lock = held; renewers = update x.renewers e next }

-- The turns in the order in which the threads get them.
pub play : List Turn → Scene → Scene
unfolding take_turn shutdown_read
play [] x = x
play (t ∷ ts) x = play ts (take_turn t x)
