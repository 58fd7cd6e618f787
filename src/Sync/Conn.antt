-- ===== src/Sync/Conn.antt =====
-- `SyncConn`: one connection, whose only input and output is `command`.
--
-- The peer and the network are data of the state: `inbox` is all that the peer sends before it
-- closes, and `troubles` says how each further command fares at the socket. `command` runs under
-- the connection's mutex, so it is one step.
pub mod Wire
pub mod Reads
use dflockd_client_py.Base.{
  ℕ, zero, suc, ◌+◌, Bool, true, false, Option, none, some, List, [], ◌∷◌, ◌++◌, Str, Bytes, ltb,
  ◌==◌, length, take, if◌then◌else◌,
}
use dflockd_client_py.Text.Utf8.{decode}
use dflockd_client_py.Text.Words.{rstrip_newlines}
use dflockd_client_py.Errors.{
  ErrorClass, interrupt, runtime_error, overflow_error, timeout_too_large, os_error,
  connection_error, timeout_error, server_closed, response_too_large, response_not_utf8,
  connection_lost, Error, raised, Result, ok, err, raise,
}
use dflockd_client_py.Action.{Action}
use dflockd_client_py.Protocol.Validate.{max_response_line_bytes}
use dflockd_client_py.Protocol.Encode.{encode_lines}

-- What a call of the socket can raise: an `OSError`, its deadline, or an interrupt.
pub data Fault : Type 0 where
  broken deadline interrupted : Fault

abbrev pub fault_class : Fault → ErrorClass
fault_class broken = os_error
fault_class deadline = timeout_error
fault_class interrupted = interrupt

-- A command goes through, or `sendall` raises when some bytes are sent, or `readline` raises.
pub data Trouble : Type 0 where
  fine : Trouble
  send_fails : Fault → ℕ → Trouble
  read_fails : Fault → Trouble

pub record SyncConn : Type 0 where
  pub closed : Bool
  -- The socket's timeout, in seconds.
  pub timeout : ℕ
  pub inbox : Bytes
  pub outbox : Bytes
  pub troubles : List Trouble

-- `rfile.readline(n)`: up to `n` bytes, as far as the first newline; and the bytes left.
unfoldable pub readline : ℕ → Bytes → Bytes × Bytes
readline zero bs = ([], bs)
readline (suc n) [] = ([], [])
readline (suc n) (b ∷ bs) =
    let (line, rest) = readline n bs in if b == 10 then (b ∷ [], bs) else (b ∷ line, rest)

unfoldable pub trim_response_line : Bytes → Result Str
trim_response_line raw =
    if ltb max_response_line_bytes (length raw)
    then raise runtime_error response_too_large
    else elim (decode raw) [
      | none ↦ raise runtime_error response_not_utf8
      | some s ↦ ok (rstrip_newlines s)
    ]

-- The test for the end of the stream, and the trimming.
abbrev pub line_of : Bytes → Result Str
line_of [] = raise connection_error server_closed
line_of (b ∷ bs) = trim_response_line (b ∷ bs)

unfoldable pub read_line : Action SyncConn Str
read_line c =
    let (raw, rest) = readline (max_response_line_bytes + 1) c.inbox in
    (line_of raw, record c { inbox = rest })

unfoldable pub close : SyncConn → SyncConn
close c = record c { closed = true }

-- `sendall` and the read, by what the socket does.
unfoldable pub exchange_with : List Trouble → Bytes → Action SyncConn Str
exchange_with [] frame c = read_line (record c { outbox = c.outbox ++ frame })
exchange_with (fine ∷ ts) frame c =
    read_line (record c { outbox = c.outbox ++ frame; troubles = ts })
exchange_with (send_fails f n ∷ ts) frame c = (
  raise (fault_class f) connection_lost,
  record c { outbox = c.outbox ++ take n frame; troubles = ts },
)
exchange_with (read_fails f ∷ ts) frame c =
    (raise (fault_class f) connection_lost, record c { outbox = c.outbox ++ frame; troubles = ts })

-- The most seconds that `settimeout` takes: it keeps nanoseconds in a signed 64-bit integer.
abbrev pub max_socket_timeout_s : ℕ
max_socket_timeout_s = 9223372036

-- The body of the `try`. `settimeout` raises `OverflowError` for a timeout that it cannot keep,
-- and then a closed socket refuses it.
unfoldable pub exchange : Bytes → ℕ → Action SyncConn Str
unfolding exchange_with
exchange frame read_timeout c =
    if ltb max_socket_timeout_s read_timeout
    then (raise overflow_error timeout_too_large, c)
    else if c.closed
    then (raise os_error connection_lost, c)
    else exchange_with c.troubles frame (record c { timeout = read_timeout })

-- `except BaseException: self.close(); raise`
abbrev pub close_on_error : Result Str × SyncConn → Result Str × SyncConn
close_on_error (ok line, c) = (ok line, c)
close_on_error (err e, c) = (err e, close c)

abbrev pub send_frame : Result Bytes → ℕ → Action SyncConn Str
send_frame (err e) read_timeout c = (err e, c)
send_frame (ok frame) read_timeout c = close_on_error (exchange frame read_timeout c)

unfoldable pub command : Str → Str → Str → ℕ → Action SyncConn Str
unfolding exchange read_line close
command cmd key arg read_timeout c = send_frame (encode_lines (cmd ∷ key ∷ arg ∷ [])) read_timeout c
