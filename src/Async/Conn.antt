-- ===== src/Async/Conn.antt =====
-- `AsyncConn`: one connection on a pair of asyncio streams.
--
-- The peer and the network are data of the state, as those of `SyncConn`. `command` runs under the
-- connection's lock, so it is one step; a cancellation is a trouble of the drain or of the read.
pub mod Lines
pub mod Wire
pub mod Agree
use dflockd_client_py.Base.{
  ℕ, ◌+◌, Bool, true, false, Option, none, some, List, [], ◌∷◌, ◌++◌, Str, Bytes, ltb, ◌==◌, length,
  take, if◌then◌else◌,
}
use dflockd_client_py.Text.Utf8.{decode}
use dflockd_client_py.Text.Words.{rstrip_newlines}
use dflockd_client_py.Errors.{
  runtime_error, connection_error, server_closed, response_too_large, response_not_utf8,
  connection_lost, line_limit_exceeded, Result, ok, err, raise,
}
use dflockd_client_py.Action.{Action}
use dflockd_client_py.Protocol.Validate.{max_response_line_bytes}
use dflockd_client_py.Protocol.Encode.{encode_lines}
use dflockd_client_py.Sync.Conn.{Trouble, fine, send_fails, read_fails, fault_class}

-- `writer.close()` has been called if `closed`.
pub record AsyncConn : Type 0 where
  pub closed : Bool
  pub inbox : Bytes
  pub outbox : Bytes
  pub troubles : List Trouble

-- The bytes before the first newline, and what follows it if there is one.
unfoldable pub cut_line : Bytes → Bytes × Option Bytes
cut_line [] = ([], none)
cut_line (b ∷ bs) =
    let (body, rest) = cut_line bs in if b == 10 then ([], some bs) else (b ∷ body, rest)

-- `reader.readline()` with the limit that `open_conn` sets, by what has been cut: `none` is its
-- `ValueError`, for more bytes than the limit before a newline. These bytes are dropped; how many
-- further ones are, depends on how they arrive, but the connection is closed and never read again.
abbrev within_limit : Bytes × Option Bytes → Option Bytes × Bytes
within_limit (body, none) =
    if ltb max_response_line_bytes (length body) then (none, []) else (some body, [])
within_limit (body, some rest) =
    if ltb max_response_line_bytes (length body)
    then (none, rest)
    else (some (body ++ (10 ∷ [])), rest)

unfoldable pub readline : Bytes → Option Bytes × Bytes
readline bs = within_limit (cut_line bs)

unfoldable pub trim_response_line : Bytes → Result Str
trim_response_line raw =
    if ltb max_response_line_bytes (length raw)
    then raise runtime_error response_too_large
    else elim (decode raw) [
      | none ↦ raise runtime_error response_not_utf8
      | some s ↦ ok (rstrip_newlines s)
    ]

-- The `except ValueError`, the test for the end of the stream, and the trimming.
abbrev line_of : Option Bytes → Result Str
line_of none = raise runtime_error line_limit_exceeded
line_of (some []) = raise connection_error server_closed
line_of (some (b ∷ bs)) = trim_response_line (b ∷ bs)

unfoldable pub read_line : Action AsyncConn Str
read_line c = let (raw, rest) = readline c.inbox in (line_of raw, record c { inbox = rest })

unfoldable pub close_nowait : AsyncConn → AsyncConn
close_nowait c = record c { closed = true }

-- The write, the drain and the read, by what the streams do.
unfoldable pub exchange_with : List Trouble → Bytes → Action AsyncConn Str
exchange_with [] frame c = read_line (record c { outbox = c.outbox ++ frame })
exchange_with (fine ∷ ts) frame c =
    read_line (record c { outbox = c.outbox ++ frame; troubles = ts })
exchange_with (send_fails f n ∷ ts) frame c = (
  raise (fault_class f) connection_lost,
  record c { outbox = c.outbox ++ take n frame; troubles = ts },
)
exchange_with (read_fails f ∷ ts) frame c =
    (raise (fault_class f) connection_lost, record c { outbox = c.outbox ++ frame; troubles = ts })

-- On a closed writer `write` drops the bytes, and `drain` raises `ConnectionResetError`.
unfoldable pub exchange : Bytes → Action AsyncConn Str
unfolding exchange_with
exchange frame c =
    if c.closed
    then (raise connection_error connection_lost, c)
    else exchange_with c.troubles frame c

-- `except BaseException: if write_committed: self.close_nowait(); raise`
abbrev pub close_if_committed : Bool → Result Str × AsyncConn → Result Str × AsyncConn
close_if_committed committed (ok line, c) = (ok line, c)
close_if_committed committed (err e, c) = (err e, if committed then close_nowait c else c)

-- `encode_lines` stands inside the `try`; the write is committed when it returned.
abbrev try_frame : Result Bytes → Action AsyncConn Str
try_frame (err e) c = close_if_committed false (err e, c)
try_frame (ok frame) c = close_if_committed true (exchange frame c)

-- The timeout bounds the drain and the read; that it passes is a trouble.
unfoldable pub command : Str → Str → Str → ℕ → Action AsyncConn Str
unfolding exchange read_line close_nowait
command cmd key arg read_timeout c = try_frame (encode_lines (cmd ∷ key ∷ arg ∷ [])) c
