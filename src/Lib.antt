-- ===== src/Lib.antt =====
-- A model of the dflockd Python client, and theorems about it.
--
-- The client talks to a lock server in lines of text over TCP. src/dflockd_client/_protocol.py
-- checks arguments, builds request frames and decodes response lines, with no input or output.
-- sharding.py picks a server for a key. _sync.py has a connection (SyncConn), the functions that
-- send one command each (acquire, release, renew, enqueue, wait, authenticate, stats), and the
-- objects DistributedLock and DistributedSemaphore, which connect, hold a token and keep the lease
-- alive from a renew thread. _async.py has the same parts on asyncio: AsyncConn on a pair of
-- streams, coroutines in place of functions, and a renew task. errors.py has the exception classes.
--
-- Files:
--   Base, Text       tests, lists, integers, floats; UTF-8, whitespace splitting and decimal
--                    numbers as Python has them
--   Errors, Action   errors.py with the built-in classes that the client raises or catches; results
--                    and state-passing calls
--   Protocol         _protocol.py: Validate (validators), Fence (fence_from_token), Encode (frames,
--                    arguments), Status (status_error), Decode (parse_*_response), Stats
--                    (parse_stats_response)
--   Sharding         sharding.py; Sharding/Crc has zlib.crc32
--   Sync/Conn        SyncConn: command, _read_line, close
--   Sync/Commands    the command functions, over any command
--   Sync/State       the fields of _SyncBase, with the connections and stop events it has created
--   Sync/Hooks       __post_init__, the _proto_* methods, open_conn, _open_and_authenticate
--   Sync/Lifecycle   the methods that acquire, enqueue, wait, release and close
--   Sync/Renewal     one round of _renew_loop, the sequences of calls and rounds, and the steps of
--                    a round (Steps)
--   Sync/Interval    renew_interval; the rounding of doubles is in Base/Rounding
--   Sync/Leak        _warn_if_leaked_conn, which __del__ calls
--   Sync/Grant       an acquire that the server grants, and one with a timeout that is too large for
--                    the socket
--   Sync/Session     a lock that is held under a with statement: renewals and the release
--   Sync/Defaults    a lock with the default fields
--   Sync/Close       _close_unlocked step by step, between the steps of renew threads
--   Sync/Invariant   what holds of an object between calls, and after a with statement
--   Async/           _async.py: Conn, Commands, State, Hooks, Lifecycle, Renewal, Interval, Leak,
--                    Grant and Invariant correspond to those of Sync; Conn/Agree and Commands/Agree
--                    compare the two
--   Machine          an abstract machine of three states, and the objects of both clients as
--                    implementations of it
--   Examples         programs of examples: Servers and Bench (bench_sync.py), Demos
--                    (sync_client_demo.py), TwoPhase (two_phase_demo.py and client_demo.py)
--   Tests            the theorems at concrete values
--
-- A method keeps its name without the leading underscore. A call is a function from a state to a
-- result or an exception and the new state. The exceptions that are no Exception, such as
-- KeyboardInterrupt and asyncio.CancelledError, are one class, and may be raised by any call of the
-- socket or the streams.
--
-- The network is data of the state: for each attempt to connect whether it succeeds (TLS, which
-- ssl_context asks for, included), for each connection all bytes that the peer sends, and for each
-- command whether sending or reading fails and after how many bytes. The sharding strategy of a
-- caller is a function that may raise, and json.loads a function from a payload to a value or an
-- exception. int() reads at most 4300 digits, which is CPython's default limit. settimeout
-- raises OverflowError above 9223372036 seconds, and the timeouts that the client gives it are whole
-- seconds. The CRC is computed bit by bit, and UTF-8 rejects what Python's codec rejects. The
-- decimal print has as fuel one more than the number that is printed, and the count of the bits that
-- rounding drops the number itself, which each step halves; the loop of the renew thread has any
-- fuel, and how much is enough is a theorem.
--
-- A public method holds the state lock, and a command the lock of its connection, so each is one
-- step; a round of the renew loop is a step between two calls. A tick holds the I/O lock, and a call
-- that sends or closes takes it, so a tick that is under way takes effect before that. What is left
-- of a round when a join gives up after 5 seconds is in Sync/Renewal/Stale and Steps, and Sync/Close
-- takes the steps of a close and of renew threads one by one, with the I/O lock as part of the scene.
-- A sequence of steps takes calls and rounds in any order, and rounds of threads whose object has
-- moved on. In the async client the state says at which further awaits of a lock, a task or a closing
-- transport the caller is cancelled; a renew task whose cancellation was requested makes no further
-- round, and a cancellation in the middle of its command is a trouble of that command. A line that is
-- too long for the stream reader is dropped, with what has arrived of it; how much that is depends on
-- the network, but the connection is closed and never read again.
--
-- In Examples the clock of the benchmark, and what happens while a program sleeps, are parameters.
--
-- Not modelled: the passing of time; log lines and what the examples print; the statistics, argument
-- parsers and the start of threads and tasks in the examples; __init__.py, which passes names on.
-- Starting the renew thread or task is taken to succeed.
pub mod Base
pub mod Examples
pub mod Text
pub mod Errors
pub mod Action
pub mod Protocol
pub mod Sharding
pub mod Sync
pub mod Async
pub mod Machine
pub mod Tests
