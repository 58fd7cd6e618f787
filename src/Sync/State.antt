-- ===== src/Sync/State.antt =====
-- The fields of `_SyncBase`, with the connections and events that it has created.
--
-- A connection and a stop event are named by the order of their creation. `dials` says how the
-- further attempts to connect fare.
use dflockd_client_py.Base.{
  ℕ, Bool, true, false, Option, none, List, [], Str, Bytes, ◌==◌, if◌then◌else◌, ◌∷◌,
}
use dflockd_client_py.Base.Int.{ℤ, pos}
use dflockd_client_py.Base.Float.{Float}
use dflockd_client_py.Errors.{Result}
use dflockd_client_py.Action.{Action}
use dflockd_client_py.Protocol.Validate.{Scalar, Number}
use dflockd_client_py.Sharding.{Servers}
use dflockd_client_py.Sync.Conn.{SyncConn, Trouble, Fault, close, command}

-- Which subclass the object is of, with the limit that `DistributedSemaphore` has.
pub data Kind : Type 0 where
  lock : Kind
  semaphore : Scalar → Kind

-- The fields that the caller gives. The strategy is the caller's function, and may raise.
pub record Config : Type 0 where
  pub kind : Kind
  pub key : Str
  pub acquire_timeout_s : Scalar
  pub lease_ttl_s : Option Scalar
  pub servers : Servers
  pub sharding_strategy : Str → ℕ → Result Scalar
  pub renew_ratio : Float
  pub auth_token : Option Str
  pub connect_timeout_s : Number

-- An attempt to connect fails, or the TLS handshake on the open socket fails, or it succeeds with
-- a peer that sends the bytes and with the troubles of the commands.
pub data Dial : Type 0 where
  refused : Fault → Dial
  tls_fails : Fault → Dial
  connected : Bytes → List Trouble → Dial

pub record SyncBase : Type 0 where
  pub config : Config
  pub conn : Option ℕ
  pub token : Option Str
  pub lease : ℤ
  -- The stop event that the renew thread was given, if there is a thread.
  pub renew_thread : Option ℕ
  pub stop_event : ℕ
  pub closed : Bool
  -- The connections by name, how many were opened, and the attempts to come.
  pub conns : ℕ → SyncConn
  pub opened : ℕ
  pub dials : List Dial
  -- Whether an event is set, and how many events there are.
  pub events : ℕ → Bool
  pub created : ℕ
  -- The renew threads that have not ended, by their stop events.
  pub running : List ℕ

abbrev pub update {ℓ} : {A : Type ℓ} → (ℕ → A) → ℕ → A → ℕ → A
update f i a j = if i == j then a else f j

-- A list of names without one of them.
abbrev pub without : ℕ → List ℕ → List ℕ
without e [] = []
without e (d ∷ ds) = let rest = without e ds in if d == e then rest else d ∷ rest

-- `event.set()`
abbrev pub set_event : ℕ → SyncBase → SyncBase
set_event e s = record s { events = update s.events e true }

-- `conn.close()`
abbrev pub close_conn : ℕ → SyncBase → SyncBase
close_conn i s = record s { conns = update s.conns i (close (s.conns i)) }

-- `conn.command(...)`
unfoldable pub command_at : ℕ → Str → Str → Str → ℕ → Action SyncBase Str
command_at i cmd key arg read_timeout s =
    let (r, c) = command cmd key arg read_timeout (s.conns i) in
    (r, record s { conns = update s.conns i c })

-- The object before its first call.
abbrev pub initial : Config → List Dial → SyncBase
initial config dials = record {
  config = config;
  conn = none;
  token = none;
  lease = pos 0;
  renew_thread = none;
  stop_event = 0;
  closed = false;
  conns = λ i. record { closed = true; timeout = 0; inbox = []; outbox = []; troubles = [] };
  opened = 0;
  dials = dials;
  events = λ e. if e == 0 then false else true;
  created = 1;
  running = [];
}
