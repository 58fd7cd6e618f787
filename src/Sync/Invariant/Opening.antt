-- ===== src/Sync/Invariant/Opening.antt =====
-- The invariant through `_open_and_authenticate`.
use dflockd_client_py.Base.{
  ℕ, ◌<◌, ◌≡◌, ◌≢◌, ◌⊎◌, inl, inr, refl, true, false, Option, none, some, Str, arith, List, [], ◌∷◌,
}
use dflockd_client_py.Base.Int.{pos}
use dflockd_client_py.Errors.{Error, Result, ok, err, Result-cases}
use dflockd_client_py.Action.{continue}
use dflockd_client_py.Protocol.Validate.{Scalar, validate_connect_timeout_s}
use dflockd_client_py.Protocol.Decode.{parse_auth_response}
use dflockd_client_py.Sharding.{Host, validate_server_endpoint}
use dflockd_client_py.Sync.Conn.{SyncConn, close}
use dflockd_client_py.Sync.Commands.{authenticate}
use dflockd_client_py.Sync.State.{
  SyncBase, update, close_conn, command_at, Dial, refused, tls_fails, connected,
}
use dflockd_client_py.Sync.Hooks.{
  close_on_error, open_socket, open_conn, maybe_authenticate, pick_server, open_and_authenticate,
}
use dflockd_client_py.Sync.Invariant.Defs.{IsValid}
use dflockd_client_py.Sync.Invariant.Touch.{Touches, sent, authenticate-Touches}

-- An open object with neither connection nor token.
abbrev pub IsFresh : SyncBase → Type 0
IsFresh s = IsValid s × (s.conn ≡ none) × (s.token ≡ none) × (s.closed ≡ false)

-- The connection `i` has been opened and is not yet the object's.
abbrev IsPending : ℕ → SyncBase → Type 0
IsPending i s =
    (s.conn ≡ none)
    × (s.token ≡ none)
    × (s.closed ≡ false)
    × (i < s.opened)
    × (s.lease ≡ pos 0)
    × ((j : ℕ) → j ≢ i → (s.conns j).closed ≡ true)
    × ((e : ℕ) → e ≢ s.stop_event → s.events e ≡ true)
    × (s.stop_event < s.created)

adopt-IsValid : (i : ℕ) (s : SyncBase) → IsPending i s → IsValid (record s { conn = some i })
adopt-IsValid i s (no_conn, no_token, is_open, opened, lease, others, stopped, created) = record {
  closed_empty = λ h. ground arith;
  closed_stopped = λ h. ground arith;
  held = λ h. ground arith;
  no_lease = λ h. lease;
  token_word = λ t h. ground arith;
  lease_low = λ h. ground arith;
  lease_high = λ h. ground arith;
  others_closed = λ j h. ground (arith, others j);
  others_stopped = stopped;
  event_created = created;
  conn_opened = λ j h. ground arith;
}

abandon-IsValid : (i : ℕ) (s : SyncBase) → IsPending i s → (s.conns i).closed ≡ true → IsFresh s
abandon-IsValid i s (no_conn, no_token, is_open, opened, lease, others, stopped, created) shut = (
  record {
    closed_empty = λ h. no_conn;
    closed_stopped = λ h. ground arith;
    held = λ h. no_token;
    no_lease = λ h. lease;
    token_word = λ t h. ground arith;
    lease_low = λ h. ground arith;
    lease_high = λ h. ground arith;
    others_closed = λ j h. ground (arith, others j);
    others_stopped = stopped;
    event_created = created;
    conn_opened = λ j h. ground arith;
  },
  no_conn,
  no_token,
  is_open,
)

-- A socket was opened and is pending, or nothing was opened.
abbrev Dialled : Result ℕ × SyncBase → Type 0
Dialled x =
    ((i : ℕ) × (x.0 ≡ ok i) × IsPending i x.1 × ((x.1.conns i).closed ≡ false))
    ⊎ ((e : Error) × (x.0 ≡ err e) × IsFresh x.1)

fewer_dials : (ds : List Dial) (s : SyncBase) → IsFresh s → IsFresh (record s { dials = ds })
fewer_dials ds s (v, no_conn, no_token, is_open) = (
  record {
    closed_empty = v.closed_empty;
    closed_stopped = v.closed_stopped;
    held = v.held;
    no_lease = v.no_lease;
    token_word = v.token_word;
    lease_low = v.lease_low;
    lease_high = v.lease_high;
    others_closed = v.others_closed;
    others_stopped = v.others_stopped;
    event_created = v.event_created;
    conn_opened = v.conn_opened;
  },
  no_conn,
  no_token,
  is_open,
)

open_socket-Dialled : (ds : List Dial) (s : SyncBase) → IsFresh s → Dialled (open_socket ds s)
unfolding open_socket
open_socket-Dialled [] s fresh = inr (_, refl, fresh)
open_socket-Dialled (refused f ∷ ds) s fresh = inr (_, refl, fewer_dials ds s fresh)
open_socket-Dialled (tls_fails f ∷ ds) s fresh = inr (_, refl, fewer_dials ds s fresh)
open_socket-Dialled (connected inbox troubles ∷ ds) s (v, no_conn, no_token, is_open) = inl (
  s.opened,
  refl,
  (
    no_conn,
    no_token,
    is_open,
    ground arith,
    v.no_lease no_token,
    (λ j h. ground (arith, v.others_closed j)),
    v.others_stopped,
    v.event_created,
  ),
  ground arith,
)

open_conn-Dialled :
    (host : Host) (port : Scalar) (s : SyncBase) → IsFresh s → Dialled (open_conn host port s)
unfolding open_conn
open_conn-Dialled host port s fresh =
    elim (Result-cases (validate_connect_timeout_s s.config.connect_timeout_s)) [
      | inr (e, q) ↦ rw q (inr (e, refl, fresh))
      | inl (_, q) ↦ elim (Result-cases (validate_server_endpoint host port)) [
        | inr (e, p) ↦ rw (q, p) (inr (e, refl, fresh))
        | inl (_, p) ↦ rw (q, p) (open_socket-Dialled s.dials s fresh)
      ]
    ]

-- The pending connection may be used.
used-IsPending :
    (i : ℕ) (s : SyncBase) (c : SyncConn)
    → IsPending i s
    → IsPending i (record s { conns = update s.conns i c })
used-IsPending i s c (no_conn, no_token, is_open, opened, lease, others, stopped, created) =
    (no_conn, no_token, is_open, opened, lease, (λ j h. ground (arith, others j)), stopped, created)

authenticated-Dialled :
    (i : ℕ) (s : SyncBase) (x : Result (Unit {0}) × SyncBase)
    → IsPending i s
    → (s.conns i).closed ≡ false
    → Touches i s (λ resp op. parse_auth_response resp) x
    → Dialled (close_on_error i x)
authenticated-Dialled i s x p is_open (Touches.refused y q) = rw q (
    inr (
      y,
      refl,
      abandon-IsValid i (close_conn i s) (used-IsPending i s (close (s.conns i)) p)
          (unfold close in ground arith),
    ))
authenticated-Dialled i s (err y, t) p is_open (sent c q f) = rw q (
    inr (
      y,
      refl,
      abandon-IsValid i (close_conn i (record s { conns = update s.conns i c }))
          (used-IsPending i (record s { conns = update s.conns i c })
            (close ((update s.conns i c) i)) (used-IsPending i s c p))
          (unfold close in ground arith),
    ))
authenticated-Dialled i s (ok a, t) p is_open (sent c q f) =
    rw q (inl (i, refl, used-IsPending i s c p, ground (arith, (f a refl).0)))

maybe_authenticate-Dialled :
    (i : ℕ) (auth_token : Option Str) (s : SyncBase)
    → IsPending i s
    → (s.conns i).closed ≡ false
    → Dialled (maybe_authenticate i auth_token s)
unfolding maybe_authenticate
maybe_authenticate-Dialled i none s p is_open = inl (i, refl, p, is_open)
maybe_authenticate-Dialled i (some auth_token) s p is_open =
    authenticated-Dialled i s (authenticate (command_at i) auth_token s) p is_open
      (authenticate-Touches i auth_token s)

-- The object has an open connection, or it is fresh.
abbrev pub Opened : Result (Unit {0}) × SyncBase → Type 0
Opened x =
    ((i : ℕ) × (x.0 ≡ ok tt)
      × IsValid x.1
      × (x.1.conn ≡ some i)
      × ((x.1.conns i).closed ≡ false)
      × (x.1.token ≡ none))
    ⊎ ((e : Error) × (x.0 ≡ err e) × IsFresh x.1)

adopted :
    (x : Result ℕ × SyncBase)
    → Dialled x
    → Opened (continue x (λ i t. (ok tt, record t { conn = some i })))
adopted (r, s) (inl (i, q, p, is_open)) =
    rw q (inl (i, refl, adopt-IsValid i s p, refl, is_open, ground arith))
adopted (r, s) (inr (e, q, fresh)) = rw q (inr (e, refl, fresh))

-- `_open_and_authenticate` on a fresh object.
pub open_and_authenticate-Opened : (s : SyncBase) → IsFresh s → Opened (open_and_authenticate s)
unfolding open_and_authenticate
open_and_authenticate-Opened s fresh = elim (Result-cases (pick_server s.config)) [
  | inr (e, q) ↦ rw q (inr (e, refl, fresh))
  | inl (server, q) ↦ elim (open_conn-Dialled server.0 server.1 s fresh) [
    | inr (e, p, t) ↦ rw (q, p) (inr (e, refl, t))
    | inl (i, p, pending, is_open) ↦
        rw (q, p)
          (adopted (maybe_authenticate i s.config.auth_token (open_conn server.0 server.1 s).1) (
            maybe_authenticate-Dialled i s.config.auth_token (open_conn server.0 server.1 s).1
              pending is_open))
  ]
]
