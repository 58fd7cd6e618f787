-- ===== src/Async/Invariant/Opening.antt =====
-- The invariant through the async `_open_and_authenticate`.
use dflockd_client_py.Base.{
  ℕ, ◌<◌, ◌≡◌, ◌≢◌, ◌⊎◌, inl, inr, refl, true, false, none, some, arith, List, [], ◌∷◌, Option, Str,
  Bool, any, ◌==◌,
}
use dflockd_client_py.Base.Int.{pos}
use dflockd_client_py.Errors.{Error, Result, ok, err, Result-cases}
use dflockd_client_py.Action.{continue}
use dflockd_client_py.Protocol.Validate.{Scalar, validate_connect_timeout_s}
use dflockd_client_py.Protocol.Decode.{parse_auth_response}
use dflockd_client_py.Sharding.{Host, validate_server_endpoint}
use dflockd_client_py.Sync.State.{update, Dial, refused, tls_fails, connected}
use dflockd_client_py.Async.Conn.{AsyncConn, close_nowait}
use dflockd_client_py.Async.Commands.{authenticate}
use dflockd_client_py.Async.State.{
  AsyncBase, close_conn, close_conn_nowait, await_point, command_at,
}
use dflockd_client_py.Async.Hooks.{
  close_on_error, open_connection, open_conn, maybe_authenticate, pick_server,
  open_and_authenticate,
}
use dflockd_client_py.Async.Invariant.Defs.{IsValid}
use dflockd_client_py.Async.Invariant.Closing.{await_point-Awaited}
use dflockd_client_py.Async.Invariant.Touch.{Touches, sent, authenticate-Touches}

-- An open object with neither connection nor token nor renew task.
abbrev pub IsFresh : AsyncBase → Type 0
IsFresh s =
    IsValid s × (s.conn ≡ none) × (s.token ≡ none) × (s.closed ≡ false) × (s.renew_task ≡ none)

-- The connection `i` has been opened and is not yet the object's.
record IsPending (i : ℕ) (s : AsyncBase) : Type 0 where
  no_conn : s.conn ≡ none
  no_token : s.token ≡ none
  is_open : s.closed ≡ false
  zero_lease : s.lease ≡ pos 0
  no_task : s.renew_task ≡ none
  quiet : (e : ℕ) → any (λ d. d == e) s.running ≢ true
  opened : i < s.opened
  others : (j : ℕ) → j ≢ i → (s.conns j).closed ≡ true

adopt-IsValid : (i : ℕ) (s : AsyncBase) → IsPending i s → IsValid (record s { conn = some i })
adopt-IsValid i s p = record {
  closed_empty = λ h. ground (arith, p.is_open);
  closed_stopped = λ h. p.no_task;
  held = λ h. p.no_token;
  no_lease = λ h. p.zero_lease;
  token_word = λ t h. ground (arith, p.no_token);
  lease_low = λ h. absurd (h p.no_token);
  lease_high = λ h. absurd (h p.no_token);
  others_closed = λ j h. ground (arith, p.others j);
  conn_opened = λ j h. ground (arith, p.opened);
  one_renewer = λ e h. absurd (p.quiet e h);
  idle = λ h k. p.no_task;
}

abandon-IsFresh : (i : ℕ) (s : AsyncBase) → IsPending i s → (s.conns i).closed ≡ true → IsFresh s
abandon-IsFresh i s p shut = (
  record {
    closed_empty = λ h. p.no_conn;
    closed_stopped = λ h. p.no_task;
    held = λ h. p.no_token;
    no_lease = λ h. p.zero_lease;
    token_word = λ t h. ground (arith, p.no_token);
    lease_low = λ h. absurd (h p.no_token);
    lease_high = λ h. absurd (h p.no_token);
    others_closed = λ j h. ground (arith, p.others j);
    conn_opened = λ j h. ground (arith, p.no_conn);
    one_renewer = λ e h. absurd (p.quiet e h);
    idle = λ h k. p.no_task;
  },
  p.no_conn,
  p.no_token,
  p.is_open,
  p.no_task,
)

-- A connection was opened and is pending, or nothing was opened.
abbrev Dialled : Result ℕ × AsyncBase → Type 0
Dialled x =
    ((i : ℕ) × (x.0 ≡ ok i) × IsPending i x.1 × ((x.1.conns i).closed ≡ false))
    ⊎ ((e : Error) × (x.0 ≡ err e) × IsFresh x.1)

fewer_dials : (ds : List Dial) (s : AsyncBase) → IsFresh s → IsFresh (record s { dials = ds })
fewer_dials ds s (v, no_conn, no_token, is_open, no_task) = (
  record {
    closed_empty = v.closed_empty;
    closed_stopped = v.closed_stopped;
    held = v.held;
    no_lease = v.no_lease;
    token_word = v.token_word;
    lease_low = v.lease_low;
    lease_high = v.lease_high;
    others_closed = v.others_closed;
    conn_opened = v.conn_opened;
    one_renewer = v.one_renewer;
    idle = v.idle;
  },
  no_conn,
  no_token,
  is_open,
  no_task,
)

open_connection-Dialled :
    (ds : List Dial) (s : AsyncBase) → IsFresh s → Dialled (open_connection ds s)
unfolding open_connection
open_connection-Dialled [] s fresh = inr (_, refl, fresh)
open_connection-Dialled (refused f ∷ ds) s fresh = inr (_, refl, fewer_dials ds s fresh)
open_connection-Dialled (tls_fails f ∷ ds) s fresh = inr (_, refl, fewer_dials ds s fresh)
open_connection-Dialled (connected inbox troubles ∷ ds) s (v, no_conn, no_token, is_open, no_task) =
    inl (
      s.opened,
      refl,
      record {
        no_conn = no_conn;
        no_token = no_token;
        is_open = is_open;
        zero_lease = v.no_lease no_token;
        no_task = no_task;
        quiet = λ e h. ground (arith, v.one_renewer e h, no_task);
        opened = ground arith;
        others = λ j h. ground (arith, v.others_closed j, no_conn);
      },
      ground arith,
    )

open_conn-Dialled :
    (host : Host) (port : Scalar) (s : AsyncBase) → IsFresh s → Dialled (open_conn host port s)
unfolding open_conn
open_conn-Dialled host port s fresh =
    elim (Result-cases (validate_connect_timeout_s s.config.connect_timeout_s)) [
      | inr (e, q) ↦ rw q (inr (e, refl, fresh))
      | inl (_, q) ↦ elim (Result-cases (validate_server_endpoint host port)) [
        | inr (e, p) ↦ rw (q, p) (inr (e, refl, fresh))
        | inl (_, p) ↦ rw (q, p) (open_connection-Dialled s.dials s fresh)
      ]
    ]

-- The pending connection may be used, and the caller may have waited.
used-IsPending :
    (i : ℕ) (s : AsyncBase) (c : AsyncConn) (cs : List Bool)
    → IsPending i s
    → IsPending i (record s { conns = update s.conns i c; cancels = cs })
used-IsPending i s c cs p = record {
  no_conn = p.no_conn;
  no_token = p.no_token;
  is_open = p.is_open;
  zero_lease = p.zero_lease;
  no_task = p.no_task;
  quiet = p.quiet;
  opened = p.opened;
  others = λ j h. ground (arith, p.others j);
}

raised-Dialled :
    (e : Error) (x : Result (Unit {0}) × AsyncBase)
    → IsFresh x.1
    → Dialled (continue x (λ _ t. (err e, t)))
raised-Dialled e (ok _, t) fresh = inr (e, refl, fresh)
raised-Dialled e (err f, t) fresh = inr (f, refl, fresh)

-- Authentication failed: the connection is closed, and its wait may be cancelled.
failed-Dialled :
    (i : ℕ) (e : Error) (s : AsyncBase) → IsPending i s → Dialled (close_on_error i (err e, s))
unfolding close_conn
failed-Dialled i e s p =
    let u : AsyncBase = close_conn_nowait i s in
    let ((rest, same), outcome) = await_point-Awaited u in
    raised-Dialled e (await_point u) (
      rw same (
        abandon-IsFresh i (record u { cancels = rest })
          (used-IsPending i s (close_nowait (s.conns i)) rest p)
          (unfold close_nowait in ground arith)))

authenticated-Dialled :
    (i : ℕ) (s : AsyncBase) (x : Result (Unit {0}) × AsyncBase)
    → IsPending i s
    → (s.conns i).closed ≡ false
    → Touches i s (λ resp op. parse_auth_response resp) x
    → Dialled (close_on_error i x)
authenticated-Dialled i s x p is_open (Touches.refused y q) = rw q (failed-Dialled i y s p)
authenticated-Dialled i s (err y, t) p is_open (sent c q f) =
    failed-Dialled i y t (rw q (used-IsPending i s c s.cancels p))
authenticated-Dialled i s (ok a, t) p is_open (sent c q f) =
    rw q (inl (i, refl, used-IsPending i s c s.cancels p, ground (arith, (f a refl).0)))

maybe_authenticate-Dialled :
    (i : ℕ) (auth_token : Option Str) (s : AsyncBase)
    → IsPending i s
    → (s.conns i).closed ≡ false
    → Dialled (maybe_authenticate i auth_token s)
unfolding maybe_authenticate
maybe_authenticate-Dialled i none s p is_open = inl (i, refl, p, is_open)
maybe_authenticate-Dialled i (some auth_token) s p is_open =
    authenticated-Dialled i s (authenticate (command_at i) auth_token s) p is_open
      (authenticate-Touches i s auth_token)

-- The object has an open connection and no renew task, or it is fresh.
abbrev pub Opened : Result (Unit {0}) × AsyncBase → Type 0
Opened x =
    ((i : ℕ) × (x.0 ≡ ok tt)
      × IsValid x.1
      × (x.1.conn ≡ some i)
      × ((x.1.conns i).closed ≡ false)
      × (x.1.token ≡ none)
      × (x.1.renew_task ≡ none)
      × (x.1.closed ≡ false))
    ⊎ ((e : Error) × (x.0 ≡ err e) × IsFresh x.1)

adopted-Opened :
    (x : Result ℕ × AsyncBase)
    → Dialled x
    → Opened (continue x (λ i v. (ok tt, record v { conn = some i })))
adopted-Opened (r, s) (inl (i, q, p, is_open)) =
    rw q (inl (i, refl, adopt-IsValid i s p, refl, is_open, p.no_token, p.no_task, p.is_open))
adopted-Opened (r, s) (inr (e, q, fresh)) = rw q (inr (e, refl, fresh))

Dialled-Opened :
    (x : Result ℕ × AsyncBase)
    → Dialled x
    → Opened (
        continue x (λ i u.
          continue
            (maybe_authenticate i u.config.auth_token u)
            (λ j v. (ok tt, record v { conn = some j }))))
Dialled-Opened (r, s) (inr (e, q, fresh)) = rw q (inr (e, refl, fresh))
Dialled-Opened (r, s) (inl (i, q, p, is_open)) = rw q (
    adopted-Opened (maybe_authenticate i s.config.auth_token s)
      (maybe_authenticate-Dialled i s.config.auth_token s p is_open))

pub open_and_authenticate-Opened : (s : AsyncBase) → IsFresh s → Opened (open_and_authenticate s)
unfolding open_and_authenticate
open_and_authenticate-Opened s fresh = elim (Result-cases (pick_server s.config)) [
  | inr (e, q) ↦ rw q (inr (e, refl, fresh))
  | inl (server, q) ↦
      rw q (
        Dialled-Opened (open_conn server.0 server.1 s)
          (open_conn-Dialled server.0 server.1 s fresh))
]
