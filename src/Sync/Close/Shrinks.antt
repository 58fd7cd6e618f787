-- ===== src/Sync/Close/Shrinks.antt =====
-- What a renew thread can do to an object: it can only lose the connection and the token.
use dflockd_client_py.Base.{
  codes, ◌++◌, ℕ, ◌≡◌, ◌⊎◌, inl, inr, refl, true, Bool-cases, Option, none, some, Str, arith,
}
use dflockd_client_py.Base.Int.{ℤ}
use dflockd_client_py.Errors.{Result, ok, err, exception, is_subclass, class_of}
use dflockd_client_py.Action.{lift, continue}
use dflockd_client_py.Protocol.Validate.{Scalar}
use dflockd_client_py.Protocol.Encode.{op_label}
use dflockd_client_py.Protocol.Decode.{parse_renew_response}
use dflockd_client_py.Sync.Conn.{SyncConn, command, close}
use dflockd_client_py.Sync.Conn.Wire.{command_closed}
use dflockd_client_py.Sync.State.{SyncBase, update, close_conn, command_at, Kind, lock, semaphore}
use dflockd_client_py.Sync.Commands.{renew}
use dflockd_client_py.Sync.Commands.Requests.{renew_sends}
use dflockd_client_py.Sync.Hooks.{proto_renew}
use dflockd_client_py.Sync.Lifecycle.{clear_held_state}
use dflockd_client_py.Sync.Renewal.{handle_renew_failure, settle_renew, end_thread, is_conn}

pub record Shrinks (s t : SyncBase) : Type 0 where
  pub same_closed : t.closed ≡ s.closed
  pub same_events : t.events ≡ s.events
  pub same_stop : t.stop_event ≡ s.stop_event
  pub same_thread : t.renew_thread ≡ s.renew_thread
  -- A connection that it loses is closed.
  pub conn_left :
      (t.conn ≡ s.conn)
      ⊎ ((t.conn ≡ none) × ((i : ℕ) → s.conn ≡ some i → (t.conns i).closed ≡ true))
  pub token_left : (t.token ≡ s.token) ⊎ (t.token ≡ none)
  pub closed_stay : (i : ℕ) → (s.conns i).closed ≡ true → (t.conns i).closed ≡ true

pub same-Shrinks : (s : SyncBase) → Shrinks s s
same-Shrinks s = record {
  same_closed = refl;
  same_events = refl;
  same_stop = refl;
  same_thread = refl;
  conn_left = inl refl;
  token_left = inl refl;
  closed_stay = λ i h. h;
}

pub end_thread-Shrinks : (e : ℕ) (s t : SyncBase) → Shrinks s t → Shrinks s (end_thread e t)
unfolding end_thread
end_thread-Shrinks e s t h = record {
  same_closed = h.same_closed;
  same_events = h.same_events;
  same_stop = h.same_stop;
  same_thread = h.same_thread;
  conn_left = h.conn_left;
  token_left = h.token_left;
  closed_stay = h.closed_stay;
}

pub lease-Shrinks : (z : ℤ) (s : SyncBase) → Shrinks s (record s { lease = z })
lease-Shrinks z s = record {
  same_closed = refl;
  same_events = refl;
  same_stop = refl;
  same_thread = refl;
  conn_left = inl refl;
  token_left = inl refl;
  closed_stay = λ i h. h;
}

-- A closed connection stays closed when one is replaced by what is closed if that was.
update-closed :
    (f : ℕ → SyncConn) (i j : ℕ) (c : SyncConn)
    → ((f i).closed ≡ true → c.closed ≡ true)
    → (f j).closed ≡ true
    → (update f i c j).closed ≡ true
update-closed f i j c keeps h = ground (arith, keeps, h)

-- A command leaves a closed connection closed.
command_at-Shrinks :
    (i : ℕ) (cmd key arg : Str) (t : ℕ) (s : SyncBase) → Shrinks s (command_at i cmd key arg t s).1
unfolding command_at
command_at-Shrinks i cmd key arg t s = record {
  same_closed = refl;
  same_events = refl;
  same_stop = refl;
  same_thread = refl;
  conn_left = inl refl;
  token_left = inl refl;
  closed_stay = λ j h.
      update-closed s.conns i j (command cmd key arg t (s.conns i)).1
        (λ shut. (command_closed cmd key arg t (s.conns i) shut).3) h;
}

continue-state :
    {A B : Type 0} (x : Result A × SyncBase) (f : A → Result B)
    → (continue x (λ a. lift (f a))).1 ≡ x.1
continue-state (ok a, s) f = refl
continue-state (err e, s) f = refl

renew-Shrinks :
    (i : ℕ) (key token : Str) (lease : Option Scalar) (prefix : Str) (t : ℕ) (s : SyncBase)
    → Shrinks s (renew (command_at i) key token lease prefix t s).1
renew-Shrinks i key token lease prefix t s =
    elim (renew_sends (command_at i) key token lease prefix t s) [
      | inl (e, q, rejected) ↦ rw q (same-Shrinks s)
      | inr (arg, a, b, c, q) ↦
          rw
            (
              q,
              continue-state (command_at i (prefix ++ codes "n") key arg t s)
                  (λ resp. parse_renew_response resp (op_label prefix (codes "renew"))),
            )
            (command_at-Shrinks i _ key arg t s)
    ]

pub proto_renew-Shrinks :
    (k : Kind) (i : ℕ) (token : Str) (s : SyncBase) → Shrinks s (proto_renew k i token s).1
unfolding proto_renew
proto_renew-Shrinks lock i token s = renew-Shrinks i _ token _ _ _ s
proto_renew-Shrinks (semaphore limit) i token s = renew-Shrinks i _ token _ _ _ s

is_conn-some : (o : Option ℕ) (i : ℕ) → is_conn o i ≡ true → o ≡ some i
is_conn-some none i h = absurd (ground arith)
is_conn-some (some j) i h = ground (arith, h)

-- The connection and the token are given up, and the connection is closed.
forgotten-Shrinks :
    (i : ℕ) (s t : SyncBase)
    → t.conn ≡ some i
    → Shrinks s t
    → Shrinks s (close_conn i (clear_held_state (record t { conn = none })))
unfolding clear_held_state close
forgotten-Shrinks i s t q h = record {
  same_closed = h.same_closed;
  same_events = h.same_events;
  same_stop = h.same_stop;
  same_thread = h.same_thread;
  conn_left = inr (
    refl,
    λ j has. elim h.conn_left [
      | inl same ↦ ground (arith, same, q, has)
      | inr (alone, lost) ↦ absurd (ground (arith, q, alone))
    ],
  );
  token_left = inr refl;
  closed_stay =
      λ j shut. update-closed t.conns i j (close (t.conns i)) (λ _. refl) (h.closed_stay j shut);
}

failed-Shrinks : (i : ℕ) (s t : SyncBase) → Shrinks s t → Shrinks s (handle_renew_failure i t)
unfolding handle_renew_failure
failed-Shrinks i s t h = elim (Bool-cases (is_conn t.conn i)) [
  | inl mine ↦ rw mine (forgotten-Shrinks i s t (is_conn-some t.conn i mine) h)
  | inr other ↦ rw other h
]

pub settle_renew-Shrinks :
    (i : ℕ) (s : SyncBase) (x : Result ℤ × SyncBase)
    → Shrinks s x.1
    → Shrinks s (settle_renew i x).1
settle_renew-Shrinks i s (ok z, t) h = h
settle_renew-Shrinks i s (err e, t) h = elim (Bool-cases (is_subclass (class_of e) exception)) [
  | inl known ↦ rw known (failed-Shrinks i s t h)
  | inr other ↦ rw other h
]
