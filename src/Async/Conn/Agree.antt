-- ===== src/Async/Conn/Agree.antt =====
-- `AsyncConn.command` against `SyncConn.command`, on connections that stand alike.
use dflockd_client_py.Base.{
  ℕ, ◌+◌, ◌≡◌, ◌⊎◌, inl, inr, refl, true, false, Bool-cases, Option, List, [], ◌∷◌, ◌++◌, Str,
  Bytes, take, if◌then◌else◌, ◌∙◌, ap, ◌≤◌, ltb, arith,
}
use dflockd_client_py.Errors.{
  ErrorClass, os_error, connection_error, Error, class_of, Result, ok, err, Result-cases, raise,
  connection_lost,
}
use dflockd_client_py.Protocol.Validate.{max_response_line_bytes}
use dflockd_client_py.Protocol.Encode.{encode_lines}
use dflockd_client_py.Sync.Conn as Sync
use dflockd_client_py.Sync.Conn.{
  SyncConn, max_socket_timeout_s, Trouble, fine, send_fails, read_fails,
}
use dflockd_client_py.Async.Conn as Async
use dflockd_client_py.Async.Conn.{AsyncConn, cut_line, within_limit}
use dflockd_client_py.Async.Conn.Lines.{SameLine, line_read, line_refused, readline-SameLine}

-- Two connections on which nothing has happened differently. What is left unread on a closed one
-- does not count.
pub record Alike (c : SyncConn) (d : AsyncConn) : Type 0 where
  pub same_closed : c.closed ≡ d.closed
  pub same_outbox : c.outbox ≡ d.outbox
  pub same_inbox : c.closed ≡ false → c.inbox ≡ d.inbox
  pub same_troubles : c.closed ≡ false → c.troubles ≡ d.troubles

-- The exceptions have the same class, or `OSError` and its subclass `ConnectionError`, which is
-- what a closed connection makes of a command.
abbrev pub Similar : ErrorClass → ErrorClass → Type 0
Similar c d = (c ≡ d) ⊎ ((c ≡ os_error) × (d ≡ connection_error))

pub data SameOutcome {A : Type 0} (r t : Result A) : Type 0 where
  both_return : (a : A) → r ≡ ok a → t ≡ ok a → SameOutcome r t
  both_raise :
      (e f : Error) → r ≡ err e → t ≡ err f → Similar (class_of e) (class_of f) → SameOutcome r t

abbrev pub Agrees : {A : Type 0} → Result A × SyncConn → Result A × AsyncConn → Type 0
Agrees x y = SameOutcome x.0 y.0 × Alike x.1 y.1

-- ----- the exchange

-- What the body of the `try` gives on open connections alike: the same line and connections that
-- are alike, or two exceptions of the same class and the same bytes sent.
data SameExchange (x : Result Str × SyncConn) (y : Result Str × AsyncConn) : Type 0 where
  answered : (line : Str) → x.0 ≡ ok line → y.0 ≡ ok line → Alike x.1 y.1 → SameExchange x y
  failed :
      (e f : Error)
      → x.0 ≡ err e
      → y.0 ≡ err f
      → class_of e ≡ class_of f
      → x.1.outbox ≡ y.1.outbox
      → SameExchange x y

SameLine-SameExchange :
    (x : Bytes × Bytes) (y : Option Bytes × Bytes) (c : SyncConn) (d : AsyncConn)
    → Alike c d
    → c.closed ≡ false
    → SameLine x y
    → SameExchange
        (Sync.line_of x.0, record c { inbox = x.1 })
        (Async.line_of y.0, record d { inbox = y.1 })
SameLine-SameExchange x y c d a is_open (line_refused e f p q class) =
    failed e f p q class a.same_outbox
SameLine-SameExchange x y c d a is_open (line_read p q) = elim (Result-cases (Async.line_of y.0)) [
  | inl (line, read) ↦ answered line (p ∙ read) read (record {
    same_closed = a.same_closed;
    same_outbox = a.same_outbox;
    same_inbox = λ h. q;
    same_troubles = a.same_troubles;
  })
  | inr (e, bad) ↦ failed e e (p ∙ bad) bad refl a.same_outbox
]

read_line-SameExchange :
    (c : SyncConn) (d : AsyncConn)
    → Alike c d
    → c.closed ≡ false
    → SameExchange (Sync.read_line c) (Async.read_line d)
unfolding Sync.read_line Async.read_line
read_line-SameExchange c d a is_open =
    SameLine-SameExchange (Sync.readline (max_response_line_bytes + 1) c.inbox)
      (Async.readline d.inbox) c d a is_open (rw (a.same_inbox is_open) (readline-SameLine d.inbox))

sent-Alike :
    (frame : Bytes) (ts us : List Trouble) (c : SyncConn) (d : AsyncConn)
    → Alike c d
    → (c.closed ≡ false → ts ≡ us)
    → Alike
        (record c { outbox = c.outbox ++ frame; troubles = ts })
        (record d { outbox = d.outbox ++ frame; troubles = us })
sent-Alike frame ts us c d a same = record {
  same_closed = a.same_closed;
  same_outbox = ap (λ o. o ++ frame) a.same_outbox;
  same_inbox = a.same_inbox;
  same_troubles = same;
}

exchange_with-SameExchange :
    (ts : List Trouble) (frame : Bytes) (c : SyncConn) (d : AsyncConn)
    → Alike c d
    → c.closed ≡ false
    → SameExchange (Sync.exchange_with ts frame c) (Async.exchange_with ts frame d)
unfolding Sync.exchange_with Async.exchange_with
exchange_with-SameExchange [] frame c d a is_open =
    read_line-SameExchange _ _ (sent-Alike frame c.troubles d.troubles c d a a.same_troubles)
      is_open
exchange_with-SameExchange (fine ∷ ts) frame c d a is_open =
    read_line-SameExchange _ _ (sent-Alike frame ts ts c d a (λ h. refl)) is_open
exchange_with-SameExchange (send_fails f n ∷ ts) frame c d a is_open =
    failed _ _ refl refl refl (ap (λ o. o ++ take n frame) a.same_outbox)
exchange_with-SameExchange (read_fails f ∷ ts) frame c d a is_open =
    failed _ _ refl refl refl (ap (λ o. o ++ frame) a.same_outbox)

-- Where the sync connection has its timeout set first.
timeout-Alike :
    (t : ℕ) (c : SyncConn) (d : AsyncConn) → Alike c d → Alike (record c { timeout = t }) d
timeout-Alike t c d a = record {
  same_closed = a.same_closed;
  same_outbox = a.same_outbox;
  same_inbox = a.same_inbox;
  same_troubles = a.same_troubles;
}

failed-Agrees :
    (e f : Error) (c : SyncConn) (d : AsyncConn)
    → Similar (class_of e) (class_of f)
    → c.outbox ≡ d.outbox
    → Agrees {A = Str} (err e, Sync.close c) (err f, Async.close_nowait d)
unfolding Sync.close Async.close_nowait
failed-Agrees e f c d similar outbox = (
  both_raise e f refl refl similar,
  record {
    same_closed = refl;
    same_outbox = outbox;
    same_inbox = λ h. cc;
    same_troubles = λ h. cc;
  },
)

SameExchange-Agrees :
    (x : Result Str × SyncConn) (y : Result Str × AsyncConn)
    → SameExchange x y
    → Agrees (Sync.close_on_error x) (Async.close_if_committed true y)
SameExchange-Agrees (r, c) (t, d) (answered line p q a) = rw (p, q) (both_return line refl refl, a)
SameExchange-Agrees (r, c) (t, d) (failed e f p q class outbox) =
    rw (p, q) (failed-Agrees e f c d (inl class) outbox)

-- A timeout that the socket takes.
late_not : (t : ℕ) → t ≤ max_socket_timeout_s → ltb max_socket_timeout_s t ≡ false
late_not t fits = ground arith

-- The exchange on an open connection.
open_exchange :
    (frame : Bytes) (t : ℕ) (c : SyncConn) (ts : List Trouble)
    → t ≤ max_socket_timeout_s
    → c.closed ≡ false
    → c.troubles ≡ ts
    → Sync.exchange frame t c ≡ Sync.exchange_with ts frame (record c { timeout = t })
unfolding Sync.exchange
open_exchange frame t c ts fits is_open same = rw (late_not t fits, is_open, same) refl

open_async_exchange :
    (frame : Bytes) (d : AsyncConn)
    → d.closed ≡ false
    → Async.exchange frame d ≡ Async.exchange_with d.troubles frame d
unfolding Async.exchange
open_async_exchange frame d is_open =
    ap
      (λ shut.
        if shut
        then (raise connection_error connection_lost, d)
        else Async.exchange_with d.troubles frame d)
      is_open

exchange-Agrees :
    (frame : Bytes) (t : ℕ) (c : SyncConn) (d : AsyncConn)
    → t ≤ max_socket_timeout_s
    → Alike c d
    → Agrees
        (Sync.close_on_error (Sync.exchange frame t c))
        (Async.close_if_committed true (Async.exchange frame d))
exchange-Agrees frame t c d fits a = elim (Bool-cases c.closed) [
  | inl shut ↦
      let shut' : d.closed ≡ true = cc in
      unfold Sync.exchange Async.exchange in
      simp (late_not t fits, shut, shut') (failed-Agrees _ _ c d (inr (refl, refl)) a.same_outbox)
  | inr is_open ↦
      let is_open' : d.closed ≡ false = cc in
      rw
        (
          open_exchange frame t c d.troubles fits is_open (a.same_troubles is_open),
          open_async_exchange frame d is_open',
        )
        (SameExchange-Agrees (Sync.exchange_with d.troubles frame (record c { timeout = t }))
          (Async.exchange_with d.troubles frame d)
          (exchange_with-SameExchange d.troubles frame (record c { timeout = t }) d
            (timeout-Alike t c d a) is_open))
]

pub command-Agrees :
    (cmd key arg : Str) (t : ℕ) (c : SyncConn) (d : AsyncConn)
    → t ≤ max_socket_timeout_s
    → Alike c d
    → Agrees (Sync.command cmd key arg t c) (Async.command cmd key arg t d)
unfolding Sync.command Async.command
command-Agrees cmd key arg t c d fits a =
    elim (Result-cases (encode_lines (cmd ∷ key ∷ arg ∷ []))) [
      | inl (frame, built) ↦ rw built (exchange-Agrees frame t c d fits a)
      | inr (e, bad) ↦ rw bad (both_raise e e refl refl (inl refl), a)
    ]
