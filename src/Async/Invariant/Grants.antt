-- ===== src/Async/Invariant/Grants.antt =====
-- The invariant through the storing of a grant, and through the handling of what failed.
use dflockd_client_py.Base.{
  ℕ, ◌≡◌, ◌≢◌, ◌⊎◌, inl, inr, refl, true, false, Bool, Bool-cases, none, some, Str, arith,
}
use dflockd_client_py.Base.Int.{ℤ, pos}
use dflockd_client_py.Text.Words.Laws.{IsWord}
use dflockd_client_py.Errors.{Error, Result, ok, err, is_subclass, class_of, dflockd_timeout_error}
use dflockd_client_py.Action.{continue}
use dflockd_client_py.Protocol.Decode.{
  Enqueued, acquired, queued, parse_grant_response, parse_enqueue_response,
}
use dflockd_client_py.Protocol.Decode.Grants.{
  IsLease, parse_grant_response_sound, parse_enqueue_response_sound,
}
use dflockd_client_py.Sync.State.{update}
use dflockd_client_py.Async.Conn.{AsyncConn}
use dflockd_client_py.Async.State.{AsyncBase}
use dflockd_client_py.Async.Lifecycle.{
  close_unlocked, start_renew, hold, settle_grant, settle_enqueue, handle_enqueue_status,
}
use dflockd_client_py.Async.Invariant.Defs.{IsValid, IsEmpty, IsHolding}
use dflockd_client_py.Async.Invariant.Touch.{Touches, refused, sent}
use dflockd_client_py.Async.Invariant.Closing.{Closed, close_unlocked-Closed}

-- The connection in use may be in any state.
pub update-IsValid :
    (i : ℕ) (s : AsyncBase) (c : AsyncConn)
    → s.conn ≡ some i
    → IsValid s
    → IsValid (record s { conns = update s.conns i c })
update-IsValid i s c e v = record {
  closed_empty = v.closed_empty;
  closed_stopped = v.closed_stopped;
  held = v.held;
  no_lease = v.no_lease;
  token_word = v.token_word;
  lease_low = v.lease_low;
  lease_high = v.lease_high;
  others_closed = λ j h. ground (arith, v.others_closed j);
  conn_opened = v.conn_opened;
  one_renewer = v.one_renewer;
  idle = v.idle;
}

-- An object with a connection is open.
pub IsValid-open : (i : ℕ) (s : AsyncBase) → s.conn ≡ some i → IsValid s → s.closed ≡ false
IsValid-open i s e v = elim (Bool-cases s.closed) [
  | inl shut ↦ absurd (ground (arith, v.closed_empty shut))
  | inr is_open ↦ is_open
]

granted-IsValid :
    (i : ℕ) (s : AsyncBase) (token : Str) (n : ℕ)
    → s.conn ≡ some i
    → s.renew_task ≡ none
    → IsValid s
    → IsWord token
    → IsLease n
    → IsValid (start_renew (hold token (pos n) s))
unfolding start_renew
granted-IsValid i s token n e idle v w l = record {
  closed_empty = v.closed_empty;
  closed_stopped = λ h. absurd (ground (arith, IsValid-open i s e v));
  held = λ h. cc;
  no_lease = λ h. cc;
  token_word = λ t h. ground (arith, w);
  lease_low = λ h. omega (arith, l.0);
  lease_high = λ h. omega (arith, l.1);
  others_closed = v.others_closed;
  conn_opened = v.conn_opened;
  one_renewer = λ k h. ground (arith, v.one_renewer k);
  idle = λ h k. cc;
}

granted-IsHolding :
    (i : ℕ) (s : AsyncBase) (token : Str) (n : ℕ)
    → s.conn ≡ some i
    → (s.conns i).closed ≡ false
    → IsHolding (start_renew (hold token (pos n) s))
unfolding start_renew
granted-IsHolding i s token n e is_open =
    (token, i, s.started, refl, e, is_open, refl, ground arith)

-- How an attempt ends: it holds, or the object is empty and closed.
abbrev pub Settled : Result Bool × AsyncBase → Type 0
Settled x =
    IsValid x.1
    × (((x.0 ≡ ok true) × IsHolding x.1) ⊎ ((x.0 ≢ ok true) × IsEmpty x.1 × (x.1.closed ≡ true)))

-- A close that is followed by a return or a raise.
Closed-Settled :
    (r : Result Bool) (x : Result (Unit {0}) × AsyncBase)
    → r ≢ ok true
    → Closed x
    → Settled (continue x (λ _ t. (r, t)))
Closed-Settled r (ok _, t) h (v, empty, shut, outcome) = (v, inr (h, empty, shut))
Closed-Settled r (err e, t) h (v, empty, shut, outcome) = (v, inr ((λ q. cc), empty, shut))

failed-Settled : (e : Error) (s : AsyncBase) → IsValid s → Settled (settle_grant (err e, s))
unfolding settle_grant
failed-Settled e s v = elim (Bool-cases (is_subclass (class_of e) dflockd_timeout_error)) [
  | inl timeout ↦
      rw timeout (
        Closed-Settled (ok false) (close_unlocked s) (λ h. ground arith)
          (close_unlocked-Closed s v))
  | inr other ↦
      rw other (Closed-Settled (err e) (close_unlocked s) (λ h. cc) (close_unlocked-Closed s v))
]

-- A call of `_proto_acquire` or `_proto_wait` on the object's connection, settled.
pub settle_grant-Settled :
    (i : ℕ) (s : AsyncBase) (x : Result (Str × ℤ) × AsyncBase)
    → s.conn ≡ some i
    → s.renew_task ≡ none
    → IsValid s
    → Touches i s parse_grant_response x
    → Settled (settle_grant x)
settle_grant-Settled i s x e idle v (refused y q) = rw q (failed-Settled y s v)
settle_grant-Settled i s (err y, t) e idle v (sent c q f) =
    failed-Settled y t (rw q (update-IsValid i s c e v))
settle_grant-Settled i s (ok (token, z), t) e idle v (sent c q f) =
    let (is_open, (resp, op, parsed)) = f (token, z) refl in
    let (word, (n, value, lease)) =
      parse_grant_response_sound resp op {token = token} {z = z} parsed in
    let valid : IsValid t = rw q (update-IsValid i s c e v) in
    rw value (
      unfold settle_grant in
          granted-IsValid i t token n (ground arith) (ground arith) valid word lease,
      unfold settle_grant in
          inl (refl, granted-IsHolding i t token n (ground arith) (ground arith)),
    )

-- How an enqueue ends: it holds, or it waits in the queue on an open connection, or the object
-- is empty and closed.
abbrev pub IsQueued : AsyncBase → Type 0
IsQueued s = (i : ℕ) × (s.conn ≡ some i) × ((s.conns i).closed ≡ false) × (s.token ≡ none)

abbrev pub IsEnqueued : Result Enqueued × AsyncBase → Type 0
IsEnqueued x =
    IsValid x.1
    × (((token : Str) × (z : ℤ) × (x.0 ≡ ok (acquired token z)) × IsHolding x.1)
        ⊎ ((x.0 ≡ ok queued) × IsQueued x.1)
        ⊎ ((e : Error) × (x.0 ≡ err e) × IsEmpty x.1 × (x.1.closed ≡ true)))

Closed-IsEnqueued :
    (e : Error) (x : Result (Unit {0}) × AsyncBase)
    → Closed x
    → IsEnqueued (continue x (λ _ t. (err e, t)))
Closed-IsEnqueued e (ok _, t) (v, empty, shut, outcome) = (v, inr (inr (e, refl, empty, shut)))
Closed-IsEnqueued e (err f, t) (v, empty, shut, outcome) = (v, inr (inr (f, refl, empty, shut)))

fail_enqueue : (e : Error) (s : AsyncBase) → IsValid s → IsEnqueued (settle_enqueue (err e, s))
unfolding settle_enqueue
fail_enqueue e s v = Closed-IsEnqueued e (close_unlocked s) (close_unlocked-Closed s v)

pub settle_enqueue-IsEnqueued :
    (i : ℕ) (s : AsyncBase) (x : Result Enqueued × AsyncBase)
    → s.conn ≡ some i
    → s.token ≡ none
    → s.renew_task ≡ none
    → IsValid s
    → Touches i s parse_enqueue_response x
    → IsEnqueued (settle_enqueue x)
settle_enqueue-IsEnqueued i s x e free idle v (refused y q) = rw q (fail_enqueue y s v)
settle_enqueue-IsEnqueued i s (err y, t) e free idle v (sent c q f) =
    fail_enqueue y t (rw q (update-IsValid i s c e v))
settle_enqueue-IsEnqueued i s (ok queued, t) e free idle v (sent c q f) =
    let (is_open, _) = f queued refl in
    unfold settle_enqueue handle_enqueue_status in
    (
      rw q (update-IsValid i s c e v),
      inr (inl (refl, (i, ground arith, ground arith, ground arith))),
    )
settle_enqueue-IsEnqueued i s (ok (acquired token z), t) e free idle v (sent c q f) =
    let (is_open, (resp, op, parsed)) = f (acquired token z) refl in
    let (word, (n, value, lease)) =
      parse_enqueue_response_sound resp op {token = token} {z = z} parsed in
    let valid : IsValid t = rw q (update-IsValid i s c e v) in
    rw value (
      unfold settle_enqueue handle_enqueue_status in
          granted-IsValid i t token n (ground arith) (ground arith) valid word lease,
      unfold settle_enqueue handle_enqueue_status in
          inl (token, pos n, refl, granted-IsHolding i t token n (ground arith) (ground arith)),
    )
