-- ===== src/Sync/Invariant/Grants.antt =====
-- The invariant through the storing of a grant, and through the handling of what failed.
use dflockd_client_py.Base.{
  ℕ, ◌≡◌, ◌≢◌, ◌⊎◌, inl, inr, refl, true, false, Bool, Bool-cases, none, some, Str, arith,
}
use dflockd_client_py.Base.Int.{ℤ, pos}
use dflockd_client_py.Text.Words.Laws.{IsWord}
use dflockd_client_py.Errors.{Error, Result, ok, err, is_subclass, class_of, dflockd_timeout_error}
use dflockd_client_py.Protocol.Decode.{
  Enqueued, acquired, queued, parse_grant_response, parse_enqueue_response,
}
use dflockd_client_py.Protocol.Decode.Grants.{
  IsLease, parse_grant_response_sound, parse_enqueue_response_sound,
}
use dflockd_client_py.Sync.Conn.{SyncConn}
use dflockd_client_py.Sync.State.{SyncBase, update}
use dflockd_client_py.Sync.Lifecycle.{
  close_unlocked, start_renew, hold, settle_grant, settle_enqueue,
}
use dflockd_client_py.Sync.Invariant.Defs.{IsValid}
use dflockd_client_py.Sync.Invariant.Touch.{Touches, refused, sent}
use dflockd_client_py.Sync.Invariant.Closing.{
  IsEmpty, close_unlocked-IsValid, close_unlocked-IsEmpty,
}

-- The connection in use may be in any state.
pub update-IsValid :
    (i : ℕ) (s : SyncBase) (c : SyncConn)
    → s.conn ≡ some i
    → IsValid s
    → IsValid (record s { conns = update s.conns i c })
update-IsValid i s c e v = record {
  closed_empty = v.closed_empty;
  closed_stopped = v.closed_stopped;
  held = v.held;
  no_lease = v.no_lease;
  token_word = v.token_word;
  lease_low = v.lease_low;
  lease_high = v.lease_high;
  others_closed = λ j h. ground (arith, v.others_closed j);
  others_stopped = v.others_stopped;
  event_created = v.event_created;
  conn_opened = v.conn_opened;
}

-- A token, an open connection and a renew thread.
abbrev pub IsHolding : SyncBase → Type 0
IsHolding s =
    (token : Str) × (i : ℕ) × (s.token ≡ some token)
    × (s.conn ≡ some i)
    × ((s.conns i).closed ≡ false)
    × (s.renew_thread ≡ some s.stop_event)

granted-IsValid :
    (i : ℕ) (s : SyncBase) (token : Str) (n : ℕ)
    → s.conn ≡ some i
    → IsValid s
    → IsWord token
    → IsLease n
    → IsValid (start_renew (hold token (pos n) s))
unfolding start_renew
granted-IsValid i s token n e v w l = record {
  closed_empty = v.closed_empty;
  closed_stopped = v.closed_stopped;
  held = λ h. cc;
  no_lease = λ h. cc;
  token_word = λ t h. ground (arith, w);
  lease_low = λ h. omega (arith, l.0);
  lease_high = λ h. omega (arith, l.1);
  others_closed = v.others_closed;
  others_stopped = v.others_stopped;
  event_created = v.event_created;
  conn_opened = v.conn_opened;
}

-- How an attempt ends: it holds, or the object is empty and closed.
abbrev pub Settled : Result Bool × SyncBase → Type 0
Settled x =
    IsValid x.1
    × (((x.0 ≡ ok true) × IsHolding x.1) ⊎ ((x.0 ≢ ok true) × IsEmpty x.1 × (x.1.closed ≡ true)))

closed-Settled :
    (r : Result Bool) (s : SyncBase) → r ≢ ok true → IsValid s → Settled (r, close_unlocked s)
closed-Settled r s h v = (
  close_unlocked-IsValid s v,
  inr (h, (close_unlocked-IsEmpty s v).0, (close_unlocked-IsEmpty s v).1),
)

failed-Settled : (e : Error) (s : SyncBase) → IsValid s → Settled (settle_grant (err e, s))
unfolding settle_grant
failed-Settled e s v = elim (Bool-cases (is_subclass (class_of e) dflockd_timeout_error)) [
  | inl timeout ↦ rw timeout (closed-Settled (ok false) s (λ h. ground arith) v)
  | inr other ↦ rw other (closed-Settled (err e) s (λ h. cc) v)
]

granted-Settled :
    (i : ℕ) (s : SyncBase) (token : Str) (n : ℕ)
    → s.conn ≡ some i
    → IsValid s
    → IsWord token
    → IsLease n
    → (s.conns i).closed ≡ false
    → Settled (settle_grant (ok (token, pos n), s))
unfolding settle_grant
granted-Settled i s token n e v w l is_open = (
  granted-IsValid i s token n e v w l,
  inl (refl, unfold start_renew in (token, i, refl, e, is_open, refl)),
)

-- A call of `_proto_acquire` or `_proto_wait` on the object's connection, settled.
pub settle_grant-Settled :
    (i : ℕ) (s : SyncBase) (x : Result (Str × ℤ) × SyncBase)
    → s.conn ≡ some i
    → IsValid s
    → Touches i s parse_grant_response x
    → Settled (settle_grant x)
settle_grant-Settled i s x e v (refused y q) = rw q (failed-Settled y s v)
settle_grant-Settled i s (err y, t) e v (sent c q f) =
    failed-Settled y t (rw q (update-IsValid i s c e v))
settle_grant-Settled i s (ok (token, z), t) e v (sent c q f) =
    let (is_open, (resp, op, parsed)) = f (token, z) refl in
    let (word, (n, value, lease)) =
      parse_grant_response_sound resp op {token = token} {z = z} parsed in
    let valid : IsValid t = rw q (update-IsValid i s c e v) in
    rw value (granted-Settled i t token n (ground arith) valid word lease (ground arith))

-- How an enqueue ends: it holds, or it waits in the queue on an open connection, or the object
-- is empty and closed.
abbrev pub IsEnqueued : Result Enqueued × SyncBase → Type 0
IsEnqueued x =
    IsValid x.1
    × (((token : Str) × (z : ℤ) × (x.0 ≡ ok (acquired token z)) × IsHolding x.1)
        ⊎ ((x.0 ≡ ok queued)
            × ((i : ℕ) × (x.1.conn ≡ some i) × ((x.1.conns i).closed ≡ false))
            × (x.1.token ≡ none))
        ⊎ ((e : Error) × (x.0 ≡ err e) × IsEmpty x.1 × (x.1.closed ≡ true)))

fail_enqueue : (e : Error) (s : SyncBase) → IsValid s → IsEnqueued (settle_enqueue (err e, s))
unfolding settle_enqueue
fail_enqueue e s v = (
  close_unlocked-IsValid s v,
  inr (inr (e, refl, (close_unlocked-IsEmpty s v).0, (close_unlocked-IsEmpty s v).1)),
)

pub settle_enqueue-IsEnqueued :
    (i : ℕ) (s : SyncBase) (x : Result Enqueued × SyncBase)
    → s.conn ≡ some i
    → s.token ≡ none
    → IsValid s
    → Touches i s parse_enqueue_response x
    → IsEnqueued (settle_enqueue x)
settle_enqueue-IsEnqueued i s x e free v (refused y q) = rw q (fail_enqueue y s v)
settle_enqueue-IsEnqueued i s (err y, t) e free v (sent c q f) =
    fail_enqueue y t (rw q (update-IsValid i s c e v))
settle_enqueue-IsEnqueued i s (ok queued, t) e free v (sent c q f) =
    let (is_open, _) = f queued refl in
    unfold settle_enqueue in
    (
      rw q (update-IsValid i s c e v),
      inr (inl (refl, (i, ground arith, ground arith), ground arith)),
    )
settle_enqueue-IsEnqueued i s (ok (acquired token z), t) e free v (sent c q f) =
    let (is_open, (resp, op, parsed)) = f (acquired token z) refl in
    let (word, (n, value, lease)) =
      parse_enqueue_response_sound resp op {token = token} {z = z} parsed in
    let valid : IsValid t = rw q (update-IsValid i s c e v) in
    rw value (
      unfold settle_enqueue start_renew in
      (
        unfold start_renew in granted-IsValid i t token n (ground arith) valid word lease,
        inl (token, pos n, refl, (token, i, refl, ground arith, ground arith, refl)),
      ))
