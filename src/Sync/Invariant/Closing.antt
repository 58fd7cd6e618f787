-- ===== src/Sync/Invariant/Closing.antt =====
-- The invariant through `_close_unlocked`, `_stop_renew` and `_reset_for_new_attempt`.
use dflockd_client_py.Base.{◌≡◌, refl, true, false, none, arith}
use dflockd_client_py.Sync.Conn.{close}
use dflockd_client_py.Sync.State.{SyncBase}
use dflockd_client_py.Sync.Lifecycle.{close_unlocked, stop_renew, rearm, reset_for_new_attempt}
use dflockd_client_py.Sync.Invariant.Defs.{IsValid}

-- The object has neither connection nor token.
pub record IsEmpty (s : SyncBase) : Type 0 where
  pub no_conn : s.conn ≡ none
  pub no_token : s.token ≡ none

pub close_unlocked-IsValid : (s : SyncBase) → IsValid s → IsValid (close_unlocked s)
unfolding close_unlocked close
close_unlocked-IsValid s v = record {
  closed_empty = λ h. ground arith;
  closed_stopped = λ h. ground arith;
  held = λ h. ground arith;
  no_lease = λ h. ground arith;
  token_word = λ t h. ground (arith, v.token_word t);
  lease_low = λ h. ground arith;
  lease_high = λ h. ground arith;
  others_closed = λ i h. ground (arith, v.others_closed i);
  others_stopped = λ e h. ground (arith, v.others_stopped e);
  event_created = ground arith;
  conn_opened = λ i h. ground (arith, v.conn_opened i);
}

pub stop_renew-IsValid : (s : SyncBase) → IsValid s → IsValid (stop_renew s)
unfolding stop_renew
stop_renew-IsValid s v = record {
  closed_empty = λ h. ground arith;
  closed_stopped = λ h. ground arith;
  held = λ h. ground arith;
  no_lease = λ h. ground arith;
  token_word = λ t h. ground (arith, v.token_word t);
  lease_low = λ h. ground arith;
  lease_high = λ h. ground arith;
  others_closed = λ i h. ground (arith, v.others_closed i);
  others_stopped = λ e h. ground (arith, v.others_stopped e);
  event_created = ground arith;
  conn_opened = λ i h. ground (arith, v.conn_opened i);
}

pub rearm-IsValid : (s : SyncBase) → IsValid s → s.closed ≡ true → IsValid (rearm s)
unfolding rearm
rearm-IsValid s v h = record {
  closed_empty = λ h. ground arith;
  closed_stopped = λ h. ground arith;
  held = v.held;
  no_lease = v.no_lease;
  token_word = v.token_word;
  lease_low = v.lease_low;
  lease_high = v.lease_high;
  others_closed = v.others_closed;
  others_stopped = λ e k. ground (arith, v.others_stopped e, v.closed_stopped);
  event_created = ground arith;
  conn_opened = v.conn_opened;
}

-- What a close leaves.
pub close_unlocked-IsEmpty :
    (s : SyncBase) → IsValid s → IsEmpty (close_unlocked s) × ((close_unlocked s).closed ≡ true)
unfolding close_unlocked
close_unlocked-IsEmpty s v =
    (record { no_conn = ground arith; no_token = ground arith }, ground arith)

-- A second `_close_unlocked` changes nothing.
pub close_unlocked_idem : (s : SyncBase) → close_unlocked (close_unlocked s) ≡ close_unlocked s
unfolding close_unlocked
close_unlocked_idem s = ground arith

pub stop_renew-conn :
    (s : SyncBase) → ((stop_renew s).conn ≡ s.conn) × ((stop_renew s).token ≡ s.token)
unfolding stop_renew
stop_renew-conn s = ground arith

-- From a state that satisfies the invariant, `_reset_for_new_attempt` ends in one that satisfies
-- it and has neither connection nor token and is not closed.
pub reset_for_new_attempt-IsValid :
    (s : SyncBase)
    → IsValid s
    → IsValid (reset_for_new_attempt s)
      × IsEmpty (reset_for_new_attempt s)
      × ((reset_for_new_attempt s).closed ≡ false)
unfolding reset_for_new_attempt
reset_for_new_attempt-IsValid s v =
    let stopped = stop_renew-IsValid s v in
    let shut = close_unlocked-IsValid (stop_renew s) stopped in
    let (empty, closed) = close_unlocked-IsEmpty (stop_renew s) stopped in
    (
      rearm-IsValid (close_unlocked (stop_renew s)) shut closed,
      unfold rearm in record { no_conn = empty.no_conn; no_token = empty.no_token },
      unfold rearm in refl,
    )
