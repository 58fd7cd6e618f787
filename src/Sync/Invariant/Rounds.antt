-- ===== src/Sync/Invariant/Rounds.antt =====
-- The invariant through a round of `_renew_loop`, and through sequences of calls and rounds.
use dflockd_client_py.Base.{
  ℕ, ◌≤◌, ◌≡◌, inl, inr, refl, Bool-cases, Option, none, some, Str, arith, List, ◌||◌,
}
use dflockd_client_py.Base.Int.{ℤ, pos}
use dflockd_client_py.Errors.{
  Error, Result, ok, err, Result-cases, exception, is_subclass, class_of,
}
use dflockd_client_py.Protocol.Validate.{max_protocol_seconds}
use dflockd_client_py.Protocol.Decode.{parse_renew_response}
use dflockd_client_py.Protocol.Decode.Grants.{parse_renew_response_sound}
use dflockd_client_py.Sync.Conn.{close}
use dflockd_client_py.Sync.State.{SyncBase, Config, Dial, initial}
use dflockd_client_py.Sync.Hooks.{proto_renew, construct, post_init}
use dflockd_client_py.Sync.Lifecycle.{clear_held_state}
use dflockd_client_py.Sync.Renewal.{
  handle_renew_failure, settle_renew, safe_renew_once, renew_if_held, renew_tick, update_lease,
  end_thread, after_tick, loop_round, Event, perform, step, Reach, here, next,
}
use dflockd_client_py.Sync.Invariant.Defs.{IsValid}
use dflockd_client_py.Sync.Invariant.Touch.{Touches, refused, sent, proto_renew-Touches}
use dflockd_client_py.Sync.Invariant.Closing.{close_unlocked-IsValid}
use dflockd_client_py.Sync.Invariant.Grants.{update-IsValid}
use dflockd_client_py.Sync.Invariant.Calls.{
  acquire_unlocked-Decided, enqueue_unlocked-EnqueueDecided,
}
use dflockd_client_py.Sync.Invariant.Ends.{
  wait_unlocked-WaitDecided, release_unlocked-ReleaseDecided,
}

handle_renew_failure-IsValid :
    (i : ℕ) (s : SyncBase) → s.conn ≡ some i → IsValid s → IsValid (handle_renew_failure i s)
unfolding handle_renew_failure clear_held_state close
handle_renew_failure-IsValid i s q v = record {
  closed_empty = λ h. ground arith;
  closed_stopped = λ h. ground (arith, v.closed_stopped);
  held = λ h. ground arith;
  no_lease = λ h. ground arith;
  token_word = λ t h. ground arith;
  lease_low = λ h. ground arith;
  lease_high = λ h. ground arith;
  others_closed = λ j h. ground (arith, v.others_closed j);
  others_stopped = λ e h. ground (arith, v.others_stopped e);
  event_created = ground (arith, v.event_created);
  conn_opened = λ j h. ground arith;
}

update_lease-IsValid :
    (n : ℕ) (s : SyncBase) → n ≤ max_protocol_seconds → IsValid s → IsValid (update_lease (pos n) s)
unfolding update_lease
update_lease-IsValid n s l v = record {
  closed_empty = λ h. ground (arith, v.closed_empty);
  closed_stopped = λ h. ground (arith, v.closed_stopped);
  held = λ h. ground (arith, v.held);
  no_lease = λ h. ground (arith, v.no_lease);
  token_word = λ t h. ground (arith, v.token_word t);
  lease_low = λ h. ground (arith, v.lease_low);
  lease_high = λ h. ground (arith, v.lease_high, l);
  others_closed = λ j h. ground (arith, v.others_closed j);
  others_stopped = λ e h. ground (arith, v.others_stopped e);
  event_created = ground (arith, v.event_created);
  conn_opened = λ j h. ground (arith, v.conn_opened j);
}

end_thread-IsValid : (e : ℕ) (s : SyncBase) → IsValid s → IsValid (end_thread e s)
unfolding end_thread
end_thread-IsValid e s v = record {
  closed_empty = v.closed_empty;
  closed_stopped = v.closed_stopped;
  held = v.held;
  no_lease = v.no_lease;
  token_word = v.token_word;
  lease_low = v.lease_low;
  lease_high = v.lease_high;
  others_closed = v.others_closed;
  others_stopped = v.others_stopped;
  event_created = v.event_created;
  conn_opened = v.conn_opened;
}

-- A tick whose time is within the protocol's limit.
abbrev Ticked : Result (Option ℤ) × SyncBase → Type 0
Ticked x =
    IsValid x.1 × ((z : ℤ) → x.0 ≡ ok (some z) → (n : ℕ) × (z ≡ pos n) × (n ≤ max_protocol_seconds))

failed-Ticked :
    (i : ℕ) (e : Error) (s : SyncBase)
    → s.conn ≡ some i
    → IsValid s
    → Ticked (settle_renew i (err e, s))
failed-Ticked i e s q v = elim (Bool-cases (is_subclass (class_of e) exception)) [
  | inl known ↦ rw known (handle_renew_failure-IsValid i s q v, λ z h. absurd (ground arith))
  | inr other ↦ rw other (v, λ z h. absurd (ground arith))
]

settle_renew-Ticked :
    (i : ℕ) (s : SyncBase) (x : Result ℤ × SyncBase)
    → s.conn ≡ some i
    → IsValid s
    → Touches i s parse_renew_response x
    → Ticked (settle_renew i x)
settle_renew-Ticked i s x q v (refused y p) = rw p (failed-Ticked i y s q v)
settle_renew-Ticked i s (err y, t) q v (sent c p f) =
    failed-Ticked i y t (ground arith) (rw p (update-IsValid i s c q v))
settle_renew-Ticked i s (ok z, t) q v (sent c p f) =
    let (is_open, (resp, op, parsed)) = f z refl in
    let (n, value, low) = parse_renew_response_sound resp op {z = z} parsed in
    (rw p (update-IsValid i s c q v), λ y h. (n, ground arith, low))

renew_if_held-Ticked :
    (held : Option ℕ) (token : Option Str) (s : SyncBase)
    → s.conn ≡ held
    → IsValid s
    → Ticked (renew_if_held held token s)
renew_if_held-Ticked none token s q v = (v, λ z h. absurd (ground arith))
renew_if_held-Ticked (some i) none s q v = (v, λ z h. absurd (ground arith))
renew_if_held-Ticked (some i) (some token) s q v =
    settle_renew-Ticked i s (proto_renew s.config.kind i token s) q v
      (proto_renew-Touches s.config.kind i token s)

renew_tick-Ticked : (e : ℕ) (s : SyncBase) → IsValid s → Ticked (renew_tick e s)
unfolding renew_tick safe_renew_once
renew_tick-Ticked e s v = elim (Bool-cases (s.closed || s.events e)) [
  | inl stopped ↦ rw stopped ((v, λ z h. absurd (ground arith)))
  | inr runs ↦ rw runs (renew_if_held-Ticked s.conn s.token s refl v)
]

after_tick-IsValid :
    (e : ℕ) (x : Result (Option ℤ) × SyncBase) → Ticked x → IsValid (after_tick e x)
after_tick-IsValid e (err y, s) (v, f) = end_thread-IsValid e s v
after_tick-IsValid e (ok none, s) (v, f) = end_thread-IsValid e s v
after_tick-IsValid e (ok (some z), s) (v, f) = elim (Bool-cases (s.events e)) [
  | inl stopped ↦ rw stopped (end_thread-IsValid e s v)
  | inr runs ↦ let (n, value, low) = f z refl in rw (runs, value) (update_lease-IsValid n s low v)
]

-- From a state that satisfies the invariant, one round of the renew loop of a thread, for any
-- stop event, ends in a state that satisfies it.
pub loop_round-IsValid : (e : ℕ) (s : SyncBase) → IsValid s → IsValid (loop_round e s)
unfolding loop_round
loop_round-IsValid e s v = elim (Bool-cases (s.events e)) [
  | inl stopped ↦ rw stopped (end_thread-IsValid e s v)
  | inr runs ↦ rw runs (after_tick-IsValid e (renew_tick e s) (renew_tick-Ticked e s v))
]

-- ----- sequences

pub perform-IsValid : (x : Event) (s : SyncBase) → IsValid s → IsValid (perform x s)
unfolding perform
perform-IsValid Event.acquire s v = (acquire_unlocked-Decided s v).0
perform-IsValid Event.enqueue s v = (enqueue_unlocked-EnqueueDecided s v).0
perform-IsValid Event.release s v = (release_unlocked-ReleaseDecided s v).0
perform-IsValid Event.close s v = close_unlocked-IsValid s v
perform-IsValid (Event.wait t) s v = (wait_unlocked-WaitDecided t s v).0
perform-IsValid (Event.round e) s v = loop_round-IsValid e s v

-- The object as it is constructed.
pub initial-IsValid : (c : Config) (dials : List Dial) → IsValid (initial c dials)
initial-IsValid c dials = record {
  closed_empty = λ h. ground arith;
  closed_stopped = λ h. ground arith;
  held = λ h. ground arith;
  no_lease = λ h. ground arith;
  token_word = λ t h. ground arith;
  lease_low = λ h. ground arith;
  lease_high = λ h. ground arith;
  others_closed = λ j h. ground arith;
  others_stopped = λ e h. ground arith;
  event_created = ground arith;
  conn_opened = λ j h. ground arith;
}

-- Every sequence of public calls and rounds of running threads, in any order, leads from a state
-- that satisfies the invariant to one that satisfies it.
pub Reach-IsValid : {s t : SyncBase} → Reach s t → IsValid s → IsValid t
Reach-IsValid here v = v
Reach-IsValid (next {t = m} r (step x allowed q)) v = rw q (perform-IsValid x m (Reach-IsValid r v))

-- An object that was constructed without an exception satisfies the invariant IsValid after every
-- sequence of public calls and rounds of running renew threads, in any order and whatever the
-- servers answer: a closed object has no connection and its stop event is set, a token goes with
-- a connection and a lease time from 1 to the limit of the protocol, every connection but the one
-- in use is closed, and every stop event but the current one is set.
pub construct-IsValid :
    (c : Config) (dials : List Dial) {s t : SyncBase}
    → construct c dials ≡ ok s
    → Reach s t
    → IsValid t
unfolding construct
construct-IsValid c dials {s} h r = Reach-IsValid r (elim (Result-cases (post_init c)) [
  | inl (_, q) ↦
      let same : initial c dials ≡ s = ground (arith, h, q) in rw⁻¹ same (initial-IsValid c dials)
  | inr (e, q) ↦ absurd (ground (arith, h, q))
])
