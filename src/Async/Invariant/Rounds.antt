-- ===== src/Async/Invariant/Rounds.antt =====
-- The invariant through a round of the async renew loop, and through sequences of calls and rounds.
use dflockd_client_py.Base.{
  ℕ, ◌≤◌, ◌≡◌, inl, inr, refl, Bool-cases, Bool, Option, none, some, Str, arith, List,
}
use dflockd_client_py.Base.Int.{ℤ, pos}
use dflockd_client_py.Errors.{
  Error, Result, ok, err, Result-cases, exception, is_subclass, class_of,
}
use dflockd_client_py.Protocol.Validate.{max_protocol_seconds}
use dflockd_client_py.Protocol.Decode.{parse_renew_response}
use dflockd_client_py.Protocol.Decode.Grants.{parse_renew_response_sound}
use dflockd_client_py.Sync.State.{Config, Dial}
use dflockd_client_py.Async.Conn.{close_nowait}
use dflockd_client_py.Async.State.{AsyncBase, initial, end_task}
use dflockd_client_py.Async.Hooks.{proto_renew, construct, post_init}
use dflockd_client_py.Async.Lifecycle.{clear_held_state}
use dflockd_client_py.Async.Renewal.{
  handle_renew_failure, settle_renew, safe_renew_once, renew_if_held, renew_tick, update_lease,
  after_tick, loop_round, Event, perform, step, Reach, here, next,
}
use dflockd_client_py.Async.Invariant.Defs.{IsValid}
use dflockd_client_py.Async.Invariant.Touch.{Touches, refused, sent, proto_renew-Touches}
use dflockd_client_py.Async.Invariant.Closing.{any-without, close_unlocked-Closed}
use dflockd_client_py.Async.Invariant.Grants.{update-IsValid}
use dflockd_client_py.Async.Invariant.Calls.{
  acquire_unlocked-AcquireDecided, enqueue_unlocked-EnqueueDecided,
}
use dflockd_client_py.Async.Invariant.Ends.{
  wait_unlocked-WaitDecided, release_unlocked-ReleaseCloses,
}

handle_renew_failure-IsValid :
    (i : ℕ) (s : AsyncBase) → s.conn ≡ some i → IsValid s → IsValid (handle_renew_failure i s)
unfolding handle_renew_failure clear_held_state close_nowait
handle_renew_failure-IsValid i s q v = record {
  closed_empty = λ h. ground (arith, v.closed_empty);
  closed_stopped = λ h. ground (arith, v.closed_stopped);
  held = λ h. ground (arith, v.held);
  no_lease = λ h. ground (arith, v.no_lease);
  token_word = λ t h. ground (arith, v.token_word t);
  lease_low = λ h. ground (arith, v.lease_low);
  lease_high = λ h. ground (arith, v.lease_high);
  others_closed = λ j h. ground (arith, v.others_closed j);
  conn_opened = λ j h. ground (arith, v.conn_opened j);
  one_renewer = λ e h. ground (arith, v.one_renewer e);
  idle = λ h k. ground (arith, v.idle);
}

update_lease-IsValid :
    (n : ℕ) (s : AsyncBase)
    → n ≤ max_protocol_seconds
    → IsValid s
    → IsValid (update_lease (pos n) s)
unfolding update_lease
update_lease-IsValid n s l v = record {
  closed_empty = λ h. ground (arith, v.closed_empty);
  closed_stopped = λ h. ground (arith, v.closed_stopped);
  held = λ h. ground (arith, v.held);
  no_lease = λ h. ground (arith, v.no_lease);
  token_word = λ t h. ground (arith, v.token_word t);
  lease_low = λ h. ground (arith, v.lease_low);
  lease_high = λ h. ground (arith, v.lease_high, l);
  others_closed = λ j h. ground (arith, v.others_closed j);
  conn_opened = λ j h. ground (arith, v.conn_opened j);
  one_renewer = λ e h. ground (arith, v.one_renewer e);
  idle = λ h k. ground (arith, v.idle);
}

end_task-IsValid : (e : ℕ) (s : AsyncBase) → IsValid s → IsValid (end_task e s)
unfolding end_task
end_task-IsValid e s v = record {
  closed_empty = v.closed_empty;
  closed_stopped = v.closed_stopped;
  held = v.held;
  no_lease = v.no_lease;
  token_word = v.token_word;
  lease_low = v.lease_low;
  lease_high = v.lease_high;
  others_closed = v.others_closed;
  conn_opened = v.conn_opened;
  one_renewer = λ d h. v.one_renewer d (any-without e d s.running h).0;
  idle = v.idle;
}

-- A tick whose time is within the protocol's limit.
abbrev Ticked : Result (Option ℤ) × AsyncBase → Type 0
Ticked x =
    IsValid x.1 × ((z : ℤ) → x.0 ≡ ok (some z) → (n : ℕ) × (z ≡ pos n) × (n ≤ max_protocol_seconds))

failed-Ticked :
    (i : ℕ) (e : Error) (s : AsyncBase)
    → s.conn ≡ some i
    → IsValid s
    → Ticked (settle_renew i (err e, s))
failed-Ticked i e s q v = elim (Bool-cases (is_subclass (class_of e) exception)) [
  | inl known ↦ rw known (handle_renew_failure-IsValid i s q v, λ z h. absurd (ground arith))
  | inr other ↦ rw other (v, λ z h. absurd (ground arith))
]

settle_renew-Ticked :
    (i : ℕ) (s : AsyncBase) (x : Result ℤ × AsyncBase)
    → s.conn ≡ some i
    → IsValid s
    → Touches i s parse_renew_response x
    → Ticked (settle_renew i x)
settle_renew-Ticked i s x q v (refused y p) = rw p (failed-Ticked i y s q v)
settle_renew-Ticked i s (err y, t) q v (sent c p f) =
    failed-Ticked i y t (ground arith) (rw p (update-IsValid i s c q v))
settle_renew-Ticked i s (ok z, t) q v (sent c p f) =
    let (is_open, (resp, op, parsed)) = f z refl in
    let (n, value, low) = parse_renew_response_sound resp op {z = z} parsed in
    (rw p (update-IsValid i s c q v), λ y h. (n, ground arith, low))

renew_if_held-Ticked :
    (held : Option ℕ) (token : Option Str) (s : AsyncBase)
    → s.conn ≡ held
    → IsValid s
    → Ticked (renew_if_held held token s)
renew_if_held-Ticked none token s q v = (v, λ z h. absurd (ground arith))
renew_if_held-Ticked (some i) none s q v = (v, λ z h. absurd (ground arith))
renew_if_held-Ticked (some i) (some token) s q v =
    settle_renew-Ticked i s (proto_renew s.config.kind i token s) q v
      (proto_renew-Touches i s s.config.kind token)

renew_tick-Ticked : (s : AsyncBase) → IsValid s → Ticked (renew_tick s)
unfolding renew_tick safe_renew_once
renew_tick-Ticked s v = elim (Bool-cases s.closed) [
  | inl shut ↦ simp shut (v, λ z h. absurd (ground arith))
  | inr runs ↦ simp runs (renew_if_held-Ticked s.conn s.token s refl v)
]

after_tick-IsValid :
    (e : ℕ) (x : Result (Option ℤ) × AsyncBase) → Ticked x → IsValid (after_tick e x)
after_tick-IsValid e (err y, s) (v, f) = end_task-IsValid e s v
after_tick-IsValid e (ok none, s) (v, f) = end_task-IsValid e s v
after_tick-IsValid e (ok (some z), s) (v, f) =
    let (n, value, low) = f z refl in rw value (update_lease-IsValid n s low v)

pub loop_round-IsValid : (e : ℕ) (s : AsyncBase) → IsValid s → IsValid (loop_round e s)
unfolding loop_round
loop_round-IsValid e s v = after_tick-IsValid e (renew_tick s) (renew_tick-Ticked s v)

-- ----- sequences

pub perform-IsValid : (x : Event) (s : AsyncBase) → IsValid s → IsValid (perform x s)
unfolding perform
perform-IsValid Event.acquire s v = (acquire_unlocked-AcquireDecided s v).0
perform-IsValid Event.enqueue s v = (enqueue_unlocked-EnqueueDecided s v).0
perform-IsValid Event.release s v = (release_unlocked-ReleaseCloses s v).0
perform-IsValid Event.close s v = (close_unlocked-Closed s v).0
perform-IsValid (Event.wait t) s v = (wait_unlocked-WaitDecided t s v).0
perform-IsValid (Event.round e) s v = loop_round-IsValid e s v

-- The object as it is constructed.
pub initial-IsValid :
    (c : Config) (dials : List Dial) (cs : List Bool) → IsValid (initial c dials cs)
initial-IsValid c dials cs = record {
  closed_empty = λ h. refl;
  closed_stopped = λ h. refl;
  held = λ h. refl;
  no_lease = λ h. refl;
  token_word = λ t h. ground arith;
  lease_low = λ h. ground arith;
  lease_high = λ h. ground arith;
  others_closed = λ j h. refl;
  conn_opened = λ j h. ground arith;
  one_renewer = λ e h. cc;
  idle = λ h k. refl;
}

pub Reach-IsValid : {s t : AsyncBase} → Reach s t → IsValid s → IsValid t
Reach-IsValid here v = v
Reach-IsValid (next {t = m} r (step x allowed q)) v = rw q (perform-IsValid x m (Reach-IsValid r v))

-- An async object that was constructed without an exception satisfies the invariant IsValid after
-- every sequence of public calls and rounds of running renew tasks, in any order, whatever the
-- servers answer and wherever the callers are cancelled: a closed object has neither connection
-- nor renew task, a token goes with a connection and a lease time from 1 to the limit of the
-- protocol, every connection but the one in use is closed, no renew task runs but the object's
-- own, and there is none while the object waits in the queue.
pub construct-Reach-IsValid :
    (c : Config) (dials : List Dial) (cs : List Bool) {s t : AsyncBase}
    → construct c dials cs ≡ ok s
    → Reach s t
    → IsValid t
unfolding construct
construct-Reach-IsValid c dials cs {s} h r = Reach-IsValid r (elim (Result-cases (post_init c)) [
  | inl (_, q) ↦
      let same : initial c dials cs ≡ s = ground (arith, h, q) in
      rw⁻¹ same (initial-IsValid c dials cs)
  | inr (e, q) ↦ absurd (ground (arith, h, q))
])
