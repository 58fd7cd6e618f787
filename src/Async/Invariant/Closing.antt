-- ===== src/Async/Invariant/Closing.antt =====
-- The invariant through `_cancel_renew`, `_close_unlocked` and `_reset_for_new_attempt`.
use dflockd_client_py.Async.Conn.{close_nowait}
use dflockd_client_py.Action.{continue}
use dflockd_client_py.Base.Int.{pos}
use dflockd_client_py.Base.{
  ℕ, ◌≡◌, ◌≢◌, ◌⊎◌, inl, inr, refl, true, false, Option, none, some, List, [], ◌∷◌, arith, any,
  ◌==◌, Bool, ◌&&◌, Bool-cases,
}
use dflockd_client_py.Errors.{Error, Result, ok, err, exception, is_subclass, class_of}
use dflockd_client_py.Sync.State.{without}
use dflockd_client_py.Async.State.{
  AsyncBase, await_point, wait_at, end_task, close_conn, close_conn_nowait,
}
use dflockd_client_py.Async.Lifecycle.{
  cancel_and_wait, cancel_held, cancel_renew, close_detached, close_unlocked, detach_conn,
  clear_held_state, is_none,
}
use dflockd_client_py.Async.Invariant.Defs.{IsValid, IsEmpty}

-- The exceptions that no `except Exception` catches.
abbrev pub IsInterrupt : Error → Type 0
IsInterrupt e = is_subclass (class_of e) exception ≡ false

-- What an await leaves: only the list of cancellations is shorter.
abbrev pub Awaited : AsyncBase → Result (Unit {0}) × AsyncBase → Type 0
Awaited s x =
    ((rest : List Bool) × (x.1 ≡ record s { cancels = rest }))
    × ((x.0 ≡ ok tt) ⊎ ((e : Error) × (x.0 ≡ err e) × IsInterrupt e))

wait_at-Awaited : (cs : List Bool) (s : AsyncBase) → Awaited s (wait_at cs s)
unfolding is_subclass
wait_at-Awaited [] s = ((s.cancels, refl), inl refl)
wait_at-Awaited (false ∷ rest) s = ((rest, refl), inl refl)
wait_at-Awaited (true ∷ rest) s = ((rest, refl), inr (_, refl, refl))

pub await_point-Awaited : (s : AsyncBase) → Awaited s (await_point s)
unfolding await_point
await_point-Awaited s = wait_at-Awaited s.cancels s

pub any-without :
    (e d : ℕ) (es : List ℕ)
    → any (λ k. k == d) (without e es) ≡ true
    → (any (λ k. k == d) es ≡ true) × (d ≢ e)
any-without e d [] h = cc
any-without e d (k ∷ es) h = ground (arith, any-without e d es)

pub awaited-IsValid :
    (s : AsyncBase) (cs : List Bool) → IsValid s → IsValid (record s { cancels = cs })
awaited-IsValid s cs v = record {
  closed_empty = v.closed_empty;
  closed_stopped = v.closed_stopped;
  held = v.held;
  no_lease = v.no_lease;
  token_word = v.token_word;
  lease_low = v.lease_low;
  lease_high = v.lease_high;
  others_closed = v.others_closed;
  conn_opened = v.conn_opened;
  one_renewer = v.one_renewer;
  idle = v.idle;
}

-- What a cancellation of the renew task leaves: no task, and nothing else changed.
abbrev pub Cancelled : AsyncBase → Result (Unit {0}) × AsyncBase → Type 0
Cancelled s x =
    ((es : List ℕ) × (cs : List Bool) × (x.1
        ≡ record s { renew_task = none; running = es; cancels = cs })
      × ((e : ℕ) → any (λ d. d == e) es ≢ true))
    × ((x.0 ≡ ok tt) ⊎ ((e : Error) × (x.0 ≡ err e) × IsInterrupt e))

pub cancel_held-Cancelled :
    (task : Option ℕ) (s : AsyncBase)
    → ((e : ℕ) → any (λ d. d == e) s.running ≡ true → task ≡ some e)
    → Cancelled s (cancel_held task (record s { renew_task = none }))
unfolding cancel_and_wait end_task
cancel_held-Cancelled none s one =
    ((s.running, s.cancels, refl, (λ e h. ground (arith, one e h))), inl refl)
cancel_held-Cancelled (some k) s one =
    let quiet : (e : ℕ) → any (λ d. d == e) (without k s.running) ≢ true =
      λ e h. let (runs, other) = any-without k e s.running h in ground (arith, one e runs, other) in
    let t : AsyncBase = record s { renew_task = none; running = without k s.running } in
    let ((rest, same), outcome) = await_point-Awaited t in
    ((without k s.running, rest, same, quiet), outcome)

pub cancel_renew-Cancelled : (s : AsyncBase) → IsValid s → Cancelled s (cancel_renew s)
unfolding cancel_renew
cancel_renew-Cancelled s v = cancel_held-Cancelled s.renew_task s v.one_renewer

pub cancelled-IsValid :
    (s : AsyncBase) (es : List ℕ) (cs : List Bool)
    → ((e : ℕ) → any (λ d. d == e) es ≢ true)
    → IsValid s
    → IsValid (record s { renew_task = none; running = es; cancels = cs })
cancelled-IsValid s es cs quiet v = record {
  closed_empty = v.closed_empty;
  closed_stopped = λ h. refl;
  held = v.held;
  no_lease = v.no_lease;
  token_word = v.token_word;
  lease_low = v.lease_low;
  lease_high = v.lease_high;
  others_closed = v.others_closed;
  conn_opened = v.conn_opened;
  one_renewer = λ e h. absurd (quiet e h);
  idle = λ h k. refl;
}

-- How a close ends, and in which state.
abbrev pub Closed : Result (Unit {0}) × AsyncBase → Type 0
Closed x =
    IsValid x.1
    × IsEmpty x.1
    × (x.1.closed ≡ true)
    × ((x.0 ≡ ok tt) ⊎ ((e : Error) × (x.0 ≡ err e) × IsInterrupt e))

-- An object without connection and token, all of whose connections are closed.
emptied-IsValid :
    (s : AsyncBase)
    → s.closed ≡ true
    → s.conn ≡ none
    → s.token ≡ none
    → s.lease ≡ pos 0
    → s.renew_task ≡ none
    → ((i : ℕ) → (s.conns i).closed ≡ true)
    → ((e : ℕ) → any (λ d. d == e) s.running ≢ true)
    → IsValid s
emptied-IsValid s closed no_conn no_token lease no_task shut quiet = record {
  closed_empty = λ h. no_conn;
  closed_stopped = λ h. no_task;
  held = λ h. no_token;
  no_lease = λ h. lease;
  token_word = λ t h. ground (arith, no_token);
  lease_low = λ h. absurd (h no_token);
  lease_high = λ h. absurd (h no_token);
  others_closed = λ i h. shut i;
  conn_opened = λ i h. ground (arith, no_conn);
  one_renewer = λ e h. absurd (quiet e h);
  idle = λ h k. no_task;
}

-- The state in which `_close_unlocked` begins to wait.
abbrev detached : AsyncBase → AsyncBase
detached s = record s { closed = true; conn = none; token = none; lease = pos 0 }

-- The end of the renew task of a detached object.
detached-Closed :
    (s : AsyncBase) (x : Result (Unit {0}) × AsyncBase)
    → ((i : ℕ) → (s.conns i).closed ≡ true)
    → Cancelled (detached s) x
    → Closed x
detached-Closed s (r, t) shut ((es, cs, same, quiet), outcome) = rw same (
  emptied-IsValid (record (detached s) { renew_task = none; running = es; cancels = cs }) refl refl
      refl refl refl shut quiet,
  record { no_conn = refl; no_token = refl; zero_lease = refl },
  refl,
  outcome,
)

-- A further wait for the closed transport.
close_conn-Closed :
    (i : ℕ) (x : Result (Unit {0}) × AsyncBase)
    → Closed x
    → Closed (continue x (λ _ t. close_conn i t))
unfolding close_conn close_nowait
close_conn-Closed i (err e, t) closed = closed
close_conn-Closed i (ok _, t) (v, empty, shut, outcome) =
    let u : AsyncBase = close_conn_nowait i t in
    let ((rest, same), ends) = await_point-Awaited u in
    let w : AsyncBase = record u { cancels = rest } in
    let w-IsValid : IsValid w =
      unfold close_nowait in
      emptied-IsValid w shut empty.no_conn empty.no_token empty.zero_lease (v.closed_stopped shut)
        (λ j. ground (arith, v.others_closed j, empty.no_conn))
        (λ e h. ground (arith, v.one_renewer e h, v.closed_stopped shut)) in
    let closed : Closed (await_point u) = rw same (
      w-IsValid,
      record { no_conn = empty.no_conn; no_token = empty.no_token; zero_lease = empty.zero_lease },
      shut,
      ends,
    ) in
    closed

close_detached-Closed :
    (held : Option ℕ) (s : AsyncBase)
    → s.conn ≡ held
    → IsValid s
    → Closed (close_detached held (detached s))
unfolding cancel_renew close_nowait
close_detached-Closed none s q v =
    detached-Closed s (cancel_renew (detached s)) (λ i. v.others_closed i (ground (arith, q)))
      (cancel_held-Cancelled s.renew_task (detached s) v.one_renewer)
close_detached-Closed (some i) s q v =
    close_conn-Closed i (cancel_renew (close_conn_nowait i (detached s))) (
      detached-Closed (close_conn_nowait i s) (cancel_renew (close_conn_nowait i (detached s)))
        (λ j. ground (arith, v.others_closed j, q))
        (cancel_held-Cancelled s.renew_task (close_conn_nowait i (detached s)) v.one_renewer))

pub close_unlocked-Closed : (s : AsyncBase) → IsValid s → Closed (close_unlocked s)
unfolding close_unlocked detach_conn clear_held_state
close_unlocked-Closed s v = elim (Bool-cases (s.closed && is_none s.conn && is_none s.renew_task)) [
  | inr other ↦ rw other (close_detached-Closed s.conn s refl v)
  | inl gone ↦
      let shut : s.closed ≡ true = ground arith in
      let no_conn : s.conn ≡ none = v.closed_empty shut in
      rw gone (
        emptied-IsValid (record s { token = none; lease = pos 0 }) shut no_conn refl refl
            (v.closed_stopped shut) (λ i. v.others_closed i (ground (arith, no_conn)))
            (λ e h. ground (arith, v.one_renewer e h, v.closed_stopped shut)),
        record { no_conn = no_conn; no_token = refl; zero_lease = refl },
        shut,
        inl refl,
      )
]
