-- ===== src/Sync/Close/Safe.antt =====
-- What is left when a close has finished between the steps of renew threads.
use mathlib.Core.Path.{subst, sym}
use dflockd_client_py.Base.{
  ℕ, ◌≡◌, ◌⊎◌, inl, inr, refl, Bool, true, Bool-cases, Option, Option-cases, none, some, List, [],
  ◌∷◌, arith, ap, if◌then◌else◌, ◌∙◌, ◌==◌,
}
use dflockd_client_py.Sync.Conn.{close}
use dflockd_client_py.Sync.State.{SyncBase, update, close_conn}
use dflockd_client_py.Sync.Invariant.Defs.{IsValid}
use dflockd_client_py.Sync.Close.{
  to_test, to_mark, to_set, to_look, to_shut, to_close, to_drop, to_join, to_clear_token,
  to_clear_lease, finished, closing, renew_thread, look, shutdown_read, Closer, Scene, close_step,
  Turn, take_turn, play,
}
use dflockd_client_py.Sync.Close.Renewers.{renewer_step-Shrinks}
use dflockd_client_py.Sync.Close.Shrinks.{Shrinks}

-- ----- the invariant of a close

-- The connection is in use or closed.
abbrev Kept : ℕ → SyncBase → Type 0
Kept i s = (s.conn ≡ some i) ⊎ ((s.conns i).closed ≡ true)

abbrev Stopped : SyncBase → Type 0
Stopped s = (s.closed ≡ true) × (s.events s.stop_event ≡ true)

abbrev Doomed : ℕ → ℕ → SyncBase → Type 0
Doomed i j s = (j ≡ i) ⊎ ((s.conns i).closed ≡ true)

abbrev Lost : ℕ → SyncBase → Type 0
Lost i s = (s.conn ≡ none) × ((s.conns i).closed ≡ true)

-- What holds of an object that is closed already.
abbrev Resting : ℕ → SyncBase → Type 0
Resting i s = Lost i s × (s.events s.stop_event ≡ true) × (s.token ≡ none)

-- There is no renew thread, unless the object was closed when the close began.
abbrev pub Joined : Bool → SyncBase → Type 0
Joined was_closed s = (was_closed ≡ true) ⊎ (s.renew_thread ≡ none)

-- What holds of the object and its connection `i` where the closing thread stands, `b` saying
-- whether the object was closed when the close began.
abbrev Safe : Bool → ℕ → Closer → SyncBase → Type 0
Safe b i to_test s = Kept i s × (s.closed ≡ b) × (b ≡ true → Resting i s)
Safe b i to_mark s = Kept i s
Safe b i to_set s = Kept i s × (s.closed ≡ true)
Safe b i to_look s = Kept i s × Stopped s
Safe b i (to_shut j) s = Doomed i j s × Stopped s
Safe b i (to_close j) s = Doomed i j s × Stopped s
Safe b i to_drop s = ((s.conns i).closed ≡ true) × Stopped s
Safe b i to_join s = Lost i s × Stopped s
Safe b i to_clear_token s = Lost i s × Stopped s × Joined b s
Safe b i to_clear_lease s = Lost i s × Stopped s × Joined b s × (s.token ≡ none)
Safe b i finished s = Lost i s × Stopped s × Joined b s × (s.token ≡ none)

Kept-Shrinks : (i : ℕ) (s t : SyncBase) → Shrinks s t → Kept i s → Kept i t
Kept-Shrinks i s t h (inr shut) = inr (h.closed_stay i shut)
Kept-Shrinks i s t h (inl has) = elim h.conn_left [
  | inl same ↦ inl (same ∙ has)
  | inr (alone, lost) ↦ inr (lost i has)
]

Stopped-Shrinks : (s t : SyncBase) → Shrinks s t → Stopped s → Stopped t
Stopped-Shrinks s t h (shut, set) =
    (h.same_closed ∙ shut, ground (arith, h.same_events, h.same_stop, set))

Doomed-Shrinks : (i j : ℕ) (s t : SyncBase) → Shrinks s t → Doomed i j s → Doomed i j t
Doomed-Shrinks i j s t h (inl q) = inl q
Doomed-Shrinks i j s t h (inr shut) = inr (h.closed_stay i shut)

Lost-Shrinks : (i : ℕ) (s t : SyncBase) → Shrinks s t → Lost i s → Lost i t
Lost-Shrinks i s t h (alone, shut) = elim h.conn_left [
  | inl same ↦ (same ∙ alone, h.closed_stay i shut)
  | inr (gone, lost) ↦ (gone, h.closed_stay i shut)
]

token-Shrinks : (s t : SyncBase) → Shrinks s t → s.token ≡ none → t.token ≡ none
token-Shrinks s t h free = elim h.token_left [ inl same ↦ same ∙ free | inr gone ↦ gone ]

Resting-Shrinks : (i : ℕ) (s t : SyncBase) → Shrinks s t → Resting i s → Resting i t
Resting-Shrinks i s t h (lost, set, free) = (
  Lost-Shrinks i s t h lost,
  ground (arith, h.same_events, h.same_stop, set),
  token-Shrinks s t h free,
)

Joined-Shrinks : (b : Bool) (s t : SyncBase) → Shrinks s t → Joined b s → Joined b t
Joined-Shrinks b s t h (inl was) = inl was
Joined-Shrinks b s t h (inr thread) = inr (h.same_thread ∙ thread)

-- A renew thread keeps what holds where the closing thread stands.
Safe-Shrinks :
    (b : Bool) (i : ℕ) (c : Closer) (s t : SyncBase) → Shrinks s t → Safe b i c s → Safe b i c t
Safe-Shrinks b i to_test s t h (kept, same, rests) =
    (Kept-Shrinks i s t h kept, h.same_closed ∙ same, λ was. Resting-Shrinks i s t h (rests was))
Safe-Shrinks b i to_mark s t h kept = Kept-Shrinks i s t h kept
Safe-Shrinks b i to_set s t h (kept, shut) = (Kept-Shrinks i s t h kept, h.same_closed ∙ shut)
Safe-Shrinks b i to_look s t h (kept, stopped) =
    (Kept-Shrinks i s t h kept, Stopped-Shrinks s t h stopped)
Safe-Shrinks b i (to_shut j) s t h (doomed, stopped) =
    (Doomed-Shrinks i j s t h doomed, Stopped-Shrinks s t h stopped)
Safe-Shrinks b i (to_close j) s t h (doomed, stopped) =
    (Doomed-Shrinks i j s t h doomed, Stopped-Shrinks s t h stopped)
Safe-Shrinks b i to_drop s t h (shut, stopped) =
    (h.closed_stay i shut, Stopped-Shrinks s t h stopped)
Safe-Shrinks b i to_join s t h (lost, stopped) =
    (Lost-Shrinks i s t h lost, Stopped-Shrinks s t h stopped)
Safe-Shrinks b i to_clear_token s t h (lost, stopped, thread) =
    (Lost-Shrinks i s t h lost, Stopped-Shrinks s t h stopped, Joined-Shrinks b s t h thread)
Safe-Shrinks b i to_clear_lease s t h (lost, stopped, thread, free) = (
  Lost-Shrinks i s t h lost,
  Stopped-Shrinks s t h stopped,
  Joined-Shrinks b s t h thread,
  token-Shrinks s t h free,
)
Safe-Shrinks b i finished s t h (lost, stopped, thread, free) = (
  Lost-Shrinks i s t h lost,
  Stopped-Shrinks s t h stopped,
  Joined-Shrinks b s t h thread,
  token-Shrinks s t h free,
)

-- The connection that is looked at is the one in question, or that one is closed.
in_use-Doomed : (i j : ℕ) (s : SyncBase) → s.conn ≡ some j → Kept i s → Doomed i j s
in_use-Doomed i j s q (inl has) = inl (ground (arith, q, has))
in_use-Doomed i j s q (inr shut) = inr shut

shut-Doomed :
    (i j : ℕ) (s : SyncBase)
    → Doomed i j s
    → Doomed i j (record s { conns = update s.conns j (shutdown_read (s.conns j)) })
unfolding shutdown_read
shut-Doomed i j s (inl same) = inl same
shut-Doomed i j s (inr shut) = inr (ground (arith, shut))

closed-Doomed : (i j : ℕ) (s : SyncBase) → Doomed i j s → ((close_conn j s).conns i).closed ≡ true
unfolding close
closed-Doomed i j s (inl same) = ground (arith, same)
closed-Doomed i j s (inr shut) = ground (arith, shut)

-- The closing thread's step leads to what holds at its next place.
looked-Safe :
    (b : Bool) (i : ℕ) (conn : Option ℕ) (s : SyncBase)
    → s.conn ≡ conn
    → Kept i s
    → Stopped s
    → Safe b i (look conn) s
looked-Safe b i none s q kept stopped = ((q, ground (arith, kept, q)), stopped)
looked-Safe b i (some j) s q kept stopped = (in_use-Doomed i j s q kept, stopped)

tested-Safe :
    (b : Bool) (i : ℕ) (held : Option ℕ) (s : SyncBase)
    → Safe b i to_test s
    → Safe b i (close_step to_test held s).0 (close_step to_test held s).1
tested-Safe b i held s (kept, same, rests) = elim (Bool-cases s.closed) [
  | inl shut ↦
      let was : b ≡ true = sym same ∙ shut in
      let (lost, set, free) = rests was in
      leads (finished, s) (ap (λ c. if c then (finished, s) else (to_mark, s)) shut)
        (lost, (shut, set), inl was, free)
  | inr alive ↦ leads (to_mark, s) (ap (λ c. if c then (finished, s) else (to_mark, s)) alive) kept
]
  where
    leads :
        (y : Closer × SyncBase)
        → close_step to_test held s ≡ y
        → Safe b i y.0 y.1
        → Safe b i (close_step to_test held s).0 (close_step to_test held s).1
    leads y q safe = subst (λ z. Safe b i z.0 z.1) (sym q) safe

close_step-Safe :
    (b : Bool) (i : ℕ) (c : Closer) (held : Option ℕ) (s : SyncBase)
    → Safe b i c s
    → Safe b i (close_step c held s).0 (close_step c held s).1
close_step-Safe b i to_test held s safe = tested-Safe b i held s safe
close_step-Safe b i to_mark held s kept = (kept, refl)
close_step-Safe b i to_set held s (kept, shut) = (kept, (shut, ground arith))
close_step-Safe b i to_look held s (kept, stopped) = looked-Safe b i s.conn s refl kept stopped
close_step-Safe b i (to_shut j) held s (doomed, stopped) = (shut-Doomed i j s doomed, stopped)
close_step-Safe b i (to_close j) none s (doomed, stopped) = (closed-Doomed i j s doomed, stopped)
close_step-Safe b i (to_close j) (some e) s (doomed, stopped) = (doomed, stopped)
close_step-Safe b i to_drop held s (shut, stopped) = ((refl, shut), stopped)
close_step-Safe b i to_join held s (lost, stopped) = (lost, stopped, inr refl)
close_step-Safe b i to_clear_token held s (lost, stopped, thread) = (lost, stopped, thread, refl)
close_step-Safe b i to_clear_lease held s safe = safe
close_step-Safe b i finished held s safe = safe

take_turn-Safe :
    (b : Bool) (i : ℕ) (t : Turn) (x : Scene)
    → Safe b i x.closer x.object
    → Safe b i (take_turn t x).closer (take_turn t x).object
unfolding take_turn
take_turn-Safe b i closing x safe = close_step-Safe b i x.closer x.io_lock x.object safe
take_turn-Safe b i (renew_thread e) x safe =
    Safe-Shrinks b i x.closer x.object _ (renewer_step-Shrinks e (x.renewers e) x.io_lock x.object)
      safe

play-Safe :
    (b : Bool) (i : ℕ) (ts : List Turn) (x : Scene)
    → Safe b i x.closer x.object
    → Safe b i (play ts x).closer (play ts x).object
unfolding play
play-Safe b i [] x safe = safe
play-Safe b i (t ∷ ts) x safe = play-Safe b i ts (take_turn t x) (take_turn-Safe b i t x safe)

-- ----- the end of a close

-- The object is closed and holds nothing, and all its connections are closed.
abbrev pub ClosesAll : Bool → SyncBase → Type 0
ClosesAll was_closed s =
    (s.closed ≡ true)
    × (s.conn ≡ none)
    × (s.token ≡ none)
    × Joined was_closed s
    × (s.events s.stop_event ≡ true)
    × ((i : ℕ) → (s.conns i).closed ≡ true)

-- With a state that satisfies the invariant each connection is in use or closed.
IsValid-Kept : (i : ℕ) (s : SyncBase) → IsValid s → Kept i s
IsValid-Kept i s v = elim (Option-cases s.conn) [
  | inl alone ↦ inr (v.others_closed i (λ q. ground (arith, alone, q)))
  | inr (j, has) ↦ elim (Bool-cases (j == i)) [
    | inl same ↦ inl (ground (arith, has, same))
    | inr other ↦ inr (v.others_closed i (λ q. ground (arith, has, other, q)))
  ]
]

-- So an object that is closed holds nothing.
IsValid-Resting : (i : ℕ) (s : SyncBase) → IsValid s → s.closed ≡ true → Resting i s
IsValid-Resting i s v shut =
    let alone = v.closed_empty shut in
    (
      (alone, v.others_closed i (λ q. ground (arith, alone, q))),
      v.closed_stopped shut,
      v.held alone,
    )

finished-ClosesAll :
    (b : Bool) (c : Closer) (s : SyncBase) → c ≡ finished → ((i : ℕ) → Safe b i c s) → ClosesAll b s
finished-ClosesAll b c s q safe =
    let end : (i : ℕ) → Safe b i finished s = λ i. subst (λ d. Safe b i d s) q (safe i) in
    let (lost, stopped, thread, free) = end 0 in
    (stopped.0, lost.0, free, thread, stopped.1, λ i. (end i).0.1)

-- When a close that begins on an object that satisfies the invariant has finished, whatever steps
-- of renew threads came between its steps and in whatever order, with renewals under way or begun
-- meanwhile and whatever the server answers, the object is closed with neither connection nor
-- token, its stop event is set, every connection that it ever opened is closed, and there is no
-- renew thread unless the object was closed already when the close began.
pub play-ClosesAll :
    (ts : List Turn) (x : Scene)
    → IsValid x.object
    → x.closer ≡ to_test
    → (play ts x).closer ≡ finished
    → ClosesAll x.object.closed (play ts x).object
play-ClosesAll ts x v begins ends =
    let b = x.object.closed in
    finished-ClosesAll b (play ts x).closer (play ts x).object ends (λ i. play-Safe b i ts x (
      subst (λ c. Safe b i c x.object) (sym begins)
        (IsValid-Kept i x.object v, refl, IsValid-Resting i x.object v)))
