-- ===== src/Sync/Renewal/Steps/Late.antt =====
-- What the renew thread can still do to an object that was closed.
use dflockd_client_py.Base.{ℕ, zero, suc, ◌≡◌, ◌⊎◌, inl, inr, refl, true, false, arith, ap, ◌∙◌}
use dflockd_client_py.Base.Int.{ℤ}
use dflockd_client_py.Sync.State.{SyncBase}
use dflockd_client_py.Sync.Renewal.{end_thread}
use dflockd_client_py.Sync.Renewal.Steps.{
  Place, asleep, answered, unstopped, tested, ended, ends_at, may_update, thread_step, thread_steps,
}

abbrev with_lease : ℤ → SyncBase → SyncBase
with_lease z s = record s { lease = z }

-- What the thread can still do to a closed object from a place, when its event is set: it ends,
-- and only if the test of `_update_lease` had passed before, it stores the lease time first.
abbrev pub EndsLate : Place → ℕ → SyncBase → SyncBase → Type 0
EndsLate (tested z) e s u = (u ≡ s) ⊎ (u ≡ with_lease z s) ⊎ (u ≡ end_thread e (with_lease z s))
EndsLate asleep e s u = (u ≡ s) ⊎ (u ≡ end_thread e s)
EndsLate (answered z) e s u = (u ≡ s) ⊎ (u ≡ end_thread e s)
EndsLate (unstopped z) e s u = (u ≡ s) ⊎ (u ≡ end_thread e s)
EndsLate ended e s u = (u ≡ s) ⊎ (u ≡ end_thread e s)

steps-ended : (n e : ℕ) (s : SyncBase) → thread_steps n e (ended, s) ≡ (ended, s)
unfolding thread_steps
steps-ended zero e s = refl
steps-ended (suc n) e s = steps-ended n e s

-- The rest of the steps, from what the first one gives.
steps-after :
    (n e : ℕ) (x y : Place × SyncBase)
    → thread_step e x ≡ y
    → thread_steps (suc n) e x ≡ thread_steps n e y
unfolding thread_steps
steps-after n e x y q = ap (thread_steps n e) q

step-asleep : (e : ℕ) (s : SyncBase) → s.events e ≡ true → thread_step e (asleep, s) ≡ ends_at e s
unfolding thread_step
step-asleep e s set = rw set refl

step-answered :
    (e : ℕ) (z : ℤ) (s : SyncBase) → s.events e ≡ true → thread_step e (answered z, s) ≡ ends_at e s
unfolding thread_step
step-answered e z s set = rw set refl

-- A step after which the thread has ended.
ends-after :
    (n e : ℕ) (p : Place) (s : SyncBase)
    → thread_step e (p, s) ≡ ends_at e s
    → thread_steps (suc n) e (p, s) ≡ ends_at e s
ends-after n e p s q = steps-after n e (p, s) (ends_at e s) q ∙ steps-ended n e (end_thread e s)

steps-asleep :
    (n e : ℕ) (s : SyncBase)
    → s.events e ≡ true
    → ((thread_steps n e (asleep, s)).1 ≡ s) ⊎ ((thread_steps n e (asleep, s)).1 ≡ end_thread e s)
steps-asleep zero e s set = inl (unfold thread_steps in refl)
steps-asleep (suc n) e s set = inr (ap (λ x. x.1) (ends-after n e asleep s (step-asleep e s set)))

closed_fails : (z : ℤ) (s : SyncBase) → s.closed ≡ true → may_update z s ≡ false
closed_fails z s shut = ground (arith, shut)

step-unstopped :
    (e : ℕ) (z : ℤ) (s : SyncBase) → s.closed ≡ true → thread_step e (unstopped z, s) ≡ (asleep, s)
unfolding thread_step
step-unstopped e z s shut = rw (closed_fails z s shut) refl

steps-unstopped :
    (n e : ℕ) (z : ℤ) (s : SyncBase)
    → s.closed ≡ true
    → thread_steps (suc n) e (unstopped z, s) ≡ thread_steps n e (asleep, s)
steps-unstopped n e z s shut =
    steps-after n e (unstopped z, s) (asleep, s) (step-unstopped e z s shut)

steps-tested :
    (n e : ℕ) (z : ℤ) (s : SyncBase)
    → thread_steps (suc n) e (tested z, s) ≡ thread_steps n e (asleep, with_lease z s)
unfolding thread_steps
steps-tested n e z s = refl

no_steps : (e : ℕ) (x : Place × SyncBase) → thread_steps 0 e x ≡ x
unfolding thread_steps
no_steps e x = refl

late_state :
    (n e : ℕ) (p : Place) (s : SyncBase)
    → s.closed ≡ true
    → s.events e ≡ true
    → EndsLate p e s (thread_steps n e (p, s)).1
late_state n e asleep s shut set = steps-asleep n e s set
late_state zero e (answered z) s shut set = rw (no_steps e (answered z, s)) (inl refl)
late_state (suc n) e (answered z) s shut set =
    rw (ends-after n e (answered z) s (step-answered e z s set)) (inr refl)
late_state zero e (unstopped z) s shut set = rw (no_steps e (unstopped z, s)) (inl refl)
late_state (suc n) e (unstopped z) s shut set =
    rw (steps-unstopped n e z s shut) (steps-asleep n e s set)
late_state zero e (tested z) s shut set = rw (no_steps e (tested z, s)) (inl refl)
late_state (suc n) e (tested z) s shut set =
    rw (steps-tested n e z s) (inr (steps-asleep n e (with_lease z s) set))
late_state n e ended s shut set = rw (steps-ended n e s) (inl refl)

late_end :
    (e : ℕ) (p : Place) (s : SyncBase)
    → s.closed ≡ true
    → s.events e ≡ true
    → (thread_steps 2 e (p, s)).0 ≡ ended
late_end e asleep s shut set = rw (ends-after 1 e asleep s (step-asleep e s set)) refl
late_end e (answered z) s shut set =
    rw (ends-after 1 e (answered z) s (step-answered e z s set)) refl
late_end e (unstopped z) s shut set =
    rw (steps-unstopped 1 e z s shut, ends-after 0 e asleep s (step-asleep e s set)) refl
late_end e (tested z) s shut set =
    rw
      (
        steps-tested 1 e z s,
        ends-after 0 e asleep (with_lease z s) (step-asleep e (with_lease z s) set),
      )
      refl
late_end e ended s shut set = rw (steps-ended 2 e s) refl

-- On a closed object a renew thread whose stop event is set ends within two steps from wherever
-- it stands, and until then the object stays as it is but for the end of the thread, and for the
-- lease time if the test of `_update_lease` had passed before.
pub thread_steps-EndsLate :
    (n e : ℕ) (p : Place) (s : SyncBase)
    → s.closed ≡ true
    → s.events e ≡ true
    → EndsLate p e s (thread_steps n e (p, s)).1 × ((thread_steps 2 e (p, s)).0 ≡ ended)
thread_steps-EndsLate n e p s shut set = (late_state n e p s shut set, late_end e p s shut set)
