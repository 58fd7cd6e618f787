-- ===== src/Sync/Close/Renewers.antt =====
-- The steps of a renew thread only shrink the object.
use dflockd_client_py.Base.{ℕ, inl, inr, Bool-cases, Option, none, some, Str, ◌||◌}
use dflockd_client_py.Base.Int.{ℤ}
use dflockd_client_py.Errors.{Result, ok, err}
use dflockd_client_py.Sync.State.{SyncBase}
use dflockd_client_py.Sync.Hooks.{proto_renew}
use dflockd_client_py.Sync.Renewal.{settle_renew, end_thread}
use dflockd_client_py.Sync.Renewal.Steps.{
  asleep, answered, unstopped, tested, ended, thread_step, may_update,
}
use dflockd_client_py.Sync.Close.{
  renewing, at, begin_renewal, wake, Renewer, renewer_step, end_renewal,
}
use dflockd_client_py.Sync.Close.Shrinks.{
  Shrinks, same-Shrinks, end_thread-Shrinks, lease-Shrinks, settle_renew-Shrinks,
  proto_renew-Shrinks,
}

end_renewal-Shrinks :
    (e : ℕ) (s : SyncBase) (x : Result (Option ℤ) × SyncBase)
    → Shrinks s x.1
    → Shrinks s (end_renewal e x).2
end_renewal-Shrinks e s (err y, t) h = end_thread-Shrinks e s t h
end_renewal-Shrinks e s (ok none, t) h = end_thread-Shrinks e s t h
end_renewal-Shrinks e s (ok (some z), t) h = h

gone-Shrinks : (e : ℕ) (s : SyncBase) → Shrinks s (end_thread e s)
gone-Shrinks e s = end_thread-Shrinks e s s (same-Shrinks s)

begin-Shrinks :
    (e : ℕ) (conn : Option ℕ) (token : Option Str) (s : SyncBase)
    → Shrinks s (begin_renewal e conn token s).2
begin-Shrinks e none token s = gone-Shrinks e s
begin-Shrinks e (some i) none s = gone-Shrinks e s
begin-Shrinks e (some i) (some token) s = same-Shrinks s

wake-Shrinks : (e : ℕ) (held : Option ℕ) (s : SyncBase) → Shrinks s (wake e held s).2
wake-Shrinks e (some d) s = same-Shrinks s
wake-Shrinks e none s = elim (Bool-cases (s.closed || s.events e)) [
  | inl over ↦ rw over (gone-Shrinks e s)
  | inr going ↦ rw going (begin-Shrinks e s.conn s.token s)
]

thread_step-Shrinks :
    (e : ℕ) (z : ℤ) (s : SyncBase)
    → Shrinks s (thread_step e (answered z, s)).1
      × Shrinks s (thread_step e (unstopped z, s)).1
      × Shrinks s (thread_step e (tested z, s)).1
unfolding thread_step
thread_step-Shrinks e z s = (
  elim (Bool-cases (s.events e)) [
    | inl stopped ↦ rw stopped (gone-Shrinks e s)
    | inr going ↦ rw going (same-Shrinks s)
  ],
  elim (Bool-cases (may_update z s)) [
    | inl passes ↦ rw passes (same-Shrinks s)
    | inr fails ↦ rw fails (same-Shrinks s)
  ],
  lease-Shrinks z s,
)

pub renewer_step-Shrinks :
    (e : ℕ) (r : Renewer) (held : Option ℕ) (s : SyncBase) → Shrinks s (renewer_step e r held s).2
renewer_step-Shrinks e (renewing i token) held s =
    end_renewal-Shrinks e s (settle_renew i (proto_renew s.config.kind i token s)) (
      settle_renew-Shrinks i s (proto_renew s.config.kind i token s)
        (proto_renew-Shrinks s.config.kind i token s))
renewer_step-Shrinks e (at asleep) held s = elim (Bool-cases (s.events e)) [
  | inl stopped ↦ rw stopped (gone-Shrinks e s)
  | inr going ↦ rw going (wake-Shrinks e held s)
]
renewer_step-Shrinks e (at (answered z)) held s = (thread_step-Shrinks e z s).0
renewer_step-Shrinks e (at (unstopped z)) held s = (thread_step-Shrinks e z s).1
renewer_step-Shrinks e (at (tested z)) held s = (thread_step-Shrinks e z s).2
renewer_step-Shrinks e (at ended) held s = same-Shrinks s
