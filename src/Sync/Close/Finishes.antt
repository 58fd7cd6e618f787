-- ===== src/Sync/Close/Finishes.antt =====
-- A close can always finish: a renew thread that has `_io_lock` can free it.
use mathlib.Core.Path.{subst, sym}
use dflockd_client_py.Base.{
  ℕ, zero, suc, ◌≤◌, ◌≡◌, ◌≢◌, ◌⊎◌, inl, inr, refl, Bool-cases, Option, Option-cases, none, some,
  List, [], ◌∷◌, ◌++◌, Str, arith, ap, ◌∙◌, ◌==◌, ◌||◌,
}
use dflockd_client_py.Base.Int.{ℤ}
use dflockd_client_py.Errors.{Result, ok, err}
use dflockd_client_py.Sync.State.{SyncBase, update}
use dflockd_client_py.Sync.Hooks.{proto_renew}
use dflockd_client_py.Sync.Renewal.{settle_renew}
use dflockd_client_py.Sync.Renewal.Steps.{asleep, answered, unstopped, tested, ended}
use dflockd_client_py.Sync.Close.{
  renewing, at, to_test, to_mark, to_set, to_look, to_shut, to_close, to_drop, to_join,
  to_clear_token, to_clear_lease, finished, closing, renew_thread, look, begin_renewal, wake,
  Closer, Renewer, Scene, Moved, close_step, renewer_step, end_renewal, Turn, take_turn, play,
}

-- The thread that has the lock waits for an answer.
abbrev pub LockIsBusy : Scene → Type 0
LockIsBusy x =
    (e : ℕ) → x.io_lock ≡ some e → (i : ℕ) × (token : Str) × (x.renewers e ≡ renewing i token)

-- How a step leaves the lock.
abbrev Hands : ℕ → Renewer → Option ℕ → Moved → Type 0
Hands e r held m =
    ((m.0 ≡ held) × ((i : ℕ) (token : Str) → r ≢ renewing i token))
    ⊎ (m.0 ≡ none)
    ⊎ ((m.0 ≡ some e) × ((i : ℕ) × (token : Str) × (m.1 ≡ renewing i token)))

begin-Hands :
    (e : ℕ) (r : Renewer) (conn : Option ℕ) (token : Option Str) (s : SyncBase)
    → Hands e r none (begin_renewal e conn token s)
begin-Hands e r none token s = inr (inl refl)
begin-Hands e r (some i) none s = inr (inl refl)
begin-Hands e r (some i) (some token) s = inr (inr (refl, (i, token, refl)))

wake-Hands : (e : ℕ) (held : Option ℕ) (s : SyncBase) → Hands e (at asleep) held (wake e held s)
wake-Hands e (some d) s = inl (refl, λ i token q. absurd (ground arith))
wake-Hands e none s = elim (Bool-cases (s.closed || s.events e)) [
  | inl over ↦ rw over (inr (inl refl))
  | inr going ↦ rw going (begin-Hands e (at asleep) s.conn s.token s)
]

end_renewal-frees : (e : ℕ) (x : Result (Option ℤ) × SyncBase) → (end_renewal e x).0 ≡ none
end_renewal-frees e (err y, t) = refl
end_renewal-frees e (ok none, t) = refl
end_renewal-frees e (ok (some z), t) = refl

renewer_step-Hands :
    (e : ℕ) (r : Renewer) (held : Option ℕ) (s : SyncBase)
    → Hands e r held (renewer_step e r held s)
renewer_step-Hands e (renewing i token) held s = inr (inl (end_renewal-frees e _))
renewer_step-Hands e (at asleep) held s = elim (Bool-cases (s.events e)) [
  | inl stopped ↦ rw stopped (inl (refl, λ i token q. absurd (ground arith)))
  | inr going ↦ rw going (wake-Hands e held s)
]
renewer_step-Hands e (at (answered z)) held s = inl (refl, λ i token q. absurd (ground arith))
renewer_step-Hands e (at (unstopped z)) held s = inl (refl, λ i token q. absurd (ground arith))
renewer_step-Hands e (at (tested z)) held s = inl (refl, λ i token q. absurd (ground arith))
renewer_step-Hands e (at ended) held s = inl (refl, λ i token q. absurd (ground arith))

-- The threads after a step of one of them.
handed-LockIsBusy :
    (e : ℕ) (held : Option ℕ) (renewers : ℕ → Renewer) (m : Moved)
    → ((d : ℕ) → held ≡ some d → (i : ℕ) × (token : Str) × (renewers d ≡ renewing i token))
    → Hands e (renewers e) held m
    → (d : ℕ) → m.0 ≡ some d
    → (i : ℕ) × (token : Str) × (update renewers e m.1 d ≡ renewing i token)
handed-LockIsBusy e held renewers m busy (inl (same, other)) d q =
    let (i, token, waits) = busy d (sym same ∙ q) in
    elim (Bool-cases (e == d)) [
      | inl mine ↦ absurd (other i token (ground (arith, waits, mine)))
      | inr not_mine ↦ (i, token, rw not_mine waits)
    ]
handed-LockIsBusy e held renewers m busy (inr (inl free)) d q = absurd (ground (arith, free, q))
handed-LockIsBusy e held renewers m busy (inr (inr (mine, (i, token, waits)))) d q =
    (i, token, ground (arith, waits, mine, q))

take_turn-LockIsBusy : (t : Turn) (x : Scene) → LockIsBusy x → LockIsBusy (take_turn t x)
unfolding take_turn
take_turn-LockIsBusy closing x busy = busy
take_turn-LockIsBusy (renew_thread e) x busy =
    handed-LockIsBusy e x.io_lock x.renewers (renewer_step e (x.renewers e) x.io_lock x.object) busy
      (renewer_step-Hands e (x.renewers e) x.io_lock x.object)

play-LockIsBusy : (ts : List Turn) (x : Scene) → LockIsBusy x → LockIsBusy (play ts x)
unfolding play
play-LockIsBusy [] x busy = busy
play-LockIsBusy (t ∷ ts) x busy = play-LockIsBusy ts (take_turn t x) (take_turn-LockIsBusy t x busy)

-- ----- the closing thread alone

-- How many steps are left.
abbrev left : Closer → ℕ
left to_test = 10
left to_mark = 9
left to_set = 8
left to_look = 7
left (to_shut i) = 6
left (to_close i) = 5
left to_drop = 4
left to_join = 3
left to_clear_token = 2
left to_clear_lease = 1
left finished = 0

look-left : (conn : Option ℕ) → left (look conn) ≤ 6
look-left none = omega arith
look-left (some i) = omega arith

close_step-left :
    (c : Closer) (s : SyncBase) (n : ℕ) → left c ≤ suc n → left (close_step c none s).0 ≤ n
close_step-left to_test s n h = ground (arith, h)
close_step-left to_mark s n h = omega (arith, h)
close_step-left to_set s n h = omega (arith, h)
close_step-left to_look s n h = omega (arith, h, look-left s.conn)
close_step-left (to_shut i) s n h = omega (arith, h)
close_step-left (to_close i) s n h = omega (arith, h)
close_step-left to_drop s n h = omega (arith, h)
close_step-left to_join s n h = omega (arith, h)
close_step-left to_clear_token s n h = omega (arith, h)
close_step-left to_clear_lease s n h = omega (arith, h)
close_step-left finished s n h = omega arith

none_left : (c : Closer) → left c ≤ 0 → c ≡ finished
none_left finished h = refl
none_left to_test h = absurd (omega (arith, h))
none_left to_mark h = absurd (omega (arith, h))
none_left to_set h = absurd (omega (arith, h))
none_left to_look h = absurd (omega (arith, h))
none_left (to_shut i) h = absurd (omega (arith, h))
none_left (to_close i) h = absurd (omega (arith, h))
none_left to_drop h = absurd (omega (arith, h))
none_left to_join h = absurd (omega (arith, h))
none_left to_clear_token h = absurd (omega (arith, h))
none_left to_clear_lease h = absurd (omega (arith, h))

abbrev closings : ℕ → List Turn
closings zero = []
closings (suc n) = closing ∷ closings n

closings-finish :
    (n : ℕ) (x : Scene)
    → x.io_lock ≡ none
    → left x.closer ≤ n
    → (play (closings n) x).closer ≡ finished
unfolding play take_turn
closings-finish zero x free few = none_left x.closer few
closings-finish (suc n) x free few = closings-finish n (take_turn closing x) free (
    subst (λ held. left (close_step x.closer held x.object).0 ≤ n) (sym free)
      (close_step-left x.closer x.object n few))

left-bound : (c : Closer) → left c ≤ 10
left-bound to_test = omega arith
left-bound to_mark = omega arith
left-bound to_set = omega arith
left-bound to_look = omega arith
left-bound (to_shut i) = omega arith
left-bound (to_close i) = omega arith
left-bound to_drop = omega arith
left-bound to_join = omega arith
left-bound to_clear_token = omega arith
left-bound to_clear_lease = omega arith
left-bound finished = omega arith

play-append : (ts us : List Turn) (x : Scene) → play (ts ++ us) x ≡ play us (play ts x)
unfolding play
play-append [] us x = refl
play-append (t ∷ ts) us x = play-append ts us (take_turn t x)

-- The thread that has the lock gets its answer, and then the closing thread goes on.
answered-free :
    (e i : ℕ) (token : Str) (x : Scene)
    → x.renewers e ≡ renewing i token
    → (take_turn (renew_thread e) x).io_lock ≡ none
unfolding take_turn
answered-free e i token x waits =
    rw waits
      (end_renewal-frees e (settle_renew i (proto_renew x.object.config.kind i token x.object)))

goes_on : (x : Scene) → LockIsBusy x → (more : List Turn) × ((play more x).closer ≡ finished)
unfolding play
goes_on x busy = elim (Option-cases x.io_lock) [
  | inl free ↦ (closings 10, closings-finish 10 x free (left-bound x.closer))
  | inr (e, held) ↦
      let (i, token, waits) = busy e held in
      (
        renew_thread e ∷ closings 10,
        closings-finish 10 (take_turn (renew_thread e) x) (answered-free e i token x waits)
            (left-bound (take_turn (renew_thread e) x).closer),
      )
]

-- A close cannot be blocked for good: after any steps of the closing thread and of renew threads,
-- from a scene in which the thread that holds `_io_lock` waits for the answer to a renewal, there
-- are further steps after which the close has finished.
pub play-goes_on :
    (ts : List Turn) (x : Scene)
    → LockIsBusy x
    → (more : List Turn) × ((play (ts ++ more) x).closer ≡ finished)
play-goes_on ts x busy =
    let (more, ends) = goes_on (play ts x) (play-LockIsBusy ts x busy) in
    (more, ap (λ y. y.closer) (play-append ts more x) ∙ ends)
