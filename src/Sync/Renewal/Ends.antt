-- ===== src/Sync/Renewal/Ends.antt =====
-- The renew thread's `while` loop, and what each of its rounds reads.
use dflockd_client_py.Base.{
  ℕ, zero, suc, ◌<◌, ◌≡◌, ◌⊎◌, inl, inr, refl, Bool, true, false, Bool-cases, Option, none, some,
  List, [], ◌∷◌, Str, length, arith, any, ◌==◌, ◌||◌, if◌then◌else◌,
}
use dflockd_client_py.Base.Int.{ℤ}
use dflockd_client_py.Errors.{Result, ok, err, Result-cases, exception, is_subclass, class_of}
use dflockd_client_py.Action.{lift, continue}
use dflockd_client_py.Protocol.Decode.{parse_renew_response}
use dflockd_client_py.Sync.Conn.{command}
use dflockd_client_py.Sync.Conn.Reads.{command-Reads}
use dflockd_client_py.Sync.State.{SyncBase, command_at, Kind, lock, semaphore, without}
use dflockd_client_py.Protocol.Validate.{Scalar}
use dflockd_client_py.Sync.Commands.{renew, renew_read_timeout_s}
use dflockd_client_py.Sync.Commands.Requests.{renew_sends}
use dflockd_client_py.Sync.Hooks.{proto_renew}
use dflockd_client_py.Sync.Renewal.{
  settle_renew, renew_if_held, safe_renew_once, renew_tick, after_tick, update_lease, end_thread,
  loop_round,
}

abbrev pub runs : ℕ → SyncBase → Bool
runs e s = any (λ d. d == e) s.running

-- `_renew_loop` of the thread `e`, as far as the fuel goes.
unfoldable pub renew_loop : ℕ → ℕ → SyncBase → SyncBase
renew_loop zero e s = s
renew_loop (suc n) e s =
    let t : SyncBase = loop_round e s in let rest = renew_loop n e t in if runs e t then rest else t

-- The bytes that the peer of the connection in use still sends.
abbrev left_on : Option ℕ → SyncBase → ℕ
left_on none s = 0
left_on (some i) s = length (s.conns i).inbox

abbrev pub unread : SyncBase → ℕ
unread s = left_on s.conn s

-- What a renewal read from its connection, if it returned a time.
abbrev Renews : ℕ → SyncBase → Result ℤ × SyncBase → Type 0
Renews i s x =
    (x.1.conn ≡ s.conn)
    × ((z : ℤ) → x.0 ≡ ok z → length (x.1.conns i).inbox < length (s.conns i).inbox)

parsed-Renews :
    (i : ℕ) (cmd key arg : Str) (t : ℕ) (parse : Str → Str → Result ℤ) (op : Str) (s : SyncBase)
    → Renews i s (continue (command_at i cmd key arg t s) (λ resp. lift (parse resp op)))
unfolding command_at
parsed-Renews i cmd key arg t parse op s =
    elim (Result-cases (command cmd key arg t (s.conns i)).0) [
      | inl (line, got) ↦
          simp got (refl, λ z h. ground (arith, command-Reads cmd key arg t (s.conns i) line got))
      | inr (e, failed) ↦ simp failed (refl, λ z h. absurd (ground arith))
    ]

renew-Renews :
    (i : ℕ) (key token : Str) (lease : Option Scalar) (prefix : Str) (t : ℕ) (s : SyncBase)
    → Renews i s (renew (command_at i) key token lease prefix t s)
renew-Renews i key token lease prefix t s =
    elim (renew_sends (command_at i) key token lease prefix t s) [
      | inl (e, q, rejected) ↦ rw q (refl, λ z h. absurd (ground arith))
      | inr (arg, a, b, c, q) ↦ rw q (parsed-Renews i _ _ _ _ parse_renew_response _ s)
    ]

proto_renew-Renews :
    (k : Kind) (i : ℕ) (token : Str) (s : SyncBase) → Renews i s (proto_renew k i token s)
unfolding proto_renew
proto_renew-Renews lock i token s =
    renew-Renews i s.config.key token s.config.lease_ttl_s _ renew_read_timeout_s s
proto_renew-Renews (semaphore limit) i token s =
    renew-Renews i s.config.key token s.config.lease_ttl_s _ renew_read_timeout_s s

-- A tick that gives the loop a time has read a byte at least.
abbrev Ticks : SyncBase → Result (Option ℤ) × SyncBase → Type 0
Ticks s x = (z : ℤ) → x.0 ≡ ok (some z) → unread x.1 < unread s

settle_renew-Ticks :
    (i : ℕ) (s : SyncBase) (x : Result ℤ × SyncBase)
    → s.conn ≡ some i
    → Renews i s x
    → Ticks s (settle_renew i x)
settle_renew-Ticks i s (ok y, t) q (same, f) = λ z h. ground (arith, q, same, f y refl)
settle_renew-Ticks i s (err e, t) q (same, f) =
    elim (Bool-cases (is_subclass (class_of e) exception)) [
      | inl known ↦ simp known (λ z h. absurd (ground arith))
      | inr other ↦ simp other (λ z h. absurd (ground arith))
    ]

renew_if_held-Ticks :
    (conn : Option ℕ) (token : Option Str) (s : SyncBase)
    → s.conn ≡ conn
    → Ticks s (renew_if_held conn token s)
renew_if_held-Ticks none token s q = λ z h. absurd (ground arith)
renew_if_held-Ticks (some i) none s q = λ z h. absurd (ground arith)
renew_if_held-Ticks (some i) (some token) s q =
    settle_renew-Ticks i s (proto_renew s.config.kind i token s) q
      (proto_renew-Renews s.config.kind i token s)

branch-Ticks :
    (s : SyncBase) (b : Bool) (x y : Result (Option ℤ) × SyncBase)
    → Ticks s x
    → Ticks s y
    → Ticks s (if b then x else y)
branch-Ticks s true x y f g = f
branch-Ticks s false x y f g = g

renew_tick-Ticks : (e : ℕ) (s : SyncBase) → Ticks s (renew_tick e s)
unfolding renew_tick safe_renew_once
renew_tick-Ticks e s =
    branch-Ticks s (s.closed || s.events e) _ _ (λ z h. absurd (ground arith))
      (renew_if_held-Ticks s.conn s.token s refl)

-- ----- the loop

any-without : (e : ℕ) (es : List ℕ) → any (λ d. d == e) (without e es) ≡ false
any-without e [] = refl
any-without e (d ∷ es) = ground (arith, any-without e es)

end_thread-runs : (e : ℕ) (s : SyncBase) → runs e (end_thread e s) ≡ false
unfolding end_thread
end_thread-runs e s = any-without e s.running

-- The thread has ended, or it has read.
abbrev Ends : ℕ → SyncBase → SyncBase → Type 0
Ends e s t = (runs e t ≡ false) ⊎ (unread t < unread s)

update_lease-unread : (z : ℤ) (s : SyncBase) → unread (update_lease z s) ≡ unread s
unfolding update_lease
update_lease-unread z s = ground arith

after_tick-Ends :
    (e : ℕ) (s : SyncBase) (x : Result (Option ℤ) × SyncBase)
    → Ticks s x
    → Ends e s (after_tick e x)
after_tick-Ends e s (err y, t) f = inl (end_thread-runs e t)
after_tick-Ends e s (ok none, t) f = inl (end_thread-runs e t)
after_tick-Ends e s (ok (some z), t) f = elim (Bool-cases (t.events e)) [
  | inl stopped ↦ rw stopped (inl (end_thread-runs e t))
  | inr going ↦ rw going (inr (rw (update_lease-unread z t) (f z refl)))
]

loop_round-Ends : (e : ℕ) (s : SyncBase) → Ends e s (loop_round e s)
unfolding loop_round
loop_round-Ends e s = elim (Bool-cases (s.events e)) [
  | inl stopped ↦ rw stopped (inl (end_thread-runs e s))
  | inr going ↦ rw going (after_tick-Ends e s (renew_tick e s) (renew_tick-Ticks e s))
]

-- The loop of a renew thread, with no call in between, ends the thread within one more rounds
-- than there are bytes that the peer of the connection in use still sends.
pub renew_loop_ends : (n e : ℕ) (s : SyncBase) → unread s < n → runs e (renew_loop n e s) ≡ false
unfolding renew_loop
renew_loop_ends zero e s h = elim h [ ]
renew_loop_ends (suc n) e s h = elim (loop_round-Ends e s) [
  | inl ended ↦ rw ended ended
  | inr fewer ↦ elim (Bool-cases (runs e (loop_round e s))) [
    | inr ended ↦ rw ended ended
    | inl going ↦ rw going (renew_loop_ends n e (loop_round e s) (omega (arith, fewer, h)))
  ]
]
