-- ===== src/Async/Invariant/Defs.antt =====
-- The invariant of an async lock object.
use dflockd_client_py.Base.{ℕ, ◌<◌, ◌≡◌, ◌≢◌, true, none, some, Str, any, ◌==◌, false}
use dflockd_client_py.Base.Int.{pos, ◌≤ℤ◌}
use dflockd_client_py.Text.Words.Laws.{IsWord}
use dflockd_client_py.Protocol.Validate.{max_protocol_seconds}
use dflockd_client_py.Async.State.{AsyncBase}

pub record IsValid (s : AsyncBase) : Type 0 where
  -- A closed object has neither connection nor renew task.
  pub closed_empty : s.closed ≡ true → s.conn ≡ none
  pub closed_stopped : s.closed ≡ true → s.renew_task ≡ none
  -- A token goes with a connection and a lease time that the protocol allows.
  pub held : s.conn ≡ none → s.token ≡ none
  pub no_lease : s.token ≡ none → s.lease ≡ pos 0
  pub token_word : (token : Str) → s.token ≡ some token → IsWord token
  pub lease_low : s.token ≢ none → pos 1 ≤ℤ s.lease
  pub lease_high : s.token ≢ none → s.lease ≤ℤ pos max_protocol_seconds
  -- All other connections that were ever opened are closed.
  pub others_closed : (i : ℕ) → s.conn ≢ some i → (s.conns i).closed ≡ true
  pub conn_opened : (i : ℕ) → s.conn ≡ some i → i < s.opened
  -- No task runs but the object's own, and none while it waits in the queue.
  pub one_renewer : (e : ℕ) → any (λ d. d == e) s.running ≡ true → s.renew_task ≡ some e
  pub idle : s.token ≡ none → s.conn ≢ none → s.renew_task ≡ none

-- The object has neither connection nor token nor lease time.
pub record IsEmpty (s : AsyncBase) : Type 0 where
  pub no_conn : s.conn ≡ none
  pub no_token : s.token ≡ none
  pub zero_lease : s.lease ≡ pos 0

-- A token, an open connection and a renew task that runs.
abbrev pub IsHolding : AsyncBase → Type 0
IsHolding s =
    (token : Str) × (i : ℕ) × (e : ℕ) × (s.token ≡ some token)
    × (s.conn ≡ some i)
    × ((s.conns i).closed ≡ false)
    × (s.renew_task ≡ some e)
    × (any (λ d. d == e) s.running ≡ true)
