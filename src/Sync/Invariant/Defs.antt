-- ===== src/Sync/Invariant/Defs.antt =====
-- The invariant of a lock object.
use dflockd_client_py.Base.{ℕ, ◌<◌, ◌≡◌, ◌≢◌, true, none, some, Str}
use dflockd_client_py.Base.Int.{pos, ◌≤ℤ◌}
use dflockd_client_py.Text.Words.Laws.{IsWord}
use dflockd_client_py.Protocol.Validate.{max_protocol_seconds}
use dflockd_client_py.Sync.State.{SyncBase}

pub record IsValid (s : SyncBase) : Type 0 where
  -- A closed object has no connection, and its renew thread has been told to stop.
  pub closed_empty : s.closed ≡ true → s.conn ≡ none
  pub closed_stopped : s.closed ≡ true → s.events s.stop_event ≡ true
  -- A token goes with a connection and a lease time that the protocol allows.
  pub held : s.conn ≡ none → s.token ≡ none
  pub no_lease : s.token ≡ none → s.lease ≡ pos 0
  pub token_word : (token : Str) → s.token ≡ some token → IsWord token
  pub lease_low : s.token ≢ none → pos 1 ≤ℤ s.lease
  pub lease_high : s.token ≢ none → s.lease ≤ℤ pos max_protocol_seconds
  -- All other connections that were ever opened are closed.
  pub others_closed : (i : ℕ) → s.conn ≢ some i → (s.conns i).closed ≡ true
  -- All earlier renew threads have been told to stop.
  pub others_stopped : (e : ℕ) → e ≢ s.stop_event → s.events e ≡ true
  pub event_created : s.stop_event < s.created
  pub conn_opened : (i : ℕ) → s.conn ≡ some i → i < s.opened
