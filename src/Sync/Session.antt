-- ===== src/Sync/Session.antt =====
-- A lock that is held under a `with` statement: `__enter__`, rounds of the renew thread, and
-- `__exit__`.
pub mod Rows
pub mod Release
pub mod With
use mathlib.Core.Path.{subst, sym}
use dflockd_client_py.Base.{
  ℕ, ◌≡◌, ◌≤◌, refl, true, false, Bool, some, ◌++◌, [], ◌∷◌, Str, Bytes, codes, arith,
  if◌then◌else◌, ap, List, length, All, append_assoc, append-nil, ◌∙◌,
}
use dflockd_client_py.Base.Int.{ℤ, pos}
use dflockd_client_py.Text.Decimal.{show_int}
use dflockd_client_py.Errors.{ok}
use dflockd_client_py.Protocol.Validate.{
  validate_prefix, validate_key, validate_token, max_protocol_seconds,
}
use dflockd_client_py.Protocol.Encode.{encode_lines, make_renew_arg, cmd_name, op_label}
use dflockd_client_py.Protocol.Decode.Grants.{parse_renew_response-show_int}
use dflockd_client_py.Sync.Conn.{SyncConn}
use dflockd_client_py.Sync.Conn.Wire.{IsResponse, command_reads}
use dflockd_client_py.Sync.Commands.{renew}
use dflockd_client_py.Sync.State.{lock, Config, SyncBase, update, command_at}
use dflockd_client_py.Sync.Hooks.{proto_renew}
use dflockd_client_py.Sync.Renewal.{loop_round, renew_tick, safe_renew_once, update_lease}
use dflockd_client_py.Sync.Renewal.Ends.{runs, renew_loop}

-- The lock is held with the token on the connection `i`, on which the client has sent `sent` and
-- the server still sends `rest`.
pub record IsLive (c : Config) (i : ℕ) (token : Str) (sent rest : Bytes) (s : SyncBase)
    : Type 0 where
  pub config : s.config ≡ c
  pub conn : s.conn ≡ some i
  pub held : s.token ≡ some token
  pub alive : s.closed ≡ false
  pub unset : s.events s.stop_event ≡ false
  pub runs_renewal : runs s.stop_event s ≡ true
  pub is_open : (s.conns i).closed ≡ false
  pub outbox : (s.conns i).outbox ≡ sent
  pub inbox : (s.conns i).inbox ≡ rest
  pub quiet : (s.conns i).troubles ≡ []

-- The frames with which a lock renews and releases.
pub record IsHeld (c : Config) (token arg : Str) (renewing releasing : Bytes) : Type 0 where
  pub a_lock : c.kind ≡ lock
  pub key_valid : validate_key (codes "key") c.key ≡ ok tt
  pub token_valid : validate_token token ≡ ok tt
  pub arg_built : make_renew_arg token c.lease_ttl_s ≡ ok arg
  pub renewing_built : encode_lines (codes "n" ∷ c.key ∷ arg ∷ []) ≡ ok renewing
  pub releasing_built : encode_lines (codes "r" ∷ c.key ∷ token ∷ []) ≡ ok releasing

pub lock_commands :
    (validate_prefix [] ≡ ok tt)
    × (cmd_name [] (codes "n") ≡ ok (codes "n"))
    × (cmd_name [] (codes "r") ≡ ok (codes "r"))
unfolding validate_prefix cmd_name
lock_commands = ground arith

-- ----- renewals

abbrev pub renewed_line : ℕ → Str
renewed_line n = codes "ok " ++ show_int (pos n)

proto_renew-renewed :
    (i : ℕ) (s : SyncBase) (c : SyncConn) (token arg : Str) (renewing releasing : Bytes) (n : ℕ)
    (b rest : Bytes)
    → IsHeld s.config token arg renewing releasing
    → s.conns i ≡ c
    → c.closed ≡ false
    → c.troubles ≡ []
    → c.inbox ≡ b ++ (10 ∷ rest)
    → IsResponse (renewed_line n) b
    → n ≤ max_protocol_seconds
    → proto_renew lock i token s ≡ (
      ok (pos n),
      record s {
        conns =
            update s.conns i
              (record c { timeout = 5; inbox = rest; outbox = c.outbox ++ renewing });
      },
    )
unfolding proto_renew renew command_at
proto_renew-renewed i s c token arg renewing releasing n b rest ready at is_open quiet sent resp
      le =
    rw
      (
        lock_commands.0,
        ready.key_valid,
        ready.arg_built,
        lock_commands.1,
        at,
        command_reads (codes "n") s.config.key arg 5 (renewed_line n) b rest renewing c
            (omega arith) is_open quiet sent resp ready.renewing_built,
      )
      (rw (parse_renew_response-show_int (op_label [] (codes "renew")) n le) refl)

-- The object once the renewal was answered.
abbrev renewed : ℕ → SyncBase → Bytes → Bytes → SyncBase
renewed i s renewing rest = record s {
  conns =
      update s.conns i
        (record (s.conns i) { timeout = 5; inbox = rest; outbox = (s.conns i).outbox ++ renewing });
}

renew_tick-renewed :
    (c : Config) (i : ℕ) (token arg : Str) (renewing releasing : Bytes) (n : ℕ)
    (b rest sent : Bytes) (s : SyncBase)
    → IsHeld c token arg renewing releasing
    → IsLive c i token sent (b ++ (10 ∷ rest)) s
    → IsResponse (renewed_line n) b
    → n ≤ max_protocol_seconds
    → renew_tick s.stop_event s ≡ (ok (some (pos n)), renewed i s renewing rest)
unfolding renew_tick safe_renew_once
renew_tick-renewed c i token arg renewing releasing n b rest sent s ready live resp le =
    simp
      (
        live.alive,
        live.unset,
        live.conn,
        live.held,
        ap (λ d. d.kind) live.config,
        ready.a_lock,
        proto_renew-renewed i s (s.conns i) token arg renewing releasing n b rest
            (rw live.config ready) refl live.is_open live.quiet live.inbox resp le,
      )
      refl

-- The object with another lease, or the same.
lease-IsLive :
    (c : Config) (i : ℕ) (token : Str) (sent rest : Bytes) (z : ℤ) (s : SyncBase) (b : Bool)
    → IsLive c i token sent rest s
    → IsLive c i token sent rest (if b then record s { lease = z } else s)
      × ((if b then record s { lease = z } else s).stop_event ≡ s.stop_event)
lease-IsLive c i token sent rest z s false live = (live, refl)
lease-IsLive c i token sent rest z s true live = (
  record {
    config = live.config;
    conn = live.conn;
    held = live.held;
    alive = live.alive;
    unset = live.unset;
    runs_renewal = live.runs_renewal;
    is_open = live.is_open;
    outbox = live.outbox;
    inbox = live.inbox;
    quiet = live.quiet;
  },
  refl,
)

update_lease-IsLive :
    (c : Config) (i : ℕ) (token : Str) (sent rest : Bytes) (z : ℤ) (s : SyncBase)
    → IsLive c i token sent rest s
    → IsLive c i token sent rest (update_lease z s) × ((update_lease z s).stop_event ≡ s.stop_event)
unfolding update_lease
update_lease-IsLive c i token sent rest z s live = lease-IsLive c i token sent rest z s _ live

renewed-IsLive :
    (c : Config) (i : ℕ) (token : Str) (sent rest old renewing : Bytes) (s : SyncBase)
    → IsLive c i token sent old s
    → IsLive c i token (sent ++ renewing) rest (renewed i s renewing rest)
renewed-IsLive c i token sent rest old renewing s live = record {
  config = live.config;
  conn = live.conn;
  held = live.held;
  alive = live.alive;
  unset = live.unset;
  runs_renewal = live.runs_renewal;
  is_open = ground (arith, live.is_open);
  outbox = ground (arith, live.outbox);
  inbox = ground arith;
  quiet = ground (arith, live.quiet);
}

-- One answered renewal.
pub loop_round-IsLive :
    (c : Config) (i : ℕ) (token arg : Str) (renewing releasing : Bytes) (n : ℕ)
    (b rest sent : Bytes) (s : SyncBase)
    → IsHeld c token arg renewing releasing
    → IsLive c i token sent (b ++ (10 ∷ rest)) s
    → IsResponse (renewed_line n) b
    → n ≤ max_protocol_seconds
    → IsLive c i token (sent ++ renewing) rest (loop_round s.stop_event s)
      × ((loop_round s.stop_event s).stop_event ≡ s.stop_event)
unfolding loop_round
loop_round-IsLive c i token arg renewing releasing n b rest sent s ready live resp le =
    rw
      (
        live.unset,
        renew_tick-renewed c i token arg renewing releasing n b rest sent s ready live resp le,
      )
      (rw live.unset (
        update_lease-IsLive c i token (sent ++ renewing) rest (pos n) (renewed i s renewing rest)
          (renewed-IsLive c i token sent rest (b ++ (10 ∷ rest)) renewing s live)))
