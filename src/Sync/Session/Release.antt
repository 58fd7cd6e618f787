-- ===== src/Sync/Session/Release.antt =====
-- `release` of a lock that is held, when the server confirms it.
use dflockd_client_py.Base.{
  ℕ, ◌≡◌, refl, true, false, Bool, some, none, ◌++◌, [], ◌∷◌, Str, Bytes, codes, arith, ap, ◌∙◌,
}
use dflockd_client_py.Base.Int.{pos}
use dflockd_client_py.Errors.{Result, ok}
use dflockd_client_py.Protocol.Encode.{op_label}
use dflockd_client_py.Protocol.Decode.{parse_release_response}
use dflockd_client_py.Sync.Conn.{SyncConn, close}
use dflockd_client_py.Sync.Conn.Wire.{IsResponse, command_reads}
use dflockd_client_py.Sync.Commands.{release}
use dflockd_client_py.Sync.State.{lock, Config, SyncBase, update, command_at}
use dflockd_client_py.Sync.Hooks.{proto_release}
use dflockd_client_py.Sync.Lifecycle.{
  release_unlocked, send_release_quietly, safe_release, stop_renew, close_unlocked,
  tear_down_conn_and_thread, begin_close, shutdown_and_close_conn, join_renew_thread,
  clear_held_state,
}
use dflockd_client_py.Sync.Session.{IsLive, IsHeld, lock_commands}

pub parse_release_response-ok : (op : Str) → parse_release_response (codes "ok") op ≡ ok tt
unfolding parse_release_response
parse_release_response-ok op = ground arith

proto_release-released :
    (i : ℕ) (s : SyncBase) (c : SyncConn) (token arg : Str) (renewing releasing : Bytes)
    (b rest : Bytes)
    → IsHeld s.config token arg renewing releasing
    → s.conns i ≡ c
    → c.closed ≡ false
    → c.troubles ≡ []
    → c.inbox ≡ b ++ (10 ∷ rest)
    → IsResponse (codes "ok") b
    → proto_release lock i token s ≡ (
      ok tt,
      record s {
        conns =
            update s.conns i
              (record c { timeout = 30; inbox = rest; outbox = c.outbox ++ releasing });
      },
    )
unfolding proto_release release command_at
proto_release-released i s c token arg renewing releasing b rest ready at is_open quiet sent resp =
    rw
      (
        lock_commands.0,
        ready.key_valid,
        ready.token_valid,
        lock_commands.2,
        at,
        command_reads (codes "r") s.config.key token 30 (codes "ok") b rest releasing c
            (omega arith) is_open quiet sent resp ready.releasing_built,
      )
      (rw (parse_release_response-ok (op_label [] (codes "release"))) refl)

-- The lock is given up: nothing is held, the stop event is set, and the connection `i` is closed,
-- on which the client has sent `sent` and the server's `rest` is unread.
abbrev pub GivenUp : ℕ → Bytes → Bytes → SyncBase → Type 0
GivenUp i sent rest s =
    (s.conn ≡ none)
    × (s.token ≡ none)
    × (s.lease ≡ pos 0)
    × (s.renew_thread ≡ none)
    × (s.closed ≡ true)
    × (s.events s.stop_event ≡ true)
    × ((s.conns i).closed ≡ true)
    × ((s.conns i).outbox ≡ sent)
    × ((s.conns i).inbox ≡ rest)

abbrev pub Released : ℕ → Bytes → Bytes → Result Bool × SyncBase → Type 0
Released i sent rest x = (x.0 ≡ ok true) × GivenUp i sent rest x.1

abbrev released : ℕ → SyncBase → Bytes → Bytes → SyncBase
released i s releasing rest = record s {
  conns =
      update s.conns i (record (s.conns i) {
        timeout = 30;
        inbox = rest;
        outbox = (s.conns i).outbox ++ releasing;
      });
}

close_unlocked-Released :
    (i : ℕ) (out rest : Bytes) (s : SyncBase)
    → s.conn ≡ some i
    → s.closed ≡ false
    → (s.conns i).outbox ≡ out
    → (s.conns i).inbox ≡ rest
    → Released i out rest (ok true, close_unlocked s)
unfolding close_unlocked tear_down_conn_and_thread begin_close shutdown_and_close_conn
    join_renew_thread clear_held_state close
close_unlocked-Released i out rest s has alive sent left = ground (arith, sent, left)

send_release_quietly-released :
    (c : Config) (i : ℕ) (token arg : Str) (renewing releasing : Bytes) (b rest : Bytes)
    (s : SyncBase)
    → IsHeld c token arg renewing releasing
    → s.config ≡ c
    → s.conn ≡ some i
    → s.token ≡ some token
    → (s.conns i).closed ≡ false
    → (s.conns i).troubles ≡ []
    → (s.conns i).inbox ≡ b ++ (10 ∷ rest)
    → IsResponse (codes "ok") b
    → send_release_quietly s ≡ (ok true, released i s releasing rest)
unfolding send_release_quietly safe_release
send_release_quietly-released c i token arg renewing releasing b rest s ready config has held
      is_open quiet sent resp =
    simp
      (
        has,
        held,
        ap (λ d. d.kind) config,
        ready.a_lock,
        proto_release-released i s (s.conns i) token arg renewing releasing b rest (rw config ready)
            refl is_open quiet sent resp,
      )
      refl

-- The thread is told to stop before the command goes out.
stop_renew-keeps :
    (s : SyncBase)
    → ((stop_renew s).config ≡ s.config)
      × ((stop_renew s).conn ≡ s.conn)
      × ((stop_renew s).token ≡ s.token)
      × ((stop_renew s).closed ≡ s.closed)
      × ((stop_renew s).conns ≡ s.conns)
unfolding stop_renew
stop_renew-keeps s = ground arith

pub release_unlocked-Released :
    (c : Config) (i : ℕ) (token arg : Str) (renewing releasing : Bytes) (b rest sent : Bytes)
    (s : SyncBase)
    → IsHeld c token arg renewing releasing
    → IsLive c i token sent (b ++ (10 ∷ rest)) s
    → IsResponse (codes "ok") b
    → Released i (sent ++ releasing) rest (release_unlocked s)
unfolding release_unlocked
release_unlocked-Released c i token arg renewing releasing b rest sent s ready live resp =
    let (config, has, held, alive, conns) = stop_renew-keeps s in
    let conn_is : (stop_renew s).conns i ≡ s.conns i = ap (λ f. f i) conns in
    rw
      (send_release_quietly-released c i token arg renewing releasing b rest (stop_renew s) ready
        (config ∙ live.config) (has ∙ live.conn) (held ∙ live.held)
        (ap (λ d. d.closed) conn_is ∙ live.is_open) (ap (λ d. d.troubles) conn_is ∙ live.quiet)
        (ap (λ d. d.inbox) conn_is ∙ live.inbox) resp)
      (close_unlocked-Released i (sent ++ releasing) rest (released i (stop_renew s) releasing rest)
        (has ∙ live.conn) (alive ∙ live.alive)
        (ground (arith, ap (λ d. d.outbox) conn_is, live.outbox)) (ground arith))
