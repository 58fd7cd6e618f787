-- ===== src/Examples/Bench/Round.antt =====
-- A round of a worker whose server grants the lock and confirms the release.
use dflockd_client_py.Base.{
  ℕ, ◌+◌, ◌≡◌, refl, false, some, none, List, [], ◌∷◌, ◌++◌, Str, Bytes, codes, arith, ◌≤◌,
}
use dflockd_client_py.Base.Int.{pos}
use dflockd_client_py.Text.Words.Laws.{IsWord}
use dflockd_client_py.Errors.{ok}
use dflockd_client_py.Protocol.Validate.{Scalar, validate_key, validate_token}
use dflockd_client_py.Protocol.Encode.{encode_lines, make_acquire_arg, op_label}
use dflockd_client_py.Protocol.Decode.Grants.{
  granted_line, IsLease, parse_grant_response-granted_line,
}
use dflockd_client_py.Sync.Conn.{SyncConn, command, max_socket_timeout_s}
use dflockd_client_py.Sync.Conn.Wire.{IsResponse, command_reads}
use dflockd_client_py.Sync.Commands.{acquire, release, seconds}
use dflockd_client_py.Sync.Grant.{lock_prefix}
use dflockd_client_py.Sync.Session.{lock_commands}
use dflockd_client_py.Sync.Session.Release.{parse_release_response-ok}
use dflockd_client_py.Examples.Bench.{bench_round}

-- A round as the server sees it: the token and lease time that it grants, the two lines that it
-- answers, and the frame of the release.
pub record Round : Type 0 where
  pub token : Str
  pub lease : ℕ
  pub granting : Bytes
  pub confirming : Bytes
  pub releasing : Bytes

pub record IsRound (key : Str) (x : Round) : Type 0 where
  pub granted : IsResponse (granted_line (codes "ok") x.token x.lease) x.granting
  pub confirmed : IsResponse (codes "ok") x.confirming
  pub word : IsWord x.token
  pub in_range : IsLease x.lease
  pub token_valid : validate_token x.token ≡ ok tt
  pub frame_built : encode_lines (codes "r" ∷ key ∷ x.token ∷ []) ≡ ok x.releasing

-- The frame with which each round acquires, and a timeout that the socket takes.
pub record IsBench (key : Str) (timeout_s : Scalar) (arg : Str) (frame : Bytes) : Type 0 where
  pub key_valid : validate_key (codes "key") key ≡ ok tt
  pub arg_built : make_acquire_arg timeout_s none (some (Scalar.int (pos 10))) ≡ ok arg
  pub frame_built : encode_lines (codes "l" ∷ key ∷ arg ∷ []) ≡ ok frame
  pub timeout_fits : seconds timeout_s + 30 ≤ max_socket_timeout_s

-- What the server sends, and what the worker sends.
abbrev pub answers : List Round → Bytes → Bytes
answers [] rest = rest
answers (x ∷ xs) rest = x.granting ++ (10 ∷ (x.confirming ++ (10 ∷ answers xs rest)))

abbrev pub frames : Bytes → List Round → Bytes
frames frame [] = []
frames frame (x ∷ xs) = frame ++ (x.releasing ++ frames frame xs)

acquire-granted :
    (key : Str) (timeout_s : Scalar) (arg : Str) (frame : Bytes) (x : Round) (rest : Bytes)
    (c : SyncConn)
    → IsBench key timeout_s arg frame
    → IsRound key x
    → c.closed ≡ false
    → c.troubles ≡ []
    → c.inbox ≡ x.granting ++ (10 ∷ rest)
    → acquire command key timeout_s (some (Scalar.int (pos 10))) [] none c ≡ (
      ok (x.token, pos x.lease),
      record c { timeout = seconds timeout_s + 30; inbox = rest; outbox = c.outbox ++ frame },
    )
unfolding acquire
acquire-granted key timeout_s arg frame x rest c ready round is_open quiet sent =
    rw
      (
        lock_prefix.0,
        ready.key_valid,
        ready.arg_built,
        lock_prefix.1,
        command_reads (codes "l") key arg (seconds timeout_s + 30)
            (granted_line (codes "ok") x.token x.lease) x.granting rest frame c ready.timeout_fits
            is_open quiet sent round.granted ready.frame_built,
      )
      (rw
        (parse_grant_response-granted_line (op_label [] (codes "acquire")) x.token x.lease
          round.word round.in_range)
        refl)

release-confirmed :
    (key : Str) (x : Round) (rest : Bytes) (c : SyncConn)
    → validate_key (codes "key") key ≡ ok tt
    → IsRound key x
    → c.closed ≡ false
    → c.troubles ≡ []
    → c.inbox ≡ x.confirming ++ (10 ∷ rest)
    → release command key x.token [] c
      ≡ (ok tt, record c { timeout = 30; inbox = rest; outbox = c.outbox ++ x.releasing })
unfolding release
release-confirmed key x rest c valid round is_open quiet sent =
    rw
      (
        lock_commands.0,
        valid,
        round.token_valid,
        lock_commands.2,
        command_reads (codes "r") key x.token 30 (codes "ok") x.confirming rest x.releasing c
            (omega arith) is_open quiet sent round.confirmed round.frame_built,
      )
      (rw (parse_release_response-ok (op_label [] (codes "release"))) refl)

-- The connection after one round.
abbrev pub after : Bytes → Round → Bytes → SyncConn → SyncConn
after frame x rest c = record c {
  timeout = 30;
  inbox = rest;
  outbox = (c.outbox ++ frame) ++ x.releasing;
}

pub bench_round-after :
    (key : Str) (timeout_s : Scalar) (arg : Str) (frame : Bytes) (x : Round) (rest : Bytes)
    (c : SyncConn)
    → IsBench key timeout_s arg frame
    → IsRound key x
    → c.closed ≡ false
    → c.troubles ≡ []
    → c.inbox ≡ x.granting ++ (10 ∷ (x.confirming ++ (10 ∷ rest)))
    → bench_round key timeout_s c ≡ (ok tt, after frame x rest c)
unfolding bench_round
bench_round-after key timeout_s arg frame x rest c ready round is_open quiet sent =
    rw
      (acquire-granted key timeout_s arg frame x (x.confirming ++ (10 ∷ rest)) c ready round is_open
        quiet sent)
      (release-confirmed key x rest
        (record c {
          timeout = seconds timeout_s + 30;
          inbox = x.confirming ++ (10 ∷ rest);
          outbox = c.outbox ++ frame;
        })
        ready.key_valid round is_open quiet refl)
