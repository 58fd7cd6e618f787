-- ===== src/Sync/Session/Rows.antt =====
-- Rows of renewals of a lock that is held.
use mathlib.Core.Path.{subst, sym}
use dflockd_client_py.Base.{
  ℕ, ◌≡◌, ◌≤◌, true, ◌++◌, [], ◌∷◌, Str, Bytes, List, length, All, append_assoc, append-nil,
}
use dflockd_client_py.Protocol.Validate.{max_protocol_seconds}
use dflockd_client_py.Sync.Conn.Wire.{IsResponse}
use dflockd_client_py.Sync.State.{Config, SyncBase}
use dflockd_client_py.Sync.Renewal.{loop_round}
use dflockd_client_py.Sync.Renewal.Ends.{runs, renew_loop}
use dflockd_client_py.Sync.Session.{IsLive, IsHeld, renewed_line, loop_round-IsLive}

-- What the server answers to a renewal: the seconds that remain, and the bytes of the line.
pub record Renewal : Type 0 where
  pub remaining : ℕ
  pub bytes : Bytes

pub record IsRenewal (x : Renewal) : Type 0 where
  pub line : IsResponse (renewed_line x.remaining) x.bytes
  pub in_range : x.remaining ≤ max_protocol_seconds

-- The lines one after another, and what follows them.
abbrev pub answers : List Renewal → Bytes → Bytes
answers [] rest = rest
answers (x ∷ xs) rest = x.bytes ++ (10 ∷ answers xs rest)

-- A frame for each renewal.
abbrev pub frames : List Renewal → Bytes → Bytes
frames [] frame = []
frames (x ∷ xs) frame = frame ++ frames xs frame

pub renew_loop-IsLive :
    (c : Config) (i : ℕ) (token arg : Str) (renewing releasing : Bytes) (xs : List Renewal)
    (rest sent : Bytes) (e : ℕ) (s : SyncBase)
    → IsHeld c token arg renewing releasing
    → All IsRenewal xs
    → s.stop_event ≡ e
    → IsLive c i token sent (answers xs rest) s
    → IsLive c i token (sent ++ frames xs renewing) rest (renew_loop (length xs) e s)
unfolding renew_loop
renew_loop-IsLive c i token arg renewing releasing [] rest sent e s ready all q live =
    rw (append-nil sent) live
renew_loop-IsLive c i token arg renewing releasing (x ∷ xs) rest sent e s ready all q live =
    let round =
      loop_round-IsLive c i token arg renewing releasing x.remaining x.bytes (answers xs rest) sent
        s ready live all.0.line all.0.in_range in
    let (again, same) : IsLive c i token (sent ++ renewing) (answers xs rest) (loop_round e s)
        × ((loop_round e s).stop_event ≡ e) =
      subst
        (λ d.
          IsLive c i token (sent ++ renewing) (answers xs rest) (loop_round d s)
          × ((loop_round d s).stop_event ≡ d))
        q round in
    rw
      (
        subst (λ d. runs d (loop_round e s) ≡ true) same again.runs_renewal,
        sym (append_assoc sent renewing (frames xs renewing)),
      )
      (renew_loop-IsLive c i token arg renewing releasing xs rest (sent ++ renewing) e
        (loop_round e s) ready all.1 same again)
