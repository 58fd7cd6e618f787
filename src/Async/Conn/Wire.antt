-- ===== src/Async/Conn/Wire.antt =====
-- `AsyncConn.command`: the connection after it.
use dflockd_client_py.Base.{
  ◌≡◌, inl, inr, refl, Bool-cases, false, true, Str, Bytes, ℕ, List, [], ◌∷◌, arith,
}
use dflockd_client_py.Errors.{Result, ok, err, Result-cases}
use dflockd_client_py.Protocol.Encode.{encode_lines}
use dflockd_client_py.Sync.Conn.{Trouble, fine, send_fails, read_fails}
use dflockd_client_py.Async.Conn.{
  AsyncConn, command, exchange, exchange_with, read_line, close_if_committed,
}

exchange_with_open :
    (ts : List Trouble) (frame : Bytes) (c : AsyncConn)
    → (exchange_with ts frame c).1.closed ≡ c.closed
unfolding exchange_with read_line
exchange_with_open [] frame c = refl
exchange_with_open (fine ∷ ts) frame c = refl
exchange_with_open (send_fails f n ∷ ts) frame c = refl
exchange_with_open (read_fails f ∷ ts) frame c = refl

close_if_committed_open :
    (x : Result Str × AsyncConn) {r : Str}
    → (close_if_committed true x).0 ≡ ok r
    → (x.0 ≡ ok r) × ((close_if_committed true x).1 ≡ x.1)
close_if_committed_open (ok line, c) h = (h, refl)
close_if_committed_open (err e, c) h = cc

exchange_open :
    (frame : Bytes) (c : AsyncConn) {r : Str}
    → (exchange frame c).0 ≡ ok r
    → (exchange frame c).1.closed ≡ false
unfolding exchange
exchange_open frame c h = elim (Bool-cases c.closed) [
  | inl shut ↦ absurd (ground arith)
  | inr is_open ↦ ground (arith, exchange_with_open c.troubles frame c)
]

-- A command that returns a line leaves the connection open.
pub command_open :
    (cmd key arg : Str) (t : ℕ) (c : AsyncConn) {r : Str}
    → (command cmd key arg t c).0 ≡ ok r
    → (command cmd key arg t c).1.closed ≡ false
unfolding command
command_open cmd key arg t c {r} h = elim (Result-cases (encode_lines (cmd ∷ key ∷ arg ∷ []))) [
  | inr (e, bad) ↦ absurd (ground arith)
  | inl (frame, built) ↦
      let (answered, same) = close_if_committed_open (exchange frame c) (rw built at h) in
      rw (built, same) (exchange_open frame c answered)
]
