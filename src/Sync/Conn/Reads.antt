-- ===== src/Sync/Conn/Reads.antt =====
-- What a `SyncConn.command` that returns a line has read.
use dflockd_client_py.Base.{
  ℕ, zero, suc, ◌<◌, ◌≤◌, ◌≡◌, Bool, true, false, List, [], ◌∷◌, Str, Bytes, length, arith, ltb,
  if◌then◌else◌,
}
use dflockd_client_py.Errors.{Result, ok, err}
use dflockd_client_py.Protocol.Validate.{max_response_line_bytes}
use dflockd_client_py.Protocol.Encode.{encode_lines}
use dflockd_client_py.Sync.Conn.{
  SyncConn, Trouble, fine, send_fails, read_fails, readline, line_of, read_line, exchange_with,
  exchange, close_on_error, send_frame, command, max_socket_timeout_s,
}

readline-length : (n : ℕ) (bs : Bytes) → length (readline n bs).1 ≤ length bs
unfolding readline
readline-length zero bs = omega arith
readline-length (suc n) [] = omega arith
readline-length (suc n) (b ∷ bs) = ground (arith, readline-length n bs)

readline-shorter :
    (n : ℕ) (bs : Bytes) {r : Str}
    → line_of (readline (suc n) bs).0 ≡ ok r
    → length (readline (suc n) bs).1 < length bs
unfolding readline
readline-shorter n [] h = absurd (ground arith)
readline-shorter n (b ∷ bs) h = ground (arith, readline-length n bs)

read_line-shorter :
    (c : SyncConn) {r : Str}
    → (read_line c).0 ≡ ok r
    → length (read_line c).1.inbox < length c.inbox
unfolding read_line
read_line-shorter c h = readline-shorter max_response_line_bytes c.inbox h

-- What a call read from a connection, if it returned a line.
abbrev pub Reads : SyncConn → Result Str × SyncConn → Type 0
Reads c x = (r : Str) → x.0 ≡ ok r → length x.1.inbox < length c.inbox

exchange_with-Reads :
    (ts : List Trouble) (frame : Bytes) (c : SyncConn) → Reads c (exchange_with ts frame c)
unfolding exchange_with
exchange_with-Reads [] frame c r h = read_line-shorter _ h
exchange_with-Reads (fine ∷ ts) frame c r h = read_line-shorter _ h
exchange_with-Reads (send_fails f n ∷ ts) frame c r h = absurd (ground arith)
exchange_with-Reads (read_fails f ∷ ts) frame c r h = absurd (ground arith)

branch-Reads :
    (c : SyncConn) (b : Bool) (x y : Result Str × SyncConn)
    → Reads c x
    → Reads c y
    → Reads c (if b then x else y)
branch-Reads c true x y f g = f
branch-Reads c false x y f g = g

exchange-Reads : (frame : Bytes) (t : ℕ) (c : SyncConn) → Reads c (exchange frame t c)
unfolding exchange
exchange-Reads frame t c =
    branch-Reads c (ltb max_socket_timeout_s t) _ _ (λ r h. absurd (ground arith))
      (branch-Reads c c.closed _ _ (λ r h. absurd (ground arith))
        (exchange_with-Reads c.troubles frame (record c { timeout = t })))

close_on_error-Reads :
    (c : SyncConn) (x : Result Str × SyncConn) → Reads c x → Reads c (close_on_error x)
close_on_error-Reads c (ok line, d) f = f
close_on_error-Reads c (err e, d) f = λ r h. absurd (ground arith)

send_frame-Reads : (frame : Result Bytes) (t : ℕ) (c : SyncConn) → Reads c (send_frame frame t c)
send_frame-Reads (err e) t c = λ r h. absurd (ground arith)
send_frame-Reads (ok frame) t c =
    close_on_error-Reads c (exchange frame t c) (exchange-Reads frame t c)

pub command-Reads : (cmd key arg : Str) (t : ℕ) (c : SyncConn) → Reads c (command cmd key arg t c)
unfolding command
command-Reads cmd key arg t c = send_frame-Reads (encode_lines (cmd ∷ key ∷ arg ∷ [])) t c
