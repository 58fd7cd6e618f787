-- ===== src/Sync/Conn/Wire.antt =====
-- `SyncConn.command`: one exchange, a row of exchanges, and the connection after a failure.
use dflockd_client_py.Base.{
  ℕ, zero, suc, ◌+◌, ◌≤◌, ◌<◌, ◌≡◌, ◌≢◌, inl, inr, refl, true, false, some, List, [], ◌∷◌, ◌++◌,
  Str, Bytes, length, length-append, arith, All, Bool-cases, ltb,
}
use dflockd_client_py.Text.Utf8.{encode}
use dflockd_client_py.Text.Utf8.RoundTrip.{decode-encode, encode_no_newline, encode-append}
use dflockd_client_py.Text.Words.{rstrip_newlines}
use dflockd_client_py.Action.{Action, pure, ◌>>=◌}
use dflockd_client_py.Errors.{Error, Result, ok, err, Result-cases}
use dflockd_client_py.Protocol.Validate.{max_response_line_bytes}
use dflockd_client_py.Protocol.Encode.{encode_lines}
use dflockd_client_py.Sync.Conn.{
  SyncConn, readline, max_socket_timeout_s, trim_response_line, line_of, close, exchange,
  close_on_error, command, exchange_with, fine, send_fails, read_fails, Trouble, read_line,
}

-- A response line as a server sends it: text without line ends, of at most the allowed length
-- with its newline.
pub record IsResponse (resp : Str) (bytes : Bytes) : Type 0 where
  pub text : All (λ c. c < 0x110000) resp
  pub one_line : All (λ c. (c ≢ 10) × (c ≢ 13)) resp
  pub encoded : encode resp ≡ some bytes
  pub short : length bytes + 1 ≤ max_response_line_bytes

readline-append :
    (n : ℕ) (b rest : Bytes)
    → All (λ x. x ≢ 10) b
    → length b < n
    → readline n (b ++ (10 ∷ rest)) ≡ (b ++ (10 ∷ []), rest)
unfolding readline
readline-append zero b rest h lt = elim lt [ ]
readline-append (suc n) [] rest h lt = refl
readline-append (suc n) (c ∷ b) rest h lt =
    rw (readline-append n b rest h.1 (omega arith)) (ground arith)

rstrip-line : (s : Str) → All (λ c. (c ≢ 10) × (c ≢ 13)) s → rstrip_newlines (s ++ (10 ∷ [])) ≡ s
unfolding rstrip_newlines
rstrip-line [] h = refl
rstrip-line (c ∷ []) h = ground arith
rstrip-line (c ∷ d ∷ s) h = rw (rstrip-line (d ∷ s) h.1)

no_newline : (s : Str) → All (λ c. (c ≢ 10) × (c ≢ 13)) s → All (λ c. c ≢ 10) s
no_newline [] h = tt
no_newline (c ∷ s) h = (h.0.0, no_newline s h.1)

IsText-line : (s : Str) → All (λ c. c < 0x110000) s → All (λ c. c < 0x110000) (s ++ (10 ∷ []))
IsText-line [] h = (omega arith, tt)
IsText-line (c ∷ s) h = (h.0, IsText-line s h.1)

encode-newline : encode (10 ∷ []) ≡ some (10 ∷ [])
unfolding encode
encode-newline = refl

trim-response :
    (resp : Str) (b : Bytes) → IsResponse resp b → trim_response_line (b ++ (10 ∷ [])) ≡ ok resp
unfolding trim_response_line
trim-response resp b r =
    let line = encode-append resp (10 ∷ []) r.encoded encode-newline in
    let read = decode-encode (resp ++ (10 ∷ [])) (IsText-line resp r.text) line in
    ground (arith, read, rstrip-line resp r.one_line, length-append b (10 ∷ []))

line_of-line : (b : Bytes) (c : ℕ) → line_of (b ++ (c ∷ [])) ≡ trim_response_line (b ++ (c ∷ []))
line_of-line [] c = refl
line_of-line (d ∷ b) c = refl

-- On an open connection without trouble, a command whose arguments make a frame and whose read
-- timeout the socket takes sets that timeout, sends that frame, returns the line that the server sent if it is a text without line
-- ends whose UTF-8 form has with its newline at most the allowed length, and leaves unread what
-- the server sent after it.
pub command_reads :
    (cmd key arg : Str) (t : ℕ) (resp : Str) (b rest frame : Bytes) (c : SyncConn)
    → t ≤ max_socket_timeout_s
    → c.closed ≡ false
    → c.troubles ≡ []
    → c.inbox ≡ b ++ (10 ∷ rest)
    → IsResponse resp b
    → encode_lines (cmd ∷ key ∷ arg ∷ []) ≡ ok frame
    → command cmd key arg t c
      ≡ (ok resp, record c { timeout = t; inbox = rest; outbox = c.outbox ++ frame })
unfolding command
command_reads cmd key arg t resp b rest frame c fits is_open quiet sent r e = ground (
  arith,
  readline-append (max_response_line_bytes + 1) b rest
      (encode_no_newline resp (no_newline resp r.one_line) r.encoded) (omega (arith, r.short)),
  line_of-line b 10,
  trim-response resp b r,
)

close_on_error-closed :
    (r : Result Str × SyncConn) {e : Error}
    → (close_on_error r).0 ≡ err e
    → (close_on_error r).1.closed ≡ true
unfolding close
close_on_error-closed (ok line, c) h = cc
close_on_error-closed (err e, c) h = refl

-- A command that raises after its frame was built leaves the connection closed.
pub command_failed :
    (cmd key arg : Str) (t : ℕ) (c : SyncConn) {frame : Bytes} {e : Error}
    → encode_lines (cmd ∷ key ∷ arg ∷ []) ≡ ok frame
    → (command cmd key arg t c).0 ≡ err e
    → (command cmd key arg t c).1.closed ≡ true
unfolding command
command_failed cmd key arg t c {frame} built h =
    rw (built, close_on_error-closed (exchange frame t c) (rw built at h))

-- On a closed connection a command raises, neither sends nor reads a byte, and leaves the
-- connection closed.
pub command_closed :
    (cmd key arg : Str) (t : ℕ) (c : SyncConn)
    → c.closed ≡ true
    → ((e : Error) × ((command cmd key arg t c).0 ≡ err e))
      × ((command cmd key arg t c).1.outbox ≡ c.outbox)
      × ((command cmd key arg t c).1.inbox ≡ c.inbox)
      × ((command cmd key arg t c).1.closed ≡ true)
unfolding command
command_closed cmd key arg t c shut = elim (Result-cases (encode_lines (cmd ∷ key ∷ arg ∷ []))) [
  | inl (frame, built) ↦ rw built (elim (Bool-cases (ltb max_socket_timeout_s t)) [
    | inl late ↦ rw late ((_, refl), refl, refl, refl)
    | inr fits ↦ rw (fits, shut) ((_, refl), refl, refl, refl)
  ])
  | inr (e, bad) ↦ rw bad ((e, refl), refl, refl, shut)
]

-- One exchange: a request with its timeout, the frame that it makes, and the response.
pub record Exchange : Type 0 where
  pub cmd : Str
  pub key : Str
  pub arg : Str
  pub timeout : ℕ
  pub frame : Bytes
  pub resp : Str
  pub bytes : Bytes

abbrev pub IsExchange : Exchange → Type 0
IsExchange x =
    IsResponse x.resp x.bytes
    × (encode_lines (x.cmd ∷ x.key ∷ x.arg ∷ []) ≡ ok x.frame)
    × (x.timeout ≤ max_socket_timeout_s)

-- What the server sends in a row of exchanges, and what it receives.
pub responses : List Exchange → Bytes
responses [] = []
responses (x ∷ xs) = x.bytes ++ (10 ∷ responses xs)

pub requests : List Exchange → Bytes
requests [] = []
requests (x ∷ xs) = x.frame ++ requests xs

pub run : List Exchange → Action SyncConn (List Str)
run [] = pure []
run (x ∷ xs) = do resp ← command x.cmd x.key x.arg x.timeout; resps ← run xs; pure (resp ∷ resps)

exchange_with_open :
    (ts : List Trouble) (frame : Bytes) (c : SyncConn)
    → (exchange_with ts frame c).1.closed ≡ c.closed
unfolding exchange_with read_line
exchange_with_open [] frame c = refl
exchange_with_open (fine ∷ ts) frame c = refl
exchange_with_open (send_fails f n ∷ ts) frame c = refl
exchange_with_open (read_fails f ∷ ts) frame c = refl

close_on_error_open :
    (x : Result Str × SyncConn) {r : Str} → (close_on_error x).0 ≡ ok r → (close_on_error x).1 ≡ x.1
close_on_error_open (ok line, c) h = refl
close_on_error_open (err e, c) h = cc

close_on_error_ok : (x : Result Str × SyncConn) {r : Str} → (close_on_error x).0 ≡ ok r → x.0 ≡ ok r
close_on_error_ok (ok line, c) h = h
close_on_error_ok (err e, c) h = cc

exchange_open :
    (frame : Bytes) (t : ℕ) (c : SyncConn) {r : Str}
    → (exchange frame t c).0 ≡ ok r
    → (exchange frame t c).1.closed ≡ false
unfolding exchange
exchange_open frame t c h = elim (Bool-cases (ltb max_socket_timeout_s t)) [
  | inl late ↦ absurd (ground arith)
  | inr fits ↦ elim (Bool-cases c.closed) [
    | inl shut ↦ absurd (ground arith)
    | inr is_open ↦ ground (arith, exchange_with_open c.troubles frame (record c { timeout = t }))
  ]
]

-- A command that returns a line leaves the connection open.
pub command_open :
    (cmd key arg : Str) (t : ℕ) (c : SyncConn) {r : Str}
    → (command cmd key arg t c).0 ≡ ok r
    → (command cmd key arg t c).1.closed ≡ false
unfolding command
command_open cmd key arg t c {r} h = elim (Result-cases (encode_lines (cmd ∷ key ∷ arg ∷ []))) [
  | inr (e, bad) ↦ absurd (ground arith)
  | inl (frame, built) ↦ rw built (by_exchange frame (rw built at h))
]
  where
    by_exchange :
        (frame : Bytes)
        → (close_on_error (exchange frame t c)).0 ≡ ok r
        → (close_on_error (exchange frame t c)).1.closed ≡ false
    by_exchange frame k =
        rw (close_on_error_open (exchange frame t c) k)
          (exchange_open frame t c (close_on_error_ok (exchange frame t c) k))
