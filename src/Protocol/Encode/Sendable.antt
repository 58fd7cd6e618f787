-- ===== src/Protocol/Encode/Sendable.antt =====
-- Which frames can be built.
use dflockd_client_py.Base.{
  ◌≡◌, refl, some, List, [], ◌∷◌, Str, Bytes, codes, arith, All, true, false,
}
use dflockd_client_py.Text.Utf8.{encode}
use dflockd_client_py.Text.Utf8.RoundTrip.{encode-append}
use dflockd_client_py.Errors.{ok, >>-ok}
use dflockd_client_py.Protocol.Validate.{
  encode_text, check_no_newlines, validate_key, validate_token, validate_protocol_line,
}
use dflockd_client_py.Protocol.Validate.Laws.{
  IsLineChar, has_newline_iff, validate_protocol_line_iff,
}
use dflockd_client_py.Protocol.Encode.{check_lines, join_lines, encode_lines}

-- A text that has bytes and no line end.
abbrev pub IsSendable : Str → Type 0
IsSendable s = All IsLineChar s × ((b : Bytes) × (encode s ≡ some b))

check_lines-ok : (lines : List Str) → All IsSendable lines → check_lines lines ≡ ok tt
unfolding check_lines check_no_newlines
check_lines-ok [] h = refl
check_lines-ok (s ∷ lines) h = rw ((has_newline_iff s).1 h.0.0) (check_lines-ok lines h.1)

encode-newline : encode (10 ∷ []) ≡ some (10 ∷ [])
unfolding encode
encode-newline = refl

encode-join_lines :
    (lines : List Str) → All IsSendable lines → (b : Bytes) × (encode (join_lines lines) ≡ some b)
unfolding join_lines encode
encode-join_lines [] h = ([], refl)
encode-join_lines (s ∷ lines) h =
    let (b, q) = h.0.1 in
    let (d, r) = encode-join_lines lines h.1 in
    (
      _,
      encode-append s (10 ∷ join_lines lines) q
          (encode-append (10 ∷ []) (join_lines lines) (unfold encode in refl) r),
    )

pub encode_text-some : (s : Str) {b : Bytes} → encode s ≡ some b → encode_text s ≡ ok b
unfolding encode_text
encode_text-some s q = ground (arith, q)

-- A frame can be built of texts that have bytes and no line ends.
pub encode_lines-built :
    (lines : List Str) → All IsSendable lines → (frame : Bytes) × (encode_lines lines ≡ ok frame)
unfolding encode_lines
encode_lines-built lines h =
    let (b, q) = encode-join_lines lines h in
    (b, rw (check_lines-ok lines h) (encode_text-some (join_lines lines) q))

-- What a validated line is.
line-IsSendable : (name s : Str) → validate_protocol_line name s false ≡ ok tt → IsSendable s
line-IsSendable name s q =
    let (some_text, plain, (b, e, short)) = (validate_protocol_line_iff name s false).0 q in
    (plain, (b, e))

pub key-IsSendable : (key : Str) → validate_key (codes "key") key ≡ ok tt → IsSendable key
unfolding validate_key
key-IsSendable key q = line-IsSendable (codes "key") key (>>-ok _ _ q).0

pub token-IsSendable : (token : Str) → validate_token token ≡ ok tt → IsSendable token
unfolding validate_token
token-IsSendable token q = line-IsSendable (codes "token") token (>>-ok _ _ q).0

-- A valid token is valid wherever a line is asked for, empty or not.
pub token-line :
    (name token : Str)
    → validate_token token ≡ ok tt
    → validate_protocol_line name token true ≡ ok tt
unfolding validate_token
token-line name token q =
    let line = (validate_protocol_line_iff (codes "token") token false).0 (>>-ok _ _ q).0 in
    (validate_protocol_line_iff name token true).1 (λ h. line.0 refl, line.1, line.2)
