-- ===== src/Protocol/Encode/Frames.antt =====
-- The frames of `encode_lines`, as a reader sees them that splits at newlines.
use dflockd_client_py.Base.{
  ap, ◌≡◌, ◌≢◌, ◌<◌, refl, some, List, [], ◌∷◌, ◌++◌, Str, Bytes, arith, All, map, ◌==◌,
  if◌then◌else◌, codes, Option-cases, inl, inr, append_assoc,
}
use dflockd_client_py.Text.Utf8.{encode, decode}
use dflockd_client_py.Text.Utf8.RoundTrip.{decode-encode, encode_no_newline}
use dflockd_client_py.Errors.{>>-ok, ok}
use dflockd_client_py.Protocol.Validate.{encode_text, check_no_newlines}
use dflockd_client_py.Protocol.Validate.Laws.{IsLineChar, has_newline_iff}
use dflockd_client_py.Text.Utf8.{encode_char}
use dflockd_client_py.Protocol.Encode.{check_lines, join_lines, encode_lines}

-- The bytes up to the first newline, and the further pieces between newlines. The last piece is
-- what stands behind the last newline.
pub cut : Bytes → Bytes × List Bytes
cut [] = ([], [])
cut (c ∷ bs) = let (w, ws) = cut bs in if c == 10 then ([], w ∷ ws) else (c ∷ w, ws)

-- How a reader that splits at newlines sees the bytes: Python's `bytes.split(b"\n")`.
pub pieces : Bytes → List Bytes
unfolding cut
pieces bs = let (w, ws) = cut bs in w ∷ ws

-- A text is made of Unicode's code points.
abbrev pub IsText : Str → Type 0
IsText = All (λ c. c < 0x110000)

cut-append : (b rest : Bytes) → All (λ x. x ≢ 10) b → cut (b ++ (10 ∷ rest)) ≡ (b, pieces rest)
unfolding pieces
cut-append [] rest h = refl
cut-append (c ∷ b) rest h = rw (cut-append b rest h.1) (ground arith)

IsLineChar-no_newline : (s : Str) → All IsLineChar s → All (λ c. c ≢ 10) s
IsLineChar-no_newline [] h = tt
IsLineChar-no_newline (c ∷ s) h = (h.0.0, IsLineChar-no_newline s h.1)

check_no_newlines-ok : (name s : Str) → check_no_newlines name s ≡ ok tt → All (λ c. c ≢ 10) s
unfolding check_no_newlines
check_no_newlines-ok name s h = IsLineChar-no_newline s ((has_newline_iff s).0 (ground arith))

-- A text that can be encoded is encoded part by part.
encode-parts :
    (s t : Str) {b : Bytes}
    → encode (s ++ t) ≡ some b
    → (d : Bytes) × (e : Bytes) × (encode s ≡ some d) × (encode t ≡ some e) × (b ≡ d ++ e)
unfolding encode
encode-parts [] t {b} p = ([], b, refl, p, refl)
encode-parts (c ∷ s) t {b} p = elim (Option-cases (encode_char c)) [
  | inl bad ↦ absurd (ground arith)
  | inr (x, good) ↦ elim (Option-cases (encode (s ++ t))) [
    | inl bad ↦ absurd (ground arith)
    | inr (y, good') ↦
        let (d, e, ps, pt, q) = encode-parts s t good' in
        (x ++ d, e, ground arith, pt, ground (arith, append_assoc x d e))
  ]
]

encode-newline :
    (t : Str) {e : Bytes}
    → encode (10 ∷ t) ≡ some e
    → (e' : Bytes) × (encode t ≡ some e') × (e ≡ 10 ∷ e')
unfolding encode encode_char
encode-newline t p = elim (Option-cases (encode t)) [
  | inl bad ↦ absurd (ground arith)
  | inr (e', good) ↦ (e', good, ground arith)
]

pieces-append : (b rest : Bytes) → All (λ x. x ≢ 10) b → pieces (b ++ (10 ∷ rest)) ≡ b ∷ pieces rest
unfolding pieces
pieces-append b rest h = rw (cut-append b rest h)

pieces-nil : pieces [] ≡ [] ∷ []
unfolding pieces
pieces-nil = refl

decode-nil : decode [] ≡ some []
unfolding decode
decode-nil = refl

encode_text-ok : (s : Str) {b : Bytes} → encode_text s ≡ ok b → encode s ≡ some b
unfolding encode_text
encode_text-ok s h = ground arith

decode-pieces-join_lines :
    (lines : List Str) {frame : Bytes}
    → All IsText lines
    → check_lines lines ≡ ok tt
    → encode (join_lines lines) ≡ some frame
    → map decode (pieces frame) ≡ map some lines ++ (some [] ∷ [])
unfolding check_lines join_lines
decode-pieces-join_lines [] {frame} h k e =
    let same : frame ≡ [] = unfold encode in ground arith in rw (same, pieces-nil, decode-nil)
decode-pieces-join_lines (ln ∷ lines) h k e =
    let (b, rest, eb, er, q) = encode-parts ln (10 ∷ join_lines lines) e in
    let (rest', er', q') = encode-newline (join_lines lines) er in
    let clean = check_no_newlines-ok (codes "protocol argument") ln (>>-ok _ _ k).0 in
    rw (q, q', pieces-append b rest' (encode_no_newline ln clean eb), decode-encode ln h.0 eb)
      (ap (λ ps. some ln ∷ ps) (decode-pieces-join_lines lines h.1 (>>-ok _ _ k).1 er'))

-- A frame that `encode_lines` makes of lines of Unicode code points, split at newlines and
-- decoded piece by piece, gives the lines back, and nothing behind the last newline.
pub decode-pieces-encode_lines :
    (lines : List Str) {frame : Bytes}
    → All IsText lines
    → encode_lines lines ≡ ok frame
    → map decode (pieces frame) ≡ map some lines ++ (some [] ∷ [])
unfolding encode_lines encode_text
decode-pieces-encode_lines lines h e =
    let (checked, encoded) = >>-ok _ _ e in
    decode-pieces-join_lines lines h checked (encode_text-ok (join_lines lines) encoded)
