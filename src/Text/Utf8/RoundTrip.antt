-- ===== src/Text/Utf8/RoundTrip.antt =====
-- Encoding and decoding in UTF-8, one after the other.
use dflockd_client_py.Base.{
  ◌≢◌, All-append, append_assoc, ℕ, ◌<◌, ◌≡◌, inl, inr, some, [], ◌∷◌, ◌++◌, arith, Str, Bytes, All,
  Option-cases,
}
use dflockd_client_py.Text.Utf8.{encode_char, encode, start, emit, decode_from, decode}

-- The bytes of a scalar value, read from the start, give that value.
decode_from-encode_char :
    (c : ℕ) (rest : Bytes) {b : Bytes}
    → c < 0x110000
    → encode_char c ≡ some b
    → decode_from start (b ++ rest) ≡ emit (some c) (decode_from start rest)
unfolding encode_char decode_from
decode_from-encode_char c rest h e = ground arith

-- A text without code points past the end of Unicode, if it can be encoded, is what its bytes
-- decode to.
pub decode-encode :
    (s : Str) {b : Bytes} → All (λ c. c < 0x110000) s → encode s ≡ some b → decode b ≡ some s
unfolding encode decode
decode-encode [] h e = ground arith
decode-encode (c ∷ s) h e = elim (Option-cases (encode_char c)) [
  | inl bad ↦ ground arith
  | inr (b, good) ↦ elim (Option-cases (encode s)) [
    | inl bad ↦ ground arith
    | inr (bs, good') ↦
        ground (arith, decode_from-encode_char c bs h.0 good, decode-encode s h.1 good')
  ]
]

-- The bytes of other characters hold no newline.
encode_char_no_newline : (c : ℕ) {b : Bytes} → c ≢ 10 → encode_char c ≡ some b → All (λ x. x ≢ 10) b
unfolding encode_char
encode_char_no_newline c h e = ground arith

-- So the bytes of a text hold a newline only if the text does.
pub encode_no_newline :
    (s : Str) {b : Bytes} → All (λ c. c ≢ 10) s → encode s ≡ some b → All (λ x. x ≢ 10) b
unfolding encode
encode_no_newline [] h e = ground arith
encode_no_newline (c ∷ s) h e = elim (Option-cases (encode_char c)) [
  | inl bad ↦ ground arith
  | inr (b, good) ↦ elim (Option-cases (encode s)) [
    | inl bad ↦ ground arith
    | inr (bs, good') ↦ ground (
      arith,
      encode_char_no_newline c h.0 good,
      encode_no_newline s h.1 good',
      All-append (λ x. x ≢ 10) b bs,
    )
  ]
]

-- Bytes of two texts, one after the other.
pub encode-append :
    (s t : Str) {b d : Bytes}
    → encode s ≡ some b
    → encode t ≡ some d
    → encode (s ++ t) ≡ some (b ++ d)
unfolding encode
encode-append [] t p q = ground arith
encode-append (c ∷ s) t {d = d} p q = elim (Option-cases (encode_char c)) [
  | inl bad ↦ ground arith
  | inr (b, good) ↦ elim (Option-cases (encode s)) [
    | inl bad ↦ ground arith
    | inr (bs, good') ↦ ground (arith, encode-append s t good' q, append_assoc b bs d)
  ]
]
