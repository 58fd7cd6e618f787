-- ===== src/Protocol/Validate/Laws.antt =====
-- What the validators of _protocol.py accept.
use dflockd_client_py.Base.{
  ℕ, ◌≤◌, ◌≡◌, ◌≢◌, ◌↔◌, refl, Bool, false, Option, none, some, [], ◌∷◌, Str, Bytes, codes, length,
  arith, All, Option-cases, inl, inr, ◌⊎◌,
}
use dflockd_client_py.Base.Int.{pos}
use dflockd_client_py.Text.Utf8.{encode}
use dflockd_client_py.Errors.{ok}
use dflockd_client_py.Protocol.Validate.{
  validate_int, validate_seconds_range, validate_semaphore_limit, Scalar, max_protocol_seconds,
  encode_text, byte_len, has_whitespace, has_newline, check_no_newlines, validate_protocol_line,
  validate_key, validate_timeout_s, validate_lease_ttl_s, validate_prefix, validate_prefix_limit,
  require_limit_for_semaphore,
}

-- No character of the text ends a line or a field of the protocol.
abbrev pub IsPlain : ℕ → Type 0
IsPlain c = (c ≢ 32) × (c ≢ 9) × (c ≢ 10) × (c ≢ 13)

abbrev pub IsLineChar : ℕ → Type 0
IsLineChar c = (c ≢ 10) × (c ≢ 13)

-- The text has bytes, at most `n` of them.
abbrev pub FitsIn : ℕ → Str → Type 0
FitsIn n s = (b : Bytes) × (encode s ≡ some b) × (length b ≤ n)

pub has_whitespace_iff : (s : Str) → (has_whitespace s ≡ false) ↔ All IsPlain s
unfolding has_whitespace
has_whitespace_iff [] = (λ h. tt, λ h. refl)
has_whitespace_iff (c ∷ s) =
    let ih = has_whitespace_iff s in (λ h. ground (arith, ih), λ h. ground (arith, ih))

pub has_newline_iff : (s : Str) → (has_newline s ≡ false) ↔ All IsLineChar s
unfolding has_newline
has_newline_iff [] = (λ h. tt, λ h. refl)
has_newline_iff (c ∷ s) =
    let ih = has_newline_iff s in (λ h. ground (arith, ih), λ h. ground (arith, ih))

IsPlain-IsLineChar : (s : Str) → All IsPlain s → All IsLineChar s
IsPlain-IsLineChar [] h = tt
IsPlain-IsLineChar (c ∷ s) h = ((h.0.2, h.0.3), IsPlain-IsLineChar s h.1)

-- A line is accepted exactly if it is not empty where that is asked, has no line end, and has
-- at most 256 bytes.
pub validate_protocol_line_iff :
    (name v : Str) (allow_empty : Bool)
    → (validate_protocol_line name v allow_empty ≡ ok tt)
      ↔ ((allow_empty ≡ false → v ≢ []) × All IsLineChar v × FitsIn 256 v)
unfolding validate_protocol_line check_no_newlines byte_len encode_text
validate_protocol_line_iff name v allow_empty = elim (Option-cases (encode v)) [
  | inl bad ↦ (λ h. absurd (ground arith), λ h. absurd (ground arith))
  | inr (b, good) ↦ (
    λ h. (λ e. ground arith, (has_newline_iff v).0 (ground arith), (b, good, ground arith)),
    λ h. ground (arith, (has_newline_iff v).1 h.1),
  )
]

-- `validate_key` accepts exactly the non-empty texts without spaces, tabs and line ends that have
-- a UTF-8 form of at most 256 bytes.
pub validate_key_iff :
    (name v : Str) → (validate_key name v ≡ ok tt) ↔ ((v ≢ []) × All IsPlain v × FitsIn 256 v)
unfolding validate_key
validate_key_iff name v = (
  λ h.
      let line = (validate_protocol_line_iff name v false).0 (ground arith) in
      (line.0 refl, (has_whitespace_iff v).0 (ground arith), line.2),
  λ h. ground (
    arith,
    (has_whitespace_iff v).1 h.1,
    (validate_protocol_line_iff name v false).1 (λ e. h.0, IsPlain-IsLineChar v h.1, h.2),
  ),
)

-- `validate_timeout_s` accepts exactly the `int` values from 0 to the limit of the protocol.
pub validate_timeout_s_iff :
    (name : Str) (v : Scalar)
    → (validate_timeout_s name v ≡ ok tt)
      ↔ ((n : ℕ) × (v ≡ Scalar.int (pos n)) × (n ≤ max_protocol_seconds))
unfolding validate_timeout_s validate_int validate_seconds_range
validate_timeout_s_iff name (Scalar.int (pos n)) = (λ h. (n, refl, ground arith), λ h. ground arith)
validate_timeout_s_iff name _ = (λ h. ground arith, λ h. ground arith)

-- `validate_lease_ttl_s` accepts exactly `None` and the `int` values from 1 to the limit of the
-- protocol.
pub validate_lease_ttl_s_iff :
    (v : Option Scalar)
    → (validate_lease_ttl_s v ≡ ok tt) ↔ (
        (v ≡ none)
        ⊎ ((n : ℕ) × (v ≡ some (Scalar.int (pos n))) × (1 ≤ n) × (n ≤ max_protocol_seconds)))
unfolding validate_lease_ttl_s validate_int validate_seconds_range
validate_lease_ttl_s_iff none = (λ h. inl refl, λ h. refl)
validate_lease_ttl_s_iff (some (Scalar.int (pos n))) =
    (λ h. inr (n, refl, ground arith, ground arith), λ h. ground arith)
validate_lease_ttl_s_iff (some _) = (λ h. ground arith, λ h. ground arith)

-- `validate_prefix_limit` accepts exactly the empty prefix without a limit, and the prefix `s`
-- with a limit that is a positive `int`.
pub validate_prefix_limit_iff :
    (prefix : Str) (limit : Option Scalar)
    → (validate_prefix_limit prefix limit ≡ ok tt) ↔ (
        ((prefix ≡ []) × (limit ≡ none))
        ⊎ ((prefix ≡ codes "s") × ((n : ℕ) × (limit ≡ some (Scalar.int (pos n))) × (1 ≤ n))))
unfolding validate_prefix_limit validate_prefix require_limit_for_semaphore validate_semaphore_limit
    validate_int
validate_prefix_limit_iff prefix none = (λ h. ground arith, λ h. ground arith)
validate_prefix_limit_iff prefix (some (Scalar.int (pos n))) =
    (λ h. inr (ground arith, (n, refl, ground arith)), λ h. ground arith)
validate_prefix_limit_iff prefix (some _) = (λ h. absurd (ground arith), λ h. absurd (ground arith))
