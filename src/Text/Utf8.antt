-- ===== src/Text/Utf8.antt =====
-- `str.encode("utf-8")` and `bytes.decode("utf-8")`, both strict.
pub mod RoundTrip
use dflockd_client_py.Base.{
  ℕ, ◌+◌, ◌-◌, ◌*◌, ◌/◌, ◌%◌, ◌≤◌, ◌<◌, ◌⊎◌, Bool, true, false, ◌&&◌, Option, none, some, [], ◌∷◌,
  ◌++◌, Str, Bytes, ltb, leb, if◌then◌else◌, All,
}

-- A code point that is no surrogate.
abbrev pub IsScalar : ℕ → Type 0
IsScalar c = (c < 0xd800) ⊎ ((0xe000 ≤ c) × (c < 0x110000))

-- The bytes of one code point. A surrogate has none: Python raises `UnicodeEncodeError`.
unfoldable pub encode_char : ℕ → Option Bytes
encode_char c =
    if ltb c 0x80
    then some (c ∷ [])
    else if ltb c 0x800
    then some ((0xc0 + c / 64) ∷ (0x80 + c % 64) ∷ [])
    else if leb 0xd800 c && ltb c 0xe000
    then none
    else if ltb c 0x10000
    then some ((0xe0 + c / 4096) ∷ (0x80 + c / 64 % 64) ∷ (0x80 + c % 64) ∷ [])
    else some
        ((0xf0 + c / 262144) ∷ (0x80 + c / 4096 % 64) ∷ (0x80 + c / 64 % 64) ∷ (0x80 + c % 64) ∷ [])

abbrev pub append? : Option Bytes → Option Bytes → Option Bytes
append? none m = none
append? (some b) none = none
append? (some b) (some bs) = some (b ++ bs)

unfoldable pub encode : Str → Option Bytes
unfolding encode_char
encode [] = some []
encode (c ∷ s) = append? (encode_char c) (encode s)

-- The decoder between two bytes: `need` more bytes, the next of them in `lo` to `hi`.
pub data Pending : Type 0 where
  start : Pending
  more : ℕ → ℕ → ℕ → ℕ → Pending

-- What a byte does: the next state, and the code point that it completes.
abbrev pub Progress : Type 0
Progress = Option (Pending × Option ℕ)

abbrev lead : ℕ → Progress
lead b =
    if ltb b 0x80
    then some (start, some b)
    else if ltb b 0xc2
    then none
    else if ltb b 0xe0
    then some (more 1 (b - 0xc0) 0x80 0xbf, none)
    else if ltb b 0xf0
    then some (
      more 2 (b - 0xe0) (if ltb 0xe0 b then 0x80 else 0xa0)
          (if ltb b 0xed then 0xbf else if ltb 0xed b then 0xbf else 0x9f),
      none,
    )
    else if ltb b 0xf5
    then some (
      more 3 (b - 0xf0) (if ltb 0xf0 b then 0x80 else 0x90) (if ltb b 0xf4 then 0xbf else 0x8f),
      none,
    )
    else none

abbrev follow : ℕ → ℕ → ℕ → ℕ → ℕ → Progress
follow need acc lo hi b =
    if leb lo b && leb b hi
    then if leb need 1
      then some (start, some (acc * 64 + (b - 0x80)))
      else some (more (need - 1) (acc * 64 + (b - 0x80)) 0x80 0xbf, none)
    else none

abbrev pub feed : Pending → ℕ → Progress
feed start b = lead b
feed (more need acc lo hi) b = follow need acc lo hi b

abbrev emit : Option ℕ → Option Str → Option Str
emit none rest = rest
emit (some c) none = none
emit (some c) (some s) = some (c ∷ s)

decode_from : Pending → Bytes → Option Str
decode_from start [] = some []
decode_from (more need acc lo hi) [] = none
decode_from st (b ∷ bs) = elim (feed st b) [
  | none ↦ none
  | some (st', out) ↦ emit out (decode_from st' bs)
]

-- `none` is a `UnicodeDecodeError`.
unfoldable pub decode : Bytes → Option Str
unfolding decode_from
decode bs = decode_from start bs
