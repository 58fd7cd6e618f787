-- ===== src/Protocol/Fence.antt =====
-- `fence_from_token` and `token_for_log`.
pub mod Laws
pub mod Order
use dflockd_client_py.Base.{
  ℕ, ◌+◌, ◌-◌, ◌*◌, ◌&&◌, ◌||◌, not, Bool, true, false, Option, none, some, [], ◌∷◌, ◌++◌, Str,
  codes, ltb, leb, ◌==◌, length, take, if◌then◌else◌,
}
use dflockd_client_py.Errors.{
  value_error, token_length, token_not_hex, Result, ok, ◌>>=◌, ◌>>◌, raise_if,
}

-- The character class `[0-9a-fA-F]`.
unfoldable pub is_hex : ℕ → Bool
is_hex c = (leb 48 c && leb c 57) || (leb 97 c && leb c 102) || (leb 65 c && leb c 70)

-- Whether the whole text is hexadecimal; `fullmatch` of `[0-9a-fA-F]{32}` at 32 characters.
unfoldable pub all_hex : Str → Bool
all_hex [] = true
all_hex (c ∷ s) = is_hex c && all_hex s

unfoldable pub hex_value : ℕ → ℕ
hex_value c = if leb c 57 then c - 48 else if leb c 70 then c - 55 else c - 87

-- `int(s, 16)` behind the number `n`.
unfoldable pub hex_number : ℕ → Str → ℕ
hex_number n [] = n
hex_number n (c ∷ s) = hex_number (n * 16 + hex_value c) s

unfoldable pub fence_from_token : Str → Result ℕ
fence_from_token token = do
  raise_if (not (length token == 32)) value_error (token_length (length token))
  raise_if (not (all_hex token)) value_error (token_not_hex token)
  ok (hex_number 0 (take 16 token))

unfoldable pub token_for_log : Option Str → Str
token_for_log none = codes "<none>"
token_for_log (some token) =
    if leb (length token) 8 then codes "<redacted>" else take 8 token ++ codes "..."
