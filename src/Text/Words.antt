-- ===== src/Text/Words.antt =====
-- Whitespace, `str.split()` with no argument, `str.startswith` and `str.rstrip("\r\n")`.
pub mod Laws
use dflockd_client_py.Base.{
  ℕ, ◌+◌, Bool, true, false, ◌&&◌, ◌||◌, List, [], ◌∷◌, Str, leb, ◌==◌, ◌=?◌, codes, if◌then◌else◌,
  not,
}

-- `str.isspace` of one character, by the Unicode tables of Python 3.12.
unfoldable pub is_space : ℕ → Bool
is_space c =
    (leb 0x09 c && leb c 0x0d)
    || (leb 0x1c c && leb c 0x20)
    || (c == 0x85)
    || (c == 0xa0)
    || (c == 0x1680)
    || (leb 0x2000 c && leb c 0x200a)
    || (c == 0x2028)
    || (c == 0x2029)
    || (c == 0x202f)
    || (c == 0x205f)
    || (c == 0x3000)

abbrev pub cons_word : Str → List Str → List Str
cons_word [] ws = ws
cons_word (c ∷ w) ws = (c ∷ w) ∷ ws

-- The word that a text begins with, empty at a space, and the words behind it.
unfoldable pub first_word : Str → Str × List Str
first_word [] = ([], [])
first_word (c ∷ s) =
    let (w, ws) = first_word s in if is_space c then ([], cons_word w ws) else (c ∷ w, ws)

unfoldable pub split : Str → List Str
unfolding first_word
split s = let (w, ws) = first_word s in cons_word w ws

-- `s.startswith(p)`
abbrev pub starts_with : Str → Str → Bool
starts_with [] s = true
starts_with (c ∷ p) [] = false
starts_with (c ∷ p) (d ∷ s) = c == d && starts_with p s

abbrev cons_unless_end : ℕ → Str → Str
cons_unless_end c [] = if (c == 10) || (c == 13) then [] else c ∷ []
cons_unless_end c (d ∷ s) = c ∷ d ∷ s

-- `s.rstrip("\r\n")`
unfoldable pub rstrip_newlines : Str → Str
rstrip_newlines [] = []
rstrip_newlines (c ∷ s) = cons_unless_end c (rstrip_newlines s)
