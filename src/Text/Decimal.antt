-- ===== src/Text/Decimal.antt =====
-- `str` of an `int`, and `int` of a text.
pub mod RoundTrip
use dflockd_client_py.Base.{
  ℕ, zero, suc, ◌+◌, ◌-◌, ◌*◌, ◌/◌, ◌%◌, Bool, true, false, ◌&&◌, ◌||◌, Option, none, some, List,
  [], ◌∷◌, ◌++◌, Str, ltb, leb, ◌==◌, if◌then◌else◌,
}
use dflockd_client_py.Base.Int.{ℤ, pos, negsuc}

-- The digits of a number, on fuel: `show_fuel-lem` has that `n + 1` is enough.
show_fuel : ℕ → ℕ → Str
show_fuel zero n = []
show_fuel (suc f) n =
    let rest = show_fuel f (n / 10) in
    if ltb n 10 then (48 + n) ∷ [] else rest ++ ((48 + n % 10) ∷ [])

unfoldable pub show_nat : ℕ → Str
unfolding show_fuel
show_nat n = show_fuel (suc n) n

-- `str(z)`
unfoldable pub show_int : ℤ → Str
show_int (pos n) = show_nat n
show_int (negsuc n) = 45 ∷ show_nat (suc n)

-- The code points of the digit zero in each script with decimal digits: the general category Nd
-- of Unicode 15.0, which Python 3.12 has. The digits one to nine follow each of them.
abbrev zeros : List ℕ
zeros =
    0x30 ∷ 0x660 ∷ 0x6f0 ∷ 0x7c0 ∷ 0x966 ∷ 0x9e6 ∷ 0xa66 ∷ 0xae6 ∷ 0xb66 ∷ 0xbe6 ∷ 0xc66 ∷ 0xce6
    ∷ 0xd66 ∷ 0xde6 ∷ 0xe50 ∷ 0xed0 ∷ 0xf20 ∷ 0x1040 ∷ 0x1090 ∷ 0x17e0 ∷ 0x1810 ∷ 0x1946 ∷ 0x19d0
    ∷ 0x1a80 ∷ 0x1a90 ∷ 0x1b50 ∷ 0x1bb0 ∷ 0x1c40 ∷ 0x1c50 ∷ 0xa620 ∷ 0xa8d0 ∷ 0xa900 ∷ 0xa9d0
    ∷ 0xa9f0 ∷ 0xaa50 ∷ 0xabf0 ∷ 0xff10 ∷ 0x104a0 ∷ 0x10d30 ∷ 0x11066 ∷ 0x110f0 ∷ 0x11136 ∷ 0x111d0
    ∷ 0x112f0 ∷ 0x11450 ∷ 0x114d0 ∷ 0x11650 ∷ 0x116c0 ∷ 0x11730 ∷ 0x118e0 ∷ 0x11950 ∷ 0x11c50
    ∷ 0x11d50 ∷ 0x11da0 ∷ 0x11f50 ∷ 0x16a60 ∷ 0x16ac0 ∷ 0x16b50 ∷ 0x1d7ce ∷ 0x1d7d8 ∷ 0x1d7e2
    ∷ 0x1d7ec ∷ 0x1d7f6 ∷ 0x1e140 ∷ 0x1e2f0 ∷ 0x1e4f0 ∷ 0x1e950 ∷ 0x1fbf0 ∷ []

digit_among : List ℕ → ℕ → Option ℕ
digit_among [] c = none
digit_among (z ∷ zs) c = if leb z c && ltb c (z + 10) then some (c - z) else digit_among zs c

digit : ℕ → Option ℕ
unfolding digit_among
digit c = digit_among zeros c

-- Whether the last character was a digit, and the number so far. `none` after a fault.
abbrev pub Scan : Type 0
Scan = Option (Bool × ℕ)

abbrev scan_digit : ℕ → Option ℕ → Scan
scan_digit n none = none
scan_digit n (some d) = some (true, n * 10 + d)

-- An underscore may stand between two digits.
scan_char : Scan → ℕ → Scan
scan_char none c = none
scan_char (some (after_digit, n)) c =
    if c == 95 then if after_digit then some (false, n) else none else scan_digit n (digit c)

scan : Scan → Str → Scan
scan st [] = st
scan st (c ∷ s) = scan (scan_char st c) s

abbrev finish : Scan → Option ℕ
finish none = none
finish (some (after_digit, n)) = if after_digit then some n else none

pub parse_nat : Str → Option ℕ
unfolding scan scan_char digit
parse_nat s = finish (scan (some (false, 0)) s)

abbrev negate : ℕ → ℤ
negate zero = pos 0
negate (suc n) = negsuc n

abbrev map_int : (ℕ → ℤ) → Option ℕ → Option ℤ
map_int f none = none
map_int f (some n) = some (f n)

-- `int(s)` of a text with no whitespace round it. `none` is a `ValueError`.
unfoldable pub parse_int : Str → Option ℤ
unfolding parse_nat
parse_int [] = none
parse_int (c ∷ s) =
    if c == 45
    then map_int negate (parse_nat s)
    else if c == 43
    then map_int pos (parse_nat s)
    else map_int pos (parse_nat (c ∷ s))

-- The characters of a text that `int` counts as digits.
unfoldable pub digits : Str → ℕ
digits [] = 0
digits (c ∷ s) =
    let rest = digits s in if (c == 43) || (c == 45) || (c == 95) then rest else suc rest

-- The default of `sys.get_int_max_str_digits`.
abbrev pub max_str_digits : ℕ
max_str_digits = 4300

-- `int(s)` of such a text, with the limit of its digits.
unfoldable pub int_str : Str → Option ℤ
int_str s = if ltb max_str_digits (digits s) then none else parse_int s
