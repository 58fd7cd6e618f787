-- ===== src/Examples/Servers.antt =====
-- `parse_servers` of examples/bench_sync.py.
pub mod RoundTrip
use dflockd_client_py.Base.{
  ℕ, suc, ◌<◌, ◌≤◌, ◌≡◌, ◌≢◌, refl, Bool, false, Option, none, ◌||◌, some, List, [], ◌∷◌, ◌++◌, map,
  Str, ltb, ◌==◌, if◌then◌else◌, length, All, arith, append-nil, All-append,
}
use dflockd_client_py.Base.Int.{ℤ, pos}
use dflockd_client_py.Errors.{
  value_error, too_few_values, bad_int_literal, Result, ok, raise, map_result, ◌>>=◌,
}
use dflockd_client_py.Text.Words.{is_space}
use dflockd_client_py.Text.Decimal.{show_nat, int_str, show_int}
use dflockd_client_py.Text.Decimal.RoundTrip.{
  parse_int-show_int, show_int-IsWord, show_nat-digits, length-show_nat, IsDigit,
}

-- ----- texts

abbrev extend : ℕ → List Str → List Str
extend c [] = (c ∷ []) ∷ []
extend c (w ∷ ws) = (c ∷ w) ∷ ws

-- `s.split(x)` at a single character.
pub split_on : ℕ → Str → List Str
split_on x [] = [] ∷ []
split_on x (c ∷ s) = let rest = split_on x s in if c == x then [] ∷ rest else extend c rest

-- The character stands before what was split off, or the text is split at it.
abbrev before : ℕ → Bool → Str → Option (Str × Str) → Option (Str × Str)
before c here s (some (head, tail)) = some (c ∷ head, tail)
before c here s none = if here then some ([], s) else none

-- `s.rsplit(x, 1)` at a single character: the texts round the last one, if there is one.
pub rsplit_on : ℕ → Str → Option (Str × Str)
rsplit_on x [] = none
rsplit_on x (c ∷ s) = before c (c == x) s (rsplit_on x s)

pub lstrip : Str → Str
lstrip [] = []
lstrip (c ∷ s) = let rest = lstrip s in if is_space c then rest else c ∷ s

abbrev cons_unless_blank : ℕ → Str → Str
cons_unless_blank c [] = if is_space c then [] else c ∷ []
cons_unless_blank c (d ∷ s) = c ∷ d ∷ s

pub rstrip : Str → Str
rstrip [] = []
rstrip (c ∷ s) = cons_unless_blank c (rstrip s)

-- `s.strip()`
pub strip : Str → Str
unfolding lstrip rstrip
strip s = rstrip (lstrip s)

abbrev int_or_error : Str → Option ℤ → Result ℤ
int_or_error s none = raise value_error (bad_int_literal s)
int_or_error s (some z) = ok z

-- `int(s)` of a text.
pub int_of : Str → Result ℤ
unfolding strip
int_of s = int_or_error s (int_str (strip s))

-- ----- the server list

-- A pair of what `rsplit` gives.
abbrev pub unpack : Option (Str × Str) → Result (Str × ℤ)
unpack none = raise value_error too_few_values
unpack (some (host, port_str)) = map_result (λ port. (host, port)) (int_of port_str)

pub parse_entries : List Str → Result (List (Str × ℤ))
unfolding rsplit_on int_of
parse_entries [] = ok []
parse_entries (entry ∷ entries) = do
  server ← unpack (rsplit_on 58 entry)
  servers ← parse_entries entries
  ok (server ∷ servers)

pub parse_servers : Str → Result (List (Str × ℤ))
unfolding split_on parse_entries
parse_servers raw = parse_entries (split_on 44 raw)
