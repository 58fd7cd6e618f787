-- ===== src/Text/Decimal/RoundTrip.antt =====
-- The decimal print of a number, and its reading.
use native.Mathlib.Nat.{pow-suc}
use dflockd_client_py.Base.{
  length, length-append, ◌^◌, Bool-cases, ltb, inl, inr, ℕ, zero, suc, ◌+◌, ◌*◌, ◌/◌, ◌%◌, ◌≤◌, ◌<◌,
  ◌≡◌, ◌≢◌, refl, Bool, true, false, some, [], ◌∷◌, ◌++◌, Str, arith, All, All-append,
}
use dflockd_client_py.Base.Int.{ℤ, pos, negsuc}
use dflockd_client_py.Text.Words.{is_space}
use dflockd_client_py.Text.Words.Laws.{IsWord}
use dflockd_client_py.Text.Decimal.{
  show_fuel, show_nat, show_int, digit, Scan, scan_char, scan, parse_nat, map_int, parse_int,
  digits, max_str_digits, int_str,
}

abbrev pub IsDigit : ℕ → Type 0
IsDigit c = (48 ≤ c) × (c ≤ 57)

show_fuel-digits : (f n : ℕ) → All IsDigit (show_fuel f n)
unfolding show_fuel
show_fuel-digits zero n = tt
show_fuel-digits (suc f) n = ground (
  arith,
  show_fuel-digits f (n / 10),
  All-append IsDigit (show_fuel f (n / 10)) ((48 + n % 10) ∷ []),
)

pub show_nat-digits : (n : ℕ) → All IsDigit (show_nat n)
unfolding show_nat
show_nat-digits n = show_fuel-digits (suc n) n

append-ne_nil : (s : Str) (c : ℕ) → s ++ (c ∷ []) ≢ []
append-ne_nil [] c e = cc
append-ne_nil (d ∷ s) c e = cc

show_nat-ne-nil : (n : ℕ) → show_nat n ≢ []
unfolding show_nat
show_nat-ne-nil n = ground (arith, append-ne_nil (show_fuel n (n / 10)) (48 + n % 10))

digit_lem : (d : ℕ) → d < 10 → digit (48 + d) ≡ some d
unfolding digit
digit_lem d h = ground arith

scan-append : (st : Scan) (s t : Str) → scan st (s ++ t) ≡ scan (scan st s) t
unfolding scan
scan-append st [] t = refl
scan-append st (c ∷ s) t = scan-append (scan_char st c) s t

scan_char_digit :
    (b : Bool) (n d : ℕ) → d < 10 → scan_char (some (b, n)) (48 + d) ≡ some (true, n * 10 + d)
unfolding scan_char
scan_char_digit b n d h = ground (arith, digit_lem d h)

scan-show_fuel : (f n : ℕ) → n < f → scan (some (false, 0)) (show_fuel f n) ≡ some (true, n)
unfolding show_fuel scan
scan-show_fuel zero n h = elim h [ ]
scan-show_fuel (suc f) n h = elim (Bool-cases (ltb n 10)) [
  | inl one_digit ↦ rw (one_digit, scan_char_digit false 0 n (ground arith)) (ground arith)
  | inr longer ↦
      rw
        (
          longer,
          scan-append _ (show_fuel f (n / 10)) ((48 + n % 10) ∷ []),
          scan-show_fuel f (n / 10) (ground arith),
          scan_char_digit true (n / 10) (n % 10) (omega arith),
        )
        (ground arith)
]

scan-show_nat : (n : ℕ) → scan (some (false, 0)) (show_nat n) ≡ some (true, n)
unfolding show_nat
scan-show_nat n = scan-show_fuel (suc n) n (omega arith)

pub parse_nat-show_nat : (n : ℕ) → parse_nat (show_nat n) ≡ some n
unfolding parse_nat
parse_nat-show_nat n = rw (scan-show_nat n)

digit_not_space : (c : ℕ) → IsDigit c → is_space c ≡ false
unfolding is_space
digit_not_space c h = ground arith

no_space : (s : Str) → All IsDigit s → All (λ c. is_space c ≡ false) s
no_space [] h = tt
no_space (c ∷ s) h = (digit_not_space c h.0, no_space s h.1)

-- A printed integer is one word for `split`.
pub show_int-IsWord : (z : ℤ) → IsWord (show_int z)
unfolding show_int
show_int-IsWord (pos n) = (show_nat-ne-nil n, no_space (show_nat n) (show_nat-digits n))
show_int-IsWord (negsuc n) =
    ((cc), (unfold is_space in refl, no_space (show_nat (suc n)) (show_nat-digits (suc n))))

parse_int-digits : (s : Str) → All IsDigit s → parse_int s ≡ map_int pos (parse_nat s)
unfolding parse_int parse_nat
parse_int-digits [] h = refl
parse_int-digits (c ∷ s) h = ground arith

-- Every integer is read back from its print.
pub parse_int-show_int : (z : ℤ) → parse_int (show_int z) ≡ some z
unfolding show_int
parse_int-show_int (pos n) =
    rw (parse_int-digits (show_nat n) (show_nat-digits n), parse_nat-show_nat n)
parse_int-show_int (negsuc n) = unfold parse_int in rw (parse_nat-show_nat (suc n))

length-show_fuel : (f n k : ℕ) → n < 10 ^ k → 0 < k → length (show_fuel f n) ≤ k
unfolding show_fuel
length-show_fuel zero n k h p = omega arith
length-show_fuel (suc f) n zero h p = absurd (omega arith)
length-show_fuel (suc f) n (suc zero) h p = ground arith
length-show_fuel (suc f) n (suc (suc k)) h p =
    let e : 10 ^ suc (suc k) ≡ 10 ^ suc k * 10 = pow-suc 10 (suc k) in
    let ih = length-show_fuel f (n / 10) (suc k) (omega arith) (omega arith) in
    ground (arith, length-append (show_fuel f (n / 10)) ((48 + n % 10) ∷ []))

-- A number below 10^k has at most k digits.
pub length-show_nat : (n k : ℕ) → n < 10 ^ k → 0 < k → length (show_nat n) ≤ k
unfolding show_nat
length-show_nat n k h p = length-show_fuel (suc n) n k h p

length-digits : (s : Str) → digits s ≤ length s
unfolding digits
length-digits [] = omega arith
length-digits (c ∷ s) = ground (arith, length-digits s)

-- The limit of `int` is no limit for numbers that are printed with few digits.
pub int_str-show_nat : (n : ℕ) → n < 10 ^ 10 → int_str (show_nat n) ≡ some (pos n)
unfolding int_str show_int
int_str-show_nat n lt =
    let few : ltb max_str_digits (digits (show_nat n)) ≡ false =
      ground (arith, length-digits (show_nat n), length-show_nat n 10 lt (omega arith)) in
    rw (few, parse_int-show_int (pos n)) refl

-- A number that is read within the limit is the number of the text.
pub int_str-parse_int : (s : Str) {z : ℤ} → int_str s ≡ some z → parse_int s ≡ some z
unfolding int_str
int_str-parse_int s h = elim (Bool-cases (ltb max_str_digits (digits s))) [
  | inl many ↦ absurd (ground (arith, many, h))
  | inr few ↦ rw few at h
]
