-- ===== src/Protocol/Fence/Order.antt =====
-- The fences of two tokens against the order of their texts, and the fence of a printed number.
use dflockd_client_py.Base.{
  ℕ, zero, suc, ◌+◌, ◌*◌, ◌/◌, ◌%◌, ◌^◌, ◌≤◌, ◌<◌, ◌≡◌, ◌⊎◌, ◌↔◌, refl, ap, Bool, true, false, [],
  ◌∷◌, ◌++◌, Str, ltb, length, take, if◌then◌else◌, arith, All, length-append,
}
use native.Mathlib.Nat.{mul-le-mul_right, pow-suc}
use dflockd_client_py.Errors.{ok}
use dflockd_client_py.Protocol.Fence.{is_hex, all_hex, hex_value, hex_number, fence_from_token}
use dflockd_client_py.Protocol.Fence.Laws.{room, room-pow, hex_number-lt}

-- Python's `<` on texts.
pub lex_lt : Str → Str → Bool
lex_lt s [] = false
lex_lt [] (d ∷ t) = true
lex_lt (c ∷ s) (d ∷ t) =
    let rest = lex_lt s t in if ltb c d then true else if ltb d c then false else rest

-- The digits that the server prints: no capital letters.
abbrev pub IsLowerHex : ℕ → Type 0
IsLowerHex c = ((48 ≤ c) × (c ≤ 57)) ⊎ ((97 ≤ c) × (c ≤ 102))

lower_is_hex : (s : Str) → All IsLowerHex s → all_hex s ≡ true
unfolding all_hex is_hex
lower_is_hex [] h = refl
lower_is_hex (c ∷ s) h = ground (arith, lower_is_hex s h.1)

hex_number-ge : (s : Str) (n : ℕ) → n * room s ≤ hex_number n s
unfolding hex_number
hex_number-ge [] n = omega arith
hex_number-ge (c ∷ s) n = omega (
  arith,
  hex_number-ge s (n * 16 + hex_value c),
  mul-le-mul_right {m = n * 16} {n = n * 16 + hex_value c} (room s) (omega arith),
)

hex_number_mono :
    (s t : Str) (m n : ℕ)
    → all_hex s ≡ true
    → length s ≡ length t
    → m < n
    → hex_number m s < hex_number n t
hex_number_mono s t m n h e lt =
    let same : room s ≡ room t = rw (room-pow s, room-pow t, e) in
    omega (
      arith,
      hex_number-lt s m h,
      hex_number-ge t n,
      mul-le-mul_right {m = m + 1} {n = n} (room t) (omega arith),
      ap (λ r. (m + 1) * r) same,
    )

hex_value_mono : (c d : ℕ) → IsLowerHex c → IsLowerHex d → c < d → hex_value c < hex_value d
unfolding hex_value
hex_value_mono c d h k lt = ground arith

lex_lt-hex_number :
    (s t : Str) (n : ℕ)
    → All IsLowerHex s
    → All IsLowerHex t
    → length s ≡ length t
    → lex_lt s t ≡ ltb (hex_number n s) (hex_number n t)
unfolding lex_lt hex_number
lex_lt-hex_number [] [] n h k e = ground arith
lex_lt-hex_number [] (d ∷ t) n h k e = absurd (omega arith)
lex_lt-hex_number (c ∷ s) [] n h k e = absurd (omega arith)
lex_lt-hex_number (c ∷ s) (d ∷ t) n h k e = ground (
  arith,
  lex_lt-hex_number s t (n * 16 + hex_value c) h.1 k.1,
  hex_value_mono c d h.0 k.0,
  hex_value_mono d c k.0 h.0,
  hex_number_mono s t (n * 16 + hex_value c) (n * 16 + hex_value d) (lower_is_hex s h.1),
  hex_number_mono t s (n * 16 + hex_value d) (n * 16 + hex_value c) (lower_is_hex t k.1),
)

All-take : (k : ℕ) (s : Str) → All IsLowerHex s → All IsLowerHex (take k s)
All-take zero s h = tt
All-take (suc k) [] h = tt
All-take (suc k) (c ∷ s) h = (h.0, All-take k s h.1)

length-take-eq : (k : ℕ) (s t : Str) → length s ≡ length t → length (take k s) ≡ length (take k t)
length-take-eq zero s t e = refl
length-take-eq (suc k) [] [] e = refl
length-take-eq (suc k) [] (d ∷ t) e = absurd (omega arith)
length-take-eq (suc k) (c ∷ s) [] e = absurd (omega arith)
length-take-eq (suc k) (c ∷ s) (d ∷ t) e = omega (arith, length-take-eq k s t (omega arith))

accepted :
    (token : Str) {n : ℕ}
    → fence_from_token token ≡ ok n
    → (length token ≡ 32) × (n ≡ hex_number 0 (take 16 token))
unfolding fence_from_token
accepted token h = ground arith

-- Of two tokens with digits and lower-case letters a to f that have fences, the fence of the
-- first is smaller than that of the second exactly if the first 16 characters of the first come
-- before those of the second in the order of texts.
pub fence_order :
    (a b : Str) {m n : ℕ}
    → All IsLowerHex a
    → All IsLowerHex b
    → fence_from_token a ≡ ok m
    → fence_from_token b ≡ ok n
    → (m < n) ↔ (lex_lt (take 16 a) (take 16 b) ≡ true)
fence_order a b {m} {n} ha hb ea eb =
    let (la, va) = accepted a ea in
    let (lb, vb) = accepted b eb in
    let same =
      lex_lt-hex_number (take 16 a) (take 16 b) 0 (All-take 16 a ha) (All-take 16 b hb)
        (length-take-eq 16 a b (omega arith)) in
    (λ lt. ground arith, λ e. ground arith)

hex_char : ℕ → ℕ
hex_char d = if ltb d 10 then 48 + d else 87 + d

-- The last `k` hexadecimal digits of a number.
pub hex_digits : ℕ → ℕ → Str
hex_digits zero n = []
hex_digits (suc k) n = hex_digits k (n / 16) ++ (hex_char (n % 16) ∷ [])

hex_number-append :
    (s : Str) (n c : ℕ) → hex_number n (s ++ (c ∷ [])) ≡ hex_number n s * 16 + hex_value c
unfolding hex_number
hex_number-append [] n c = refl
hex_number-append (d ∷ s) n c = hex_number-append s (n * 16 + hex_value d) c

hex_char_lem : (d : ℕ) → d < 16 → (hex_value (hex_char d) ≡ d) × (is_hex (hex_char d) ≡ true)
unfolding hex_value hex_char is_hex
hex_char_lem d h = ground arith

small : (k n : ℕ) → n < 16 ^ suc k → n / 16 < 16 ^ k
small k n h = let e : 16 ^ suc k ≡ 16 ^ k * 16 = pow-suc 16 k in omega arith

hex_number-hex_digits : (k n : ℕ) → n < 16 ^ k → hex_number 0 (hex_digits k n) ≡ n
unfolding hex_digits
hex_number-hex_digits zero n h = unfold hex_number in omega arith
hex_number-hex_digits (suc k) n h =
    rw
      (
        hex_number-append (hex_digits k (n / 16)) 0 (hex_char (n % 16)),
        hex_number-hex_digits k (n / 16) (small k n h),
        (hex_char_lem (n % 16) (omega arith)).0,
      )
      (omega arith)

length-hex_digits : (k n : ℕ) → length (hex_digits k n) ≡ k
unfolding hex_digits
length-hex_digits zero n = refl
length-hex_digits (suc k) n = omega (
  arith,
  length-append (hex_digits k (n / 16)) (hex_char (n % 16) ∷ []),
  length-hex_digits k (n / 16),
)

all_hex-append : (s t : Str) → all_hex s ≡ true → all_hex t ≡ true → all_hex (s ++ t) ≡ true
unfolding all_hex
all_hex-append [] t h k = k
all_hex-append (c ∷ s) t h k = ground (arith, all_hex-append s t)

all_hex-hex_digits : (k n : ℕ) → all_hex (hex_digits k n) ≡ true
unfolding hex_digits
all_hex-hex_digits zero n = unfold all_hex in refl
all_hex-hex_digits (suc k) n =
    all_hex-append (hex_digits k (n / 16)) _ (all_hex-hex_digits k (n / 16))
      (unfold all_hex in ground (arith, hex_char_lem (n % 16) (omega arith)))

take-append : (s t : Str) (k : ℕ) → length s ≡ k → take k (s ++ t) ≡ s
take-append [] t k e = rw (← e)
take-append (c ∷ s) t zero e = absurd (omega arith)
take-append (c ∷ s) t (suc k) e = rw (take-append s t k (omega arith))

-- A token of a number below 2^64 in 16 hexadecimal digits and 16 further hexadecimal characters
-- has that number as its fence.
pub fence_from_token-hex_digits :
    (n : ℕ) (tail : Str)
    → n < 2 ^ 64
    → length tail ≡ 16
    → all_hex tail ≡ true
    → fence_from_token (hex_digits 16 n ++ tail) ≡ ok n
unfolding fence_from_token
fence_from_token-hex_digits n tail h e k = ground (
  arith,
  length-append (hex_digits 16 n) tail,
  length-hex_digits 16 n,
  all_hex-append (hex_digits 16 n) tail (all_hex-hex_digits 16 n) k,
  take-append (hex_digits 16 n) tail 16 (length-hex_digits 16 n),
  hex_number-hex_digits 16 n h,
)
