-- ===== src/Protocol/Fence/Laws.antt =====
-- The range of what `fence_from_token` returns, and when it raises.
use dflockd_client_py.Base.{
  ◌≤◌, ℕ, zero, suc, ◌+◌, ◌*◌, ◌^◌, ◌<◌, ◌≡◌, ◌≢◌, ◌⊎◌, inl, inr, refl, true, false, [], ◌∷◌, Str,
  ◌==◌, length, take, arith, Bool-cases,
}
use native.Mathlib.Nat.{pow-suc}
use dflockd_client_py.Errors.{token_length, token_not_hex, value_error, ok, err, Message, raised}
use dflockd_client_py.Protocol.Fence.{is_hex, all_hex, hex_value, hex_number, fence_from_token}

hex_value-lt : (c : ℕ) → is_hex c ≡ true → hex_value c < 16
unfolding is_hex hex_value
hex_value-lt c h = ground arith

-- Room that the digits of a text take.
abbrev pub room : Str → ℕ
room [] = 1
room (c ∷ s) = 16 * room s

pub room-pow : (s : Str) → room s ≡ 16 ^ length s
room-pow [] = refl
room-pow (c ∷ s) = rw (room-pow s, pow-suc) (omega arith)

mul_room : (a b r : ℕ) → a < b → (a + 1) * r ≤ b * r
mul_room a b r h = grind arith

pub hex_number-lt : (s : Str) (n : ℕ) → all_hex s ≡ true → hex_number n s < (n + 1) * room s
unfolding all_hex hex_number
hex_number-lt [] n h = omega arith
hex_number-lt (c ∷ s) n h =
    let one : hex_value c < 16 = hex_value-lt c (ground arith) in
    let all : hex_number (n * 16 + hex_value c) s < (n * 16 + hex_value c + 1) * room s =
      hex_number-lt s (n * 16 + hex_value c) (ground arith) in
    omega (arith, mul_room (hex_value c) 16 (room s) one)

all_hex-take : (k : ℕ) (s : Str) → all_hex s ≡ true → all_hex (take k s) ≡ true
unfolding all_hex
all_hex-take zero s h = refl
all_hex-take (suc k) [] h = refl
all_hex-take (suc k) (c ∷ s) h = ground (arith, all_hex-take k s)

length-take-le : (k m : ℕ) (s : Str) → k + m ≡ length s → length (take k s) ≡ k
length-take-le zero m s h = refl
length-take-le (suc k) m [] h = absurd (omega arith)
length-take-le (suc k) m (c ∷ s) h = omega (arith, length-take-le k m s)

hex_number-lt_pow : (s : Str) → all_hex s ≡ true → length s ≡ 16 → hex_number 0 s < 2 ^ 64
hex_number-lt_pow s h e =
    let r : room s ≡ 16 ^ 16 = rw (room-pow s, e) in omega (arith, hex_number-lt s 0 h)

-- For every token, either it has 32 characters, all hexadecimal, and `fence_from_token` returns a
-- number below 2^64, or it has not and `fence_from_token` raises a `ValueError`.
pub fence_from_token_bounds :
    (token : Str)
    → ((length token ≡ 32)
        × (all_hex token ≡ true)
        × ((n : ℕ) × (fence_from_token token ≡ ok n) × (n < 2 ^ 64)))
      ⊎ (((length token ≢ 32) ⊎ (all_hex token ≡ false))
          × ((m : Message) × (fence_from_token token ≡ err (raised value_error m))))
unfolding fence_from_token
fence_from_token_bounds token = elim (Bool-cases (length token == 32)) [
  | inr short ↦ inr (inl (ground arith), (token_length (length token), rw short))
  | inl long ↦ elim (Bool-cases (all_hex token)) [
    | inr bad ↦ inr (inr bad, (token_not_hex token, rw (long, bad)))
    | inl good ↦ inl (
      ground arith,
      good,
      (
        _,
        rw (long, good),
        hex_number-lt_pow (take 16 token) (all_hex-take 16 token good)
            (length-take-le 16 16 token (ground arith)),
      ),
    )
  ]
]
