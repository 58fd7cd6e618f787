-- ===== src/Base/Rounding/Bounds.antt =====
-- How far rounding moves a product.
use Prim.Native.Nat.{ℕ, zero, suc, ◌+◌, ◌-◌, ◌*◌, ◌/◌, ◌^◌, ◌≤◌, ◌<◌}
use mathlib.Core.Path.{◌≡◌, refl, ap, sym, ◌∙◌}
use mathlib.Core.Logic.{◌⊎◌, inl, inr}
use native.Mathlib.Omega.{arith}
use native.Mathlib.Nat.{
  pow-zero, add-zero, mul-one, mul_assoc, pow-suc, pow-le-pow_right, div-mul-le_self,
  lt_of_mul-lt-mul_right, mul-le-mul_right, mul-lt-mul_of_pos_left,
}
use dflockd_client_py.Base.Tests.{ltb, leb, Bool-cases}
use dflockd_client_py.Base.Int.{pos}
use dflockd_client_py.Base.Float.{Float, finite, gt_nat}
use dflockd_client_py.Base.Rounding.{excess, nearest, drop_bits, rounded, times, max_one}

pow_add : (a b : ℕ) → 2 ^ (a + b) ≡ 2 ^ a * 2 ^ b
pow_add a zero = ground (arith, pow-zero 2, add-zero a, mul-one (2 ^ a))
pow_add a (suc b) =
    ground (arith, pow-suc 2 (a + b), pow-suc 2 b, pow_add a b, mul_assoc (2 ^ a) (2 ^ b) 2)

halved_le : (p e : ℕ) → 2 ^ 53 ≤ p → (e ≡ 0) ⊎ (2 ^ 52 * 2 ^ e ≤ p / 2) → 2 ^ 52 * 2 ^ suc e ≤ p
halved_le p e big (inl none) = ground (arith, pow-suc 2 e, pow-zero 2)
halved_le p e big (inr more) = omega (arith, pow-suc 2 e, div-mul-le_self p 2)

-- What is dropped leaves 53 bits.
excess_le : (fuel p : ℕ) → (excess fuel p ≡ 0) ⊎ (2 ^ 52 * 2 ^ excess fuel p ≤ p)
unfolding excess
excess_le zero p = inl refl
excess_le (suc fuel) p = elim (Bool-cases (ltb p (2 ^ 53))) [
  | inl small ↦ rw (small, excess) (inl refl)
  | inr big ↦
      rw (big, excess)
        (inr (halved_le p (excess fuel (p / 2)) (ground (arith, big)) (excess_le fuel (p / 2))))
]

nearest_le : (p d n : ℕ) → p < n * d → nearest p d ≤ n
nearest_le p d n h =
    let down : p / d < n = lt_of_mul-lt-mul_right d (omega (arith, h, div-mul-le_self p d)) in
    ground (arith, down)

drop_bits_le :
    (p k s n : ℕ) → p < n * 2 ^ k → s ≤ k → (drop_bits p k s).0 ≤ n * 2 ^ (drop_bits p k s).1
drop_bits_le p k s n h le =
    let sum : k - s + s ≡ k = omega arith in
    let split : 2 ^ k ≡ 2 ^ (k - s) * 2 ^ s = ap (λ x. 2 ^ x) (sym sum) ∙ pow_add (k - s) s in
    let near =
      nearest_le p (2 ^ s) (n * 2 ^ (k - s))
        (rw (mul_assoc n (2 ^ (k - s)) (2 ^ s)) (rw split at h)) in
    elim (Bool-cases (leb s k)) [
      | inl below ↦ simp below near
      | inr above ↦ absurd (ground (arith, above))
    ]

-- The bits that are dropped from a product below n are fractions.
excess_small : (p k n : ℕ) → p < n * 2 ^ k → n ≤ 2 ^ 52 → excess p p ≤ k
excess_small p k n h small = elim (excess_le p p) [
  | inl none ↦ omega (arith, none)
  | inr more ↦ elim (Bool-cases (leb (excess p p) k)) [
    | inl below ↦ ground (arith, below)
    | inr above ↦
        let grows : 2 ^ k ≤ 2 ^ excess p p =
          pow-le-pow_right (omega arith) (ground (arith, above)) in
        absurd (omega (arith, grows, more, h, mul-le-mul_right (2 ^ k) small))
  ]
]

-- A number times a fraction below 1 is at most the number, rounded too.
pub times_le :
    (n m k : ℕ)
    → n ≤ 2 ^ 52
    → 0 < n
    → m < 2 ^ k
    → (p : ℕ) × (j : ℕ) × (times n (finite (pos m) k) ≡ finite (pos p) j) × (p ≤ n * 2 ^ j)
unfolding times rounded
times_le n m k small some below =
    let h : n * m < n * 2 ^ k = mul-lt-mul_of_pos_left below some in
    (
      (drop_bits (n * m) k (excess (n * m) (n * m))).0,
      (drop_bits (n * m) k (excess (n * m) (n * m))).1,
      refl,
      drop_bits_le (n * m) k (excess (n * m) (n * m)) n h (excess_small (n * m) k n h small),
    )

-- A finite float that is at least 1 and at most n.
abbrev pub IsWithin : ℕ → Float → Type 0
IsWithin n x = (p : ℕ) × (j : ℕ) × (x ≡ finite (pos p) j) × (2 ^ j ≤ p) × (p ≤ n * 2 ^ j)

pub max_one-IsWithin :
    (n p j : ℕ) (x : Float) → x ≡ finite (pos p) j → 0 < n → p ≤ n * 2 ^ j → IsWithin n (max_one x)
max_one-IsWithin n p j x q some le = elim (Bool-cases (gt_nat x 1)) [
  | inl more ↦ simp more (p, j, q, ground (arith, more, q), le)
  | inr less ↦ simp less (1, 0, refl, omega (arith, pow-zero 2), omega (arith, pow-zero 2, some))
]
