-- ===== src/Base/Rounding.antt =====
-- Products of an integer and a `float`, rounded as IEEE 754 doubles are: to 53 bits, to the nearest,
-- ties to even. The exponent has no bounds here.
pub mod Bounds
use Prim.Native.Nat.{ℕ, zero, suc, ◌+◌, ◌-◌, ◌*◌, ◌/◌, ◌%◌, ◌^◌}
use mathlib.Core.Bool.{Bool, true, false, ◌&&◌, ◌||◌}
use dflockd_client_py.Base.Tests.{ltb, leb, ◌==◌, if◌then◌else◌}
use dflockd_client_py.Base.Int.{ℤ, pos, negsuc}
use dflockd_client_py.Base.Float.{Float, nan, infinity, finite, gt_nat}

-- How many bits a number has beyond 53. The number is fuel enough for itself.
unfoldable pub excess : ℕ → ℕ → ℕ
excess zero p = 0
excess (suc fuel) p = elim (ltb p (2 ^ 53)) [ true ↦ 0 | false ↦ suc (excess fuel (p / 2)) ]

-- p / d to the nearest integer, a tie to the even one.
abbrev pub nearest : ℕ → ℕ → ℕ
nearest p d =
    if ltb d (2 * (p % d)) || ((2 * (p % d) == d) && (p / d % 2 == 1)) then p / d + 1 else p / d

-- p / 2^k with its last s bits rounded off.
abbrev pub drop_bits : ℕ → ℕ → ℕ → ℕ × ℕ
drop_bits p k s =
    if leb s k then (nearest p (2 ^ s), k - s) else (nearest p (2 ^ s) * 2 ^ (s - k), 0)

unfoldable pub rounded : ℕ → ℕ → ℕ × ℕ
unfolding excess
rounded p k = drop_bits p k (excess p p)

abbrev negated : ℕ → ℤ
negated zero = pos zero
negated (suc n) = negsuc n

-- `n * x` for an n that a double holds exactly.
unfoldable pub times : ℕ → Float → Float
unfolding rounded
times n nan = nan
times n (infinity negative) = if n == 0 then nan else infinity negative
times n (finite (pos m) k) = let (p, j) = rounded (n * m) k in finite (pos p) j
times n (finite (negsuc m) k) = let (p, j) = rounded (n * suc m) k in finite (negated p) j

-- `max(1.0, x)`
abbrev pub max_one : Float → Float
max_one x = if gt_nat x 1 then x else finite (pos 1) 0
