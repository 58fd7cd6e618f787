-- ===== src/Base/Float.antt =====
-- A Python `float`: `finite m k` is m / 2^k, which every finite double is for some m and k.
-- Comparisons with integers are exact, as Python's are.
use Prim.Native.Nat.{ℕ, ◌*◌, ◌^◌}
use mathlib.Core.Bool.{Bool, true, false}
use dflockd_client_py.Base.Int.{ℤ, pos, ltb_ℤ, leb_ℤ}

pub data Float : Type 0 where
  nan : Float
  infinity : Bool → Float
  finite : ℤ → ℕ → Float

abbrev pub is_finite : Float → Bool
is_finite nan = false
is_finite (infinity negative) = false
is_finite (finite m k) = true

-- `x <= n` and `n < x` for an integer n ≥ 0.
abbrev pub le_nat : Float → ℕ → Bool
le_nat nan n = false
le_nat (infinity negative) n = negative
le_nat (finite m k) n = leb_ℤ m (pos (n * 2 ^ k))

abbrev pub gt_nat : Float → ℕ → Bool
gt_nat nan n = false
gt_nat (infinity true) n = false
gt_nat (infinity false) n = true
gt_nat (finite m k) n = ltb_ℤ (pos (n * 2 ^ k)) m

-- `x < n`
abbrev pub lt_nat : Float → ℕ → Bool
lt_nat nan n = false
lt_nat (infinity negative) n = negative
lt_nat (finite m k) n = ltb_ℤ m (pos (n * 2 ^ k))
