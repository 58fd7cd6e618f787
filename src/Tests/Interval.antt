-- ===== src/Tests/Interval.antt =====
-- The sleep of the renew loop, and the rounding of its product, at concrete values.
use dflockd_client_py.Base.{◌≡◌, refl, arith}
use dflockd_client_py.Base.Int.{pos}
use dflockd_client_py.Base.Float.{finite}
use dflockd_client_py.Base.Rounding.{times}
use dflockd_client_py.Base.Rounding.Bounds.{IsWithin}
use dflockd_client_py.Sync.Hooks.{validate_renew_ratio}
use dflockd_client_py.Sync.Interval.{renew_interval, renew_interval-IsWithin}

-- 3 * 0.1 is 0.30000000000000004.
times_run : times 3 (finite (pos 3602879701896397) 55) ≡ finite (pos 5404319552844596) 54
unfolding times
times_run = refl

half_run : renew_interval (pos 33) (finite (pos 1) 1) ≡ finite (pos 33) 1
unfolding renew_interval
half_run = refl

interval_example : IsWithin 33 (renew_interval (pos 33) (finite (pos 1) 1))
unfolding validate_renew_ratio
interval_example = renew_interval-IsWithin (pos 33) (finite (pos 1) 1) (omega arith) refl
