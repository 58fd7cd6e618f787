-- ===== src/Sync/Interval.antt =====
-- `renew_interval`: how long the renew loop sleeps.
use dflockd_client_py.Base.{
  ℕ, ◌^◌, ◌≤◌, ◌<◌, ◌≡◌, inl, inr, Bool-cases, true, false, arith, if◌then◌else◌,
}
use dflockd_client_py.Base.Int.{ℤ, pos, negsuc, pos_part, ltb_ℤ, ◌≤ℤ◌}
use dflockd_client_py.Base.Float.{Float, nan, infinity, finite, lt_nat}
use dflockd_client_py.Base.Rounding.{times, max_one}
use dflockd_client_py.Base.Rounding.Bounds.{times_le, IsWithin, max_one-IsWithin}
use dflockd_client_py.Errors.{ok}
use dflockd_client_py.Protocol.Validate.{max_protocol_seconds}
use dflockd_client_py.Sync.Hooks.{validate_renew_ratio}

abbrev pub default_lease_fallback_s : ℕ
default_lease_fallback_s = 30

-- The lease time that the sleep is a part of.
abbrev pub lease_or_fallback : ℤ → ℕ
lease_or_fallback lease_s =
    if ltb_ℤ (pos 0) lease_s then pos_part lease_s else default_lease_fallback_s

-- A lease time is within the limit of the protocol, so a double holds it exactly, and a ratio is
-- below 1, so the product does not overflow; one that underflows gives way to 1.
unfoldable pub renew_interval : ℤ → Float → Float
unfolding times
renew_interval lease_s ratio = max_one (times (lease_or_fallback lease_s) ratio)

lease_or_fallback_le :
    (lease_s : ℤ)
    → lease_s ≤ℤ pos max_protocol_seconds
    → (0 < lease_or_fallback lease_s) × (lease_or_fallback lease_s ≤ 2 ^ 52)
lease_or_fallback_le (pos n) h = ground (arith, h)
lease_or_fallback_le (negsuc n) h = ground arith

ratio_below : (m k : ℕ) → validate_renew_ratio (finite (pos m) k) ≡ ok tt → m < 2 ^ k
unfolding validate_renew_ratio
ratio_below m k valid = elim (Bool-cases (lt_nat (finite (pos m) k) 1)) [
  | inl below ↦ ground (arith, below)
  | inr above ↦ absurd (ground (arith, above, valid))
]

-- For a lease time within the limit of the protocol and a ratio that `_validate_renew_ratio`
-- accepts, `renew_interval` is a finite float that is at least 1 and at most the lease time, or
-- at most 30 if the lease time is not positive; the product is rounded as doubles are.
pub renew_interval-IsWithin :
    (lease_s : ℤ) (ratio : Float)
    → lease_s ≤ℤ pos max_protocol_seconds
    → validate_renew_ratio ratio ≡ ok tt
    → IsWithin (lease_or_fallback lease_s) (renew_interval lease_s ratio)
unfolding renew_interval validate_renew_ratio
renew_interval-IsWithin lease_s nan h valid = absurd (ground arith)
renew_interval-IsWithin lease_s (infinity true) h valid = absurd (ground arith)
renew_interval-IsWithin lease_s (infinity false) h valid = absurd (ground arith)
renew_interval-IsWithin lease_s (finite (negsuc m) k) h valid = absurd (ground arith)
renew_interval-IsWithin lease_s (finite (pos m) k) h valid =
    let (some, small) = lease_or_fallback_le lease_s h in
    let (p, j, same, le) =
      times_le (lease_or_fallback lease_s) m k small some (ratio_below m k valid) in
    max_one-IsWithin (lease_or_fallback lease_s) p j
      (times (lease_or_fallback lease_s) (finite (pos m) k)) same some le
