-- ===== src/Units.antt =====
-- Conversions of altitudes: src/altitude-units.hpp.
use fss_smm_mav.Prelude.{ℕ, ◌*◌, ◌^◌, ◌≡◌, refl, Bool, true, false, arith}
use fss_smm_mav.Prelude.Double.{
  one, of_ℕ, magnitude, pack, round, mul, div, decimal, Double, nan, fin,
}

unfoldable pub metres_per_foot : Double
unfolding div
metres_per_foot = decimal 3048 4

unfoldable pub metres_to_feet : Double → Double
unfolding div metres_per_foot
metres_to_feet metres = div metres metres_per_foot

unfoldable pub feet_to_metres : Double → Double
unfolding mul metres_per_foot
feet_to_metres feet = mul feet metres_per_foot

abbrev pub is_nan : Double → Bool
is_nan nan = true
is_nan _ = false

pub pack-not_nan : (s : Bool) (n : ℕ) → is_nan (pack s n) ≡ false
unfolding pack
pack-not_nan s n = ground arith

-- The value of the constant.
abbrev foot : ℕ
foot = 5490788665690109 * 2 ^ 1020

metres_per_foot-foot : metres_per_foot ≡ fin false foot
unfolding metres_per_foot div round pack magnitude one
metres_per_foot-foot = refl

-- An altitude on the wire has a value in metres.
pub feet_to_metres-not_nan : (n : ℕ) → is_nan (feet_to_metres (of_ℕ n)) ≡ false
unfolding feet_to_metres mul round
feet_to_metres-not_nan n =
    rw metres_per_foot-foot (pack-not_nan false (magnitude (n * one * foot) one))
