-- ===== src/Mav/Encoding.antt =====
-- The numbers on the wire: src/mav/latlon-encoding.hpp, src/mav/battery-voltage.hpp and
-- src/mav/velocity.hpp. std::hypot is a parameter.
use native.Mathlib.Nat.{div-le_of_le-mul, mul_comm}
use fss_smm_mav.Dispatch.{ℤ, pos, negsuc}
use fss_smm_mav.Prelude.{
  ℕ, zero, suc, ◌+◌, ◌*◌, ◌%◌, ◌^◌, ◌≤◌, ◌≡◌, refl, subst, Bool, true, false, not, ◌||◌, arith, ltb,
  ◌==◌, if◌then◌else◌,
}
use fss_smm_mav.Prelude.Double.{
  one, of_ℕ, is_finite, trunc, lt, eq, le, neg, mul, div, decimal, Double, nan, inf, fin,
}

-- An integer of a sign and a magnitude.
abbrev pub signed : Bool → ℕ → ℤ
signed false n = pos n
signed true zero = pos 0
signed true (suc n) = negsuc n

-- LAT_LNG_COV.
unfoldable pub lat_lng_cov : Double
unfolding div
lat_lng_cov = decimal 1 7

-- `static_cast<int32_t>`, of a value in range; 0 stands for an undefined cast.
abbrev pub truncated : Double → ℤ
truncated (fin s n) = signed s (trunc n)
truncated _ = pos 0

abbrev pub int32_max : ℕ
int32_max = 2147483647

unfoldable pub encode_deg_e7 : Double → ℤ
unfolding le
encode_deg_e7 scaled =
    if le scaled (neg (of_ℕ (int32_max + 1)))
    then negsuc int32_max
    else if le (of_ℕ int32_max) scaled
    then pos int32_max
    else truncated scaled

unfoldable pub degrees_to_deg_e7 : Double → ℤ
unfolding encode_deg_e7 lat_lng_cov div
degrees_to_deg_e7 degrees =
    if not (is_finite degrees) then pos 0 else encode_deg_e7 (div degrees lat_lng_cov)

-- An int32_t as a double, which is exact.
abbrev pub of_int : ℤ → Double
of_int (pos n) = of_ℕ n
of_int (negsuc n) = neg (of_ℕ (n + 1))

unfoldable pub deg_e7_to_degrees : ℤ → Double
unfolding mul lat_lng_cov
deg_e7_to_degrees deg_e7 = mul (of_int deg_e7) lat_lng_cov

abbrev pub battery_voltage_unknown : Double
battery_voltage_unknown = of_ℕ 0

unfoldable pub battery_pack_voltage_v : ℕ → Double
unfolding div
battery_pack_voltage_v cell0_mv =
    if cell0_mv == 65535 then battery_voltage_unknown else div (of_ℕ cell0_mv) (of_ℕ 1000)

-- `static_cast<uint16_t>`, of a value in range.
abbrev pub truncated_ℕ : Double → ℕ
truncated_ℕ (fin s n) = trunc n % 2 ^ 16
truncated_ℕ _ = 0

unfoldable pub horizontal_velocity : (Double → Double → Double) → ℤ → ℤ → ℕ
horizontal_velocity hypot vx vy = truncated_ℕ (hypot (of_int vx) (of_int vy))

-- The values of an int32_t.
abbrev pub IsInt32 : ℤ → Type 0
IsInt32 (pos n) = n ≤ int32_max
IsInt32 (negsuc n) = n ≤ int32_max

negative-IsInt32 : (n : ℕ) → n ≤ int32_max + 1 → IsInt32 (signed true n)
negative-IsInt32 zero h = omega arith
negative-IsInt32 (suc n) h = omega (arith, h)

clamped-IsInt32 :
    (low high : Bool) (z : ℤ)
    → (low ≡ false → high ≡ false → IsInt32 z)
    → IsInt32 (if low then negsuc int32_max else if high then pos int32_max else z)
clamped-IsInt32 true high z k = omega arith
clamped-IsInt32 false true z k = omega arith
clamped-IsInt32 false false z k = k refl refl

zero_or-IsInt32 : (b : Bool) (z : ℤ) → IsInt32 z → IsInt32 (if b then pos 0 else z)
zero_or-IsInt32 true z h = omega arith
zero_or-IsInt32 false z h = h

-- What is not at or beyond a bound on the positive side, and on the negative one, is within it.
not_beyond : (m n : ℕ) → (ltb m n || m == n) ≡ false → n ≤ m
not_beyond m n h = ground arith

not_before : (m n : ℕ) → (ltb m n || n == m) ≡ false → n ≤ m
not_before m n h = ground arith

trunc-le : (k n : ℕ) → n ≤ k * one → trunc n ≤ k
trunc-le k n h = div-le_of_le-mul one (subst (λ (x : ℕ). n ≤ x) (mul_comm k one) h)

-- The clamps leave an int32_t of every double, the infinities included.
encode_deg_e7-IsInt32 : (scaled : Double) → IsInt32 (encode_deg_e7 scaled)
unfolding encode_deg_e7 le lt eq
encode_deg_e7-IsInt32 nan = omega arith
encode_deg_e7-IsInt32 (inf true) = omega arith
encode_deg_e7-IsInt32 (inf false) = omega arith
encode_deg_e7-IsInt32 (fin false n) =
    clamped-IsInt32 _ _ (pos (trunc n)) λ _ h. trunc-le int32_max n (not_beyond _ _ h)
encode_deg_e7-IsInt32 (fin true n) =
    clamped-IsInt32 _ _ (signed true (trunc n))
      (λ h _. negative-IsInt32 (trunc n) (trunc-le (int32_max + 1) n (not_before _ _ h)))

-- Whatever number is given as degrees, NaN and the infinities included, degrees_to_degE7 answers a
-- value that an int32_t holds.
pub degrees_to_deg_e7-IsInt32 : (degrees : Double) → IsInt32 (degrees_to_deg_e7 degrees)
unfolding degrees_to_deg_e7
degrees_to_deg_e7-IsInt32 degrees =
    zero_or-IsInt32 _ _ (encode_deg_e7-IsInt32 (div degrees lat_lng_cov))
