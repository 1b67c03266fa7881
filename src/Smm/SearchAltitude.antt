-- ===== src/Smm/SearchAltitude.antt =====
-- The altitude of a search and of an altitude command: src/smm/search-altitude.hpp.
use native.Mathlib.Nat.{le-div_iff_mul-le, div-le_of_le-mul, div-eq_of_lt}
use fss_smm_mav.Prelude.{
  ℕ, ◌+◌, ◌*◌, ◌/◌, ◌^◌, ◌≤◌, ◌<◌, ◌≡◌, inl, inr, true, false, not, ◌&&◌, Option, none, some, arith,
  ltb, ◌==◌, if◌then◌else◌, Bool-cases,
}
use fss_smm_mav.Prelude.Double.{
  one, one_pos, of_ℕ, trunc, lt, le, mul, div, decimal, Double, nan, inf, fin,
}
use fss_smm_mav.Units.{feet_to_metres, is_nan, feet_to_metres-not_nan}

-- std::tan is a parameter.
unfoldable pub raw_search_altitude : (Double → Double) → Double → Double → Double
unfolding mul div lt
raw_search_altitude tan sweep_width camera_fov_deg =
    if not (lt (of_ℕ 0) camera_fov_deg && lt camera_fov_deg (of_ℕ 180))
    then of_ℕ 0
    else let half_fov_rad =
        div (div (mul camera_fov_deg (decimal 314159265358979323846 20)) (of_ℕ 180)) (of_ℕ 2) in
      div sweep_width (mul (of_ℕ 2) (tan half_fov_rad))

-- `static_cast<uint16_t>`; none where C++ does not define it.
unfoldable pub to_uint16 : Double → Option ℕ
to_uint16 (fin false n) = if ltb (trunc n) (2 ^ 16) then some (trunc n) else none
to_uint16 (fin true n) = if trunc n == 0 then some 0 else none
to_uint16 _ = none

unfoldable pub clamp_search_altitude : Double → ℕ → ℕ → Option ℕ
unfolding lt to_uint16
clamp_search_altitude altitude altitude_floor altitude_cap =
    if lt (of_ℕ altitude_cap) altitude
    then some altitude_cap
    else if lt altitude (of_ℕ altitude_floor)
    then some altitude_floor
    else to_uint16 altitude

unfoldable pub clamp_command_altitude : ℕ → ℕ → ℕ → Option ℕ
unfolding clamp_search_altitude feet_to_metres
clamp_command_altitude altitude_ft altitude_floor altitude_cap =
    clamp_search_altitude (feet_to_metres (of_ℕ altitude_ft)) altitude_floor altitude_cap

-- A defined altitude between the two bounds.
pub data IsWithin (floor cap : ℕ) : Option ℕ → Type 0 where
  within : (n : ℕ) → floor ≤ n → n ≤ cap → IsWithin floor cap (some n)

is_zero : (n : ℕ) → n ≡ 0 → (n == 0) ≡ true
is_zero n h = ground arith

below : (n cap : ℕ) → n ≤ cap → cap < 2 ^ 16 → ltb n (2 ^ 16) ≡ true
below n cap h b = ground arith

not_below : (m n : ℕ) → ltb m n ≡ false → n ≤ m
not_below m n h = ground arith

cast-IsWithin :
    (n floor cap : ℕ)
    → floor * one ≤ n
    → n ≤ cap * one
    → cap < 2 ^ 16
    → IsWithin floor cap (to_uint16 (fin false n))
unfolding to_uint16
cast-IsWithin n floor cap f c b =
    let low : floor ≤ n / one = (le-div_iff_mul-le one_pos).1 f in
    let high : n / one ≤ cap = div-le_of_le-mul one (omega (arith, c)) in
    simp (below (n / one) cap high b) (within (n / one) low high)

no_more : (m n : ℕ) → ltb 0 (m + n) ≡ false → (m ≤ 0) × (n ≤ m)
no_more m n h = ground arith

-- A negative altitude that is not below the floor is -0.0.
zero-IsWithin :
    (n floor cap : ℕ) → (n ≤ 0) × (floor * one ≤ n) → IsWithin floor cap (to_uint16 (fin true n))
unfolding to_uint16
zero-IsWithin n floor cap h =
    let q : n / one ≡ 0 = div-eq_of_lt (omega (arith, h.0, one_pos)) in
    let low : floor ≤ n / one = (le-div_iff_mul-le one_pos).1 h.1 in
    simp (is_zero (n / one) q) (within 0 (omega (arith, low, q)) (omega arith))

-- With a floor that is not above the cap, and a cap of 16 bits: the clamp of any altitude but a NaN
-- is defined and within the bounds.
pub clamp_search_altitude-IsWithin :
    (altitude : Double) (floor cap : ℕ)
    → is_nan altitude ≡ false
    → floor ≤ cap
    → cap < 2 ^ 16
    → IsWithin floor cap (clamp_search_altitude altitude floor cap)
unfolding clamp_search_altitude lt
clamp_search_altitude-IsWithin nan floor cap v le b = cc
clamp_search_altitude-IsWithin (inf false) floor cap v le b = within cap le (omega arith)
clamp_search_altitude-IsWithin (inf true) floor cap v le b = within floor (omega arith) le
clamp_search_altitude-IsWithin (fin false n) floor cap v le b =
    elim (Bool-cases (ltb (cap * one) n)) [
      | inl e ↦ rw e (within cap le (omega arith))
      | inr e ↦ elim (Bool-cases (ltb n (floor * one))) [
        | inl f ↦ rw (e, f) (within floor (omega arith) le)
        | inr f ↦
            rw (e, f)
              (cast-IsWithin n floor cap (not_below n (floor * one) f) (not_below (cap * one) n e)
                b)
      ]
    ]
clamp_search_altitude-IsWithin (fin true n) floor cap v le b =
    elim (Bool-cases (ltb 0 (n + floor * one))) [
      | inl f ↦ rw f (within floor (omega arith) le)
      | inr f ↦ rw f (zero-IsWithin n floor cap (no_more n (floor * one) f))
    ]

-- With a floor that is not above the cap, and a cap of 16 bits: a commanded altitude, however
-- large, is clamped to a defined value within the bounds.
pub clamp_command_altitude-IsWithin :
    (altitude_ft floor cap : ℕ)
    → floor ≤ cap
    → cap < 2 ^ 16
    → IsWithin floor cap (clamp_command_altitude altitude_ft floor cap)
unfolding clamp_command_altitude
clamp_command_altitude-IsWithin altitude_ft floor cap le b =
    clamp_search_altitude-IsWithin (feet_to_metres (of_ℕ altitude_ft)) floor cap
      (feet_to_metres-not_nan altitude_ft) le b
