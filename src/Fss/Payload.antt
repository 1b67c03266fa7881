-- ===== src/Fss/Payload.antt =====
-- CommandPayload: src/fss/command-ack-group.hpp.
use fss_smm_mav.Prelude.{ℕ, ◌≡◌, refl, ap, ap₂, Bool, true, false, ◌&&◌, arith, ◌==◌}
use fss_smm_mav.Prelude.Double.{
  of_ℕ, is_finite, lt, abs, magnitude, pack, round, sub, div, decimal, abs-sub_comm, sub_self,
  Double, fin,
}
use fss_smm_mav.Types.{is_valid, Point}

pub data Kind : Type 0 where
  no_payload position altitude : Kind

-- `altitude` is an int32_t, by its bit pattern.
pub record CommandPayload : Type 0 where
  pub kind : Kind
  pub lat : Double
  pub lng : Double
  pub altitude : ℕ

abbrev pub empty_payload : CommandPayload
empty_payload = record { kind = no_payload; lat = of_ℕ 0; lng = of_ℕ 0; altitude = 0 }

unfoldable pub for_position : Double → Double → CommandPayload
for_position lat lng = record empty_payload { kind = position; lat = lat; lng = lng }

unfoldable pub for_altitude : ℕ → CommandPayload
for_altitude alt = record empty_payload { kind = Kind.altitude; altitude = alt }

-- 1e-7.
unfoldable pub position_tolerance_deg : Double
position_tolerance_deg = decimal 1 7

unfoldable pub near : Double → Double → Bool
near a b = lt (abs (sub a b)) position_tolerance_deg

abbrev same_kind : Kind → Kind → CommandPayload → CommandPayload → Bool
same_kind no_payload no_payload a b = true
same_kind Kind.altitude Kind.altitude a b = a.altitude == b.altitude
same_kind position position a b = near a.lat b.lat && near a.lng b.lng
same_kind _ _ a b = false

unfoldable pub same_as : CommandPayload → CommandPayload → Bool
same_as a b = same_kind a.kind b.kind a b

near_comm : (a b : Double) → near a b ≡ near b a
unfolding near
near_comm a b = ap (λ d. lt d position_tolerance_deg) (abs-sub_comm a b)

near_self : (a : Double) → is_finite a ≡ true → near a a ≡ true
unfolding near
near_self a f = rw (sub_self a f) within
  where
    within : lt (fin false 0) position_tolerance_deg ≡ true
    within = unfold lt position_tolerance_deg div pack magnitude round in refl

same_kind_comm : (j k : Kind) (a b : CommandPayload) → same_kind j k a b ≡ same_kind k j b a
same_kind_comm no_payload no_payload a b = refl
same_kind_comm Kind.altitude Kind.altitude a b = ground arith
same_kind_comm position position a b = ap₂ ◌&&◌ (near_comm a.lat b.lat) (near_comm a.lng b.lng)
same_kind_comm _ _ a b = refl

-- `sameAs` does not depend on the order of the two payloads.
pub same_as_comm : (a b : CommandPayload) → same_as a b ≡ same_as b a
unfolding same_as
same_as_comm a b = same_kind_comm a.kind b.kind a b

valid_finite :
    (p : Point) → is_valid p ≡ true → (is_finite p.latitude ≡ true) × (is_finite p.longitude ≡ true)
unfolding is_valid
valid_finite p v = ground arith

-- The payload of a goto that passed the coordinate check is the same as itself, so a redelivery
-- can be recognised.
pub same_as_self :
    (p : Point)
    → is_valid p ≡ true
    → same_as (for_position p.latitude p.longitude) (for_position p.latitude p.longitude) ≡ true
unfolding same_as for_position
same_as_self p v =
    ap₂ ◌&&◌ (near_self p.latitude (valid_finite p v).0)
      (near_self p.longitude (valid_finite p v).1)

near_zero : near (of_ℕ 0) (decimal 5 8) ≡ true
unfolding near lt sub position_tolerance_deg div pack magnitude round
near_zero = refl

not_near : near (decimal 1 6) (decimal 15 7) ≡ false
unfolding near lt sub position_tolerance_deg div pack magnitude round
not_near = refl
