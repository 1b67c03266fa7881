-- ===== src/Config/Ranges.antt =====
-- The ranges of a configuration that loadFmuConfig of src/fmu-config.cpp accepts.
use Prim.Native.String.{String}
use fss_smm_mav.Config.{
  default_config, foot_m, lround_u16, out_of_uint16, out_of_range, set_altitude_metres,
  load_altitude, set_ranged_int, FmuConfig, Json, json_logic_error, loaded,
}
use fss_smm_mav.Config.Holds.{
  of_Holds, bind-Holds, if-Holds, or_throw-Holds, any-Holds, Holds, holds, fails,
}
use fss_smm_mav.Config.Load.{
  clamp_floor, clamp_goto, member_int, checked_fov, load_fov, load_address, check_port, load_port,
  load_settings, load_root, load_fmu_config, Opened, unopened, unparsable, parsed,
}
use fss_smm_mav.Dispatch.{ℤ, pos}
use fss_smm_mav.Prelude.{
  ℕ, ◌^◌, ◌≤◌, ◌<◌, ◌≡◌, refl, subst, inl, inr, Bool, true, false, not, ◌&&◌, arith, if◌then◌else◌,
  Bool-cases,
}
use fss_smm_mav.Prelude.Double.{one, of_ℕ, lt, mul, Double, nan, inf, fin}

abbrev pub IsWithin : ℤ → ℤ → ℤ → Type 0
IsWithin lo hi v = out_of_range v lo hi ≡ false

-- A total field of view for which the tangent of its half is defined and positive.
abbrev pub IsFieldOfView : Double → Type 0
IsFieldOfView fov = (lt (of_ℕ 0) fov && lt fov (of_ℕ 180)) ≡ true

-- The ranges that the comments of FmuConfig and loadFmuConfig state.
pub record WithinRanges (c : FmuConfig) : Type 0 where
  pub cap_fits : c.altitude_cap_m < 2 ^ 16
  pub floor_below_cap : c.altitude_floor_m ≤ c.altitude_cap_m
  pub goto_above_floor : c.altitude_floor_m ≤ c.goto_altitude_m
  pub goto_below_cap : c.goto_altitude_m ≤ c.altitude_cap_m
  pub fov : IsFieldOfView c.camera_fov_deg
  pub lowbat : IsWithin (pos 0) (pos 100) c.lowbat_threshold
  pub low_latch : IsWithin (pos 1) (pos 100) c.low_battery_latch_count
  pub breach_latch : IsWithin (pos 1) (pos 100) c.altitude_breach_latch_count
  pub reconnects : IsWithin (pos 1) (pos 3600) c.reconnect_interval_s
  pub positions : IsWithin (pos 50) (pos 60000) c.position_stream_interval_ms
  pub batteries : IsWithin (pos 50) (pos 60000) c.battery_stream_interval_ms
  pub smm_positions : IsWithin (pos 100) (pos 60000) c.smm_position_report_interval_ms
  pub smm_connects : IsWithin (pos 1) (pos 30) c.smm_connect_timeout_s
  pub smm_transfers : IsWithin (pos 1) (pos 60) c.smm_transfer_timeout_s
  pub port : IsWithin (pos 1) (pos 65535) c.mav_port
  pub mav_connects : IsWithin (pos 1) (pos 30) c.mav_connect_timeout_s
  pub mav_sends : IsWithin (pos 1) (pos 10) c.mav_send_timeout_s

if_fits : (b : Bool) (m n : ℕ) → m < 2 ^ 16 → n < 2 ^ 16 → (if b then m else n) < 2 ^ 16
if_fits true m n h k = h
if_fits false m n h k = k

lround_u16_fits : (u : ℕ) (x : Double) → lround_u16 u x < 2 ^ 16
lround_u16_fits u nan = omega arith
lround_u16_fits u (inf s) = omega arith
lround_u16_fits u (fin false n) = omega arith
lround_u16_fits u (fin true n) = omega arith

if_in_range :
    (b : Bool) (target v lo hi : ℤ)
    → (b ≡ false → IsWithin lo hi v)
    → IsWithin lo hi target
    → IsWithin lo hi (if b then target else v)
if_in_range true target v lo hi h k = k
if_in_range false target v lo hi h k = h refl

if_fov :
    (b : Bool) (x y : Double)
    → IsFieldOfView x
    → IsFieldOfView y
    → IsFieldOfView (if b then x else y)
if_fov true x y h k = h
if_fov false x y h k = k

if_fov_self :
    (fov target : Double)
    → IsFieldOfView target
    → IsFieldOfView (if lt (of_ℕ 0) fov && lt fov (of_ℕ 180) then fov else target)
if_fov_self fov target h = elim (Bool-cases (lt (of_ℕ 0) fov && lt fov (of_ℕ 180))) [
  | inl e ↦ rw e e
  | inr e ↦ rw e h
]

clamp_floor_below : (cap floor : ℕ) → clamp_floor cap floor ≤ cap
clamp_floor_below cap floor = ground arith

clamp_goto_above : (cap floor asked : ℕ) → floor ≤ cap → floor ≤ clamp_goto cap floor asked
clamp_goto_above cap floor asked h = ground arith

clamp_goto_below : (cap floor asked : ℕ) → floor ≤ cap → clamp_goto cap floor asked ≤ cap
clamp_goto_below cap floor asked h = ground arith

module _ {Value : Type 0} (json : Json Value) where
  set_altitude_metres_fits :
      (target : ℕ) (value : Value) (to_metres : Double)
      → target < 2 ^ 16
      → set_altitude_metres json target value to_metres < 2 ^ 16
  unfolding set_altitude_metres
  set_altitude_metres_fits target value to_metres h =
      let metres : Double = mul (json.as_double value) to_metres in
      if_fits (not (json.is_numeric value)) _ _ h
        (if_fits (out_of_uint16 metres) _ _ h (lround_u16_fits json.lround_nan metres))

  pub load_altitude_fits :
      (target : ℕ) (fmu : Value) (key_m key_ft : String)
      → target < 2 ^ 16
      → load_altitude json target fmu key_m key_ft < 2 ^ 16
  unfolding load_altitude
  load_altitude_fits target fmu key_m key_ft h =
      if_fits _ _ _ (set_altitude_metres_fits target (json.get fmu key_ft) foot_m h)
        (if_fits _ _ _ (set_altitude_metres_fits target (json.get fmu key_m) (of_ℕ 1) h) h)

  set_ranged_int-IsWithin :
      (target : ℤ) (value : Value) (lo hi : ℤ)
      → IsWithin lo hi target
      → Holds (IsWithin lo hi) (set_ranged_int json target value lo hi)
  unfolding set_ranged_int
  set_ranged_int-IsWithin target value lo hi h =
      if-Holds (not (json.is_integral value)) _ _ (λ _. holds h)
        λ _.
          bind-Holds (or_throw-Holds json_logic_error (json.as_int value))
            λ v _. holds (if_in_range (out_of_range v lo hi) target v lo hi (λ e. e) h)

  pub member_int-IsWithin :
      (fmu : Value) (key : String) (target lo hi : ℤ)
      → IsWithin lo hi target
      → Holds (IsWithin lo hi) (member_int json fmu key target lo hi)
  unfolding member_int
  member_int-IsWithin fmu key target lo hi h =
      if-Holds (json.is_member fmu key) _ _
        (λ _. set_ranged_int-IsWithin target (json.get fmu key) lo hi h) (λ _. holds h)

  checked_fov-IsFieldOfView :
      (target : Double) (v : Value)
      → IsFieldOfView target
      → IsFieldOfView (checked_fov json target v)
  checked_fov-IsFieldOfView target v h =
      if_fov (not (json.is_numeric v)) _ _ h (if_fov_self (json.as_double v) target h)

  load_fov-IsFieldOfView :
      (fmu : Value) (target : Double)
      → IsFieldOfView target
      → IsFieldOfView (load_fov json fmu target)
  unfolding load_fov
  load_fov-IsFieldOfView fmu target h =
      if_fov (json.is_member fmu "camera_fov_deg") _ _
        (checked_fov-IsFieldOfView target (json.get fmu "camera_fov_deg") h) h

  check_port-IsWithin : (v : Value) → Holds (IsWithin (pos 1) (pos 65535)) (check_port json v)
  unfolding check_port
  check_port-IsWithin v =
      if-Holds (not (json.is_integral v)) _ _ (λ _. fails)
        λ _.
          bind-Holds (or_throw-Holds json_logic_error (json.as_int v))
            λ p _. if-Holds (out_of_range p (pos 1) (pos 65535)) _ _ (λ _. fails) (λ e. holds e)

  load_port-IsWithin :
      (fmu : Value) (target : ℤ)
      → IsWithin (pos 1) (pos 65535) target
      → Holds (IsWithin (pos 1) (pos 65535)) (load_port json fmu target)
  unfolding load_port
  load_port-IsWithin fmu target h =
      if-Holds (json.is_member fmu "mav_port") _ _
        (λ _. check_port-IsWithin (json.get fmu "mav_port")) (λ _. holds h)

  load_settings-WithinRanges :
      (fmu : Value) (c : FmuConfig) → WithinRanges c → Holds WithinRanges (load_settings json fmu c)
  unfolding load_settings
  load_settings-WithinRanges fmu c w =
      let cap = load_altitude json c.altitude_cap_m fmu "altitude_cap_m" "altitude_cap_ft" in
      let floor =
        load_altitude json c.altitude_floor_m fmu "altitude_floor_m" "altitude_floor_ft" in
      let asked = load_altitude json c.goto_altitude_m fmu "goto_altitude_m" "goto_altitude_ft" in
      bind-Holds
        (member_int-IsWithin fmu "lowbat_threshold" c.lowbat_threshold (pos 0) (pos 100) w.lowbat)
        λ _ lowbat.
          bind-Holds
            (member_int-IsWithin fmu "low_battery_latch_count" c.low_battery_latch_count (pos 1)
              (pos 100) w.low_latch)
            λ _ low_latch.
              bind-Holds
                (member_int-IsWithin fmu "altitude_breach_latch_count" c.altitude_breach_latch_count
                  (pos 1) (pos 100) w.breach_latch)
                λ _ breach_latch.
                  bind-Holds
                    (member_int-IsWithin fmu "reconnect_interval_s" c.reconnect_interval_s (pos 1)
                      (pos 3600) w.reconnects)
                    λ _ reconnects.
                      bind-Holds
                        (member_int-IsWithin fmu "position_stream_interval_ms"
                          c.position_stream_interval_ms (pos 50) (pos 60000) w.positions)
                        λ _ positions.
                          bind-Holds
                            (member_int-IsWithin fmu "battery_stream_interval_ms"
                              c.battery_stream_interval_ms (pos 50) (pos 60000) w.batteries)
                            λ _ batteries.
                              bind-Holds
                                (member_int-IsWithin fmu "smm_position_report_interval_ms"
                                  c.smm_position_report_interval_ms (pos 100) (pos 60000)
                                  w.smm_positions)
                                λ _ smm_positions.
                                  bind-Holds
                                    (member_int-IsWithin fmu "smm_connect_timeout_s"
                                      c.smm_connect_timeout_s (pos 1) (pos 30) w.smm_connects)
                                    λ _ smm_connects.
                                      bind-Holds
                                        (member_int-IsWithin fmu "smm_transfer_timeout_s"
                                          c.smm_transfer_timeout_s (pos 1) (pos 60) w.smm_transfers)
                                        λ _ smm_transfers.
                                          bind-Holds
                                            (any-Holds (load_address json fmu c.mav_address))
                                            λ _ _.
                                              bind-Holds (load_port-IsWithin fmu c.mav_port w.port)
                                                λ _ port.
                                                  bind-Holds
                                                    (member_int-IsWithin fmu "mav_connect_timeout_s"
                                                      c.mav_connect_timeout_s (pos 1) (pos 30)
                                                      w.mav_connects)
                                                    λ _ mav_connects.
                                                      bind-Holds
                                                        (member_int-IsWithin fmu
                                                          "mav_send_timeout_s" c.mav_send_timeout_s
                                                          (pos 1) (pos 10) w.mav_sends)
                                                        λ _ mav_sends. holds (record {
                                                          cap_fits =
                                                            load_altitude_fits c.altitude_cap_m fmu
                                                            "altitude_cap_m" "altitude_cap_ft"
                                                            w.cap_fits;
                                                          floor_below_cap =
                                                            clamp_floor_below cap floor;
                                                          goto_above_floor =
                                                            clamp_goto_above cap
                                                            (clamp_floor cap floor) asked
                                                            (clamp_floor_below cap floor);
                                                          goto_below_cap =
                                                            clamp_goto_below cap
                                                            (clamp_floor cap floor) asked
                                                            (clamp_floor_below cap floor);
                                                          fov =
                                                            load_fov-IsFieldOfView fmu
                                                            c.camera_fov_deg w.fov;
                                                          lowbat = lowbat;
                                                          low_latch = low_latch;
                                                          breach_latch = breach_latch;
                                                          reconnects = reconnects;
                                                          positions = positions;
                                                          batteries = batteries;
                                                          smm_positions = smm_positions;
                                                          smm_connects = smm_connects;
                                                          smm_transfers = smm_transfers;
                                                          port = port;
                                                          mav_connects = mav_connects;
                                                          mav_sends = mav_sends;
                                                        })

  default-WithinRanges : WithinRanges default_config
  unfolding lt one
  default-WithinRanges = record {
    cap_fits = omega arith;
    floor_below_cap = omega arith;
    goto_above_floor = omega arith;
    goto_below_cap = omega arith;
    fov = refl;
    lowbat = refl;
    low_latch = refl;
    breach_latch = refl;
    reconnects = refl;
    positions = refl;
    batteries = refl;
    smm_positions = refl;
    smm_connects = refl;
    smm_transfers = refl;
    port = refl;
    mav_connects = refl;
    mav_sends = refl;
  }

  load_fmu_config-Holds : (file : Opened Value) → Holds WithinRanges (load_fmu_config json file)
  unfolding load_fmu_config load_root
  load_fmu_config-Holds unopened = fails
  load_fmu_config-Holds unparsable = fails
  load_fmu_config-Holds (parsed root) =
      bind-Holds (or_throw-Holds json_logic_error (json.index root "fmu")) λ fmu _.
        if-Holds (not (json.is_object fmu)) _ _ (λ _. holds default-WithinRanges)
          (λ _. load_settings-WithinRanges fmu default_config default-WithinRanges)

  -- Whatever the file holds, a configuration that loadFmuConfig returns has its floor at or below its
  -- cap, its goto altitude between the two, and every other number in the range stated for it.
  pub loads_only_in_range :
      (file : Opened Value) (c : FmuConfig) → load_fmu_config json file ≡ loaded c → WithinRanges c
  loads_only_in_range file c h =
      of_Holds c (subst (Holds WithinRanges) h (load_fmu_config-Holds file))
