-- ===== src/Mav/ModeResolve.antt =====
-- The flight-mode number for a command and a vehicle, and the vehicle families:
-- src/mav/mode-resolve.hpp and src/mav/failsafe-params.hpp.
use mathlib.Core.Option
use fss_smm_mav.Prelude.{◌≡◌, Option, none, some, arith}

-- The MAV_TYPE values of MAVLink that the source names; the last stands for every other value.
pub data MavType : Type 0 where
  mav_type_fixed_wing mav_type_quadrotor mav_type_coaxial mav_type_helicopter : MavType
  mav_type_hexarotor mav_type_octorotor mav_type_tricopter mav_type_ground_rover : MavType
  mav_type_other : MavType

-- The mode numbers of MAVLink, by name.
pub data CustomMode : Type 0 where
  plane_mode_rtl plane_mode_fly_by_wire_b plane_mode_loiter plane_mode_auto : CustomMode
  copter_mode_rtl copter_mode_stabilize copter_mode_poshold copter_mode_auto : CustomMode
  rover_mode_rtl rover_mode_manual rover_mode_hold rover_mode_auto : CustomMode

pub data MavModeCommand : Type 0 where
  rtl manual hold auto_mode : MavModeCommand

unfoldable pub resolve_mav_mode : MavType → MavModeCommand → Option CustomMode
resolve_mav_mode mav_type_fixed_wing rtl = some plane_mode_rtl
resolve_mav_mode mav_type_quadrotor rtl = some copter_mode_rtl
resolve_mav_mode mav_type_coaxial rtl = some copter_mode_rtl
resolve_mav_mode mav_type_helicopter rtl = some copter_mode_rtl
resolve_mav_mode mav_type_hexarotor rtl = some copter_mode_rtl
resolve_mav_mode mav_type_octorotor rtl = some copter_mode_rtl
resolve_mav_mode mav_type_tricopter rtl = some copter_mode_rtl
resolve_mav_mode mav_type_ground_rover rtl = some rover_mode_rtl
resolve_mav_mode mav_type_other rtl = none
resolve_mav_mode mav_type_fixed_wing manual = some plane_mode_fly_by_wire_b
resolve_mav_mode mav_type_quadrotor manual = some copter_mode_stabilize
resolve_mav_mode mav_type_coaxial manual = some copter_mode_stabilize
resolve_mav_mode mav_type_helicopter manual = some copter_mode_stabilize
resolve_mav_mode mav_type_hexarotor manual = some copter_mode_stabilize
resolve_mav_mode mav_type_octorotor manual = some copter_mode_stabilize
resolve_mav_mode mav_type_tricopter manual = some copter_mode_stabilize
resolve_mav_mode mav_type_ground_rover manual = some rover_mode_manual
resolve_mav_mode mav_type_other manual = none
resolve_mav_mode mav_type_fixed_wing hold = some plane_mode_loiter
resolve_mav_mode mav_type_quadrotor hold = some copter_mode_poshold
resolve_mav_mode mav_type_coaxial hold = some copter_mode_poshold
resolve_mav_mode mav_type_helicopter hold = some copter_mode_poshold
resolve_mav_mode mav_type_hexarotor hold = some copter_mode_poshold
resolve_mav_mode mav_type_octorotor hold = some copter_mode_poshold
resolve_mav_mode mav_type_tricopter hold = some copter_mode_poshold
resolve_mav_mode mav_type_ground_rover hold = some rover_mode_hold
resolve_mav_mode mav_type_other hold = none
resolve_mav_mode mav_type_fixed_wing auto_mode = some plane_mode_auto
resolve_mav_mode mav_type_quadrotor auto_mode = some copter_mode_auto
resolve_mav_mode mav_type_coaxial auto_mode = some copter_mode_auto
resolve_mav_mode mav_type_helicopter auto_mode = some copter_mode_auto
resolve_mav_mode mav_type_hexarotor auto_mode = some copter_mode_auto
resolve_mav_mode mav_type_octorotor auto_mode = some copter_mode_auto
resolve_mav_mode mav_type_tricopter auto_mode = some copter_mode_auto
resolve_mav_mode mav_type_ground_rover auto_mode = some rover_mode_auto
resolve_mav_mode mav_type_other auto_mode = none

pub data VehicleFamily : Type 0 where
  plane copter rover : VehicleFamily

unfoldable pub resolve_vehicle_family : MavType → Option VehicleFamily
resolve_vehicle_family mav_type_fixed_wing = some plane
resolve_vehicle_family mav_type_quadrotor = some copter
resolve_vehicle_family mav_type_coaxial = some copter
resolve_vehicle_family mav_type_helicopter = some copter
resolve_vehicle_family mav_type_hexarotor = some copter
resolve_vehicle_family mav_type_octorotor = some copter
resolve_vehicle_family mav_type_tricopter = some copter
resolve_vehicle_family mav_type_ground_rover = some rover
resolve_vehicle_family mav_type_other = none

-- The family whose firmware knows a mode.
abbrev pub family_of : CustomMode → VehicleFamily
family_of plane_mode_rtl = plane
family_of plane_mode_fly_by_wire_b = plane
family_of plane_mode_loiter = plane
family_of plane_mode_auto = plane
family_of copter_mode_rtl = copter
family_of copter_mode_stabilize = copter
family_of copter_mode_poshold = copter
family_of copter_mode_auto = copter
family_of rover_mode_rtl = rover
family_of rover_mode_manual = rover
family_of rover_mode_hold = rover
family_of rover_mode_auto = rover

-- Each command has a mode on exactly the vehicles whose family is recognised, and it is one of that
-- family's modes: the two switches over the vehicle types agree.
pub mode_is_of_family :
    (t : MavType) (c : MavModeCommand)
    → Option.map family_of (resolve_mav_mode t c) ≡ resolve_vehicle_family t
unfolding resolve_mav_mode resolve_vehicle_family
mode_is_of_family t c = ground arith
