-- ===== src/Types.antt =====
-- The types the components exchange: src/fmu-state-types.hpp, src/fmu-core-types.hpp,
-- src/fss/fmu-fss-types.hpp, src/smm/smm-command.hpp and the flight modes of src/mav/imav.hpp.
-- A fixed-width unsigned integer is a ℕ whose range is stated where a property depends on it.
use fss_smm_mav.Prelude.{ℕ, Bool, ◌&&◌, Option}
use fss_smm_mav.Prelude.Double.{of_ℕ, is_finite, le, neg, Double}

pub data FmuState : Type 0 where
  fmu_state_manual fmu_state_searching fmu_state_goto fmu_state_altitude_adjust : FmuState
  fmu_state_rtl fmu_state_waiting_for_tasking fmu_state_hold fmu_state_low_battery : FmuState
  fmu_state_failsafe fmu_state_disarmed fmu_state_terminate : FmuState

unfoldable pub FmuState-discrete : Discrete FmuState
FmuState-discrete = hlevel

pub data FssCommand : Type 0 where
  fss_cmd_unknown fss_cmd_manual fss_cmd_rtl fss_cmd_hold fss_cmd_altitude : FssCommand
  fss_cmd_goto fss_cmd_continue fss_cmd_disarm fss_cmd_terminate : FssCommand

pub data SmmCommand : Type 0 where
  smm_cmd_none smm_cmd_abandon_search smm_cmd_mission_complete : SmmCommand

pub data FssCommsStatus : Type 0 where
  fss_comms_unknown fss_comms_okay fss_comms_failure : FssCommsStatus

-- `MavCommsStatus::ok` and `MavCommsStatus::failure`.
pub data MavCommsStatus : Type 0 where
  ok failure : MavCommsStatus

pub data FlightMode : Type 0 where
  flight_mode_unknown flight_mode_manual flight_mode_rtl flight_mode_goto : FlightMode
  flight_mode_hold : FlightMode

pub data FssCommandOutcome : Type 0 where
  fss_command_actioned fss_command_superseded : FssCommandOutcome

pub record FssCommandResolution : Type 0 where
  pub outcome : FssCommandOutcome
  pub superseding_state : Option FmuState
  pub transitioned : Bool

pub record Point : Type 0 where
  pub latitude : Double
  pub longitude : Double

-- `Point::isValid`.
unfoldable pub is_valid : Point → Bool
is_valid p =
    is_finite p.latitude
    && le (neg (of_ℕ 90)) p.latitude
    && le p.latitude (of_ℕ 90)
    && is_finite p.longitude
    && le (neg (of_ℕ 180)) p.longitude
    && le p.longitude (of_ℕ 180)

abbrev pub origin : Point
origin = record { latitude = of_ℕ 0; longitude = of_ℕ 0 }

pub record FssCommandTarget : Type 0 where
  pub position : Point
  pub altitude : ℕ  -- uint32_t, feet

abbrev pub no_target : FssCommandTarget
no_target = record { position = origin; altitude = 0 }
