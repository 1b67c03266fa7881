-- ===== src/Fmu/State.antt =====
-- The fields of FMUStateMachine, the state its commands map to, and updateState: src/fmu.cpp and
-- src/fmu.hpp.
use fss_smm_mav.Prelude.{ℕ, ite, Bool, true, false, not, ◌&&◌, Option, none, some, if◌then◌else◌}
use fss_smm_mav.Types.{
  FmuState-discrete, no_target, FssCommandResolution, FssCommandTarget, FmuState, fmu_state_manual,
  fmu_state_searching, fmu_state_goto, fmu_state_altitude_adjust, fmu_state_rtl,
  fmu_state_waiting_for_tasking, fmu_state_hold, fmu_state_low_battery, fmu_state_failsafe,
  fmu_state_disarmed, fmu_state_terminate, FssCommand, fss_cmd_unknown, fss_cmd_manual, fss_cmd_rtl,
  fss_cmd_hold, fss_cmd_altitude, fss_cmd_goto, fss_cmd_continue, fss_cmd_disarm, fss_cmd_terminate,
  SmmCommand, smm_cmd_none, smm_cmd_abandon_search, smm_cmd_mission_complete, fss_command_actioned,
  fss_command_superseded,
}

unfoldable pub map_smm_state : SmmCommand → FmuState
map_smm_state smm_cmd_abandon_search = fmu_state_searching
map_smm_state smm_cmd_none = fmu_state_searching
map_smm_state smm_cmd_mission_complete = fmu_state_waiting_for_tasking

unfoldable pub map_fss_state : FssCommand → FmuState
map_fss_state fss_cmd_rtl = fmu_state_rtl
map_fss_state fss_cmd_goto = fmu_state_goto
map_fss_state fss_cmd_hold = fmu_state_hold
map_fss_state fss_cmd_altitude = fmu_state_altitude_adjust
map_fss_state fss_cmd_disarm = fmu_state_disarmed
map_fss_state fss_cmd_manual = fmu_state_manual
map_fss_state fss_cmd_terminate = fmu_state_terminate
map_fss_state fss_cmd_continue = fmu_state_searching
map_fss_state fss_cmd_unknown = fmu_state_searching

-- The latch counts are `int`; a count below 0 acts as 0 does.
pub record Fmu : Type 0 where
  pub current_state : FmuState
  pub fss_command : FssCommand
  pub fss_command_target : FssCommandTarget
  pub smm_command : SmmCommand
  pub low_battery_count : ℕ
  pub low_battery_latch_count : ℕ
  pub low_battery : Bool
  pub altitude_breach_count : ℕ
  pub altitude_clear_count : ℕ
  pub altitude_breach_latch_count : ℕ
  pub altitude_cap_m : ℕ
  pub altitude_breach : Bool
  pub terminated : Bool
  pub fss_comms_lost : Bool
  pub mav_comms_lost : Bool
  pub has_state_change_cb : Bool

-- The constructor, with the members' initialisers.
unfoldable pub init : ℕ → ℕ → ℕ → Fmu
init low_battery_latch_count altitude_cap_m altitude_breach_latch_count = record {
  current_state = fmu_state_manual;
  fss_command = fss_cmd_unknown;
  fss_command_target = no_target;
  smm_command = smm_cmd_none;
  low_battery_count = 0;
  low_battery_latch_count = low_battery_latch_count;
  low_battery = false;
  altitude_breach_count = 0;
  altitude_clear_count = 0;
  altitude_breach_latch_count = altitude_breach_latch_count;
  altitude_cap_m = altitude_cap_m;
  altitude_breach = false;
  terminated = false;
  fss_comms_lost = true;
  mav_comms_lost = false;
  has_state_change_cb = false;
}

unfoldable pub set_state_change_cb : Fmu → Bool → Fmu
set_state_change_cb s cb = record s { has_state_change_cb = cb }

unfoldable pub commanded_state : Fmu → FmuState
unfolding map_fss_state map_smm_state
commanded_state s =
    let desired = map_fss_state s.fss_command in
    ite (FmuState-discrete desired fmu_state_searching) (map_smm_state s.smm_command) desired

abbrev pub is_terminate : FssCommand → Bool
is_terminate fss_cmd_terminate = true
is_terminate _ = false

-- The terminate latch at the head of updateState.
unfoldable pub latch_terminate : Fmu → Fmu
latch_terminate s = if is_terminate s.fss_command then record s { terminated = true } else s

-- The priority ladder of updateState; fmu_state_failsafe is its initial value.
unfoldable pub select_state : Fmu → FmuState
select_state s =
    if s.terminated
    then fmu_state_terminate
    else if s.low_battery
    then fmu_state_low_battery
    else if not s.fss_comms_lost && not s.mav_comms_lost
    then if s.altitude_breach then fmu_state_rtl else commanded_state s
    else fmu_state_failsafe

unfoldable pub update_state : Fmu → Fmu × Option FmuState
update_state s =
    let t = latch_terminate s in
    let new_state = select_state t in
    ite (FmuState-discrete new_state t.current_state) (t, none)
      (record t { current_state = new_state }, some new_state)

abbrev pub has_value {ℓ} : {A : Type ℓ} → Option A → Bool
has_value none = false
has_value (some a) = true

unfoldable pub resolve_fss_command : Fmu → FmuState → Option FmuState → FssCommandResolution
resolve_fss_command s desired changed =
    ite (FmuState-discrete s.current_state desired)
      (record {
        outcome = fss_command_actioned;
        superseding_state = none;
        transitioned = has_value changed;
      })
      (record {
        outcome = fss_command_superseded;
        superseding_state = some s.current_state;
        transitioned = has_value changed;
      })
