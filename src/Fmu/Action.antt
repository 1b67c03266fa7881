-- ===== src/Fmu/Action.antt =====
-- actionState: the calls that entering a state makes on IMAV, ISMM and the state-change callback,
-- in order (src/fmu.cpp).
use fss_smm_mav.Fmu.State.{update_state, Fmu}
use fss_smm_mav.Prelude.{ℕ, Bool, true, Option, none, some, List, [], ◌∷◌, ◌++◌, if◌then◌else◌}
use fss_smm_mav.Types.{
  Point, FmuState, fmu_state_manual, fmu_state_searching, fmu_state_goto, fmu_state_altitude_adjust,
  fmu_state_rtl, fmu_state_waiting_for_tasking, fmu_state_hold, fmu_state_low_battery,
  fmu_state_failsafe, fmu_state_disarmed, fmu_state_terminate, FlightMode, flight_mode_manual,
  flight_mode_rtl, flight_mode_goto, flight_mode_hold,
}

pub data Call : Type 0 where
  mav_set_mode : FlightMode → Call
  mav_goto_position : Point → Call
  mav_set_altitude : ℕ → Call
  mav_disarm mav_terminate : Call
  smm_cancel_search : Call
  smm_search : Point → Call
  state_change : FmuState → Call

-- What the calls answer: the last position the MAV side has, and whether a command went out.
pub record Env : Type 0 where
  pub current_position : Point
  pub transmits : Call → Bool

-- The first `if` of actionState.
unfoldable pub cancels_search : FmuState → List Call
cancels_search fmu_state_searching = []
cancels_search fmu_state_waiting_for_tasking = []
cancels_search _ = smm_cancel_search ∷ []

-- The `switch` of actionState: the calls, and the value of `sent`.
unfoldable pub enter : Env → Fmu → FmuState → List Call × Bool
enter env s fmu_state_manual =
    (mav_set_mode flight_mode_manual ∷ [], env.transmits (mav_set_mode flight_mode_manual))
enter env s fmu_state_searching = (smm_search env.current_position ∷ [], true)
enter env s fmu_state_rtl =
    (mav_set_mode flight_mode_rtl ∷ [], env.transmits (mav_set_mode flight_mode_rtl))
enter env s fmu_state_failsafe =
    (mav_set_mode flight_mode_rtl ∷ [], env.transmits (mav_set_mode flight_mode_rtl))
enter env s fmu_state_low_battery =
    (mav_set_mode flight_mode_rtl ∷ [], env.transmits (mav_set_mode flight_mode_rtl))
enter env s fmu_state_waiting_for_tasking =
    (mav_set_mode flight_mode_rtl ∷ [], env.transmits (mav_set_mode flight_mode_rtl))
enter env s fmu_state_goto = (
  mav_goto_position s.fss_command_target.position ∷ mav_set_mode flight_mode_goto ∷ [],
  env.transmits (mav_set_mode flight_mode_goto),
)
enter env s fmu_state_hold =
    (mav_set_mode flight_mode_hold ∷ [], env.transmits (mav_set_mode flight_mode_hold))
enter env s fmu_state_altitude_adjust = (
  mav_set_altitude s.fss_command_target.altitude ∷ [],
  env.transmits (mav_set_altitude s.fss_command_target.altitude),
)
enter env s fmu_state_disarmed = (mav_disarm ∷ [], env.transmits mav_disarm)
enter env s fmu_state_terminate = (mav_terminate ∷ [], env.transmits mav_terminate)

unfoldable pub action_state : Env → Fmu → FmuState → List Call × Bool
unfolding cancels_search enter
action_state env s state =
    let (calls, sent) = enter env s state in
    let notice = if s.has_state_change_cb then state_change state ∷ [] else [] in
    (cancels_search state ++ (calls ++ notice), sent)

-- `if (changed_to) this->actionState (*changed_to);`
unfoldable pub act_on_change : Env → Fmu → Option FmuState → List Call
act_on_change env s none = []
act_on_change env s (some state) = (action_state env s state).0

-- A handler that updates the state and acts on a change.
unfoldable pub update_and_act : Env → Fmu → Fmu × List Call
unfolding update_state act_on_change
update_and_act env s = let (t, changed) = update_state s in (t, act_on_change env t changed)
