-- ===== src/Fmu/Tests.antt =====
-- The theorems on FMUStateMachine at concrete inputs.
use fss_smm_mav.Fmu.Action.{Env, Call}
use fss_smm_mav.Fmu.Altitude.{
  latch_of, valid_readings, debounce, run_debounces, altitude_latch_follows,
}
use fss_smm_mav.Fmu.Battery.{readings, HasRun, low_battery_iff}
use fss_smm_mav.Fmu.Calls.{due_calls, step-calls}
use fss_smm_mav.Fmu.Commands.{
  after_command, resolution, IsOverruled, latches_supersede_commands, breach_rtl_is_actioned,
  Reports,
}
use fss_smm_mav.Fmu.Failsafe.{return_calls, lost_link_returns}
use fss_smm_mav.Fmu.Handlers.{fss_new_command, over_altitude_cap}
use fss_smm_mav.Fmu.History.{Remembers, inputs, run-Remembers}
use fss_smm_mav.Fmu.Invariant.{init-Inv, run-Inv, Inv}
use fss_smm_mav.Fmu.Role.{role_after, run_calls, role_follows_state, Fits}
use fss_smm_mav.Fmu.Run.{step, run, Input, fss, battery, altitude, fss_comms, mav_comms}
use fss_smm_mav.Fmu.Safety.{terminate_is_final, low_battery_is_final}
use fss_smm_mav.Fmu.Settled.{run-Controls, Controls}
use fss_smm_mav.Fmu.State.{init, latch_terminate, select_state, update_state, Fmu}
use fss_smm_mav.Prelude.{◌≡◌, refl, ◌≢◌, ◌↔◌, ◌⊎◌, inr, true, false, List, [], ◌∷◌, arith}
use fss_smm_mav.Prelude.Double.{one, of_ℕ, lt}
use fss_smm_mav.Types.{
  FmuState-discrete, origin, no_target, fmu_state_low_battery, fmu_state_failsafe,
  fmu_state_terminate, fss_cmd_rtl, fss_cmd_hold, fss_cmd_terminate, fss_command_actioned,
  fss_command_superseded,
}

abbrev env : Env
env = record { current_position = origin; transmits = λ (c : Call). true }

abbrev start : Fmu
start = init 2 100 2

abbrev flight : List (Env × Input)
flight =
    (env, fss fss_cmd_rtl no_target)
    ∷ (env, altitude true (of_ℕ 120))
    ∷ (env, altitude true (of_ℕ 130))
    ∷ (env, battery true)
    ∷ (env, mav_comms true)
    ∷ (env, battery true)
    ∷ (env, fss fss_cmd_hold no_target)
    ∷ []

run-Inv_example : Inv (run start flight)
unfolding init
run-Inv_example = run-Inv start flight (init-Inv 2 100 2)

run-Controls_example :
    Controls
      (run start ((env, fss_comms false) ∷ flight))
      (run start ((env, fss_comms false) ∷ flight)).current_state
run-Controls_example = run-Controls start env (fss_comms false) flight refl

run-Remembers_example : Remembers (init 2 100 2) (inputs flight) (run (init 2 100 2) flight)
run-Remembers_example = run-Remembers 2 100 2 flight

terminate_is_final_example :
    (run start ((env, fss fss_cmd_terminate no_target) ∷ flight)).current_state
    ≡ fmu_state_terminate
unfolding init
terminate_is_final_example = terminate_is_final start env no_target flight (init-Inv 2 100 2)

abbrev grounded : Fmu
grounded = record start { low_battery = true; current_state = fmu_state_low_battery }

low_battery_is_final_example :
    ((run grounded flight).current_state ≡ fmu_state_low_battery)
    ⊎ ((run grounded flight).current_state ≡ fmu_state_terminate)
unfolding select_state init
low_battery_is_final_example = low_battery_is_final grounded flight refl refl

low_battery_iff_example :
    ((run (init 2 100 2) flight).low_battery ≡ true) ↔ HasRun 2 (readings (inputs flight))
low_battery_iff_example = low_battery_iff 2 100 2 flight (omega arith)

run_debounces_example :
    latch_of (run start flight) ≡ debounce 2 (latch_of start) (valid_readings 100 (inputs flight))
unfolding init over_altitude_cap
run_debounces_example = run_debounces start flight

altitude_latch_follows_example : (run (init 2 100 2) flight).altitude_breach ≡ true
unfolding over_altitude_cap lt one
altitude_latch_follows_example = altitude_latch_follows 2 100 2 flight [] true (omega arith) refl

step-calls_example :
    (step env start (fss_comms false)).1
    ≡ due_calls env start (fss_comms false) (step env start (fss_comms false)).0
step-calls_example = step-calls env start (fss_comms false)

abbrev breached : Fmu
breached = record start { fss_comms_lost = false; altitude_breach = true }

latches_supersede_commands_example :
    let r = fss_new_command env breached fss_cmd_hold no_target in
    (((resolution r).outcome ≡ fss_command_superseded)
      ↔ (IsOverruled breached × (fss_cmd_hold ≢ fss_cmd_terminate)))
    × Reports breached (after_command r) (resolution r)
    × ((after_command r).fss_command ≡ fss_cmd_hold)
    × ((after_command r).fss_command_target ≡ no_target)
latches_supersede_commands_example =
    latches_supersede_commands env breached fss_cmd_hold no_target (λ _. ground arith)

breach_rtl_is_actioned_example :
    (resolution (fss_new_command env breached fss_cmd_rtl no_target)).outcome ≡ fss_command_actioned
unfolding init
breach_rtl_is_actioned_example =
    breach_rtl_is_actioned env breached no_target refl refl refl refl refl

role_follows_state_example :
    Fits
      (role_after false (run_calls (init 2 100 2) flight))
      (run (init 2 100 2) flight).current_state
role_follows_state_example = role_follows_state 2 100 2 flight

lost_link_returns_example :
    ((step env start (mav_comms true)).0.current_state ≡ fmu_state_failsafe)
    × ((step env start (mav_comms true)).1
        ≡ return_calls (step env start (mav_comms true)).0 fmu_state_failsafe)
unfolding step update_state latch_terminate select_state init FmuState-discrete
lost_link_returns_example =
    lost_link_returns env start (mav_comms true) refl (ground arith) refl refl (inr refl)
