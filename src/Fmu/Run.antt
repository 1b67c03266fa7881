-- ===== src/Fmu/Run.antt =====
-- The reports and commands that reach FMUStateMachine, each applied on the event-loop thread, and
-- the machine after a sequence of them (the handlers are those of src/fmu.cpp).
use fss_smm_mav.Fmu.Action.{Env, Call}
use fss_smm_mav.Fmu.Handlers.{
  fss_new_command, smm_new_command, set_low_battery, set_current_altitude, set_comms_failure,
  reassert_state, set_mav_comms_failure,
}
use fss_smm_mav.Fmu.State.{Fmu}
use fss_smm_mav.Prelude.{Bool, List, [], ◌∷◌}
use fss_smm_mav.Prelude.Double.{Double}
use fss_smm_mav.Types.{FssCommandTarget, FssCommand, SmmCommand}

pub data Input : Type 0 where
  fss : FssCommand → FssCommandTarget → Input
  smm : SmmCommand → Input
  battery : Bool → Input
  altitude : Bool → Double → Input
  fss_comms : Bool → Input
  mav_comms : Bool → Input
  reassert : Input

abbrev without_resolution {ℓ} : {A : Type ℓ} → Fmu × List Call × A → Fmu × List Call
without_resolution (s, calls, r) = (s, calls)

unfoldable pub step : Env → Fmu → Input → Fmu × List Call
unfolding fss_new_command smm_new_command set_low_battery set_current_altitude set_comms_failure
    set_mav_comms_failure reassert_state
step env s (fss cmd target) = without_resolution (fss_new_command env s cmd target)
step env s (smm cmd) = smm_new_command env s cmd
step env s (battery low) = set_low_battery env s low
step env s (altitude fix_valid agl) = set_current_altitude env s fix_valid agl
step env s (fss_comms failed) = set_comms_failure env s failed
step env s (mav_comms failed) = set_mav_comms_failure env s failed
step env s reassert = reassert_state env s

-- The machine after the inputs, oldest first.
unfoldable pub run : Fmu → List (Env × Input) → Fmu
run s [] = s
run s ((env, i) ∷ is) = run (step env s i).0 is
