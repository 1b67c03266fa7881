-- ===== src/Fmu/Safety.antt =====
-- The latches of FMUStateMachine that no later input releases (src/fmu.cpp).
use fss_smm_mav.Fmu.Action.{Env}
use fss_smm_mav.Fmu.History.{run-Remembers_from}
use fss_smm_mav.Fmu.Invariant.{Inv}
use fss_smm_mav.Fmu.Run.{
  step, run, Input, fss, smm, battery, altitude, fss_comms, mav_comms, reassert,
}
use fss_smm_mav.Fmu.Settled.{IsSettled, step_settles, run-IsSettled}
use fss_smm_mav.Fmu.State.{latch_terminate, select_state, Fmu}
use fss_smm_mav.Fmu.Update.{settled}
use fss_smm_mav.Prelude.{◌≡◌, refl, ◌∙◌, ◌⊎◌, true, List, [], ◌∷◌, arith}
use fss_smm_mav.Types.{
  FssCommandTarget, fmu_state_low_battery, fmu_state_terminate, fss_cmd_terminate,
}

terminate_rules : (s : Fmu) → s.terminated ≡ true → select_state s ≡ fmu_state_terminate
unfolding select_state
terminate_rules s t = ground arith

-- From a machine for which the invariant Inv holds: once a terminate has been ordered no later
-- input takes the machine out of fmu_state_terminate.
pub terminate_is_final :
    (s : Fmu) (env : Env) (target : FssCommandTarget) (is : List (Env × Input))
    → Inv s
    → (run s ((env, fss fss_cmd_terminate target) ∷ is)).current_state ≡ fmu_state_terminate
unfolding run
terminate_is_final s env target is v =
    let t = (step env s (fss fss_cmd_terminate target)).0 in
    let settled = run-IsSettled t is (step_settles env s (fss fss_cmd_terminate target) refl) in
    let r = run-Remembers_from s ((env, fss fss_cmd_terminate target) ∷ is) v in
    settled ∙ terminate_rules (run t is) (r.terminated ∙ ground arith)

-- A machine whose battery latch is engaged.
battery_rules :
    (s : Fmu)
    → s.low_battery ≡ true
    → (select_state s ≡ fmu_state_low_battery) ⊎ (select_state s ≡ fmu_state_terminate)
unfolding select_state
battery_rules s b = ground arith

step-low_battery :
    (env : Env) (s : Fmu) (i : Input) → s.low_battery ≡ true → (step env s i).0.low_battery ≡ true
unfolding step latch_terminate
step-low_battery env s (fss cmd target) h = ground arith
step-low_battery env s (smm cmd) h = ground arith
step-low_battery env s (battery low) h = ground arith
step-low_battery env s (altitude fix_valid agl) h = ground arith
step-low_battery env s (fss_comms failed) h = ground arith
step-low_battery env s (mav_comms failed) h = ground arith
step-low_battery env s reassert h = ground arith

pub run-low_battery :
    (s : Fmu) (is : List (Env × Input)) → s.low_battery ≡ true → (run s is).low_battery ≡ true
unfolding run
run-low_battery s [] h = h
run-low_battery s ((env, i) ∷ is) h =
    run-low_battery (step env s i).0 is (step-low_battery env s i h)

-- A machine that is in the state its fields select, with its battery latch engaged, stays in the
-- low-battery state, whatever is reported or commanded later, unless a terminate takes over.
pub low_battery_is_final :
    (s : Fmu) (is : List (Env × Input))
    → IsSettled s
    → s.low_battery ≡ true
    → ((run s is).current_state ≡ fmu_state_low_battery)
      ⊎ ((run s is).current_state ≡ fmu_state_terminate)
low_battery_is_final s is settled b =
    rw (run-IsSettled s is settled) (battery_rules (run s is) (run-low_battery s is b))
