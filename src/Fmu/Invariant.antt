-- ===== src/Fmu/Invariant.antt =====
-- What holds of FMUStateMachine between two inputs (src/fmu.cpp).
use fss_smm_mav.Fmu.Action.{Env}
use fss_smm_mav.Fmu.Run.{
  step, run, Input, fss, smm, battery, altitude, fss_comms, mav_comms, reassert,
}
use fss_smm_mav.Fmu.State.{init, is_terminate, latch_terminate, Fmu}
use fss_smm_mav.Prelude.{ℕ, ◌≤◌, ◌≡◌, ◌⊎◌, true, List, [], ◌∷◌, arith}

-- The counters never pass the count that engages a latch, so they cannot overflow, one of the two
-- altitude runs is always empty, and a stored terminate has engaged its latch.
pub record Inv (s : Fmu) : Type 0 where
  pub low_battery_bounded : s.low_battery_count ≤ s.low_battery_latch_count
  pub breach_bounded : s.altitude_breach_count ≤ s.altitude_breach_latch_count
  pub clear_bounded : s.altitude_clear_count ≤ s.altitude_breach_latch_count
  pub one_run : (s.altitude_breach_count ≡ 0) ⊎ (s.altitude_clear_count ≡ 0)
  pub terminate_latched : is_terminate s.fss_command ≡ true → s.terminated ≡ true

pub init-Inv : (n cap k : ℕ) → Inv (init n cap k)
unfolding init
init-Inv n cap k = ground arith

pub step-Inv : (env : Env) (s : Fmu) (i : Input) → Inv s → Inv (step env s i).0
unfolding step latch_terminate
step-Inv env s (fss cmd target) v = ground arith
step-Inv env s (smm cmd) v = ground arith
step-Inv env s (battery low) v = ground arith
step-Inv env s (altitude fix_valid agl) v = ground arith
step-Inv env s (fss_comms failed) v = ground arith
step-Inv env s (mav_comms failed) v = ground arith
step-Inv env s reassert v = ground arith

-- What holds of a machine between two inputs (no counter is past its latch count, one of the two
-- altitude runs is empty, a stored terminate is latched) holds after any further inputs.
pub run-Inv : (s : Fmu) (is : List (Env × Input)) → Inv s → Inv (run s is)
unfolding run
run-Inv s [] v = v
run-Inv s ((env, i) ∷ is) v = run-Inv (step env s i).0 is (step-Inv env s i v)
