-- ===== src/Fmu/Settled.antt =====
-- The state that FMUStateMachine is in, against the priority order that src/fmu.cpp states.
use fss_smm_mav.Fmu.Action.{update_and_act, Env}
use fss_smm_mav.Fmu.Handlers.{
  fss_new_command, count_low, note_low, set_low_battery, over_altitude_cap, count_breach,
  count_clear, note_altitude, set_current_altitude, set_mav_comms_failure,
}
use fss_smm_mav.Fmu.Run.{
  step, run, Input, fss, smm, battery, altitude, fss_comms, mav_comms, reassert,
}
use fss_smm_mav.Fmu.State.{commanded_state, select_state, update_state, Fmu}
use fss_smm_mav.Fmu.Update.{update_state-IsUpdateOf}
use fss_smm_mav.Prelude.{
  ℕ, ◌+◌, ◌≡◌, refl, sym, subst, ◌∙◌, ◌⊎◌, inl, inr, Bool, true, false, ◌&&◌, List, [], ◌∷◌, arith,
  ltb, Bool-cases,
}
use fss_smm_mav.Prelude.Double.{is_finite, Double}
use fss_smm_mav.Types.{
  FssCommandTarget, FmuState, fmu_state_rtl, fmu_state_low_battery, fmu_state_failsafe,
  fmu_state_terminate, FssCommand,
}

-- The priority order as rules: terminate, then low battery, then a lost link, then an altitude
-- breach, then the command.
pub data Controls (s : Fmu) : FmuState → Type 0 where
  by_terminate : s.terminated ≡ true → Controls s fmu_state_terminate
  by_battery : s.terminated ≡ false → s.low_battery ≡ true → Controls s fmu_state_low_battery
  by_failsafe :
      s.terminated ≡ false
      → s.low_battery ≡ false
      → (s.fss_comms_lost ≡ true) ⊎ (s.mav_comms_lost ≡ true)
      → Controls s fmu_state_failsafe
  by_breach :
      s.terminated ≡ false
      → s.low_battery ≡ false
      → s.fss_comms_lost ≡ false
      → s.mav_comms_lost ≡ false
      → s.altitude_breach ≡ true
      → Controls s fmu_state_rtl
  by_command :
      s.terminated ≡ false
      → s.low_battery ≡ false
      → s.fss_comms_lost ≡ false
      → s.mav_comms_lost ≡ false
      → s.altitude_breach ≡ false
      → Controls s (commanded_state s)

pub select_state-Controls : (s : Fmu) → Controls s (select_state s)
unfolding select_state
select_state-Controls s = elim (Bool-cases s.terminated) [
  | inl t ↦ simp t (by_terminate t)
  | inr t ↦ elim (Bool-cases s.low_battery) [
    | inl b ↦ simp (t, b) (by_battery t b)
    | inr b ↦ elim (Bool-cases s.fss_comms_lost) [
      | inl f ↦ simp (t, b, f) (by_failsafe t b (inl f))
      | inr f ↦ elim (Bool-cases s.mav_comms_lost) [
        | inl m ↦ simp (t, b, f, m) (by_failsafe t b (inr m))
        | inr m ↦ elim (Bool-cases s.altitude_breach) [
          | inl a ↦ simp (t, b, f, m, a) (by_breach t b f m a)
          | inr a ↦ simp (t, b, f, m, a) (by_command t b f m a)
        ]
      ]
    ]
  ]
]

abbrev pub IsSettled : Fmu → Type 0
IsSettled s = s.current_state ≡ select_state s

pub update_and_act-IsSettled : (env : Env) (s : Fmu) → IsSettled (update_and_act env s).0
unfolding update_and_act
update_and_act-IsSettled env s = (update_state-IsUpdateOf s).state

pub settled-Controls : (s : Fmu) → IsSettled s → Controls s s.current_state
settled-Controls s h = subst (Controls s) (sym h) (select_state-Controls s)

-- Counters play no part in the choice.
low_count_free :
    (s : Fmu) (n : ℕ) → select_state (record s { low_battery_count = n }) ≡ select_state s
unfolding select_state commanded_state
low_count_free s n = refl

altitude_count_free :
    (s : Fmu) (m n : ℕ)
    → select_state (record s { altitude_breach_count = m; altitude_clear_count = n })
      ≡ select_state s
unfolding select_state commanded_state
altitude_count_free s m n = refl

count_low-IsSettled : (s : Fmu) → IsSettled s → IsSettled (count_low s)
count_low-IsSettled s h = elim (Bool-cases (ltb s.low_battery_count s.low_battery_latch_count)) [
  | inl e ↦ rw e (h ∙ sym (low_count_free s (s.low_battery_count + 1)))
  | inr e ↦ rw e h
]

note_low-IsSettled : (env : Env) (t : Fmu) → IsSettled t → IsSettled (note_low env t).0
unfolding note_low
note_low-IsSettled env t h =
    ground (arith, update_and_act-IsSettled env (record t { low_battery = true }))

set_low_battery-IsSettled :
    (env : Env) (s : Fmu) (low : Bool) → IsSettled s → IsSettled (set_low_battery env s low).0
unfolding set_low_battery
set_low_battery-IsSettled env s true h =
    note_low-IsSettled env (count_low s) (count_low-IsSettled s h)
set_low_battery-IsSettled env s false h = h ∙ sym (low_count_free s 0)

note_altitude-IsSettled :
    (env : Env) (s : Fmu) (over : Bool) → IsSettled s → IsSettled (note_altitude env s over).0
unfolding note_altitude
note_altitude-IsSettled env s true h =
    let t = count_breach s in
    ground (
      arith,
      h ∙ sym (altitude_count_free s t.altitude_breach_count 0),
      update_and_act-IsSettled env (record t { altitude_breach = true }),
    )
note_altitude-IsSettled env s false h =
    let t = count_clear s in
    ground (
      arith,
      h ∙ sym (altitude_count_free s 0 t.altitude_clear_count),
      update_and_act-IsSettled env (record t { altitude_breach = false }),
    )

set_current_altitude-IsSettled :
    (env : Env) (s : Fmu) (fix_valid : Bool) (agl : Double)
    → IsSettled s
    → IsSettled (set_current_altitude env s fix_valid agl).0
unfolding set_current_altitude
set_current_altitude-IsSettled env s fix_valid agl h =
    elim (Bool-cases (fix_valid && is_finite agl)) [
      | inl e ↦ rw e (note_altitude-IsSettled env s (over_altitude_cap agl s.altitude_cap_m) h)
      | inr e ↦ rw e h
    ]

fss_new_command-IsSettled :
    (env : Env) (s : Fmu) (cmd : FssCommand) (target : FssCommandTarget)
    → IsSettled (fss_new_command env s cmd target).0
unfolding fss_new_command
fss_new_command-IsSettled env s cmd target =
    (update_state-IsUpdateOf (record s { fss_command = cmd; fss_command_target = target })).state

set_mav_comms_failure-0 :
    (env : Env) (s : Fmu) (failed : Bool)
    → (set_mav_comms_failure env s failed).0
      ≡ (update_state (record s { mav_comms_lost = failed })).0
unfolding set_mav_comms_failure
set_mav_comms_failure-0 env s failed = ground arith

set_mav_comms_failure-IsSettled :
    (env : Env) (s : Fmu) (failed : Bool) → IsSettled (set_mav_comms_failure env s failed).0
set_mav_comms_failure-IsSettled env s failed =
    rw (set_mav_comms_failure-0 env s failed)
      (update_state-IsUpdateOf (record s { mav_comms_lost = failed })).state

-- The inputs that run updateState whatever they find.
abbrev pub always_updates : Input → Bool
always_updates (fss cmd target) = true
always_updates (smm cmd) = true
always_updates (fss_comms failed) = true
always_updates (mav_comms failed) = true
always_updates _ = false

pub step_settles :
    (env : Env) (s : Fmu) (i : Input) → always_updates i ≡ true → IsSettled (step env s i).0
unfolding step
step_settles env s (fss cmd target) h = fss_new_command-IsSettled env s cmd target
step_settles env s (smm cmd) h = update_and_act-IsSettled env (record s { smm_command = cmd })
step_settles env s (fss_comms failed) h =
    update_and_act-IsSettled env (record s { fss_comms_lost = failed })
step_settles env s (mav_comms failed) h = set_mav_comms_failure-IsSettled env s failed
step_settles env s (battery low) h = cc
step_settles env s (altitude fix_valid agl) h = cc
step_settles env s reassert h = cc

pub step-IsSettled : (env : Env) (s : Fmu) (i : Input) → IsSettled s → IsSettled (step env s i).0
unfolding step
step-IsSettled env s (battery low) h = set_low_battery-IsSettled env s low h
step-IsSettled env s (altitude fix_valid agl) h =
    set_current_altitude-IsSettled env s fix_valid agl h
step-IsSettled env s reassert h = h
step-IsSettled env s (fss cmd target) h = step_settles env s (fss cmd target) refl
step-IsSettled env s (smm cmd) h = step_settles env s (smm cmd) refl
step-IsSettled env s (fss_comms failed) h = step_settles env s (fss_comms failed) refl
step-IsSettled env s (mav_comms failed) h = step_settles env s (mav_comms failed) refl

pub run-IsSettled : (s : Fmu) (is : List (Env × Input)) → IsSettled s → IsSettled (run s is)
unfolding run
run-IsSettled s [] h = h
run-IsSettled s ((env, i) ∷ is) h = run-IsSettled (step env s i).0 is (step-IsSettled env s i h)

-- From the first command or link report on, the machine is, after every input, in the state that
-- the priority order gives for its latches, links and commands: terminate over low battery over a
-- lost FSS or MAV link over an altitude breach over the command.
pub run-Controls :
    (s : Fmu) (env : Env) (i : Input) (is : List (Env × Input))
    → always_updates i ≡ true
    → Controls (run s ((env, i) ∷ is)) (run s ((env, i) ∷ is)).current_state
unfolding run
run-Controls s env i is h =
    settled-Controls (run (step env s i).0 is)
      (run-IsSettled (step env s i).0 is (step_settles env s i h))
