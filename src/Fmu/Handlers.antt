-- ===== src/Fmu/Handlers.antt =====
-- The public methods of FMUStateMachine (src/fmu.cpp). A handler returns the new machine and the
-- calls it makes, in order. The lock has no model: one event-loop thread makes every call.
use fss_smm_mav.Fmu.Action.{action_state, act_on_change, update_and_act, Env, Call}
use fss_smm_mav.Fmu.State.{commanded_state, update_state, resolve_fss_command, Fmu}
use fss_smm_mav.Prelude.{
  ℕ, ◌+◌, ite, Bool, true, false, not, ◌&&◌, none, some, List, [], ltb, leb, if◌then◌else◌,
}
use fss_smm_mav.Prelude.Double.{of_ℕ, is_finite, lt, Double}
use fss_smm_mav.Types.{
  FmuState-discrete, FssCommandResolution, FssCommandTarget, fmu_state_searching,
  fmu_state_waiting_for_tasking, FssCommand, SmmCommand,
}

unfoldable pub fss_new_command :
    Env → Fmu → FssCommand → FssCommandTarget → Fmu × List Call × FssCommandResolution
unfolding update_state act_on_change resolve_fss_command
fss_new_command env s cmd target =
    let s' = record s { fss_command = cmd; fss_command_target = target } in
    let desired = commanded_state s' in
    let (t, changed) = update_state s' in
    (t, act_on_change env t changed, resolve_fss_command t desired changed)

unfoldable pub smm_new_command : Env → Fmu → SmmCommand → Fmu × List Call
unfolding update_and_act
smm_new_command env s cmd = update_and_act env (record s { smm_command = cmd })

-- The counting half of the low branch.
abbrev pub count_low : Fmu → Fmu
count_low s =
    if ltb s.low_battery_count s.low_battery_latch_count
    then record s { low_battery_count = s.low_battery_count + 1 }
    else s

-- The second `if` of the low branch.
unfoldable pub note_low : Env → Fmu → Fmu × List Call
unfolding update_and_act
note_low env t =
    if leb t.low_battery_latch_count t.low_battery_count && not t.low_battery
    then update_and_act env (record t { low_battery = true })
    else (t, [])

unfoldable pub set_low_battery : Env → Fmu → Bool → Fmu × List Call
unfolding note_low
set_low_battery env s low =
    if low then note_low env (count_low s) else (record s { low_battery_count = 0 }, [])

-- src/altitude-cap.hpp.
unfoldable pub over_altitude_cap : Double → ℕ → Bool
over_altitude_cap altitude_agl_m altitude_cap_m = lt (of_ℕ altitude_cap_m) altitude_agl_m

abbrev pub count_breach : Fmu → Fmu
count_breach s =
    let count =
      if ltb s.altitude_breach_count s.altitude_breach_latch_count
      then s.altitude_breach_count + 1
      else s.altitude_breach_count in
    record s { altitude_breach_count = count; altitude_clear_count = 0 }

abbrev pub count_clear : Fmu → Fmu
count_clear s =
    let count =
      if ltb s.altitude_clear_count s.altitude_breach_latch_count
      then s.altitude_clear_count + 1
      else s.altitude_clear_count in
    record s { altitude_clear_count = count; altitude_breach_count = 0 }

-- The two branches of setCurrentAltitude for a reading that counts.
unfoldable pub note_altitude : Env → Fmu → Bool → Fmu × List Call
unfolding update_and_act
note_altitude env s true =
    let t = count_breach s in
    if leb t.altitude_breach_latch_count t.altitude_breach_count && not t.altitude_breach
    then update_and_act env (record t { altitude_breach = true })
    else (t, [])
note_altitude env s false =
    let t = count_clear s in
    if leb t.altitude_breach_latch_count t.altitude_clear_count && t.altitude_breach
    then update_and_act env (record t { altitude_breach = false })
    else (t, [])

unfoldable pub set_current_altitude : Env → Fmu → Bool → Double → Fmu × List Call
unfolding over_altitude_cap note_altitude
set_current_altitude env s fix_valid altitude_agl_m =
    if fix_valid && is_finite altitude_agl_m
    then note_altitude env s (over_altitude_cap altitude_agl_m s.altitude_cap_m)
    else (s, [])

unfoldable pub set_comms_failure : Env → Fmu → Bool → Fmu × List Call
unfolding update_and_act
set_comms_failure env s failed = update_and_act env (record s { fss_comms_lost = failed })

unfoldable pub reassert_state : Env → Fmu → Fmu × List Call
reassert_state env s = (s, (action_state env s s.current_state).0)

unfoldable pub set_mav_comms_failure : Env → Fmu → Bool → Fmu × List Call
unfolding update_state act_on_change
set_mav_comms_failure env s failed =
    let recovered = s.mav_comms_lost && not failed in
    let (t, changed) = update_state (record s { mav_comms_lost = failed }) in
    elim changed [
      | some state ↦ (t, (action_state env t state).0)
      | none ↦ (t, if recovered then (action_state env t t.current_state).0 else [])
    ]

unfoldable pub is_searching : Fmu → Bool
is_searching s = ite (FmuState-discrete s.current_state fmu_state_searching) true false

unfoldable pub is_waiting_for_tasking : Fmu → Bool
is_waiting_for_tasking s =
    ite (FmuState-discrete s.current_state fmu_state_waiting_for_tasking) true false
