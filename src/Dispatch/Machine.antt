-- ===== src/Dispatch/Machine.antt =====
-- What the events do to the state machine: src/event-dispatcher.cpp.
use fss_smm_mav.Dispatch.{
  Event, has_fix, is_low, is_fss_failure, is_mav_failure, dispatch, Dispatcher, Answers,
  fss_command_event, fss_comms_status, mav_comms_status, mav_autopilot_restart, smm_settings,
  position_data, battery_data, reached_point, other_aircraft_report, smm_load_search, smm_rtl,
  smm_operator_command, nudge,
}
use fss_smm_mav.Fmu.Action.{Env}
use fss_smm_mav.Fmu.Handlers.{is_searching, is_waiting_for_tasking}
use fss_smm_mav.Fmu.Invariant.{Inv}
use fss_smm_mav.Fmu.Run.{
  step, run, Input, fss, smm, battery, altitude, fss_comms, mav_comms, reassert,
}
use fss_smm_mav.Fmu.Safety.{terminate_is_final}
use fss_smm_mav.Fmu.State.{Fmu}
use fss_smm_mav.Prelude.{
  ◌≡◌, refl, sym, ap, ◌∙◌, not, ◌&&◌, Option, List, [], ◌∷◌, ◌++◌, arith, if◌then◌else◌,
}
use fss_smm_mav.Types.{
  FssCommandTarget, fmu_state_terminate, fss_cmd_terminate, smm_cmd_none, smm_cmd_mission_complete,
}

abbrev pub with_env : Env → List Input → List (Env × Input)
with_env env [] = []
with_env env (i ∷ is) = (env, i) ∷ with_env env is

run-append : (s : Fmu) (xs ys : List (Env × Input)) → run s (xs ++ ys) ≡ run (run s xs) ys
unfolding run
run-append s [] ys = refl
run-append s ((env, i) ∷ xs) ys = run-append (step env s i).0 xs ys

module _ {Ack Search : Type 0} where
  -- The input of the machine that an event stands for, if any.
  abbrev pub inputs_of : Dispatcher → Event Ack Search → List Input
  inputs_of d (fss_command_event cmd target ack) = fss cmd target ∷ []
  inputs_of d (fss_comms_status status) = fss_comms (is_fss_failure status) ∷ []
  inputs_of d (mav_comms_status status) = mav_comms (is_mav_failure status) ∷ []
  inputs_of d mav_autopilot_restart = reassert ∷ []
  inputs_of d (position_data pd) = altitude (has_fix pd) pd.alt_agl_m ∷ []
  inputs_of d (battery_data bd) = battery (is_low bd.remaining d.lowbat_threshold) ∷ []
  inputs_of d (smm_load_search found) =
      if not (is_searching d.machine) && is_waiting_for_tasking d.machine
      then smm smm_cmd_none ∷ []
      else []
  inputs_of d smm_rtl = smm smm_cmd_mission_complete ∷ []
  inputs_of d (smm_operator_command cmd) = smm cmd ∷ []
  inputs_of d _ = []

  dispatch-machine :
      (a : Answers) (d : Dispatcher) (e : Event Ack Search)
      → (dispatch a d e).0.machine ≡ run d.machine (with_env a.env (inputs_of d e))
  unfolding dispatch run step
  dispatch-machine a d (fss_command_event cmd target ack) = refl
  dispatch-machine a d (fss_comms_status status) = refl
  dispatch-machine a d (mav_comms_status status) = refl
  dispatch-machine a d mav_autopilot_restart = refl
  dispatch-machine a d (smm_settings settings) = refl
  dispatch-machine a d (position_data pd) = refl
  dispatch-machine a d (battery_data bd) = refl
  dispatch-machine a d (reached_point point) = ground arith
  dispatch-machine a d (other_aircraft_report pd) = ground arith
  dispatch-machine a d (smm_load_search found) = ground arith
  dispatch-machine a d smm_rtl = refl
  dispatch-machine a d (smm_operator_command cmd) = refl
  dispatch-machine a d nudge = refl

  -- The dispatcher after the events of the queue, oldest first.
  abbrev pub dispatch_all : Dispatcher → List (Answers × Event Ack Search) → Dispatcher
  dispatch_all d [] = d
  dispatch_all d ((a, e) ∷ es) = dispatch_all (dispatch a d e).0 es

  abbrev pub inputs_over : Dispatcher → List (Answers × Event Ack Search) → List (Env × Input)
  inputs_over d [] = []
  inputs_over d ((a, e) ∷ es) = with_env a.env (inputs_of d e) ++ inputs_over (dispatch a d e).0 es

  -- The events of the queue do to the state machine what the inputs they stand for do, in order, and
  -- nothing else.
  pub events_drive_machine :
      (d : Dispatcher) (es : List (Answers × Event Ack Search))
      → (dispatch_all d es).machine ≡ run d.machine (inputs_over d es)
  unfolding run
  events_drive_machine d [] = refl
  events_drive_machine d ((a, e) ∷ es) =
      events_drive_machine (dispatch a d e).0 es
      ∙ (ap (λ s. run s (inputs_over (dispatch a d e).0 es)) (dispatch-machine a d e)
          ∙ sym (
              run-append d.machine (with_env a.env (inputs_of d e))
                (inputs_over (dispatch a d e).0 es)))

  -- From a machine for which the invariant Inv holds: once a terminate event has been dispatched,
  -- no later event, of whatever kind, takes the machine out of fmu_state_terminate.
  pub no_event_undoes_terminate :
      (d : Dispatcher) (a : Answers) (target : FssCommandTarget) (ack : Option Ack)
      (es : List (Answers × Event Ack Search))
      → Inv d.machine
      → (dispatch_all d
          ((a, fss_command_event fss_cmd_terminate target ack) ∷ es)).machine.current_state
        ≡ fmu_state_terminate
  no_event_undoes_terminate d a target ack es v =
      let e = fss_command_event fss_cmd_terminate target ack in
      ap (λ (s : Fmu). s.current_state) (events_drive_machine d ((a, e) ∷ es))
      ∙ terminate_is_final d.machine a.env target (inputs_over (dispatch a d e).0 es) v
