-- ===== src/Dispatch/Effect.antt =====
-- Which events touch the throttle of ADS-B reports: src/event-dispatcher.cpp.
use mathlib.Core.List.{append-nil}
use fss_smm_mav.Dispatch.{
  Event, has_fix, is_low, is_fss_failure, is_mav_failure, from_machine, and_then, ack_action,
  forward_adsb, dispatch, PositionData, Dispatcher, Answers, fss_command_event, fss_comms_status,
  mav_comms_status, mav_autopilot_restart, smm_settings, position_data, battery_data, reached_point,
  other_aircraft_report, smm_load_search, smm_rtl, smm_operator_command, nudge, Action,
  machine_call, fss_post_ack, fss_report_position, smm_report_position, fss_report_battery,
  mav_send_adsb,
}
use fss_smm_mav.Fmu.Action.{Call}
use fss_smm_mav.Fmu.Handlers.{
  fss_new_command, smm_new_command, set_low_battery, set_current_altitude, set_comms_failure,
  reassert_state, set_mav_comms_failure, is_searching, is_waiting_for_tasking,
}
use fss_smm_mav.Fmu.State.{Fmu}
use fss_smm_mav.Prelude.{
  ℕ, ◌≡◌, refl, subst, ◌∙◌, inl, inr, Bool, false, ◌||◌, Option, none, some, List, [], ◌∷◌, ◌++◌,
  map, ◌==◌, Bool-cases,
}
use fss_smm_mav.Prelude.Assoc.{string_eq, nat_eq}
use fss_smm_mav.Types.{is_valid, FssCommandResolution, smm_cmd_none, smm_cmd_mission_complete}

module _ {Ack Search : Type 0} where
  -- Whether a report of the address goes to the autopilot.
  abbrev pub sends : ℕ → List (Action Ack Search) → Bool
  sends icao [] = false
  sends icao (mav_send_adsb pd ∷ actions) = pd.icaoaddress == icao || sends icao actions
  sends icao (_ ∷ actions) = sends icao actions

  sends-machine_call :
      (icao : ℕ) (calls : List Call) (more : List (Action Ack Search))
      → sends icao (map machine_call calls ++ more) ≡ sends icao more
  sends-machine_call icao [] more = refl
  sends-machine_call icao (c ∷ calls) more = sends-machine_call icao calls more

  -- Either the throttle and the autopilot see nothing of an event, or it is a report to forward.
  pub data Effect (icao : ℕ) (a : Answers) (d : Dispatcher)
      (r : Dispatcher × List (Action Ack Search)) : Type 0 where
    quiet :
        r.0.adsb_last_forwarded_ms ≡ d.adsb_last_forwarded_ms
        → sends icao r.1 ≡ false
        → Effect icao a d r
    report : (pd : PositionData) → r ≡ forward_adsb a d pd → Effect icao a d r

  and_then-Effect :
      (icao : ℕ) (a : Answers) (d : Dispatcher) (r : Fmu × List Call)
      (more : List (Action Ack Search))
      → sends icao more ≡ false
      → Effect icao a d (and_then (from_machine r d) more)
  and_then-Effect icao a d (s, calls) more h = quiet refl (sends-machine_call icao calls more ∙ h)

  from_machine-Effect :
      (icao : ℕ) (a : Answers) (d : Dispatcher) (r : Fmu × List Call)
      → Effect icao a d (from_machine r d)
  from_machine-Effect icao a d (s, calls) = quiet refl (
      subst (λ actions. sends icao actions ≡ false) (append-nil (map machine_call calls))
        (sends-machine_call icao calls []))

  command-Effect :
      (icao : ℕ) (a : Answers) (d : Dispatcher) (s : Fmu) (calls : List Call)
      (res : FssCommandResolution) (ack : Option Ack)
      → Effect icao a d (and_then (from_machine (s, calls) d) (ack_action ack res))
  command-Effect icao a d s calls res none = and_then-Effect icao a d (s, calls) [] refl
  command-Effect icao a d s calls res (some ack) =
      and_then-Effect icao a d (s, calls) (fss_post_ack ack res ∷ []) refl

  pub dispatch-Effect :
      (icao : ℕ) (a : Answers) (d : Dispatcher) (e : Event Ack Search)
      → Effect icao a d (dispatch a d e)
  unfolding dispatch
  dispatch-Effect icao a d (fss_command_event cmd target ack) =
      let (s, calls, res) = fss_new_command a.env d.machine cmd target in
      command-Effect icao a d s calls res ack
  dispatch-Effect icao a d (fss_comms_status status) =
      from_machine-Effect icao a d (set_comms_failure a.env d.machine (is_fss_failure status))
  dispatch-Effect icao a d (mav_comms_status status) =
      from_machine-Effect icao a d (set_mav_comms_failure a.env d.machine (is_mav_failure status))
  dispatch-Effect icao a d mav_autopilot_restart =
      from_machine-Effect icao a d (reassert_state a.env d.machine)
  dispatch-Effect icao a d (smm_settings settings) = quiet refl refl
  dispatch-Effect icao a d (position_data pd) =
      and_then-Effect icao a d (set_current_altitude a.env d.machine (has_fix pd) pd.alt_agl_m)
        (fss_report_position pd ∷ smm_report_position pd ∷ []) refl
  dispatch-Effect icao a d (battery_data bd) =
      and_then-Effect icao a d
        (set_low_battery a.env d.machine (is_low bd.remaining d.lowbat_threshold))
        (fss_report_battery bd ∷ []) refl
  dispatch-Effect icao a d (reached_point point) = elim (Bool-cases (is_searching d.machine)) [
    | inl e ↦ rw e (quiet refl refl)
    | inr e ↦ rw e (quiet refl refl)
  ]
  dispatch-Effect icao a d (other_aircraft_report pd) =
      elim (Bool-cases (string_eq.beq pd.callsign d.asset_name)) [
        | inl own ↦ rw own (quiet refl refl)
        | inr other ↦ elim (Bool-cases (is_valid pd.p)) [
          | inl v ↦ rw (other, v) (report pd refl)
          | inr v ↦ rw (other, v) (quiet refl refl)
        ]
      ]
  dispatch-Effect icao a d (smm_load_search found) = elim (Bool-cases (is_searching d.machine)) [
    | inl e ↦ rw e (quiet refl refl)
    | inr e ↦ elim (Bool-cases (is_waiting_for_tasking d.machine)) [
      | inl w ↦
          rw (e, w) (from_machine-Effect icao a d (smm_new_command a.env d.machine smm_cmd_none))
      | inr w ↦ rw (e, w) (quiet refl refl)
    ]
  ]
  dispatch-Effect icao a d smm_rtl =
      from_machine-Effect icao a d (smm_new_command a.env d.machine smm_cmd_mission_complete)
  dispatch-Effect icao a d (smm_operator_command cmd) =
      from_machine-Effect icao a d (smm_new_command a.env d.machine cmd)
  dispatch-Effect icao a d nudge = quiet refl refl
