-- ===== src/Dispatch/Tests.antt =====
-- The theorems on the dispatcher at concrete inputs; responders and searches are numbers.
use fss_smm_mav.Dispatch.{
  Event, adsb_forward_interval_ms, PositionData, Dispatcher, Answers, pos, negsuc,
  fss_command_event, fss_comms_status, battery_data, other_aircraft_report,
}
use fss_smm_mav.Dispatch.Machine.{dispatch_all, no_event_undoes_terminate}
use fss_smm_mav.Dispatch.Throttle.{sent_times, adsb_reports_are_spaced}
use fss_smm_mav.Fmu.Action.{Call}
use fss_smm_mav.Fmu.Invariant.{init-Inv}
use fss_smm_mav.Fmu.State.{init}
use fss_smm_mav.Prelude.{ℕ, ◌≡◌, true, some, List, [], ◌∷◌, arith, Separated}
use fss_smm_mav.Prelude.Double.{of_ℕ}
use fss_smm_mav.Types.{origin, no_target, fmu_state_terminate, fss_cmd_terminate, fss_comms_okay}

abbrev answers : ℕ → Answers
answers now = record {
  env = record { current_position = origin; transmits = λ (c : Call). true };
  search_points = pos 4;
  now_ms = now;
}

abbrev dispatcher : Dispatcher
dispatcher = record {
  machine = init 2 100 2;
  asset_name = "uav";
  lowbat_threshold = pos 20;
  adsb_last_forwarded_ms = [];
}

abbrev other : ℕ → PositionData
other icao = record {
  p = origin;
  alt_m = of_ℕ 300;
  alt_agl_m = of_ℕ 0;
  hdg = 0;
  vel_hor = 0;
  vel_ver = pos 0;
  callsign = "ZK-ABC";
  squawk = 1200;
  icaoaddress = icao;
  timestamp = 0;
  flags = 1;
  altitude_type = 0;
  emitter_type = 0;
}

abbrev queue : List (Answers × Event ℕ ℕ)
queue =
    (answers 1000, fss_comms_status fss_comms_okay)
    ∷ (answers 1200, other_aircraft_report (other 7))
    ∷ (
      answers 1500,
      battery_data (record { remaining = pos 12; consumed = negsuc 0; voltage = of_ℕ 11 }),
    )
    ∷ (answers 1700, other_aircraft_report (other 7))
    ∷ (answers 2400, other_aircraft_report (other 7))
    ∷ []

no_event_undoes_terminate_example :
    (dispatch_all dispatcher (
      (answers 900, fss_command_event fss_cmd_terminate no_target (some 3))
      ∷ queue)).machine.current_state
    ≡ fmu_state_terminate
no_event_undoes_terminate_example =
    no_event_undoes_terminate dispatcher (answers 900) no_target (some 3) queue (init-Inv 2 100 2)

adsb_reports_are_spaced_example : Separated adsb_forward_interval_ms (sent_times 7 dispatcher queue)
adsb_reports_are_spaced_example = adsb_reports_are_spaced 7 0 dispatcher queue (
  omega arith,
  omega arith,
  (
    omega arith,
    omega arith,
    (omega arith, omega arith, (omega arith, omega arith, (omega arith, omega arith, tt))),
  ),
)
