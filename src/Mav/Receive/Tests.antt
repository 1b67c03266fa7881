-- ===== src/Mav/Receive/Tests.antt =====
-- Messages from the autopilot and from another system.
use fss_smm_mav.Mav.ModeResolve.{
  resolve_mav_mode, MavType, mav_type_fixed_wing, mav_type_other, plane_mode_auto,
}
use fss_smm_mav.Mav.Receive.{
  find_component, register, heartbeat_from, acked_from, handle_payload, process_mav_link_msg,
  Receiver, Mavlink, heartbeat, mission_ack_received, system_time, sends_message,
}
use fss_smm_mav.Mav.Receive.Foreign.{
  all_foreign, receive_all, foreign_messages_change_nothing, Unchanged, Received,
}
use fss_smm_mav.Mav.Upkeep.{new_upkeep}
use fss_smm_mav.Mav.Upload.{
  mode_sent, engaged_by, take_ack, set_resolved_mode, replay_pending_mode, engage, mission_ack,
  set_mode, mission_set_current,
}
use fss_smm_mav.Prelude.{ℕ, ◌≡◌, refl, true, false, none, List, [], ◌∷◌, ◌==◌, if◌then◌else◌}
use fss_smm_mav.Prelude.Assoc.{find, assign, string_eq, nat_eq}
use fss_smm_mav.Prelude.Double.{of_ℕ}
use fss_smm_mav.Types.{Point}

abbrev plane_types : ℕ → MavType
plane_types t = if t == 1 then mav_type_fixed_wing else mav_type_other

abbrev origin : Point
origin = record { latitude = of_ℕ 0; longitude = of_ℕ 0 }

abbrev mavlink : Mavlink
mavlink = record {
  type_of = plane_types;
  gps_fix_type_2d_fix = 2;
  hypot = λ x y. x;
  goto_altitude_m = 50;
  transmits = λ _. true;
  view = λ _. record { points = []; current_point = 0; altitude = 0 };
}

-- A goto is uploaded, and its acknowledgement has not come.
abbrev receiver : Receiver
receiver = record {
  systems = [];
  link = new_upkeep;
  connection = record {
    search_ref = none;
    search_loading = false;
    search_loaded = false;
    goto_position = origin;
    goto_active = true;
    goto_ack_pending = true;
    pending_mode_command = none;
  };
  last_position = origin;
  gps_fix_type = 0;
  last_time_boot_ms = 90000;
}

heartbeat_then_ack :
    (process_mav_link_msg mavlink 1 1
      (mission_ack_received 200 1 true)
      20
      (process_mav_link_msg mavlink 1 1 (heartbeat 1 0) 10 receiver).0).1
    ≡ sends_message (mission_set_current 0) ∷ sends_message (set_mode plane_mode_auto) ∷ []
unfolding process_mav_link_msg register handle_payload heartbeat_from acked_from find assign
    find_component replay_pending_mode mission_ack engaged_by take_ack engage set_resolved_mode
    resolve_mav_mode mode_sent
heartbeat_then_ack = refl

-- Another system acknowledges the upload and claims a restart.
abbrev intruder : List Received
intruder =
    record { sysid = 255; compid = 190; payload = mission_ack_received 200 1 true; now = 10 }
    ∷ record { sysid = 255; compid = 190; payload = system_time 5; now = 11 }
    ∷ []

foreign_messages_change_nothing_example :
    Unchanged receiver (receive_all mavlink intruder receiver).0
    × ((receive_all mavlink intruder receiver).1 ≡ [])
unfolding all_foreign
foreign_messages_change_nothing_example =
    foreign_messages_change_nothing mavlink intruder receiver refl
