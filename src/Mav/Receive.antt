-- ===== src/Mav/Receive.antt =====
-- The messages from the autopilot: mav_sys and mav_systems of src/mav/mav-sys.cpp and
-- src/mav/internal.hpp, and processMavLinkMsg with what it calls in src/mav/mavlink.cpp. The values of
-- MAVLink's enumerations are parameters. The check of the failsafe parameters is only that it is asked
-- for; text messages and the other message kinds reach the log alone, and so does a
-- reply on a parameter.
pub mod Foreign
mod Tests
use Prim.Native.String.{String}
use fss_smm_mav.Dispatch.{position_flag_valid_coords, ℤ}
use fss_smm_mav.Mav.Encoding.{
  of_int, deg_e7_to_degrees, battery_pack_voltage_v, horizontal_velocity,
}
use fss_smm_mav.Mav.Link.{autopilot_restart_margin_ms, autopilot_restarted}
use fss_smm_mav.Mav.Mission.{search_first_point_seq, next_search_point_after_reached_seq}
use fss_smm_mav.Mav.ModeResolve.{MavType}
use fss_smm_mav.Mav.Upkeep.{heartbeat_received, attempt_reconnect, Upkeep}
use fss_smm_mav.Mav.Upload.{
  invalidate_in_flight_upload, replay_pending_mode, mission_ack, Connection, SearchView, Message,
}
use fss_smm_mav.Mav.Upload.Regions.Waypoint.{send_waypoint, Reply}
use fss_smm_mav.Prelude.{
  ℕ, zero, suc, ◌%◌, ◌^◌, Bool, true, false, not, ◌&&◌, ◌||◌, Option, none, some, List, [], ◌∷◌,
  ◌++◌, leb, ◌==◌, if◌then◌else◌,
}
use fss_smm_mav.Prelude.Assoc.{find, assign, string_eq, nat_eq}
use fss_smm_mav.Prelude.Double.{of_ℕ, div, Double}
use fss_smm_mav.Types.{Point}

-- `mav_sys`; the numbers are MAV_TYPE values.
pub record MavSys : Type 0 where
  pub components : List ℕ
  pub autopilot_type : ℕ
  pub flight_mode : ℕ
  pub setup : Bool
  pub failsafe_checked : Bool
  pub failsafe_checked_type : ℕ

abbrev pub new_sys : MavSys
new_sys = record {
  components = [];
  autopilot_type = 0;
  flight_mode = 0;
  setup = false;
  failsafe_checked = false;
  failsafe_checked_type = 0;
}

pub includes : List ℕ → ℕ → Bool
includes [] compid = false
includes (c ∷ cs) compid = c == compid || includes cs compid

-- The component's registration by findComponent, at the end of the list.
unfoldable pub find_component : ℕ → MavSys → MavSys
unfolding includes
find_component compid sys =
    if includes sys.components compid
    then sys
    else record sys { components = sys.components ++ compid ∷ [] }

abbrev pub reset_setup : MavSys → MavSys
reset_setup sys = record sys { setup = false; failsafe_checked = false }

abbrev pub Systems : Type 0
Systems = List (ℕ × MavSys)

unfoldable pub reset_all_setup : Systems → Systems
reset_all_setup [] = []
reset_all_setup ((sysid, sys) ∷ systems) = (sysid, reset_setup sys) ∷ reset_all_setup systems

abbrev pub checked_failsafe_for : ℕ → MavSys → Bool
checked_failsafe_for type sys = sys.failsafe_checked && sys.failsafe_checked_type == type

abbrev pub target_sys_id : ℕ
target_sys_id = 1

abbrev pub sys_id : ℕ
sys_id = 200

abbrev pub comp_id : ℕ
comp_id = 1

pub record GlobalPosition : Type 0 where
  pub time_boot_ms : ℕ
  pub lat : ℤ
  pub lon : ℤ
  pub alt : ℤ
  pub relative_alt : ℤ
  pub hdg : ℕ
  pub vx : ℤ
  pub vy : ℤ
  pub vz : ℤ

-- The messages that processMavLinkMsg has a case for that does more than log.
pub data Payload : Type 0 where
  heartbeat : (type custom_mode : ℕ) → Payload
  global_position_int : GlobalPosition → Payload
  battery_status : (current_consumed battery_remaining : ℤ) → (cell0_mv : ℕ) → Payload
  mission_item_reached : (seq : ℕ) → Payload
  mission_request : (target_system target_component seq mission_type : ℕ) → Payload
  mission_request_int : (target_system target_component seq mission_type : ℕ) → Payload
  mission_ack_received : (target_system target_component : ℕ) → (accepted : Bool) → Payload
  gps_raw_int : (fix_type : ℕ) → Payload
  system_time : (time_boot_ms : ℕ) → Payload
  param_value : (param_id : String) → (value : Double) → Payload
  other_message : Payload

-- What is sent, and what is reported through the callbacks.
pub data Output : Type 0 where
  requests_streams : (sysid compid : ℕ) → Output
  requests_failsafe_params : (type : ℕ) → Output
  sends_message : Message → Output
  answers_request : Reply → Output
  reports_position :
      (p : Point)
      → (alt_m alt_agl_m : Double) → (hdg vel_hor : ℕ) → (vel_ver : ℤ) → (flags : ℕ) → Output
  reports_battery : (remaining consumed : ℤ) → Double → Output
  reports_reached_point : ℕ → Output
  reports_restart : Output
  -- checkFailsafeParamReply, which may log a warning.
  checks_failsafe_param : (param_id : String) → (value : Double) → Output

pub record Receiver : Type 0 where
  pub systems : Systems
  pub link : Upkeep
  pub connection : Connection
  pub last_position : Point
  pub gps_fix_type : ℕ
  pub last_time_boot_ms : ℕ

abbrev pub sent_all : List Message → List Output
sent_all [] = []
sent_all (m ∷ ms) = sends_message m ∷ sent_all ms

unfoldable pub mav_mm_to_metres : ℤ → Double
unfolding div
mav_mm_to_metres millimetres = div (of_int millimetres) (of_ℕ 1000)

-- handleAutopilotRestart.
unfoldable pub handle_autopilot_restart : Receiver → Receiver × List Output
unfolding reset_all_setup invalidate_in_flight_upload
handle_autopilot_restart r = (
  record r {
    systems = reset_all_setup r.systems;
    connection = invalidate_in_flight_upload r.connection;
  },
  reports_restart ∷ [],
)

abbrev pub restart_if : Bool → Receiver → Receiver × List Output
restart_if true r = handle_autopilot_restart r
restart_if false r = (r, [])

unfoldable pub note_time_boot_ms : ℕ → Receiver → Receiver × List Output
unfolding handle_autopilot_restart autopilot_restarted
note_time_boot_ms zero r = (r, [])
note_time_boot_ms (suc t) r =
    let (s, outputs) =
      restart_if (autopilot_restarted r.last_time_boot_ms (suc t) autopilot_restart_margin_ms) r in
    (record s { last_time_boot_ms = suc t }, outputs)

unfoldable pub report_reached : ℕ → List Output
unfolding next_search_point_after_reached_seq
report_reached point =
    if leb search_first_point_seq point
    then reports_reached_point (next_search_point_after_reached_seq point) ∷ []
    else []

abbrev pub addressed_here : ℕ → ℕ → Bool
addressed_here target_system target_component =
    target_system == sys_id && target_component == comp_id

-- What MAVLink defines, std::hypot, and the settings of the connection.
pub record Mavlink : Type 0 where
  pub type_of : ℕ → MavType
  pub gps_fix_type_2d_fix : ℕ
  pub hypot : Double → Double → Double
  pub goto_altitude_m : ℕ
  pub transmits : Message → Bool
  pub view : ℕ → SearchView

abbrev pub sys_of : ℕ → Systems → MavSys
sys_of sysid systems = elim (find sysid systems) [ none ↦ new_sys | some sys ↦ sys ]

abbrev pub with_sys : ℕ → MavSys → Receiver → Receiver
with_sys sysid sys r = record r { systems = assign sysid sys r.systems }

-- The system and the component are known from their first message on, and the autopilot is asked for
-- its streams upon it, once until the next reset.
unfoldable pub register : ℕ → ℕ → Receiver → Receiver × List Output
unfolding find assign find_component
register sysid compid r =
    let sys = find_component compid (sys_of sysid r.systems) in
    (
      with_sys sysid (record sys { setup = true }) r,
      if not sys.setup && sysid == target_sys_id then requests_streams sysid compid ∷ [] else [],
    )

module _ (m : Mavlink) where
  -- A heartbeat of the autopilot, received at `now`.
  unfoldable pub heartbeat_from :
      (sysid type custom_mode now : ℕ) → Receiver → Receiver × List Output
  unfolding find assign replay_pending_mode
  heartbeat_from sysid type custom_mode now r =
      let sys = record (sys_of sysid r.systems) {
        autopilot_type = type;
        flight_mode = custom_mode % 2 ^ 8;
      } in
      let checked = checked_failsafe_for type sys in
      let marked =
        if checked
        then sys
        else record sys { failsafe_checked = true; failsafe_checked_type = type } in
      let (c, sent) = replay_pending_mode (m.type_of type) m.transmits m.view r.connection in
      (
        record (with_sys sysid marked r) { link = heartbeat_received now r.link; connection = c },
        sent_all sent ++ (if checked then [] else requests_failsafe_params type ∷ []),
      )

  unfoldable pub position_from : GlobalPosition → Receiver → Receiver × List Output
  unfolding note_time_boot_ms deg_e7_to_degrees horizontal_velocity mav_mm_to_metres
  position_from g r =
      let (s, outputs) = note_time_boot_ms g.time_boot_ms r in
      let p : Point = record {
        latitude = deg_e7_to_degrees g.lat;
        longitude = deg_e7_to_degrees g.lon;
      } in
      let flags =
        if leb m.gps_fix_type_2d_fix r.gps_fix_type then position_flag_valid_coords else 0 in
      (
        record s { last_position = p },
        outputs
            ++ reports_position p (mav_mm_to_metres g.alt) (mav_mm_to_metres g.relative_alt) g.hdg
                (horizontal_velocity m.hypot g.vx g.vy) g.vz flags
              ∷ [],
      )

  unfoldable pub acked_from : Bool → Receiver → Receiver × List Output
  unfolding find mission_ack
  acked_from accepted r =
      let mav_type = m.type_of (sys_of target_sys_id r.systems).autopilot_type in
      let (c, sent) = mission_ack mav_type m.transmits m.view accepted r.connection in
      (record r { connection = c }, sent_all sent)

  -- isFromAutopilot.
  abbrev pub is_from_autopilot : ℕ → Bool
  is_from_autopilot sysid = sysid == target_sys_id

  -- A MISSION_REQUEST or MISSION_REQUEST_INT that has passed its guard.
  abbrev pub answered : (seq mission_type : ℕ) → Receiver → Receiver × List Output
  answered seq mission_type r = (
    r,
    answers_request (send_waypoint m.goto_altitude_m seq mission_type m.view r.connection) ∷ [],
  )

  -- The switch; each case has a guard of its own.
  unfoldable pub handle_payload :
      (sysid : ℕ) → Payload → (now : ℕ) → Receiver → Receiver × List Output
  unfolding heartbeat_from position_from acked_from report_reached send_waypoint
      battery_pack_voltage_v note_time_boot_ms
  handle_payload sysid (heartbeat type custom_mode) now r =
      if not (is_from_autopilot sysid) then (r, []) else heartbeat_from sysid type custom_mode now r
  handle_payload sysid (global_position_int g) now r =
      if not (is_from_autopilot sysid) then (r, []) else position_from g r
  handle_payload sysid (battery_status consumed remaining cell0_mv) now r =
      if not (is_from_autopilot sysid)
      then (r, [])
      else (r, reports_battery remaining consumed (battery_pack_voltage_v cell0_mv) ∷ [])
  handle_payload sysid (mission_item_reached seq) now r =
      if not (is_from_autopilot sysid) then (r, []) else (r, report_reached seq)
  handle_payload sysid (mission_request target_system target_component seq mission_type) now r =
      if is_from_autopilot sysid && addressed_here target_system target_component
      then answered seq mission_type r
      else (r, [])
  handle_payload sysid (mission_request_int target_system target_component seq mission_type) now r =
      if is_from_autopilot sysid && addressed_here target_system target_component
      then answered seq mission_type r
      else (r, [])
  handle_payload sysid (mission_ack_received target_system target_component accepted) now r =
      if is_from_autopilot sysid && addressed_here target_system target_component
      then acked_from accepted r
      else (r, [])
  handle_payload sysid (gps_raw_int fix_type) now r =
      if not (is_from_autopilot sysid) then (r, []) else (record r { gps_fix_type = fix_type }, [])
  handle_payload sysid (system_time time_boot_ms) now r =
      if not (is_from_autopilot sysid) then (r, []) else note_time_boot_ms time_boot_ms r
  handle_payload sysid (param_value param_id value) now r =
      if not (is_from_autopilot sysid)
      then (r, [])
      else (r, checks_failsafe_param param_id value ∷ [])
  handle_payload sysid other_message now r = (r, [])

  unfoldable pub process_mav_link_msg : ℕ → ℕ → Payload → ℕ → Receiver → Receiver × List Output
  unfolding register handle_payload
  process_mav_link_msg sysid compid payload now r =
      let (s, requests) = register sysid compid r in
      let (t, outputs) = handle_payload sysid payload now s in (t, requests ++ outputs)

-- attemptReconnect with the end of disconnect_from_mav, which has every system set up again.
unfoldable pub reconnect : (now : ℕ) → (dialled : Option ℕ) → Receiver → Receiver
unfolding attempt_reconnect reset_all_setup
reconnect now dialled r = record r {
  link = attempt_reconnect now dialled r.link;
  systems = if r.link.broken then reset_all_setup r.systems else r.systems;
}
