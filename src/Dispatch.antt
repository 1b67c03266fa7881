-- ===== src/Dispatch.antt =====
-- EventDispatcher: what the event-loop thread does with each event (src/event-dispatcher.cpp,
-- src/event.hpp, and PositionData and BatteryData of src/fmu-core-types.hpp). The log lines have no
-- model.
pub mod Machine
pub mod Effect
pub mod Remembered
pub mod Throttle
mod Tests
use Prim.Native.String.{String}
use fss_smm_mav.Fmu.Action.{Env, Call}
use fss_smm_mav.Fmu.Handlers.{
  fss_new_command, smm_new_command, set_low_battery, set_current_altitude, set_comms_failure,
  reassert_state, set_mav_comms_failure, is_searching, is_waiting_for_tasking,
}
use fss_smm_mav.Fmu.State.{Fmu}
use fss_smm_mav.Prelude.{
  ℕ, ◌+◌, ◌-◌, ◌%◌, ◌^◌, Bool, true, false, not, ◌&&◌, Option, none, some, List, [], ◌∷◌, ◌++◌, map,
  ltb, leb, ◌==◌, if◌then◌else◌,
}
use fss_smm_mav.Prelude.Assoc.{string_eq, find, assign, erase_if, nat_eq}
use fss_smm_mav.Prelude.Double.{Double}
use fss_smm_mav.Types.{
  is_valid, FssCommandResolution, Point, FssCommandTarget, FssCommand, SmmCommand, smm_cmd_none,
  smm_cmd_mission_complete, FssCommsStatus, fss_comms_failure, MavCommsStatus, ok, failure,
}

-- An int: `pos n` is n and `negsuc n` is -1 - n.
pub data ℤ : Type 0 where
  pos negsuc : ℕ → ℤ

-- `a < b` on ints.
abbrev pub int_lt : ℤ → ℤ → Bool
int_lt (pos m) (pos n) = ltb m n
int_lt (negsuc m) (negsuc n) = ltb n m
int_lt (negsuc m) (pos n) = true
int_lt (pos m) (negsuc n) = false

pub record PositionData : Type 0 where
  pub p : Point
  pub alt_m : Double
  pub alt_agl_m : Double
  pub hdg : ℕ
  pub vel_hor : ℕ
  pub vel_ver : ℤ
  pub callsign : String
  pub squawk : ℕ
  pub icaoaddress : ℕ
  pub timestamp : ℕ
  pub flags : ℕ
  pub altitude_type : ℕ
  pub emitter_type : ℕ

pub record BatteryData : Type 0 where
  pub remaining : ℤ
  pub consumed : ℤ
  pub voltage : Double

pub record SmmSettings : Type 0 where
  pub url : String
  pub user : String
  pub pass : String

-- The alternatives of `event`; an ack responder and a search are opaque here.
pub data Event (Ack Search : Type 0) : Type 0 where
  fss_command_event : FssCommand → FssCommandTarget → Option Ack → Event Ack Search
  fss_comms_status : FssCommsStatus → Event Ack Search
  mav_comms_status : MavCommsStatus → Event Ack Search
  mav_autopilot_restart : Event Ack Search
  smm_settings : SmmSettings → Event Ack Search
  position_data : PositionData → Event Ack Search
  battery_data : BatteryData → Event Ack Search
  reached_point : ℤ → Event Ack Search
  other_aircraft_report : PositionData → Event Ack Search
  smm_load_search : Search → Event Ack Search
  smm_rtl : Event Ack Search
  smm_operator_command : SmmCommand → Event Ack Search
  nudge : Event Ack Search

-- The calls that the dispatcher makes itself, and those that the state machine makes.
pub data Action (Ack Search : Type 0) : Type 0 where
  machine_call : Call → Action Ack Search
  fss_post_ack : Ack → FssCommandResolution → Action Ack Search
  smm_connect : String → String → String → String → Action Ack Search
  fss_report_position : PositionData → Action Ack Search
  smm_report_position : PositionData → Action Ack Search
  fss_reached_point : ℤ → ℤ → Action Ack Search
  smm_reached_point : ℤ → Action Ack Search
  mav_load_search : Search → Action Ack Search
  fss_report_battery : BatteryData → Action Ack Search
  mav_send_adsb : PositionData → Action Ack Search

pub record Dispatcher : Type 0 where
  pub machine : Fmu
  pub asset_name : String
  pub lowbat_threshold : ℤ
  pub adsb_last_forwarded_ms : List (ℕ × ℕ)

-- What the calls answer: those of the machine, currentSearchPoints and now_ms_fn.
pub record Answers : Type 0 where
  pub env : Env
  pub search_points : ℤ
  pub now_ms : ℕ

abbrev pub adsb_forward_interval_ms : ℕ
adsb_forward_interval_ms = 1000

abbrev pub position_flag_valid_coords : ℕ
position_flag_valid_coords = 1

-- `now - ts` on uint64_t.
abbrev pub elapsed : ℕ → ℕ → ℕ
elapsed now ts = (now + (2 ^ 64 - ts)) % 2 ^ 64

unfoldable pub prune_adsb_throttle : ℕ → List (ℕ × ℕ) → List (ℕ × ℕ)
unfolding erase_if
prune_adsb_throttle now m = erase_if (λ (ts : ℕ). leb adsb_forward_interval_ms (elapsed now ts)) m

-- The test on the throttle's entry for the address.
abbrev pub may_forward : ℕ → Option ℕ → Bool
may_forward now none = true
may_forward now (some ts) = leb adsb_forward_interval_ms (elapsed now ts)

-- `flags & POSITION_FLAG_VALID_COORDS`: the flag is bit 0.
abbrev pub has_fix : PositionData → Bool
has_fix pd = not (pd.flags % 2 == 0)

-- A reading that is known and below the threshold.
unfoldable pub is_low : ℤ → ℤ → Bool
is_low remaining threshold = not (int_lt remaining (pos 0)) && int_lt remaining threshold

abbrev pub is_fss_failure : FssCommsStatus → Bool
is_fss_failure fss_comms_failure = true
is_fss_failure _ = false

abbrev pub is_mav_failure : MavCommsStatus → Bool
is_mav_failure failure = true
is_mav_failure ok = false

module _ {Ack Search : Type 0} where
  abbrev pub from_machine : Fmu × List Call → Dispatcher → Dispatcher × List (Action Ack Search)
  from_machine (s, calls) d = (record d { machine = s }, map machine_call calls)

  abbrev pub and_then :
      Dispatcher × List (Action Ack Search)
      → List (Action Ack Search)
      → Dispatcher × List (Action Ack Search)
  and_then (d, actions) more = (d, actions ++ more)

  abbrev pub ack_action : Option Ack → FssCommandResolution → List (Action Ack Search)
  ack_action none res = []
  ack_action (some ack) res = fss_post_ack ack res ∷ []

  -- The report of another aircraft, its callsign not being our own.
  unfoldable pub forward_adsb :
      Answers → Dispatcher → PositionData → Dispatcher × List (Action Ack Search)
  unfolding prune_adsb_throttle assign find
  forward_adsb a d pd =
      let icao = pd.icaoaddress in
      let m = d.adsb_last_forwarded_ms in
      let forwards = may_forward a.now_ms (find icao m) in
      let m' = if forwards then assign icao a.now_ms m else m in
      (
        record d { adsb_last_forwarded_ms = prune_adsb_throttle a.now_ms m' },
        if forwards then mav_send_adsb pd ∷ [] else [],
      )

  unfoldable pub dispatch :
      Answers → Dispatcher → Event Ack Search → Dispatcher × List (Action Ack Search)
  unfolding fss_new_command smm_new_command set_low_battery set_current_altitude set_comms_failure
      set_mav_comms_failure reassert_state is_searching is_waiting_for_tasking is_low forward_adsb
  dispatch a d (fss_command_event cmd target ack) =
      let (s, calls, res) = fss_new_command a.env d.machine cmd target in
      and_then (from_machine (s, calls) d) (ack_action ack res)
  dispatch a d (fss_comms_status status) =
      from_machine (set_comms_failure a.env d.machine (is_fss_failure status)) d
  dispatch a d (mav_comms_status status) =
      from_machine (set_mav_comms_failure a.env d.machine (is_mav_failure status)) d
  dispatch a d mav_autopilot_restart = from_machine (reassert_state a.env d.machine) d
  dispatch a d (smm_settings settings) =
      (d, smm_connect settings.url settings.user settings.pass d.asset_name ∷ [])
  dispatch a d (position_data pd) =
      and_then (from_machine (set_current_altitude a.env d.machine (has_fix pd) pd.alt_agl_m) d)
        (fss_report_position pd ∷ smm_report_position pd ∷ [])
  dispatch a d (battery_data bd) =
      and_then
        (from_machine (set_low_battery a.env d.machine (is_low bd.remaining d.lowbat_threshold)) d)
        (fss_report_battery bd ∷ [])
  dispatch a d (reached_point point) =
      if is_searching d.machine
      then (d, fss_reached_point point a.search_points ∷ smm_reached_point point ∷ [])
      else (d, [])
  dispatch a d (other_aircraft_report pd) =
      if string_eq.beq pd.callsign d.asset_name
      then (d, [])
      else if not (is_valid pd.p)
      then (d, [])
      else forward_adsb a d pd
  dispatch a d (smm_load_search search) =
      if is_searching d.machine
      then (d, mav_load_search search ∷ [])
      else if is_waiting_for_tasking d.machine
      then from_machine (smm_new_command a.env d.machine smm_cmd_none) d
      else (d, [])
  dispatch a d smm_rtl = from_machine (smm_new_command a.env d.machine smm_cmd_mission_complete) d
  dispatch a d (smm_operator_command cmd) = from_machine (smm_new_command a.env d.machine cmd) d
  dispatch a d nudge = (d, [])
