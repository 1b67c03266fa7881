-- ===== src/Mav/Upload.antt =====
-- Mission uploads and mode commands of mav_connection: src/mav/mavlink.cpp, with its fields of
-- src/mav/internal.hpp that state_lock guards. A search is held by reference, so it is a number here;
-- what the object holds when it is read is a parameter. Each part of a method that runs under the
-- lock is a function of its own; Mav/Upload/Regions has them as steps of several threads. Whether a
-- message reaches the autopilot is a parameter; the log has no model.
pub mod Regions
pub mod Flown
mod Tests
use fss_smm_mav.Mav.ModeResolve
use fss_smm_mav.Dispatch.{ℤ}
use fss_smm_mav.Mav.Mission.{search_point_mission_seq, mission_count_for, search, go_to}
use fss_smm_mav.Mav.ModeResolve.{
  resolve_mav_mode, MavType, CustomMode, MavModeCommand, manual, hold, auto_mode,
}
use fss_smm_mav.Prelude.{
  ℕ, ◌%◌, ◌^◌, Bool, true, false, not, ◌&&◌, ◌||◌, Option, none, some, List, [], ◌∷◌, ◌++◌, length,
  ◌==◌, if◌then◌else◌,
}
use fss_smm_mav.Smm.SearchAltitude.{clamp_command_altitude}
use fss_smm_mav.Types.{Point}

pub record Connection : Type 0 where
  pub search_ref : Option ℕ
  pub search_loading : Bool
  pub search_loaded : Bool
  pub goto_position : Point
  pub goto_active : Bool
  pub goto_ack_pending : Bool
  pub pending_mode_command : Option MavModeCommand

-- What is read of an SMMSearch.
pub record SearchView : Type 0 where
  pub points : List Point
  pub current_point : ℕ
  pub altitude : ℕ

-- A mission item's command with the parameters that vary.
pub data ItemBody : Type 0 where
  nav_return_to_launch : ItemBody
  nav_takeoff : (current : Bool) (altitude_m : ℕ) → ItemBody
  nav_waypoint : (current : Bool) (latitude longitude : ℤ) (altitude_m : ℕ) → ItemBody

pub data Message : Type 0 where
  set_mode : CustomMode → Message
  arm_disarm : (forced : Bool) → Message
  do_flight_termination : Message
  do_change_altitude : Option ℕ → Message
  mission_count : ℕ → Message
  mission_set_current : ℕ → Message
  mission_item : (seq mission_type : ℕ) → ItemBody → Message

-- Under the lock: invalidateInFlightUploadLocked.
unfoldable pub invalidate_in_flight_upload : Connection → Connection
invalidate_in_flight_upload c = record c {
  search_ref = if c.search_loading then none else c.search_ref;
  goto_active = false;
  goto_ack_pending = false;
  search_loading = false;
  search_loaded = false;
}

abbrev pub leave_mission : Bool → Connection → Connection
leave_mission clear_search_loaded c =
    if clear_search_loaded then invalidate_in_flight_upload c else c

-- The two ends of setResolvedMode.
unfoldable pub defer_mode : MavModeCommand → Bool → Connection → Connection
unfolding invalidate_in_flight_upload
defer_mode command clear_search_loaded c =
    leave_mission clear_search_loaded (record c { pending_mode_command = some command })

unfoldable pub mode_sent : Bool → Connection → Connection
unfolding invalidate_in_flight_upload
mode_sent clear_search_loaded c =
    leave_mission clear_search_loaded (record c { pending_mode_command = none })

abbrev pub same_mode : MavModeCommand → MavModeCommand → Bool
same_mode ModeResolve.rtl ModeResolve.rtl = true
same_mode manual manual = true
same_mode hold hold = true
same_mode auto_mode auto_mode = true
same_mode _ _ = false

abbrev pub is_pending : Option MavModeCommand → MavModeCommand → Bool
is_pending none command = false
is_pending (some pending) command = same_mode pending command

-- The end of replayPendingMode.
unfoldable pub mode_replayed : MavModeCommand → Connection → Connection
mode_replayed command c = record c {
  pending_mode_command =
      if is_pending c.pending_mode_command command then none else c.pending_mode_command;
  search_loaded = if same_mode command auto_mode then c.search_loaded else false;
}

-- commandGoto, before and after its MISSION_COUNT is sent.
unfoldable pub open_goto : Point → Connection → Connection
open_goto p c = record c { goto_position = p; goto_active = true; search_loaded = false }

unfoldable pub goto_count_sent : Connection → Connection
goto_count_sent c = record c { goto_ack_pending = true }

-- heartbeat_loop, when the link has gone down.
unfoldable pub forget_goto : Connection → Connection
forget_goto c = record c { goto_ack_pending = false }

-- uploadSearch.
unfoldable pub open_search : ℕ → Connection → Connection
open_search t_search c = record c {
  goto_active = false;
  goto_ack_pending = false;
  search_loaded = false;
  search_ref = some t_search;
  search_loading = true;
}

abbrev pub same_ref : Option ℕ → Option ℕ → Bool
same_ref none none = true
same_ref (some m) (some n) = m == n
same_ref _ _ = false

-- loadSearch: whether the search is to be loaded, and the fields then.
abbrev pub needs_load : Option ℕ → Connection → Bool
needs_load t_search c = not (same_ref c.search_ref t_search) || not c.search_loaded

unfoldable pub take_search : Option ℕ → Connection → Connection
take_search t_search c = if needs_load t_search c then record c { search_ref = t_search } else c

-- mission_ack: which upload the ack completes.
pub record Engaged : Type 0 where
  pub goto_set_current : Bool
  pub search_set_current : Bool

unfoldable pub engaged_by : Bool → Connection → Engaged
engaged_by accepted c = record {
  goto_set_current = c.goto_ack_pending && accepted;
  search_set_current = c.search_loading && accepted;
}

unfoldable pub take_ack : Bool → Connection → Connection
take_ack accepted c = record c {
  goto_ack_pending = false;
  goto_active = c.goto_active && not c.goto_ack_pending;
  search_loading = false;
  search_loaded = c.search_loaded || c.search_loading && accepted;
  search_ref = if c.search_loading && not accepted then none else c.search_ref;
}

-- What a method leaves, sends in order, and answers.
pub record Done : Type 0 where
  pub after : Connection
  pub messages : List Message
  pub sent : Bool

-- `mav_type` is what the last heartbeat told, mav_type_other before the first; `transmits` says
-- whether a message reaches the autopilot, `view` what a search holds.
module _ (mav_type : MavType) (transmits : Message → Bool) (view : ℕ → SearchView) where
  abbrev pub resolved_mode : MavModeCommand → Bool → Option CustomMode → Connection → Done
  resolved_mode command clear_search_loaded none c = record {
    after = defer_mode command clear_search_loaded c;
    messages = [];
    sent = false;
  }
  resolved_mode command clear_search_loaded (some fmode) c = record {
    after = mode_sent clear_search_loaded c;
    messages = set_mode fmode ∷ [];
    sent = transmits (set_mode fmode);
  }

  unfoldable pub set_resolved_mode : MavModeCommand → Bool → Connection → Done
  unfolding resolve_mav_mode defer_mode mode_sent
  set_resolved_mode command clear_search_loaded c =
      resolved_mode command clear_search_loaded (resolve_mav_mode mav_type command) c

  abbrev pub replayed : MavModeCommand → Option CustomMode → Connection → Connection × List Message
  replayed command none c = (c, [])
  replayed command (some fmode) c = (mode_replayed command c, set_mode fmode ∷ [])

  abbrev pub replay_pending : Option MavModeCommand → Connection → Connection × List Message
  replay_pending none c = (c, [])
  replay_pending (some command) c = replayed command (resolve_mav_mode mav_type command) c

  unfoldable pub replay_pending_mode : Connection → Connection × List Message
  unfolding resolve_mav_mode mode_replayed
  replay_pending_mode c = replay_pending c.pending_mode_command c

  abbrev pub command_rtl : Connection → Done
  command_rtl = set_resolved_mode ModeResolve.rtl true

  -- As commandRTL; only the log differs.
  abbrev pub command_rtl_for_upload : Connection → Done
  command_rtl_for_upload = set_resolved_mode ModeResolve.rtl true

  abbrev pub command_manual : Connection → Done
  command_manual = set_resolved_mode manual true

  abbrev pub command_hold : Connection → Done
  command_hold = set_resolved_mode hold true

  abbrev pub command_auto : Connection → Done
  command_auto = set_resolved_mode auto_mode false

  abbrev pub take_control : Message → Connection → Done
  take_control message c = record {
    after = invalidate_in_flight_upload c;
    messages = message ∷ [];
    sent = transmits message;
  }

  abbrev pub command_disarm : Connection → Done
  command_disarm = take_control (arm_disarm false)

  abbrev pub command_force_disarm : Connection → Done
  command_force_disarm = take_control (arm_disarm true)

  abbrev pub command_terminate : Connection → Done
  command_terminate = take_control do_flight_termination

  -- MAV_CMD_DO_CHANGE_ALTITUDE, from feet to clamped metres.
  unfoldable pub command_altitude : (altitude_floor_m altitude_cap_m alt : ℕ) → Connection → Done
  unfolding clamp_command_altitude
  command_altitude altitude_floor_m altitude_cap_m alt c =
      let message =
        do_change_altitude (clamp_command_altitude alt altitude_floor_m altitude_cap_m) in
      record { after = c; messages = message ∷ []; sent = transmits message }

  unfoldable pub command_goto : Point → Connection → Done
  unfolding set_resolved_mode open_goto goto_count_sent mission_count_for
  command_goto p c =
      let stopped = command_rtl_for_upload c in
      let opened = open_goto p stopped.after in
      let message = mission_count (mission_count_for 0 go_to) in
      let reached = transmits message in
      record {
        after = if reached then goto_count_sent opened else opened;
        messages = stopped.messages ++ message ∷ [];
        sent = reached;
      }

  -- `static_cast<uint16_t> (count)`.
  unfoldable pub upload_search : ℕ → Connection → Done
  unfolding set_resolved_mode open_search mission_count_for
  upload_search t_search c =
      let stopped = command_rtl_for_upload c in
      let message =
        mission_count (mission_count_for (length (view t_search).points) search % 2 ^ 16) in
      record {
        after = open_search t_search stopped.after;
        messages = stopped.messages ++ message ∷ [];
        sent = transmits message;
      }

  abbrev pub reload : Option ℕ → Connection → Connection × List Message
  reload none c = (c, [])
  reload (some t_search) c = let done = upload_search t_search c in (done.after, done.messages)

  unfoldable pub load_search : Option ℕ → Connection → Connection × List Message
  unfolding take_search upload_search
  load_search t_search c =
      if needs_load t_search c then reload t_search (take_search t_search c) else (c, [])

  abbrev pub search_seq : Option ℕ → ℕ
  search_seq none = 0
  search_seq (some r) = search_point_mission_seq (view r).current_point

  -- MISSION_SET_CURRENT, then AUTO.
  unfoldable pub engage : Bool → ℕ → Connection → Connection × List Message
  unfolding set_resolved_mode
  engage false seq c = (c, [])
  engage true seq c =
      let done = command_auto c in (done.after, mission_set_current seq ∷ done.messages)

  unfoldable pub mission_ack : Bool → Connection → Connection × List Message
  unfolding engaged_by take_ack engage search_point_mission_seq
  mission_ack accepted c =
      let by = engaged_by accepted c in
      let seq = search_seq c.search_ref in
      let (d, goto_messages) = engage by.goto_set_current 0 (take_ack accepted c) in
      let (e, search_messages) = engage by.search_set_current seq d in
      (e, goto_messages ++ search_messages)
