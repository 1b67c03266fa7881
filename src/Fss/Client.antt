-- ===== src/Fss/Client.antt =====
-- fss_client_ssl: the handling of a command copy from a server, and the acks that go back
-- (src/fss/fss-client-ssl.cpp, src/fss/internal.hpp).
pub mod Cached
pub mod Answers
use Prim.Native.String.{String, ◌++◌ as concat}
use mathlib.Core.List.{◌++◌}
use fss_smm_mav.Fmu.Commands.{resolution}
use fss_smm_mav.Fss.AckGroup.{
  on_delivery, resolve, Group, DeliveryResult, Delivery, Disposition, actuate, already_resolved,
  pending, stale_superseded,
}
use fss_smm_mav.Fss.CommandAck.{
  fss_command_ack_outcome_for, stale_command_ack_outcome, stale_command_ack_reason,
  fss_command_ack_reason_for, AckOutcome, command_ack_received, command_ack_rejected, AckReason,
  supersede_none,
}
use fss_smm_mav.Fss.Payload.{empty_payload, for_position, for_altitude, CommandPayload, position}
use fss_smm_mav.Prelude.{ℕ, Bool, true, not, Option, none, some, List, [], ◌∷◌, if◌then◌else◌}
use fss_smm_mav.Prelude.Decimal.{to_string}
use fss_smm_mav.Prelude.Double.{Double}
use fss_smm_mav.Types.{
  is_valid, no_target, FssCommandResolution, FssCommandTarget, FssCommand, fss_cmd_manual,
  fss_cmd_rtl, fss_cmd_hold, fss_cmd_altitude, fss_cmd_goto, fss_cmd_continue, fss_cmd_disarm,
  fss_cmd_terminate,
}

-- The commands of the FSS transport that the source names; the last stands for every other value.
pub data AssetCommand : Type 0 where
  asset_command_rtl asset_command_disarm asset_command_goto asset_command_altitude : AssetCommand
  asset_command_hold asset_command_resume asset_command_terminate : AssetCommand
  asset_command_manual asset_command_unknown asset_command_other : AssetCommand

-- The FSS library, of which the code reads: the number of a command, and for a connection, whether
-- it is still there and whether it negotiated FSS_FEATURE_COMMAND_ACK.
pub record Transport (Conn : Type 0) : Type 0 where
  pub number : AssetCommand → ℕ
  pub is_alive : Conn → Bool
  pub has_command_ack : Conn → Bool

-- `fss_message_asset_command` as it is read here, with its origin's connection and endpoint.
pub record AssetMessage (Conn : Type 0) : Type 0 where
  pub id : ℕ
  pub timestamp : ℕ
  pub command : AssetCommand
  pub latitude : Double
  pub longitude : Double
  pub altitude : ℕ
  pub server_command_id : ℕ
  pub conn : Conn
  pub address : String
  pub port : ℕ

pub record PendingCommandAck (Conn : Type 0) : Type 0 where
  pub conn : Conn
  pub acked_id : ℕ
  pub raw_command : AssetCommand

-- `fss_message_command_ack`, less its time, and the connection it is sent on.
pub record CommandAck (Conn : Type 0) : Type 0 where
  pub target : PendingCommandAck Conn
  pub outcome : AckOutcome
  pub reason : AckReason

-- What a delivery hands to the command callback; the responder is known by its epoch.
pub record Report : Type 0 where
  pub command : FssCommand
  pub target : FssCommandTarget
  pub epoch : ℕ

abbrev pub command_dedup_tolerance_ms : ℕ
command_dedup_tolerance_ms = 60000

-- The `switch` on the wire command; none where it leaves `actionable` false.
unfoldable pub fss_command_of : AssetCommand → Option FssCommand
fss_command_of asset_command_rtl = some fss_cmd_rtl
fss_command_of asset_command_disarm = some fss_cmd_disarm
fss_command_of asset_command_goto = some fss_cmd_goto
fss_command_of asset_command_altitude = some fss_cmd_altitude
fss_command_of asset_command_hold = some fss_cmd_hold
fss_command_of asset_command_resume = some fss_cmd_continue
fss_command_of asset_command_terminate = some fss_cmd_terminate
fss_command_of asset_command_manual = some fss_cmd_manual
fss_command_of asset_command_unknown = none
fss_command_of asset_command_other = none

-- `static_cast<int32_t>` of the altitude, as its residue.
unfoldable pub payload_of : AssetCommand → Double → Double → ℕ → CommandPayload
unfolding for_position for_altitude
payload_of asset_command_goto lat lng altitude = for_position lat lng
payload_of asset_command_altitude lat lng altitude = for_altitude altitude
payload_of _ lat lng altitude = empty_payload

unfoldable pub target_of : AssetCommand → Double → Double → ℕ → FssCommandTarget
target_of asset_command_goto lat lng altitude = record no_target {
  position = record { latitude = lat; longitude = lng };
}
target_of asset_command_altitude lat lng altitude = record no_target { altitude = altitude }
target_of _ lat lng altitude = no_target

-- The check on a goto's coordinates.
unfoldable pub has_valid_target : AssetCommand → Double → Double → Bool
has_valid_target asset_command_goto lat lng = is_valid (record { latitude = lat; longitude = lng })
has_valid_target _ lat lng = true

module _ {Conn : Type 0} where
  abbrev pub copy_of : AssetMessage Conn → PendingCommandAck Conn
  copy_of msg = record { conn = msg.conn; acked_id = msg.id; raw_command = msg.command }

  abbrev pub origin_key : AssetMessage Conn → String
  origin_key msg = concat msg.address (concat ":" (to_string msg.port))

  abbrev pub delivery_of : Transport Conn → AssetMessage Conn → Delivery (PendingCommandAck Conn)
  delivery_of tr msg = record {
    command = tr.number msg.command;
    timestamp = msg.timestamp;
    copy = copy_of msg;
    payload = payload_of msg.command msg.latitude msg.longitude msg.altitude;
    server_command_id = msg.server_command_id;
    connection_key = origin_key msg;
  }

module _ {Conn : Type 0} (tr : Transport Conn) where
  unfoldable pub send_command_ack :
      PendingCommandAck Conn → AckOutcome → AckReason → List (CommandAck Conn)
  send_command_ack target outcome reason =
      if not (tr.is_alive target.conn)
      then []
      else if not (tr.has_command_ack target.conn)
      then []
      else record { target = target; outcome = outcome; reason = reason } ∷ []

  unfoldable pub ack_pending :
      FssCommandResolution → PendingCommandAck Conn → List (CommandAck Conn)
  unfolding send_command_ack
  ack_pending res target =
      send_command_ack target (fss_command_ack_outcome_for res) (fss_command_ack_reason_for res)

  unfoldable pub ack_stale : PendingCommandAck Conn → List (CommandAck Conn)
  unfolding send_command_ack
  ack_stale target = send_command_ack target stale_command_ack_outcome stale_command_ack_reason

  -- The loops over the copies to acknowledge.
  abbrev pub ack_each :
      (PendingCommandAck Conn → List (CommandAck Conn))
      → List (PendingCommandAck Conn)
      → List (CommandAck Conn)
  ack_each ack [] = []
  ack_each ack (t ∷ ts) = ack t ++ ack_each ack ts

  -- What one call of handleCommandFrom does: the acks it sends, in order, and its report.
  abbrev pub Outcome : Type 0
  Outcome = Group (PendingCommandAck Conn) × List (CommandAck Conn) × Option Report

  abbrev pub resolved_acks :
      Option FssCommandResolution → PendingCommandAck Conn → List (CommandAck Conn)
  resolved_acks none target = []
  resolved_acks (some res) target = ack_pending res target

  -- The `switch` on the disposition, with the rest of the function for a command to actuate.
  unfoldable pub dispose :
      FssCommand
      → AssetMessage Conn
      → Disposition
      → DeliveryResult (PendingCommandAck Conn)
      → List (CommandAck Conn) × Option Report
  unfolding ack_pending ack_stale target_of
  dispose fss_command msg pending delivery = ([], none)
  dispose fss_command msg already_resolved delivery =
      (resolved_acks delivery.resolution (copy_of msg), none)
  dispose fss_command msg stale_superseded delivery = (ack_stale (copy_of msg), none)
  dispose fss_command msg actuate delivery = (
    ack_each ack_stale delivery.superseded,
    some (record {
      command = fss_command;
      target = target_of msg.command msg.latitude msg.longitude msg.altitude;
      epoch = delivery.epoch;
    }),
  )

  -- After the command is known to be actionable.
  unfoldable pub deliver : Group (PendingCommandAck Conn) → AssetMessage Conn → FssCommand → Outcome
  unfolding dispose payload_of on_delivery
  deliver g msg fss_command =
      let (g', delivery) = on_delivery g (delivery_of tr msg) in
      let (acks, report) = dispose fss_command msg delivery.disposition delivery in
      (g', acks, report)

  unfoldable pub handle_actionable :
      Option FssCommand → Group (PendingCommandAck Conn) → AssetMessage Conn → Outcome
  unfolding send_command_ack has_valid_target deliver
  handle_actionable none g msg =
      (g, send_command_ack (copy_of msg) command_ack_rejected supersede_none, none)
  handle_actionable (some fss_command) g msg =
      if has_valid_target msg.command msg.latitude msg.longitude
      then deliver g msg fss_command
      else (g, send_command_ack (copy_of msg) command_ack_rejected supersede_none, none)

  unfoldable pub handle_command_from : Group (PendingCommandAck Conn) → AssetMessage Conn → Outcome
  unfolding send_command_ack fss_command_of handle_actionable
  handle_command_from g msg =
      let (g', acks, report) = handle_actionable (fss_command_of msg.command) g msg in
      (g', send_command_ack (copy_of msg) command_ack_received supersede_none ++ acks, report)

  -- The responder that the command callback is given, when the state machine has resolved.
  unfoldable pub respond :
      Group (PendingCommandAck Conn)
      → ℕ
      → FssCommandResolution
      → Group (PendingCommandAck Conn) × List (CommandAck Conn)
  unfolding resolve ack_pending
  respond g my_epoch res =
      let (g', targets) = resolve g my_epoch res in (g', ack_each (ack_pending res) targets)
