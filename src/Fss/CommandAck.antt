-- ===== src/Fss/CommandAck.antt =====
-- The ack fields for a resolved or stale command: src/fss/command-ack.hpp. The two enums are those
-- of the FSS transport, of which the source uses these names.
use fss_smm_mav.Prelude.{Bool, true, false, Option, some}
use fss_smm_mav.Types.{
  FssCommandResolution, FmuState, fmu_state_low_battery, fmu_state_failsafe, FssCommandOutcome,
  fss_command_actioned, fss_command_superseded,
}

pub data AckOutcome : Type 0 where
  command_ack_received command_ack_actioned command_ack_noop : AckOutcome
  command_ack_superseded command_ack_rejected : AckOutcome

pub data AckReason : Type 0 where
  supersede_none supersede_low_battery supersede_comms_loss supersede_newer_command : AckReason

unfoldable pub fss_command_ack_outcome_for : FssCommandResolution → AckOutcome
fss_command_ack_outcome_for res = outcome_of res.outcome res.transitioned
  where
    outcome_of : FssCommandOutcome → Bool → AckOutcome
    outcome_of fss_command_superseded transitioned = command_ack_superseded
    outcome_of fss_command_actioned true = command_ack_actioned
    outcome_of fss_command_actioned false = command_ack_noop

abbrev pub stale_command_ack_outcome : AckOutcome
stale_command_ack_outcome = command_ack_superseded

abbrev pub stale_command_ack_reason : AckReason
stale_command_ack_reason = supersede_newer_command

-- The `switch` on the superseding state.
abbrev pub reason_of_state : Option FmuState → AckReason
reason_of_state (some fmu_state_low_battery) = supersede_low_battery
reason_of_state (some fmu_state_failsafe) = supersede_comms_loss
reason_of_state _ = supersede_none

abbrev pub reason_of : FssCommandOutcome → Option FmuState → AckReason
reason_of fss_command_superseded state = reason_of_state state
reason_of fss_command_actioned state = supersede_none

unfoldable pub fss_command_ack_reason_for : FssCommandResolution → AckReason
fss_command_ack_reason_for res = reason_of res.outcome res.superseding_state
