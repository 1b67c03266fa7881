-- ===== src/Fss/AckGroup.antt =====
-- CommandAckGroup: src/fss/command-ack-group.hpp. The mutex makes each call one step on the state.
pub mod Events
pub mod Conservation
pub mod Copies
pub mod Actuation
pub mod Retry
use Prim.Native.String.{String}
use fss_smm_mav.Fss.Payload.{empty_payload, same_as, CommandPayload}
use fss_smm_mav.Prelude.{
  ℕ, ◌+◌, ◌-◌, ◌%◌, ◌^◌, Bool, true, false, not, ◌&&◌, Option, none, some, List, [], ◌∷◌, ◌++◌, ltb,
  leb, ◌==◌, if◌then◌else◌,
}
use fss_smm_mav.Prelude.Assoc.{find, assign, string_eq, nat_eq}
use fss_smm_mav.Types.{FssCommandResolution}

pub data Disposition : Type 0 where
  actuate already_resolved pending stale_superseded : Disposition

-- Times, ids and the epoch are uint64_t; only the epoch is computed with.
pub record Group (Target : Type 0) : Type 0 where
  pub tolerance_ms : ℕ
  pub active : Bool
  pub epoch : ℕ
  pub command : ℕ
  pub payload : CommandPayload
  pub timestamp : ℕ
  pub waiting : List Target
  pub resolution : Option FssCommandResolution
  pub last_id_by_connection : List (String × ℕ)

pub record DeliveryResult (Target : Type 0) : Type 0 where
  pub disposition : Disposition
  pub epoch : ℕ
  pub resolution : Option FssCommandResolution
  pub superseded : List Target

-- The arguments of onDelivery.
pub record Delivery (Target : Type 0) : Type 0 where
  pub command : ℕ
  pub timestamp : ℕ
  pub copy : Target
  pub payload : CommandPayload
  pub server_command_id : ℕ
  pub connection_key : String

-- The id is not the one last seen from its connection.
abbrev pub differs_from : ℕ → Option ℕ → Bool
differs_from id none = false
differs_from id (some seen) = not (seen == id)

module _ {Target : Type 0} where
  unfoldable pub init : ℕ → Group Target
  init tolerance_ms = record {
    tolerance_ms = tolerance_ms;
    active = false;
    epoch = 0;
    command = 0;
    payload = empty_payload;
    timestamp = 0;
    waiting = [];
    resolution = none;
    last_id_by_connection = [];
  }

  unfoldable pub within_tolerance : Group Target → ℕ → Bool
  within_tolerance g t =
      let skew = if leb g.timestamp t then t - g.timestamp else g.timestamp - t in
      ltb skew g.tolerance_ms

  unfoldable pub same_logical_command : Group Target → Delivery Target → Bool
  same_logical_command g d = g.command == d.command && same_as g.payload d.payload

  unfoldable pub deliberate_retry : Group Target → Delivery Target → Bool
  deliberate_retry g d =
      g.active
      && not (d.server_command_id == 0)
      && differs_from d.server_command_id (find d.connection_key g.last_id_by_connection)

  -- `last_id_by_connection[t_connection_key] = t_server_command_id`, if an id was reported.
  unfoldable pub note_id : Delivery Target → List (String × ℕ) → List (String × ℕ)
  note_id d ids =
      if d.server_command_id == 0 then ids else assign d.connection_key d.server_command_id ids

  abbrev pub plain : Disposition → DeliveryResult Target
  plain o = record { disposition = o; epoch = 0; resolution = none; superseded = [] }

  -- A redundant delivery is answered by the cached resolution, or waits for it.
  unfoldable pub answer :
      Option FssCommandResolution
      → Group Target
      → Delivery Target
      → Group Target × DeliveryResult Target
  answer (some res) g d = (
    g,
    record { disposition = already_resolved; epoch = 0; resolution = some res; superseded = [] },
  )
  answer none g d = (record g { waiting = g.waiting ++ d.copy ∷ [] }, plain pending)

  -- A redundant delivery of the command being handled.
  unfoldable pub join : Group Target → Delivery Target → Group Target × DeliveryResult Target
  unfolding answer
  join g d =
      answer g.resolution (record g { last_id_by_connection = note_id d g.last_id_by_connection }) d

  -- A new logical command opens a fresh group.
  unfoldable pub open_group : Group Target → Delivery Target → Group Target × DeliveryResult Target
  open_group g d =
      let epoch = (g.epoch + 1) % 2 ^ 64 in
      (
        record g {
          active = true;
          epoch = epoch;
          command = d.command;
          payload = d.payload;
          timestamp = d.timestamp;
          waiting = d.copy ∷ [];
          resolution = none;
          last_id_by_connection = note_id d [];
        },
        record { disposition = actuate; epoch = epoch; resolution = none; superseded = g.waiting },
      )

  unfoldable pub on_delivery : Group Target → Delivery Target → Group Target × DeliveryResult Target
  on_delivery g d =
      let same = same_logical_command g d in
      let retry = deliberate_retry g d in
      if g.active && same && not retry && within_tolerance g d.timestamp
      then join g d
      else if g.active && not same && not retry && ltb d.timestamp g.timestamp
      then (g, plain stale_superseded)
      else open_group g d

  unfoldable pub resolve : Group Target → ℕ → FssCommandResolution → Group Target × List Target
  resolve g t_epoch res =
      if g.epoch == t_epoch
      then (record g { resolution = some res; waiting = [] }, g.waiting)
      else (g, [])
