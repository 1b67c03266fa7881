-- ===== src/Fss/Tests.antt =====
-- The theorems on the FSS side at concrete inputs.
use Prim.Native.String.{String}
use mathlib.Core.List.{Perm}
use fss_smm_mav.Fss.AckGroup.{
  init, within_tolerance, same_logical_command, open_group, on_delivery, Group, Delivery,
}
use fss_smm_mav.Fss.AckGroup.Actuation.{actuations, one_action_is_actuated_once}
use fss_smm_mav.Fss.AckGroup.Conservation.{acknowledges_each_copy_once}
use fss_smm_mav.Fss.AckGroup.Events.{after, Event, delivered, resolved}
use fss_smm_mav.Fss.Client.{
  Transport, AssetMessage, AssetCommand, asset_command_rtl, asset_command_other,
}
use fss_smm_mav.Fss.Client.Answers.{
  arrivals, after_client, every_copy_is_answered_once, ClientEvent, arrived, resolution_of,
}
use fss_smm_mav.Fss.Payload.{empty_payload, same_as}
use fss_smm_mav.Fss.Queue.{start_worker, FssPositionTask, position_task, ack_task}
use fss_smm_mav.Fss.Queue.Order.{
  after_queue, tasks, others, others_go_in_order, QueueEvent, queued, turn, stopped,
}
use fss_smm_mav.Prelude.{ℕ, ◌≡◌, refl, inr, true, none, List, [], ◌∷◌, ◌++◌, if◌then◌else◌}
use fss_smm_mav.Prelude.Assoc.{string_eq, nat_eq}
use fss_smm_mav.Prelude.Conserve.{final, outgoing, incoming}
use fss_smm_mav.Prelude.Double.{of_ℕ}
use fss_smm_mav.Types.{FssCommandResolution, Point, fss_command_actioned}

abbrev sar_site : Point
sar_site = record { latitude = of_ℕ 43; longitude = of_ℕ 172 }

-- Command 3, as two servers pass it on, and then a retry from the first.
abbrev copy_from : String → ℕ → ℕ → ℕ → Delivery ℕ
copy_from key id time copy = record {
  command = 3;
  timestamp = time;
  copy = copy;
  payload = empty_payload;
  server_command_id = id;
  connection_key = key;
}

abbrev resolution_example : FssCommandResolution
resolution_example = record {
  outcome = fss_command_actioned;
  superseding_state = none;
  transitioned = true;
}

abbrev deliveries : List (Event ℕ)
deliveries =
    delivered (copy_from "a:1" 7 1000 10)
    ∷ delivered (copy_from "b:1" 9 1500 11)
    ∷ resolved 1 resolution_example
    ∷ delivered (copy_from "a:1" 8 2000 12)
    ∷ []

acknowledges_each_copy_once_example :
    Perm
      (outgoing after (init 60000) deliveries ++ (final after (init 60000) deliveries).waiting)
      (10 ∷ 11 ∷ 12 ∷ [])
acknowledges_each_copy_once_example = acknowledges_each_copy_once 60000 deliveries

-- The row ids that the two servers have for the action.
abbrev rows : String → ℕ
rows key = if string_eq.beq key "a:1" then 7 else 9

abbrev redeliveries : List (Event ℕ)
redeliveries =
    delivered (copy_from "b:1" 9 1500 11)
    ∷ resolved 1 resolution_example
    ∷ delivered (copy_from "a:1" 7 2500 12)
    ∷ []

one_action_is_actuated_once_example :
    actuations (init 60000) (delivered (copy_from "a:1" 7 1000 10) ∷ redeliveries) ≡ 1
unfolding on_delivery open_group init within_tolerance same_logical_command same_as
one_action_is_actuated_once_example =
    one_action_is_actuated_once rows (init 60000) (copy_from "a:1" 7 1000 10) redeliveries refl
      (inr refl)
      (
        record { same = refl; in_window = refl; id = inr refl },
        (tt, (record { same = refl; in_window = refl; id = inr refl }, tt)),
      )

-- The group of a command 4 that came from the first server.
abbrev busy : Group ℕ
busy = record {
  tolerance_ms = 60000;
  active = true;
  epoch = 1;
  command = 4;
  payload = empty_payload;
  timestamp = 5000;
  waiting = 1 ∷ [];
  resolution = none;
  last_id_by_connection = ("a:1", 9) ∷ [];
}

-- Connections are numbers, all there and with the feature; commands are numbered as they come.
abbrev link : Transport ℕ
link = record {
  number = λ (c : AssetCommand). 3;
  is_alive = λ (c : ℕ). true;
  has_command_ack = λ (c : ℕ). true;
}

abbrev message : AssetCommand → ℕ → ℕ → AssetMessage ℕ
message cmd id conn = record {
  id = id;
  timestamp = 1000;
  command = cmd;
  latitude = of_ℕ 43;
  longitude = of_ℕ 172;
  altitude = 0;
  server_command_id = id;
  conn = conn;
  address = "fss";
  port = 20202;
}

abbrev traffic : List (ClientEvent ℕ)
traffic =
    arrived (message asset_command_rtl 5 1)
    ∷ arrived (message asset_command_other 6 1)
    ∷ resolution_of 1 resolution_example
    ∷ arrived (message asset_command_rtl 7 2)
    ∷ []

every_copy_is_answered_once_example :
    Perm
      (outgoing (after_client link) (init 60000) traffic
        ++ (final (after_client link) (init 60000) traffic).waiting)
      (incoming arrivals traffic)
every_copy_is_answered_once_example =
    every_copy_is_answered_once link 60000 traffic
      (record { alive = λ c. refl; has_ack = λ c. refl })

-- A slow send, with two positions, an ack and a battery report behind it; acks are numbers.
abbrev here : FssPositionTask
here = record {
  lat = of_ℕ 43;
  lng = of_ℕ 172;
  alt = 300;
  heading = 90;
  hor_vel = 20;
  ver_vel = 0;
  fix_valid = true;
}

abbrev backlog : List (QueueEvent ℕ)
backlog =
    queued (position_task here)
    ∷ queued (ack_task 4 resolution_example)
    ∷ queued (position_task here)
    ∷ turn
    ∷ stopped
    ∷ queued (position_task here)
    ∷ turn
    ∷ []

others_go_in_order_example :
    others (outgoing after_queue start_worker backlog)
      ++ others (final after_queue start_worker backlog).task_queue
    ≡ others (incoming tasks backlog)
others_go_in_order_example = others_go_in_order backlog
