-- ===== src/Fss/Queue.antt =====
-- The send worker of FSS and its queue: src/fss/fss.cpp, src/fss/fmu-fss.hpp. The lock makes each
-- access of the queue one step; an ack task is its responder and what it is given.
pub mod Order
pub mod Coalesce
use fss_smm_mav.Dispatch.{BatteryData, ℤ}
use fss_smm_mav.Prelude.{ℕ, Bool, true, false, List, [], ◌∷◌, ◌++◌, if◌then◌else◌}
use fss_smm_mav.Prelude.Double.{Double}
use fss_smm_mav.Types.{FssCommandResolution}

-- The wire values of a position report; `alt`, `vel_ver` by their bit patterns.
pub record FssPositionTask : Type 0 where
  pub lat : Double
  pub lng : Double
  pub alt : ℕ
  pub heading : ℕ
  pub hor_vel : ℕ
  pub ver_vel : ℕ
  pub fix_valid : Bool

pub data FssTask (Ack : Type 0) : Type 0 where
  position_task : FssPositionTask → FssTask Ack
  reached_task : ℤ → ℤ → FssTask Ack
  battery_task : ℤ → ℤ → Double → FssTask Ack
  ack_task : Ack → FssCommandResolution → FssTask Ack

pub record Worker (Ack : Type 0) : Type 0 where
  pub task_queue : List (FssTask Ack)
  pub worker_running : Bool

-- What a turn of workerLoop does when it gets the lock.
pub data Turn (Ack : Type 0) : Type 0 where
  waits : Turn Ack
  returns : Turn Ack
  sends_task : FssTask Ack → Worker Ack → Turn Ack

module _ {Ack : Type 0} where
  abbrev pub is_position : FssTask Ack → Bool
  is_position (position_task t) = true
  is_position _ = false

  -- The loop that erases the queued positions.
  abbrev pub without_positions : List (FssTask Ack) → List (FssTask Ack)
  without_positions [] = []
  without_positions (t ∷ ts) =
      let rest = without_positions ts in if is_position t then rest else t ∷ rest

  unfoldable pub enqueue : Worker Ack → FssTask Ack → Worker Ack
  enqueue w task =
      let kept = if is_position task then without_positions w.task_queue else w.task_queue in
      record w { task_queue = kept ++ task ∷ [] }

  unfoldable pub reached_point : Worker Ack → ℤ → ℤ → Worker Ack
  unfolding enqueue
  reached_point w point total_points = enqueue w (reached_task point total_points)

  unfoldable pub report_battery_status : Worker Ack → BatteryData → Worker Ack
  unfolding enqueue
  report_battery_status w bd = enqueue w (battery_task bd.remaining bd.consumed bd.voltage)

  unfoldable pub post_ack : Worker Ack → Ack → FssCommandResolution → Worker Ack
  unfolding enqueue
  post_ack w ack res = enqueue w (ack_task ack res)

  abbrev pub turn_of : List (FssTask Ack) → Bool → Turn Ack
  turn_of [] true = waits
  turn_of [] false = returns
  turn_of (t ∷ ts) running = sends_task t (record { task_queue = ts; worker_running = running })

  unfoldable pub worker_turn : Worker Ack → Turn Ack
  worker_turn w = turn_of w.task_queue w.worker_running

  unfoldable pub stop_worker : Worker Ack → Worker Ack
  stop_worker w = record w { worker_running = false }

  unfoldable pub start_worker : Worker Ack
  start_worker = record { task_queue = []; worker_running = true }
