-- ===== src/Smm/Worker.antt =====
-- SMM of src/smm/smm.cpp and src/smm/smm.hpp: its state, its task queue and its public methods. Each
-- access of the queue under its lock, and each load and store of search_active, is one step. The
-- handles of the smm-asset library are parameters: connections, assets and searches.
pub mod Acquire
pub mod Run
mod Tests
pub mod Invariant
pub mod Whole
pub mod Outcome
pub mod Sessions
pub mod Searches
pub mod Ends
pub mod Lawful
pub mod Judged
pub mod Tasks
pub mod Connect
use Prim.Native.String.{String}
use fss_smm_mav.Dispatch.{PositionData, ℤ}
use fss_smm_mav.Prelude.{
  ℕ, Bool, true, false, ◌&&◌, ◌||◌, Option, none, some, List, [], ◌∷◌, ◌++◌, if◌then◌else◌,
}
use fss_smm_mav.Prelude.Double.{Double}
use fss_smm_mav.Smm.Search.{points_count, SmmSearch, SearchCall}
use fss_smm_mav.Types.{Point, SmmCommand}

-- A secure_string is its text.
pub data SmmTask : Type 0 where
  connect_task : String → String → String → String → SmmTask
  report_position_task : PositionData → SmmTask
  reached_point_task : ℤ → SmmTask
  search_task : Point → SmmTask
  retry_pending_task : Point → SmmTask

-- smm_asset_command; the code names three of its values.
pub data OperatorCommand : Type 0 where
  command_unknown command_abandon_search command_mission_complete : OperatorCommand
  command_other : ℕ → OperatorCommand

-- What is fixed at construction.
pub record SmmConfig : Type 0 where
  pub altitude_cap : ℕ
  pub altitude_floor : ℕ
  pub camera_fov_deg : Double
  pub position_report_interval_ms : ℕ
  pub connect_timeout_s : ℕ
  pub transfer_timeout_s : ℕ

-- Which callbacks have been registered.
pub record Callbacks : Type 0 where
  pub load_search_cb : Bool
  pub rtl_cb : Bool
  pub operator_command_cb : Bool

-- Whom the worker is connected to: the fields that connect and disconnect write.
pub record Session (Conn Asset : Type 0) : Type 0 where
  pub conn : Option Conn
  pub smm_host : String
  pub smm_user : String
  pub smm_pass : String
  pub asset_name : String
  pub assets_list : Option (List Asset)
  pub asset : Option Asset

pub record Smm (Conn Asset Handle : Type 0) : Type 0 where
  pub config : SmmConfig
  pub callbacks : Callbacks
  pub session : Session Conn Asset
  pub task_queue : List SmmTask
  pub worker_running : Bool
  pub current_search : Option (SmmSearch Handle)
  pub current_search_points : ℕ
  pub position_report_last_ts : ℕ
  pub search_active : Bool
  pub search_retry_ts : ℕ
  pub last_seen_operator_command : OperatorCommand

-- A call of a public method by another thread; on_retry_pending carries the position that the
-- method reads from the autopilot.
pub data Request : Type 0 where
  on_connect : String → String → String → String → Request
  on_search : Point → Request
  on_cancel_search : Request
  on_retry_pending : Point → Request
  on_report_position : PositionData → Request
  on_reached_point : ℤ → Request

-- What happens, in order: the calls of other threads, those of the library and the callbacks.
pub data Entry (Conn Asset Handle : Type 0) : Type 0 where
  requested : Request → Entry Conn Asset Handle
  opened : Option Conn → Entry Conn Asset Handle
  timeouts_set : Conn → ℕ → ℕ → Entry Conn Asset Handle
  logged_in closed : Conn → Entry Conn Asset Handle
  freed : List Asset → Entry Conn Asset Handle
  asked_command : Option Asset → Entry Conn Asset Handle
  position_sent : Option Asset → Point → ℤ → ℕ → Entry Conn Asset Handle
  asked_search : Option Asset → Option Handle → Entry Conn Asset Handle
  search_call : SearchCall Handle → Entry Conn Asset Handle
  -- The reference that the unit has to a search is given up.
  released : SmmSearch Handle → Entry Conn Asset Handle
  load_search_called : SmmSearch Handle → Entry Conn Asset Handle
  rtl_called : Entry Conn Asset Handle
  operator_command_called : SmmCommand → Entry Conn Asset Handle

abbrev pub is_report : SmmTask → Bool
is_report (report_position_task pd) = true
is_report _ = false

abbrev pub is_retry : SmmTask → Bool
is_retry (retry_pending_task p) = true
is_retry _ = false

-- The loop that erases the queued reports.
abbrev pub without_reports : List SmmTask → List SmmTask
without_reports [] = []
without_reports (t ∷ ts) = let rest = without_reports ts in if is_report t then rest else t ∷ rest

-- `std::any_of` over the queue.
abbrev pub any_retry : List SmmTask → Bool
any_retry [] = false
any_retry (t ∷ ts) = is_retry t || any_retry ts

unfoldable pub enqueue_task : List SmmTask → SmmTask → List SmmTask
enqueue_task queue task =
    if is_report task
    then without_reports queue ++ task ∷ []
    else if is_retry task && any_retry queue
    then queue
    else queue ++ task ∷ []

module _ {Handle : Type 0} where
  -- The points that publishSearch stores.
  abbrev pub held_points : Option (SmmSearch Handle) → ℕ
  held_points none = 0
  held_points (some c) = points_count c

module _ {Conn Asset Handle : Type 0} where
  abbrev pub queue_task : Smm Conn Asset Handle → SmmTask → Smm Conn Asset Handle
  queue_task s task = record s { task_queue = enqueue_task s.task_queue task }

  -- The public methods. Those that only queue a task: connect, reportPosition, retryPendingSearch
  -- and reachedPoint.
  abbrev pub connect_later :
      Smm Conn Asset Handle → String → String → String → String → Smm Conn Asset Handle
  connect_later s host user pass name = queue_task s (connect_task host user pass name)

  abbrev pub report_position_later : Smm Conn Asset Handle → PositionData → Smm Conn Asset Handle
  report_position_later s pd = queue_task s (report_position_task pd)

  abbrev pub retry_pending_search : Smm Conn Asset Handle → Point → Smm Conn Asset Handle
  retry_pending_search s current_pos = queue_task s (retry_pending_task current_pos)

  abbrev pub reached_point_later : Smm Conn Asset Handle → ℤ → Smm Conn Asset Handle
  reached_point_later s point = queue_task s (reached_point_task point)

  -- `search` and `cancelSearch`: they store the role at once.
  abbrev pub grant_search : Smm Conn Asset Handle → Point → Smm Conn Asset Handle
  grant_search s current_pos =
      queue_task (record s { search_active = true }) (search_task current_pos)

  abbrev pub cancel_search : Smm Conn Asset Handle → Smm Conn Asset Handle
  cancel_search s = record s { search_active = false }

  unfoldable pub request : Smm Conn Asset Handle → Request → Smm Conn Asset Handle
  request s (on_connect host user pass name) = connect_later s host user pass name
  request s (on_search current_pos) = grant_search s current_pos
  request s on_cancel_search = cancel_search s
  request s (on_retry_pending current_pos) = retry_pending_search s current_pos
  request s (on_report_position pd) = report_position_later s pd
  request s (on_reached_point point) = reached_point_later s point

  -- The calls that other threads make meanwhile.
  unfoldable pub requests : Smm Conn Asset Handle → List Request → Smm Conn Asset Handle
  requests s [] = s
  requests s (r ∷ rs) = requests (request s r) rs

  abbrev pub noted : List Request → List (Entry Conn Asset Handle)
  noted [] = []
  noted (r ∷ rs) = requested r ∷ noted rs

  -- The destructor's first step.
  unfoldable pub stop_smm : Smm Conn Asset Handle → Smm Conn Asset Handle
  stop_smm s = record s { worker_running = false }

  abbrev pub called : Bool → Entry Conn Asset Handle → List (Entry Conn Asset Handle)
  called registered callback = if registered then callback ∷ [] else []

  abbrev pub search_calls : List (SearchCall Handle) → List (Entry Conn Asset Handle)
  search_calls [] = []
  search_calls (c ∷ cs) = search_call c ∷ search_calls cs

  -- `publishSearch(nullptr)` and `publishSearch(acquired)`: the held search is replaced.
  abbrev pub let_go : Option (SmmSearch Handle) → List (Entry Conn Asset Handle)
  let_go none = []
  let_go (some c) = released c ∷ []

  -- publishSearch: the store of the search under state_lock, and then that of the atomic count. A
  -- thread that reads the count between the two sees the count of the search before.
  abbrev pub store_search :
      Smm Conn Asset Handle → Option (SmmSearch Handle) → Smm Conn Asset Handle
  store_search s acquired = record s { current_search = acquired }

  abbrev pub store_points : Smm Conn Asset Handle → ℕ → Smm Conn Asset Handle
  store_points s points = record s { current_search_points = points }

  unfoldable pub publish_search :
      Smm Conn Asset Handle → Option (SmmSearch Handle) → Smm Conn Asset Handle
  publish_search s acquired = store_points (store_search s acquired) (held_points acquired)

  -- The constructor.
  unfoldable pub start_smm : SmmConfig → Smm Conn Asset Handle
  start_smm config = record {
    config = config;
    callbacks = record { load_search_cb = false; rtl_cb = false; operator_command_cb = false };
    session = record {
      conn = none;
      smm_host = "";
      smm_user = "";
      smm_pass = "";
      asset_name = "";
      assets_list = none;
      asset = none;
    };
    task_queue = [];
    worker_running = true;
    current_search = none;
    current_search_points = 0;
    position_report_last_ts = 0;
    search_active = false;
    search_retry_ts = 0;
    last_seen_operator_command = command_unknown;
  }

  unfoldable pub register_load_search_cb : Smm Conn Asset Handle → Smm Conn Asset Handle
  register_load_search_cb s = record s { callbacks = record s.callbacks { load_search_cb = true } }

  unfoldable pub register_rtl_cb : Smm Conn Asset Handle → Smm Conn Asset Handle
  register_rtl_cb s = record s { callbacks = record s.callbacks { rtl_cb = true } }

  unfoldable pub register_operator_command_cb : Smm Conn Asset Handle → Smm Conn Asset Handle
  register_operator_command_cb s = record s {
    callbacks = record s.callbacks { operator_command_cb = true };
  }

  -- The worker after main.cpp has registered the three callbacks.
  unfoldable pub registered_smm : SmmConfig → Smm Conn Asset Handle
  unfolding start_smm register_load_search_cb register_rtl_cb register_operator_command_cb
  registered_smm config =
      register_operator_command_cb (register_rtl_cb (register_load_search_cb (start_smm config)))
