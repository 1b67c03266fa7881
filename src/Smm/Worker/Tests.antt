-- ===== src/Smm/Worker/Tests.antt =====
-- The theorems on the SMM worker at a concrete run: it connects, finds its asset, is given a search
-- and accepts it.
use mathlib.Core.List.{Perm}
use fss_smm_mav.Dispatch.{PositionData, pos}
use fss_smm_mav.Prelude.{
  ℕ, ◌+◌, ◌≤◌, ◌≡◌, refl, true, false, Option, none, some, List, [], ◌∷◌, ◌++◌, arith, ◌==◌,
  if◌then◌else◌,
}
use fss_smm_mav.Prelude.Double.{of_ℕ, le, Double}
use fss_smm_mav.Smm.Worker.{
  enqueue_task, request, requests, registered_smm, SmmConfig, Smm, connect_task, search_task,
  command_unknown, on_connect, on_search, on_cancel_search, on_report_position, Entry, requested,
}
use fss_smm_mav.Smm.Worker.Acquire.{judge, attempt, try_acquire_search, Round}
use fss_smm_mav.Smm.Worker.Connect.{do_connect}
use fss_smm_mav.Smm.Worker.Ends.{fetches, acquisition_ends}
use fss_smm_mav.Smm.Worker.Ends.Tasks.{every_task_ends}
use fss_smm_mav.Smm.Worker.Invariant.{Inv}
use fss_smm_mav.Smm.Worker.Invariant.Reach.{invariant_holds_between_tasks}
use fss_smm_mav.Smm.Worker.Lawful.{AllLawful}
use fss_smm_mav.Smm.Worker.Lawful.Tasks.{calls_are_lawful}
use fss_smm_mav.Smm.Worker.Outcome.{TurnedOut}
use fss_smm_mav.Smm.Worker.Outcome.Total.{IsReading, acquisition_turns_out}
use fss_smm_mav.Smm.Worker.Run.{asks, works, Run, start, next}
use fss_smm_mav.Smm.Worker.Searches.{given, gone}
use fss_smm_mav.Smm.Worker.Searches.Acquire.{held}
use fss_smm_mav.Smm.Worker.Searches.Conservation.{searches_are_conserved}
use fss_smm_mav.Smm.Worker.Tasks.{do_search, handle_task, next_task, TaskAnswers}
use fss_smm_mav.Types.{is_valid, Point}

abbrev config : SmmConfig
config = record {
  altitude_cap = 122;
  altitude_floor = 10;
  camera_fov_deg = of_ℕ 90;
  position_report_interval_ms = 1000;
  connect_timeout_s = 5;
  transfer_timeout_s = 10;
}

-- The tangent of half the field of view of this camera.
abbrev half_tan : Double → Double
half_tan x = of_ℕ 1

abbrev first_point : Point
first_point = record { latitude = of_ℕ 1; longitude = of_ℕ 2 }

-- The role is lost during the fetch of the second round, if it comes to that.
abbrev rounds : ℕ → Round ℕ
rounds n = record {
  fetched = some (7 + n);
  during_fetch = if n == 1 then on_cancel_search ∷ [] else [];
  waypoints = some (first_point ∷ first_point ∷ []);
  sweep_width = 80;
  before_accept = on_report_position report ∷ [];
  accept_answer = true;
  during_accept = on_cancel_search ∷ [];
  now = 3000;
}
  where
    report : PositionData
    report = record {
      p = first_point;
      alt_m = of_ℕ 40;
      alt_agl_m = of_ℕ 30;
      hdg = 9000;
      vel_hor = 0;
      vel_ver = pos 0;
      callsign = "";
      squawk = 0;
      icaoaddress = 0;
      timestamp = 0;
      flags = 1;
      altitude_type = 0;
      emitter_type = 0;
    }

abbrev answers : TaskAnswers ℕ ℕ ℕ
answers = record {
  connecting = record {
    still_connected = true;
    new_connection = some 1;
    state_connected = true;
    assets = some (4 ∷ 5 ∷ []);
    name_of = λ (n : ℕ). if n == 5 then "plane" else "boat";
  };
  report_now = 2000;
  last_command = command_unknown;
  during_report = [];
  acquire_now = 2500;
  rounds = rounds;
}

abbrev DemoWorker : Type 0
DemoWorker = Smm ℕ ℕ ℕ

abbrev asked_to_connect : DemoWorker
asked_to_connect = request (registered_smm config) (on_connect "smm" "user" "pass" "plane")

abbrev Log : Type 0
Log = List (Entry ℕ ℕ ℕ)

abbrev result : Option (DemoWorker × Log) → DemoWorker × Log
result none = (asked_to_connect, [])
result (some r) = r

unfoldable connected : DemoWorker × Log
unfolding registered_smm request handle_task do_connect enqueue_task
connected = result (
    handle_task half_tan 3 answers (connect_task "smm" "user" "pass" "plane")
      (record asked_to_connect { task_queue = [] }))

unfoldable asked_to_search : DemoWorker
unfolding connected request enqueue_task
asked_to_search = request connected.0 (on_search first_point)

unfoldable searching : DemoWorker × Log
unfolding asked_to_search handle_task do_search attempt judge requests is_valid le
searching = result (
    handle_task half_tan 3 answers (search_task first_point)
      (record asked_to_search { task_queue = [] }))

abbrev log : Log
log =
    ((([] ++ requested (on_connect "smm" "user" "pass" "plane") ∷ []) ++ connected.1)
      ++ requested (on_search first_point) ∷ [])
    ++ searching.1

demo_run : Run half_tan (registered_smm config) log searching.0
unfolding connected asked_to_search searching registered_smm request next_task enqueue_task is_valid
    le handle_task
demo_run =
    next
      (next
        (next (next start (asks (registered_smm config) (on_connect "smm" "user" "pass" "plane")))
          (works answers 3 (connect_task "smm" "user" "pass" "plane") [] refl refl))
        (asks connected.0 (on_search first_point)))
      (works answers 3 (search_task first_point) [] refl refl)

-- The search is held, its load has been asked for, and the role was lost during the accept.
test_held : (searching.0.current_search_points ≡ 2) × (searching.0.search_active ≡ false)
unfolding searching
test_held = (refl, refl)

calls_are_lawful_example : AllLawful false log
unfolding registered_smm
calls_are_lawful_example = calls_are_lawful half_tan (registered_smm config) demo_run

searches_are_conserved_example : Perm (gone log ++ held searching.0) (given log ++ [])
unfolding registered_smm
searches_are_conserved_example = searches_are_conserved half_tan (registered_smm config) demo_run

invariant_holds_between_tasks_example : Inv searching.0
invariant_holds_between_tasks_example = invariant_holds_between_tasks half_tan config demo_run

acquisition_ends_example :
    (t : DemoWorker) × (es : Log) × (try_acquire_search half_tan 3 2500 rounds connected.0
      ≡ some (t, es))
    × (fetches es ≤ 3)
acquisition_ends_example = acquisition_ends half_tan 2500 rounds connected.0

every_task_ends_example :
    (t : DemoWorker) × (es : Log) × (handle_task half_tan 3 answers
        (search_task first_point)
        connected.0
      ≡ some (t, es))
every_task_ends_example = every_task_ends half_tan answers (search_task first_point) connected.0

acquisition_turns_out_example :
    (t : DemoWorker) × (es : Log) × (try_acquire_search half_tan 3 2500 rounds connected.0
      ≡ some (t, es))
    × TurnedOut (IsReading 2500 rounds) connected.0 t es
unfolding connected
acquisition_turns_out_example = acquisition_turns_out half_tan 2500 rounds connected.0 (omega arith)
