-- ===== src/Smm/Worker/Run.antt =====
-- Runs of the worker among the calls of other threads: src/smm/smm.cpp. A task is one step, with the
-- calls that other threads make meanwhile inside it; what they could read in its midst is not seen.
use fss_smm_mav.Prelude.{ℕ, ◌≡◌, some, List, [], ◌∷◌, ◌++◌}
use fss_smm_mav.Prelude.Double.{Double}
use fss_smm_mav.Smm.Worker.{request, stop_smm, Smm, SmmTask, Request, Entry, requested}
use fss_smm_mav.Smm.Worker.Tasks.{handle_task, next_task, TaskAnswers, takes_task}

module _ {Conn Asset Handle : Type 0} where
  module _ (tan : Double → Double) where
    -- One access of the queue or of search_active by another thread, a task, or the stop.
    pub data Step
        : Smm Conn Asset Handle
          → List (Entry Conn Asset Handle)
          → Smm Conn Asset Handle
          → Type 0 where
      asks : (s : Smm Conn Asset Handle) (r : Request) → Step s (requested r ∷ []) (request s r)
      works :
          (a : TaskAnswers Conn Asset Handle) (fuel : ℕ) (task : SmmTask) (rest : List SmmTask)
          {s t : Smm Conn Asset Handle} {es : List (Entry Conn Asset Handle)}
          → next_task s.task_queue s.worker_running ≡ takes_task task rest
          → handle_task tan fuel a task (record s { task_queue = rest }) ≡ some (t, es)
          → Step s es t
      stops : (s : Smm Conn Asset Handle) → Step s [] (stop_smm s)

    -- What has happened from the first state to the last.
    pub data Run (s : Smm Conn Asset Handle)
        : List (Entry Conn Asset Handle) → Smm Conn Asset Handle → Type 0 where
      start : Run s [] s
      next :
          {es fs : List (Entry Conn Asset Handle)} {t u : Smm Conn Asset Handle}
          → Run s es t
          → Step t fs u
          → Run s (es ++ fs) u
