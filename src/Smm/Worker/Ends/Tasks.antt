-- ===== src/Smm/Worker/Ends/Tasks.antt =====
-- Every task of the worker ends: src/smm/smm.cpp.
use fss_smm_mav.Prelude.{
  ℕ, ◌≡◌, refl, sym, subst, Bool, true, false, not, ◌&&◌, Option, none, some, List, [], ◌++◌,
  if◌then◌else◌,
}
use fss_smm_mav.Prelude.Double.{Double}
use fss_smm_mav.Smm.Search.{SmmSearch}
use fss_smm_mav.Smm.Worker.{
  noted, requests, Smm, SmmTask, connect_task, report_position_task, reached_point_task,
  search_task, retry_pending_task, Entry,
}
use fss_smm_mav.Smm.Worker.Acquire.{after_log, try_acquire_search, Round}
use fss_smm_mav.Smm.Worker.Ends.{acquisition_ends}
use fss_smm_mav.Smm.Worker.Tasks.{
  send_report, has_held_search, maybe_acquire, do_report_position, resume_or_acquire, do_search,
  handle_task, TaskAnswers,
}

module _ {Conn Asset Handle : Type 0} where
  -- There is a result.
  pub data Ends : Option (Smm Conn Asset Handle × List (Entry Conn Asset Handle)) → Type 0 where
    ends : (t : Smm Conn Asset Handle) (es : List (Entry Conn Asset Handle)) → Ends (some (t, es))

  acquired-Ends :
      (tan : Double → Double) (now : ℕ) (rounds : ℕ → Round Handle) (s : Smm Conn Asset Handle)
      → Ends (try_acquire_search tan 3 now rounds s)
  acquired-Ends tan now rounds s =
      let (t, es, e, k) = acquisition_ends tan now rounds s in subst Ends (sym e) (ends t es)

  logged-Ends :
      (log : List (Entry Conn Asset Handle))
      (o : Option (Smm Conn Asset Handle × List (Entry Conn Asset Handle)))
      → Ends o
      → Ends (after_log log o)
  logged-Ends log _ (ends t es) = ends t (log ++ es)

  either-Ends :
      (b : Bool) (x y : Option (Smm Conn Asset Handle × List (Entry Conn Asset Handle)))
      → Ends x
      → Ends y
      → Ends (if b then x else y)
  either-Ends true x y h k = h
  either-Ends false x y h k = k

  module _ (tan : Double → Double) (a : TaskAnswers Conn Asset Handle) where
    maybe_acquire-Ends : (s : Smm Conn Asset Handle) → Ends (maybe_acquire tan 3 a s)
    unfolding maybe_acquire
    maybe_acquire-Ends s =
        either-Ends (s.search_active && not (has_held_search s))
          (try_acquire_search tan 3 a.acquire_now a.rounds s) (some (s, []))
          (acquired-Ends tan a.acquire_now a.rounds s) (ends s [])

    resume_or_acquire-Ends :
        (held : Option (SmmSearch Handle)) (s : Smm Conn Asset Handle)
        → Ends (resume_or_acquire tan 3 a held s)
    resume_or_acquire-Ends none s = acquired-Ends tan a.acquire_now a.rounds s
    resume_or_acquire-Ends (some c) s = ends s _

    task-Ends : (task : SmmTask) (s : Smm Conn Asset Handle) → Ends (handle_task tan 3 a task s)
    unfolding handle_task do_report_position do_search
    task-Ends (connect_task host user pass name) s = ends _ _
    task-Ends (report_position_task pd) s =
        let r = send_report a pd s in
        logged-Ends (r.1 ++ noted a.during_report)
          (maybe_acquire tan 3 a (requests r.0 a.during_report))
          (maybe_acquire-Ends (requests r.0 a.during_report))
    task-Ends (reached_point_task point) s = ends _ _
    task-Ends (search_task current_pos) s =
        resume_or_acquire-Ends s.current_search (record s { search_retry_ts = 0 })
    task-Ends (retry_pending_task current_pos) s = maybe_acquire-Ends s

  result_of :
      (o : Option (Smm Conn Asset Handle × List (Entry Conn Asset Handle)))
      → Ends o
      → (t : Smm Conn Asset Handle) × (es : List (Entry Conn Asset Handle)) × (o ≡ some (t, es))
  result_of _ (ends t es) = (t, es, refl)

  -- Every task that the worker takes ends with a result, whatever the library answers and other
  -- threads do meanwhile: three rounds of the acquisition loop are enough for each.
  pub every_task_ends :
      (tan : Double → Double) (a : TaskAnswers Conn Asset Handle) (task : SmmTask)
      (s : Smm Conn Asset Handle)
      → (t : Smm Conn Asset Handle) × (es : List (Entry Conn Asset Handle)) × (handle_task tan 3 a
            task s
          ≡ some (t, es))
  every_task_ends tan a task s = result_of (handle_task tan 3 a task s) (task-Ends tan a task s)
