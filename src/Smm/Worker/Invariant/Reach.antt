-- ===== src/Smm/Worker/Invariant/Reach.antt =====
-- The invariant over whole runs: src/smm/smm.cpp.
use fss_smm_mav.Dispatch.{PositionData, ℤ}
use fss_smm_mav.Fmu.Battery.{completes}
use fss_smm_mav.Prelude.{
  ℕ, ◌≡◌, refl, sym, ap, subst, ◌∙◌, Bool, true, false, not, ◌&&◌, Option, none, some, List, [],
  ◌∷◌, ◌++◌, arith, length, if◌then◌else◌,
}
use fss_smm_mav.Prelude.Double.{Double}
use fss_smm_mav.Smm.Search.{search_reached, reached-points, SmmSearch}
use fss_smm_mav.Smm.Worker.{
  noted, held_points, requests, stop_smm, search_calls, publish_search, registered_smm, SmmConfig,
  Session, Smm, SmmTask, connect_task, report_position_task, reached_point_task, search_task,
  retry_pending_task, Entry, released,
}
use fss_smm_mav.Smm.Worker.Acquire.{is_some, rtl_call, try_acquire_search}
use fss_smm_mav.Smm.Worker.Connect.{do_connect}
use fss_smm_mav.Smm.Worker.Invariant.{
  Inv, request-Inv, requests-Inv, publish-Inv, retry-Inv, taken-Inv,
}
use fss_smm_mav.Smm.Worker.Invariant.Run.{
  TaskInv, after_log-Inv, either-Inv, try_acquire-Inv, send_report-Inv,
}
use fss_smm_mav.Smm.Worker.Run.{Step, asks, works, stops, Run, start, next}
use fss_smm_mav.Smm.Worker.Tasks.{
  send_report, maybe_acquire, do_report_position, resume_or_acquire, do_search, reach_held,
  do_reached_point, handle_task, TaskAnswers,
}
use fss_smm_mav.Smm.Worker.Whole.{do_connect-IsWhole, IsWhole}

module _ {Conn Asset Handle : Type 0} where
  either_step-Inv :
      (b : Bool) (x y : Smm Conn Asset Handle × List (Entry Conn Asset Handle))
      → (b ≡ true → Inv x.0)
      → (b ≡ false → Inv y.0)
      → Inv (if b then x else y).0
  either_step-Inv true x y h k = h refl
  either_step-Inv false x y h k = k refl

  progress-Inv :
      (s : Smm Conn Asset Handle) (c d : SmmSearch Handle)
      → s.current_search ≡ some c
      → d.points ≡ c.points
      → Inv s
      → Inv (record s { current_search = some d })
  progress-Inv s c d e f h = record {
    points = h.points ∙ ap held_points e ∙ ap length (sym f);
    whole = h.whole;
    one_report = h.one_report;
    one_retry = h.one_retry;
  }

  reach_held-Inv :
      (c : Option (SmmSearch Handle)) (point : ℤ) (s : Smm Conn Asset Handle)
      → s.current_search ≡ c
      → Inv s
      → Inv (reach_held c point s).0
  reach_held-Inv none point s e h = h
  reach_held-Inv (some c) point s e h =
      let (c', completes, calls) = search_reached c point in
      either_step-Inv completes
        (publish_search s none, search_calls calls ++ released c' ∷ rtl_call s)
        (record s { current_search = some c' }, search_calls calls) (λ _. publish-Inv s none h)
        (λ _. progress-Inv s c c' e (reached-points c point) h)

  session-Inv :
      (s : Smm Conn Asset Handle) (c : Session Conn Asset)
      → IsWhole c
      → Inv s
      → Inv (record s { session = c })
  session-Inv s c w h = record {
    points = h.points;
    whole = w;
    one_report = h.one_report;
    one_retry = h.one_retry;
  }

  module _ (tan : Double → Double) (fuel : ℕ) (a : TaskAnswers Conn Asset Handle) where
    maybe_acquire-Inv : (s : Smm Conn Asset Handle) → Inv s → TaskInv (maybe_acquire tan fuel a s)
    unfolding maybe_acquire
    maybe_acquire-Inv s h =
        either-Inv (s.search_active && not (is_some s.current_search))
          (try_acquire_search tan fuel a.acquire_now a.rounds s) (some (s, []))
          (try_acquire-Inv tan fuel a.acquire_now a.rounds s h) h

    report-Inv :
        (pd : PositionData) (s : Smm Conn Asset Handle)
        → Inv s
        → TaskInv (do_report_position tan fuel a pd s)
    unfolding do_report_position
    report-Inv pd s h =
        let (s', es) = send_report a pd s in
        after_log-Inv (es ++ noted a.during_report)
          (maybe_acquire tan fuel a (requests s' a.during_report))
          (maybe_acquire-Inv (requests s' a.during_report)
            (requests-Inv s' a.during_report (send_report-Inv a pd s h)))

    resume-Inv :
        (c : Option (SmmSearch Handle)) (s : Smm Conn Asset Handle)
        → Inv s
        → TaskInv (resume_or_acquire tan fuel a c s)
    resume-Inv none s h = try_acquire-Inv tan fuel a.acquire_now a.rounds s h
    resume-Inv (some c) s h = h

    task-Inv :
        (task : SmmTask) (s : Smm Conn Asset Handle)
        → Inv s
        → TaskInv (handle_task tan fuel a task s)
    unfolding handle_task do_search do_reached_point
    task-Inv (connect_task host user pass name) s h =
        session-Inv s
          (do_connect {Handle = Handle} a.connecting s.config host user pass name s.session).0
          (do_connect-IsWhole Handle a.connecting s.config host user pass name s.session h.whole) h
    task-Inv (report_position_task pd) s h = report-Inv pd s h
    task-Inv (reached_point_task point) s h = reach_held-Inv s.current_search point s refl h
    task-Inv (search_task p) s h =
        resume-Inv s.current_search (record s { search_retry_ts = 0 }) (retry-Inv s 0 h)
    task-Inv (retry_pending_task p) s h = maybe_acquire-Inv s h

  module _ (tan : Double → Double) where
    Step-Inv :
        {s t : Smm Conn Asset Handle} {es : List (Entry Conn Asset Handle)}
        → Step tan s es t
        → Inv s
        → Inv t
    unfolding stop_smm
    Step-Inv (asks s r) h = request-Inv s r h
    Step-Inv (works a fuel task rest {s} {t} {es} front e) h =
        subst TaskInv e (
          task-Inv tan fuel a task (record s { task_queue = rest }) (taken-Inv s task rest front h))
    Step-Inv (stops s) h = record {
      points = h.points;
      whole = h.whole;
      one_report = h.one_report;
      one_retry = h.one_retry;
    }

    Run-Inv :
        {s t : Smm Conn Asset Handle} {es : List (Entry Conn Asset Handle)}
        → Run tan s es t
        → Inv s
        → Inv t
    Run-Inv start h = h
    Run-Inv (next r st) h = Step-Inv st (Run-Inv r h)

    -- Between two tasks of the worker, whatever the library answered and other threads called until
    -- then: the point count that the event loop reads is that of the held search, 0 without one; the
    -- connection, the list of assets and the asset are all there or all null; and at most one position
    -- report and one retry wait in the queue.
    pub invariant_holds_between_tasks :
        (config : SmmConfig) {t : Smm Conn Asset Handle} {es : List (Entry Conn Asset Handle)}
        → Run tan (registered_smm config) es t
        → Inv t
    unfolding registered_smm
    invariant_holds_between_tasks config r = Run-Inv r (record {
      points = refl;
      whole = record { together = tt };
      one_report = omega arith;
      one_retry = omega arith;
    })
