-- ===== src/Smm/Worker/Searches/Tasks.antt =====
-- Every search that SMM gives out is held, or is gone once: src/smm/smm.cpp.
use mathlib.Core.List.{append-nil}
use mathlib.Core.List.Perm
use fss_smm_mav.Dispatch.{int_lt, PositionData, ℤ, pos}
use fss_smm_mav.Prelude.{
  ℕ, ◌/◌, ◌≡◌, refl, sym, subst, inl, inr, Bool, true, false, not, ◌&&◌, Option, none, some, List,
  [], ◌∷◌, ◌++◌, if◌then◌else◌, Bool-cases,
}
use fss_smm_mav.Prelude.Double.{Double}
use fss_smm_mav.Smm.Search.{
  points_count, handle_call, reached_last, search_reached, SmmSearch, SearchCall, completed,
  destroyed,
}
use fss_smm_mav.Smm.Worker.{
  noted, requests, search_calls, let_go, publish_search, Smm, SmmTask, connect_task,
  report_position_task, reached_point_task, search_task, retry_pending_task, OperatorCommand,
  command_unknown, command_abandon_search, command_mission_complete, command_other, asked_command,
  position_sent, released, load_search_called, rtl_called, operator_command_called,
}
use fss_smm_mav.Smm.Worker.Acquire.{is_some, rtl_call, try_acquire_search}
use fss_smm_mav.Smm.Worker.Connect.{do_connect}
use fss_smm_mav.Smm.Worker.Searches.{
  handles, held_handles, nothing-Balances, append-Balances, Balances,
}
use fss_smm_mav.Smm.Worker.Searches.Acquire.{
  session-Balances, StepBalances, TaskBalances, after_log-Balances, either_step-Balances,
  either_task-Balances, held, try_acquire-Balances,
}
use fss_smm_mav.Smm.Worker.Searches.Rounds.{noted-Balances, called-Balances, requests-held}
use fss_smm_mav.Smm.Worker.Sessions.{do_connect_calls}
use fss_smm_mav.Smm.Worker.Tasks.{
  reported_altitude, same_command, command_call, on_command, check_operator_command, is_due,
  send_report, maybe_acquire, do_report_position, resume_or_acquire, do_search, reach_held,
  do_reached_point, handle_task, TaskAnswers,
}
use fss_smm_mav.Types.{smm_cmd_abandon_search, smm_cmd_mission_complete}

module _ {Handle : Type 0} where
  -- What a point does to the held search: it keeps its handle, or is completed and destroyed.
  data Reached (c : SmmSearch Handle)
      : SmmSearch Handle × Bool × List (SearchCall Handle) → Type 0 where
    over :
        (h : Handle) (d : SmmSearch Handle)
        → c.search_handle ≡ some h
        → d.search_handle ≡ none
        → Reached c (d, true, completed h ∷ destroyed h ∷ [])
    under_way :
        (d : SmmSearch Handle) → d.search_handle ≡ c.search_handle → Reached c (d, false, [])

  reach_cases :
      (c : SmmSearch Handle) (h : Option Handle) (point : ℤ)
      → c.search_handle ≡ h
      → Reached c (
          if reached_last h (points_count c) point
          then (
            record c { search_handle = none },
            true,
            handle_call h completed ++ handle_call h destroyed,
          )
          else (record c { current_point = point }, false, []))
  reach_cases c none point e = under_way _ refl
  reach_cases c (some h) point e = elim (Bool-cases (not (int_lt point (pos (points_count c))))) [
    | inl last ↦ rw last (over h _ e refl)
    | inr more ↦ rw more (under_way _ refl)
  ]

  Reached-Reached : (c : SmmSearch Handle) (point : ℤ) → Reached c (search_reached c point)
  unfolding search_reached
  Reached-Reached c point = reach_cases c c.search_handle point refl

module _ {Conn Asset Handle : Type 0} where
  release-Balances :
      (c : Option (SmmSearch Handle))
      → Balances {Conn = Conn} {Asset = Asset} (held_handles c) (let_go c) []
  release-Balances none = nothing-Balances []
  release-Balances (some c) = record {
    balance =
        rw (append-nil (handles c.search_handle), append-nil (handles c.search_handle))
          (Perm.refl (handles c.search_handle));
  }

  command-Balances :
      (cmd : OperatorCommand) (s : Smm Conn Asset Handle) → StepBalances (held s) (on_command cmd s)
  unfolding publish_search
  command-Balances command_unknown s = nothing-Balances (held s)
  command-Balances (command_other n) s = nothing-Balances (held s)
  command-Balances command_mission_complete s =
      called-Balances (held s) s.callbacks.operator_command_cb
        (operator_command_called smm_cmd_mission_complete) (refl, refl)
  command-Balances command_abandon_search s =
      append-Balances (let_go s.current_search) (command_call smm_cmd_abandon_search s)
        (release-Balances s.current_search)
        (called-Balances [] s.callbacks.operator_command_cb
          (operator_command_called smm_cmd_abandon_search) (refl, refl))

  check-Balances :
      (cmd : OperatorCommand) (s : Smm Conn Asset Handle)
      → StepBalances (held s) (check_operator_command cmd s)
  unfolding check_operator_command
  check-Balances cmd s =
      either_step-Balances (held s) (same_command cmd s.last_seen_operator_command) (s, [])
        (on_command cmd (record s { last_seen_operator_command = cmd })) (nothing-Balances (held s))
        (command-Balances cmd (record s { last_seen_operator_command = cmd }))

  send_report-Balances :
      (a : TaskAnswers Conn Asset Handle) (pd : PositionData) (s : Smm Conn Asset Handle)
      → StepBalances (held s) (send_report a pd s)
  unfolding send_report
  send_report-Balances a pd s =
      let (s', es) = check_operator_command a.last_command s in
      let sent = position_sent s'.session.asset pd.p (reported_altitude pd.alt_m) (pd.hdg / 100) in
      either_step-Balances (held s) (is_due a.report_now s)
        (
          record s' { position_report_last_ts = a.report_now },
          asked_command s.session.asset ∷ (es ++ sent ∷ []),
        )
        (s, [])
        (record {
          balance =
              (append-Balances es (sent ∷ []) (check-Balances a.last_command s)
                (record { balance = Perm.refl (held s') })).balance;
        })
        (nothing-Balances (held s))

  reach_by :
      (c : SmmSearch Handle) (v : SmmSearch Handle × Bool × List (SearchCall Handle))
      (s : Smm Conn Asset Handle)
      → Reached c v
      → StepBalances (handles c.search_handle) (
          if v.1
          then (publish_search s none, search_calls v.2 ++ released v.0 ∷ rtl_call s)
          else (record s { current_search = some v.0 }, search_calls v.2))
  unfolding publish_search
  reach_by c _ s (over h d e f) =
      subst
        (λ o.
          Balances (handles o)
            (search_calls (completed h ∷ destroyed h ∷ []) ++ released d ∷ rtl_call s) [])
        (sym e)
        (append-Balances (search_calls (completed h ∷ destroyed h ∷ [])) (released d ∷ rtl_call s)
          (record { balance = Perm.refl (h ∷ []) })
          (append-Balances (released d ∷ []) (rtl_call s) (record { balance = rw f (Perm.refl []) })
            (called-Balances [] s.callbacks.rtl_cb rtl_called (refl, refl))))
  reach_by c _ s (under_way d e) = rw (← e) (nothing-Balances (handles d.search_handle))

  reach_held-Balances :
      (c : Option (SmmSearch Handle)) (point : ℤ) (s : Smm Conn Asset Handle)
      → s.current_search ≡ c
      → StepBalances (held s) (reach_held c point s)
  reach_held-Balances none point s e = nothing-Balances (held s)
  reach_held-Balances (some c) point s e =
      subst (λ o. StepBalances (held_handles o) (reach_held (some c) point s)) (sym e)
        (reach_by c (search_reached c point) s (Reached-Reached c point))

  module _ (tan : Double → Double) (fuel : ℕ) (a : TaskAnswers Conn Asset Handle) where
    maybe_acquire-Balances :
        (s : Smm Conn Asset Handle) → TaskBalances (held s) (maybe_acquire tan fuel a s)
    unfolding maybe_acquire
    maybe_acquire-Balances s =
        either_task-Balances (held s) (s.search_active && not (is_some s.current_search))
          (try_acquire_search tan fuel a.acquire_now a.rounds s) (some (s, []))
          (try_acquire-Balances tan fuel a.acquire_now a.rounds s) (nothing-Balances (held s))

    resume-Balances :
        (c : Option (SmmSearch Handle)) (s : Smm Conn Asset Handle)
        → TaskBalances (held s) (resume_or_acquire tan fuel a c s)
    resume-Balances none s = try_acquire-Balances tan fuel a.acquire_now a.rounds s
    resume-Balances (some c) s =
        called-Balances (held s) s.callbacks.load_search_cb (load_search_called c) (refl, refl)

    report-Balances :
        (pd : PositionData) (s : Smm Conn Asset Handle)
        → TaskBalances (held s) (do_report_position tan fuel a pd s)
    unfolding do_report_position
    report-Balances pd s =
        let (s', es) = send_report a pd s in
        let s'' = requests s' a.during_report in
        after_log-Balances (held s) (held s'') (es ++ noted a.during_report)
          (maybe_acquire tan fuel a s'')
          (append-Balances es (noted a.during_report) (send_report-Balances a pd s)
            (rw (requests-held s' a.during_report) (noted-Balances (held s') a.during_report)))
          (maybe_acquire-Balances s'')

    pub task-Balances :
        (task : SmmTask) (s : Smm Conn Asset Handle)
        → TaskBalances (held s) (handle_task tan fuel a task s)
    unfolding handle_task do_search do_reached_point
    task-Balances (connect_task host user pass name) s =
        session-Balances (held s) (do_connect a.connecting s.config host user pass name s.session).1
          (do_connect_calls a.connecting s.config host user pass name s.session).each
    task-Balances (report_position_task pd) s = report-Balances pd s
    task-Balances (reached_point_task point) s = reach_held-Balances s.current_search point s refl
    task-Balances (search_task p) s =
        resume-Balances s.current_search (record s { search_retry_ts = 0 })
    task-Balances (retry_pending_task p) s = maybe_acquire-Balances s
