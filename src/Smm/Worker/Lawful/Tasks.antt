-- ===== src/Smm/Worker/Lawful/Tasks.antt =====
-- Every call of the library in a run of the worker is lawful: src/smm/smm.cpp.
use fss_smm_mav.Dispatch.{PositionData, ℤ}
use fss_smm_mav.Fmu.Battery.{completes}
use fss_smm_mav.Prelude.{
  ℕ, ◌+◌, ◌/◌, ◌%◌, ◌^◌, ◌≡◌, refl, sym, subst, inl, inr, Bool, true, false, not, ◌&&◌, Option,
  none, some, List, [], ◌∷◌, ◌++◌, leb, if◌then◌else◌, Bool-cases,
}
use fss_smm_mav.Prelude.Double.{Double}
use fss_smm_mav.Smm.Search.{
  points_count, handle_call, reached_last, search_reached, SmmSearch, completed, destroyed,
}
use fss_smm_mav.Smm.Worker.{
  noted, requests, stop_smm, search_calls, let_go, publish_search, Session, Smm, SmmTask,
  connect_task, report_position_task, reached_point_task, search_task, retry_pending_task,
  OperatorCommand, command_unknown, command_abandon_search, command_mission_complete, command_other,
  Entry, asked_command, position_sent, released, load_search_called, rtl_called,
  operator_command_called,
}
use fss_smm_mav.Smm.Worker.Acquire.{is_some, rtl_call}
use fss_smm_mav.Smm.Worker.Connect.{do_connect}
use fss_smm_mav.Smm.Worker.Lawful.{
  IsPresent, IsPresent-of, AllLawful, none-Leads, append-Leads, request_role, noted-Leads,
  called-Leads, let_go-Leads, Leads,
}
use fss_smm_mav.Smm.Worker.Lawful.Connecting.{session-Leads}
use fss_smm_mav.Smm.Worker.Lawful.Rounds.{TaskLeads, after_log-Leads, try_acquire-Leads}
use fss_smm_mav.Smm.Worker.Run.{Step, asks, works, stops, Run, start, next}
use fss_smm_mav.Smm.Worker.Sessions.{do_connect_calls}
use fss_smm_mav.Smm.Worker.Tasks.{
  reported_altitude, same_command, command_call, on_command, check_operator_command, is_due,
  send_report, maybe_acquire, do_report_position, resume_or_acquire, do_search, reach_held,
  do_reached_point, handle_task, TaskAnswers,
}
use fss_smm_mav.Types.{smm_cmd_abandon_search, smm_cmd_mission_complete}

and_left : (a b : Bool) → (a && b) ≡ true → a ≡ true
and_left true b e = refl
and_left false b e = cc

module _ {Conn Asset Handle : Type 0} where
  command-Leads :
      (cmd : OperatorCommand) (s : Smm Conn Asset Handle)
      → Leads s.search_active (on_command cmd s).1 (on_command cmd s).0.search_active
  unfolding publish_search
  command-Leads command_unknown s = none-Leads s.search_active
  command-Leads (command_other n) s = none-Leads s.search_active
  command-Leads command_mission_complete s =
      called-Leads s.search_active s.callbacks.operator_command_cb
        (operator_command_called smm_cmd_mission_complete) tt refl
  command-Leads command_abandon_search s =
      append-Leads (let_go s.current_search) (command_call smm_cmd_abandon_search s)
        (let_go-Leads s.search_active s.current_search)
        (called-Leads s.search_active s.callbacks.operator_command_cb
          (operator_command_called smm_cmd_abandon_search) tt refl)

  command-session :
      (cmd : OperatorCommand) (s : Smm Conn Asset Handle) → (on_command cmd s).0.session ≡ s.session
  unfolding publish_search
  command-session command_unknown s = refl
  command-session (command_other n) s = refl
  command-session command_mission_complete s = refl
  command-session command_abandon_search s = refl

  -- The entries of a step with the role it leaves.
  abbrev Stepped : Bool → Smm Conn Asset Handle × List (Entry Conn Asset Handle) → Type 0
  Stepped b r = Leads b r.1 r.0.search_active

  either_step :
      (b test : Bool) (x y : Smm Conn Asset Handle × List (Entry Conn Asset Handle))
      → Stepped b x
      → Stepped b y
      → Stepped b (if test then x else y)
  either_step b true x y h k = h
  either_step b false x y h k = k

  check-Leads :
      (cmd : OperatorCommand) (s : Smm Conn Asset Handle)
      → Stepped s.search_active (check_operator_command cmd s)
  unfolding check_operator_command
  check-Leads cmd s =
      either_step s.search_active (same_command cmd s.last_seen_operator_command) (s, [])
        (on_command cmd (record s { last_seen_operator_command = cmd }))
        (none-Leads s.search_active)
        (command-Leads cmd (record s { last_seen_operator_command = cmd }))

  pub check-session :
      (cmd : OperatorCommand) (s : Smm Conn Asset Handle)
      → (check_operator_command cmd s).0.session ≡ s.session
  unfolding check_operator_command
  check-session cmd s = elim (Bool-cases (same_command cmd s.last_seen_operator_command)) [
    | inl e ↦ rw e refl
    | inr e ↦ rw e (command-session cmd (record s { last_seen_operator_command = cmd }))
  ]

  sent-Leads :
      (a : TaskAnswers Conn Asset Handle) (pd : PositionData) (s : Smm Conn Asset Handle)
      → IsPresent s.session.asset
      → Leads s.search_active
          (asked_command s.session.asset
            ∷ ((check_operator_command a.last_command s).1
                ++ position_sent
                    (check_operator_command a.last_command s).0.session.asset
                    pd.p
                    (reported_altitude pd.alt_m)
                    (pd.hdg / 100)
                  ∷ []))
          (check_operator_command a.last_command s).0.search_active
  sent-Leads a pd s p =
      let (s', es) = check_operator_command a.last_command s in
      let sent = position_sent s'.session.asset pd.p (reported_altitude pd.alt_m) (pd.hdg / 100) in
      let present =
        subst (λ (c : Session Conn Asset). IsPresent c.asset) (sym (check-session a.last_command s))
          p in
      let h =
        append-Leads es (sent ∷ []) (check-Leads a.last_command s)
          (record { lawful = (present, tt); role = refl }) in
      record { lawful = (p, h.lawful); role = h.role }

  send_report-Leads :
      (a : TaskAnswers Conn Asset Handle) (pd : PositionData) (s : Smm Conn Asset Handle)
      → Stepped s.search_active (send_report a pd s)
  unfolding send_report is_due
  send_report-Leads a pd s = elim (Bool-cases (is_due a.report_now s)) [
    | inl e ↦ rw e (
        sent-Leads a pd s (
          IsPresent-of s.session.asset (
            and_left (is_some s.session.asset)
              (leb ((s.position_report_last_ts + s.config.position_report_interval_ms) % 2 ^ 64)
                a.report_now)
              e)))
    | inr e ↦ rw e (none-Leads s.search_active)
  ]

  end-Leads :
      (b : Bool) (h : Option Handle)
      → Leads {Conn = Conn} {Asset = Asset} b
          (search_calls (handle_call h completed ++ handle_call h destroyed))
          b
  end-Leads b none = none-Leads b
  end-Leads b (some h) = record { lawful = (tt, (tt, tt)); role = refl }

  reached-Leads :
      (b : Bool) (held : SmmSearch Handle) (point : ℤ)
      → Leads {Conn = Conn} {Asset = Asset} b (search_calls (search_reached held point).2) b
  unfolding search_reached
  reached-Leads b held point =
      elim (Bool-cases (reached_last held.search_handle (points_count held) point)) [
        | inl e ↦ rw e (end-Leads b held.search_handle)
        | inr e ↦ rw e (none-Leads b)
      ]

  reach_held-Leads :
      (held : Option (SmmSearch Handle)) (point : ℤ) (s : Smm Conn Asset Handle)
      → Stepped s.search_active (reach_held held point s)
  unfolding publish_search
  reach_held-Leads none point s = none-Leads s.search_active
  reach_held-Leads (some held) point s =
      let (held', completes, calls) = search_reached held point in
      let over : Smm Conn Asset Handle × List (Entry Conn Asset Handle) =
        (publish_search s none, search_calls calls ++ released held' ∷ rtl_call s) in
      let after_call = called-Leads s.search_active s.callbacks.rtl_cb rtl_called tt refl in
      either_step s.search_active completes over
        (record s { current_search = some held' }, search_calls calls)
        (append-Leads (search_calls calls) (released held' ∷ rtl_call s)
          (reached-Leads s.search_active held point)
          (record { lawful = (tt, after_call.lawful); role = after_call.role }))
        (reached-Leads s.search_active held point)

  module _ (tan : Double → Double) (fuel : ℕ) (a : TaskAnswers Conn Asset Handle) where
    maybe_acquire-Leads :
        (s : Smm Conn Asset Handle) → TaskLeads s.search_active (maybe_acquire tan fuel a s)
    unfolding maybe_acquire
    maybe_acquire-Leads s = elim (Bool-cases (s.search_active && not (is_some s.current_search))) [
      | inl e ↦ rw e (try_acquire-Leads tan fuel a.acquire_now a.rounds s)
      | inr e ↦ rw e (none-Leads s.search_active)
    ]

    resume-Leads :
        (held : Option (SmmSearch Handle)) (s : Smm Conn Asset Handle)
        → TaskLeads s.search_active (resume_or_acquire tan fuel a held s)
    resume-Leads none s = try_acquire-Leads tan fuel a.acquire_now a.rounds s
    resume-Leads (some c) s =
        called-Leads s.search_active s.callbacks.load_search_cb (load_search_called c) tt refl

    report-Leads :
        (pd : PositionData) (s : Smm Conn Asset Handle)
        → TaskLeads s.search_active (do_report_position tan fuel a pd s)
    unfolding do_report_position
    report-Leads pd s =
        let (s', es) = send_report a pd s in
        let s'' = requests s' a.during_report in
        after_log-Leads s.search_active s''.search_active (es ++ noted a.during_report)
          (maybe_acquire tan fuel a s'')
          (append-Leads es (noted a.during_report) (send_report-Leads a pd s)
            (noted-Leads s' a.during_report))
          (maybe_acquire-Leads s'')

    task-Leads :
        (task : SmmTask) (s : Smm Conn Asset Handle)
        → TaskLeads s.search_active (handle_task tan fuel a task s)
    unfolding handle_task do_search do_reached_point
    task-Leads (connect_task host user pass name) s =
        session-Leads s.search_active
          (do_connect a.connecting s.config host user pass name s.session).1
          (do_connect_calls a.connecting s.config host user pass name s.session).each
    task-Leads (report_position_task pd) s = report-Leads pd s
    task-Leads (reached_point_task point) s = reach_held-Leads s.current_search point s
    task-Leads (search_task p) s = resume-Leads s.current_search (record s { search_retry_ts = 0 })
    task-Leads (retry_pending_task p) s = maybe_acquire-Leads s

  module _ (tan : Double → Double) where
    Step-Leads :
        {s t : Smm Conn Asset Handle} {es : List (Entry Conn Asset Handle)}
        → Step tan s es t
        → Leads s.search_active es t.search_active
    unfolding stop_smm
    Step-Leads (asks s r) = record { lawful = (tt, tt); role = sym (request_role s r) }
    Step-Leads (works a fuel task rest {s} {t} {es} front e) =
        subst (TaskLeads s.search_active) e
          (task-Leads tan fuel a task (record s { task_queue = rest }))
    Step-Leads (stops s) = none-Leads s.search_active

    Run-Leads :
        {s t : Smm Conn Asset Handle} {es : List (Entry Conn Asset Handle)}
        → Run tan s es t
        → Leads s.search_active es t.search_active
    Run-Leads {s} start = none-Leads s.search_active
    Run-Leads (next {es} {fs} r st) = append-Leads es fs (Run-Leads r) (Step-Leads st)

    -- However the tasks of the worker and the calls of other threads interleave, and whatever the
    -- library answers: SMM is asked to accept a search only while it has the searching role at the
    -- last read before the call, and the asset given to the library is never null.
    pub calls_are_lawful :
        (s : Smm Conn Asset Handle) {t : Smm Conn Asset Handle}
        {es : List (Entry Conn Asset Handle)}
        → Run tan s es t
        → AllLawful s.search_active es
    calls_are_lawful s r = (Run-Leads r).lawful
