-- ===== src/Smm/Worker/Tasks.antt =====
-- The handlers of the worker's tasks: doReportPosition, checkOperatorCommand, maybeAcquire, doSearch,
-- doReachedPoint and workerLoop of src/smm/smm.cpp.
use fss_smm_mav.Dispatch.{PositionData, ℤ, pos, negsuc}
use fss_smm_mav.Fmu.Battery.{completes}
use fss_smm_mav.Prelude.{
  ℕ, zero, suc, ◌+◌, ◌-◌, ◌/◌, ◌%◌, ◌^◌, Bool, true, false, not, ◌&&◌, Option, none, some, List, [],
  ◌∷◌, ◌++◌, ltb, leb, ◌==◌, if◌then◌else◌,
}
use fss_smm_mav.Prelude.Double.{lround, Double, fin}
use fss_smm_mav.Smm.Search.{search_reached, SmmSearch}
use fss_smm_mav.Smm.Worker.{
  noted, requests, called, search_calls, let_go, publish_search, Session, Smm, SmmTask,
  connect_task, report_position_task, reached_point_task, search_task, retry_pending_task,
  OperatorCommand, command_unknown, command_abandon_search, command_mission_complete, command_other,
  Request, Entry, asked_command, position_sent, released, load_search_called,
  operator_command_called,
}
use fss_smm_mav.Smm.Worker.Acquire.{is_some, rtl_call, after_log, try_acquire_search, Round}
use fss_smm_mav.Smm.Worker.Connect.{disconnect, do_connect, ConnectAnswers}
use fss_smm_mav.Smm.Worker.Searches.Acquire.{held}
use fss_smm_mav.Types.{SmmCommand, smm_cmd_abandon_search, smm_cmd_mission_complete}

-- The answers of the library, the clock and the other threads during a task: `during_report` are the
-- calls of other threads before maybeAcquire reads search_active.
pub record TaskAnswers (Conn Asset Handle : Type 0) : Type 0 where
  pub connecting : ConnectAnswers Conn Asset
  pub report_now : ℕ
  pub last_command : OperatorCommand
  pub during_report : List Request
  pub acquire_now : ℕ
  pub rounds : ℕ → Round Handle

-- `static_cast<int32_t>`.
abbrev pub to_int32 : ℤ → ℤ
to_int32 (pos n) = let r = n % 2 ^ 32 in if ltb r (2 ^ 31) then pos r else negsuc (2 ^ 32 - 1 - r)
to_int32 (negsuc n) =
    let r = n % 2 ^ 32 in if ltb r (2 ^ 31) then negsuc r else pos (2 ^ 32 - 1 - r)

abbrev pub negated : ℕ → ℤ
negated zero = pos 0
negated (suc n) = negsuc n

-- The altitude that is reported: rounded, and 0 if it is not finite.
unfoldable pub reported_altitude : Double → ℤ
reported_altitude (fin false n) = to_int32 (pos (lround n))
reported_altitude (fin true n) = to_int32 (negated (lround n))
reported_altitude _ = pos 0

abbrev pub same_command : OperatorCommand → OperatorCommand → Bool
same_command command_unknown command_unknown = true
same_command command_abandon_search command_abandon_search = true
same_command command_mission_complete command_mission_complete = true
same_command (command_other m) (command_other n) = m == n
same_command _ _ = false

module _ {Conn Asset Handle : Type 0} where
  abbrev pub command_call : SmmCommand → Smm Conn Asset Handle → List (Entry Conn Asset Handle)
  command_call c s = called s.callbacks.operator_command_cb (operator_command_called c)

  -- The switch on a new command.
  abbrev pub on_command :
      OperatorCommand
      → Smm Conn Asset Handle
      → Smm Conn Asset Handle × List (Entry Conn Asset Handle)
  on_command command_abandon_search s = (
    record (publish_search s none) { search_retry_ts = 0 },
    let_go s.current_search ++ command_call smm_cmd_abandon_search s,
  )
  on_command command_mission_complete s = (s, command_call smm_cmd_mission_complete s)
  on_command _ s = (s, [])

  unfoldable pub check_operator_command :
      OperatorCommand
      → Smm Conn Asset Handle
      → Smm Conn Asset Handle × List (Entry Conn Asset Handle)
  unfolding publish_search
  check_operator_command cmd s =
      if same_command cmd s.last_seen_operator_command
      then (s, [])
      else on_command cmd (record s { last_seen_operator_command = cmd })

  unfoldable pub is_due : ℕ → Smm Conn Asset Handle → Bool
  is_due now s =
      is_some s.session.asset
      && leb ((s.position_report_last_ts + s.config.position_report_interval_ms) % 2 ^ 64) now

  -- The report, if it is due.
  unfoldable pub send_report :
      TaskAnswers Conn Asset Handle
      → PositionData
      → Smm Conn Asset Handle
      → Smm Conn Asset Handle × List (Entry Conn Asset Handle)
  unfolding check_operator_command reported_altitude is_due
  send_report a pd s =
      if is_due a.report_now s
      then (let (s', es) = check_operator_command a.last_command s in
          (
            record s' { position_report_last_ts = a.report_now },
            asked_command s.session.asset
                ∷ (es
                    ++ position_sent s'.session.asset pd.p (reported_altitude pd.alt_m)
                        (pd.hdg / 100)
                      ∷ []),
          ))
      else (s, [])

  abbrev pub has_held_search : Smm Conn Asset Handle → Bool
  has_held_search s = is_some s.current_search

  unfoldable pub maybe_acquire :
      (Double → Double)
      → ℕ
      → TaskAnswers Conn Asset Handle
      → Smm Conn Asset Handle
      → Option (Smm Conn Asset Handle × List (Entry Conn Asset Handle))
  unfolding try_acquire_search
  maybe_acquire tan fuel a s =
      if s.search_active && not (has_held_search s)
      then try_acquire_search tan fuel a.acquire_now a.rounds s
      else some (s, [])

  unfoldable pub do_report_position :
      (Double → Double)
      → ℕ
      → TaskAnswers Conn Asset Handle
      → PositionData
      → Smm Conn Asset Handle
      → Option (Smm Conn Asset Handle × List (Entry Conn Asset Handle))
  unfolding send_report maybe_acquire
  do_report_position tan fuel a pd s =
      let (s', es) = send_report a pd s in
      after_log (es ++ noted a.during_report)
        (maybe_acquire tan fuel a (requests s' a.during_report))

  abbrev pub resume_or_acquire :
      (Double → Double)
      → ℕ
      → TaskAnswers Conn Asset Handle
      → Option (SmmSearch Handle)
      → Smm Conn Asset Handle
      → Option (Smm Conn Asset Handle × List (Entry Conn Asset Handle))
  resume_or_acquire tan fuel a (some held) s =
      some (s, called s.callbacks.load_search_cb (load_search_called held))
  resume_or_acquire tan fuel a none s = try_acquire_search tan fuel a.acquire_now a.rounds s

  unfoldable pub do_search :
      (Double → Double)
      → ℕ
      → TaskAnswers Conn Asset Handle
      → Smm Conn Asset Handle
      → Option (Smm Conn Asset Handle × List (Entry Conn Asset Handle))
  unfolding try_acquire_search
  do_search tan fuel a s =
      resume_or_acquire tan fuel a s.current_search (record s { search_retry_ts = 0 })

  -- A held search that reaches a point; the search is shared, so its progress is stored in it.
  abbrev pub reach_held :
      Option (SmmSearch Handle)
      → ℤ
      → Smm Conn Asset Handle
      → Smm Conn Asset Handle × List (Entry Conn Asset Handle)
  reach_held none point s = (s, [])
  reach_held (some held) point s =
      let (held', completes, calls) = search_reached held point in
      if completes
      then (publish_search s none, search_calls calls ++ released held' ∷ rtl_call s)
      else (record s { current_search = some held' }, search_calls calls)

  unfoldable pub do_reached_point :
      ℤ → Smm Conn Asset Handle → Smm Conn Asset Handle × List (Entry Conn Asset Handle)
  unfolding search_reached publish_search
  do_reached_point point s = reach_held s.current_search point s

  abbrev pub with_session :
      Smm Conn Asset Handle
      → Session Conn Asset × List (Entry Conn Asset Handle)
      → Smm Conn Asset Handle × List (Entry Conn Asset Handle)
  with_session s (c, es) = (record s { session = c }, es)

  -- The visit of a task.
  unfoldable pub handle_task :
      (Double → Double)
      → ℕ
      → TaskAnswers Conn Asset Handle
      → SmmTask
      → Smm Conn Asset Handle
      → Option (Smm Conn Asset Handle × List (Entry Conn Asset Handle))
  unfolding do_connect do_report_position do_reached_point do_search maybe_acquire
  handle_task tan fuel a (connect_task host user pass name) s =
      some (with_session s (do_connect a.connecting s.config host user pass name s.session))
  handle_task tan fuel a (report_position_task pd) s = do_report_position tan fuel a pd s
  handle_task tan fuel a (reached_point_task point) s = some (do_reached_point point s)
  handle_task tan fuel a (search_task current_pos) s = do_search tan fuel a s
  handle_task tan fuel a (retry_pending_task current_pos) s = maybe_acquire tan fuel a s

  -- The destructor, when the worker has been joined.
  unfoldable pub destroy_smm :
      Smm Conn Asset Handle → Smm Conn Asset Handle × List (Entry Conn Asset Handle)
  unfolding disconnect
  destroy_smm s =
      let (c, es) = disconnect s.session in
      (record s { session = c; current_search = none }, es ++ let_go s.current_search)

-- What workerLoop does when it gets the lock.
pub data NextTask : Type 0 where
  waits returns : NextTask
  takes_task : SmmTask → List SmmTask → NextTask

unfoldable pub next_task : List SmmTask → Bool → NextTask
next_task [] true = waits
next_task [] false = returns
next_task (t ∷ ts) running = takes_task t ts
