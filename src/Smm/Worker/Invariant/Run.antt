-- ===== src/Smm/Worker/Invariant/Run.antt =====
-- Every task of the worker keeps the invariant: src/smm/smm.cpp.
use fss_smm_mav.Dispatch.{PositionData}
use fss_smm_mav.Prelude.{
  ℕ, zero, suc, ◌+◌, ◌%◌, ◌^◌, inl, inr, Bool, true, false, not, Option, none, some, List, ◌∷◌,
  ◌++◌, if◌then◌else◌, Bool-cases,
}
use fss_smm_mav.Prelude.Double.{Double}
use fss_smm_mav.Smm.Search.{new_search, SmmSearch}
use fss_smm_mav.Smm.Worker.{
  noted, requests, publish_search, Smm, OperatorCommand, command_unknown, command_abandon_search,
  command_mission_complete, command_other, Entry, asked_search,
}
use fss_smm_mav.Smm.Worker.Acquire.{
  search_acquire_action, search_retry_interval_ms, is_some, judge, prefixed, destroy_fetched,
  on_fetched, attempt, after_log, go_on, acquire_loop, start_acquire, try_acquire_search, Round,
  SearchAcquireAction, backoff, disconnected_rtl, fetch, Attempt, ended, retried,
}
use fss_smm_mav.Smm.Worker.Invariant.{Inv, requests-Inv, publish-Inv, retry-Inv}
use fss_smm_mav.Smm.Worker.Judged.{judge-Judged, Judged, taken, revoked, failed, refused}
use fss_smm_mav.Smm.Worker.Tasks.{
  same_command, on_command, check_operator_command, is_due, send_report, TaskAnswers,
}

module _ {Conn Asset Handle : Type 0} where
  abbrev RoundInv : Attempt Conn Asset Handle → Type 0
  RoundInv (ended t es) = Inv t
  RoundInv (retried t es) = Inv t

  abbrev pub TaskInv : Option (Smm Conn Asset Handle × List (Entry Conn Asset Handle)) → Type 0
  TaskInv none = Unit
  TaskInv (some r) = Inv r.0

  Judged-Inv :
      (n : ℕ) (r : Round Handle) (c : SmmSearch Handle) (s : Smm Conn Asset Handle)
      {a : Attempt Conn Asset Handle}
      → Inv s
      → Judged n r c s a
      → RoundInv a
  Judged-Inv n r c s h (taken k v y) =
      retry-Inv (publish_search (requests s r.during_accept) (some c)) 0
        (publish-Inv (requests s r.during_accept) (some c) (requests-Inv s r.during_accept h))
  Judged-Inv n r c s h (revoked k e) = requests-Inv s r.during_accept h
  Judged-Inv n r c s h (failed k e l) =
      retry-Inv (requests s r.during_accept) ((r.now + search_retry_interval_ms) % 2 ^ 64)
        (requests-Inv s r.during_accept h)
  Judged-Inv n r c s h (refused k e l) = requests-Inv s r.during_accept h

  prefixed-Inv :
      (log : List (Entry Conn Asset Handle)) (a : Attempt Conn Asset Handle)
      → RoundInv a
      → RoundInv (prefixed log a)
  prefixed-Inv log (ended t es) h = h
  prefixed-Inv log (retried t es) h = h

  either_round-Inv :
      (b : Bool) (x y : Attempt Conn Asset Handle)
      → RoundInv x
      → RoundInv y
      → RoundInv (if not b then x else y)
  either_round-Inv true x y h k = k
  either_round-Inv false x y h k = h

  pub after_log-Inv :
      (log : List (Entry Conn Asset Handle))
      (o : Option (Smm Conn Asset Handle × List (Entry Conn Asset Handle)))
      → TaskInv o
      → TaskInv (after_log log o)
  after_log-Inv log none h = h
  after_log-Inv log (some (t, es)) h = h

  go_on-Inv :
      (a : Attempt Conn Asset Handle)
      (next_round : Smm Conn Asset Handle
        → Option (Smm Conn Asset Handle × List (Entry Conn Asset Handle)))
      → RoundInv a
      → ((t : Smm Conn Asset Handle) → Inv t → TaskInv (next_round t))
      → TaskInv (go_on a next_round)
  go_on-Inv (ended t es) next_round h k = h
  go_on-Inv (retried t es) next_round h k = after_log-Inv es (next_round t) (k t h)

  pub either-Inv :
      (b : Bool) (x y : Option (Smm Conn Asset Handle × List (Entry Conn Asset Handle)))
      → TaskInv x
      → TaskInv y
      → TaskInv (if b then x else y)
  either-Inv true x y h k = h
  either-Inv false x y h k = k

  module _ (tan : Double → Double) where
    on_fetched-Inv :
        (n : ℕ) (r : Round Handle) (f : Option Handle) (s : Smm Conn Asset Handle)
        → Inv s
        → RoundInv (on_fetched tan n r f s)
    on_fetched-Inv n r none s h = retry-Inv s ((r.now + search_retry_interval_ms) % 2 ^ 64) h
    on_fetched-Inv n r (some k) s h =
        let c =
          new_search tan s.config.altitude_cap s.config.altitude_floor s.config.camera_fov_deg k
            r.waypoints r.sweep_width in
        let s' = requests s r.before_accept in
        prefixed-Inv (noted r.before_accept) (judge n r c s')
          (Judged-Inv n r c s' (requests-Inv s r.before_accept h) (judge-Judged n r c s'))

    attempt-Inv :
        (n : ℕ) (r : Round Handle) (s : Smm Conn Asset Handle)
        → Inv s
        → RoundInv (attempt tan n r s)
    unfolding attempt
    attempt-Inv n r s h =
        let s' = requests s r.during_fetch in
        let log = asked_search s.session.asset r.fetched ∷ noted r.during_fetch in
        let k = requests-Inv s r.during_fetch h in
        either_round-Inv s'.search_active (ended s' (log ++ destroy_fetched r.fetched))
          (prefixed log (on_fetched tan n r r.fetched s')) k
          (prefixed-Inv log (on_fetched tan n r r.fetched s') (on_fetched-Inv n r r.fetched s' k))

    acquire_loop-Inv :
        (fuel n : ℕ) (rounds : ℕ → Round Handle) (s : Smm Conn Asset Handle)
        → Inv s
        → TaskInv (acquire_loop tan fuel n rounds s)
    unfolding acquire_loop
    acquire_loop-Inv zero n rounds s h = tt
    acquire_loop-Inv (suc fuel) n rounds s h =
        go_on-Inv (attempt tan n (rounds n) s) (λ s'. acquire_loop tan fuel (suc n) rounds s')
          (attempt-Inv n (rounds n) s h) (λ t k. acquire_loop-Inv fuel (suc n) rounds t k)

    start-Inv :
        (fuel : ℕ) (action : SearchAcquireAction) (now : ℕ) (rounds : ℕ → Round Handle)
        (s : Smm Conn Asset Handle)
        → Inv s
        → TaskInv (start_acquire tan fuel action now rounds s)
    start-Inv fuel backoff now rounds s h = h
    start-Inv fuel disconnected_rtl now rounds s h =
        retry-Inv s ((now + search_retry_interval_ms) % 2 ^ 64) h
    start-Inv fuel fetch now rounds s h = acquire_loop-Inv fuel 0 rounds s h

    pub try_acquire-Inv :
        (fuel now : ℕ) (rounds : ℕ → Round Handle) (s : Smm Conn Asset Handle)
        → Inv s
        → TaskInv (try_acquire_search tan fuel now rounds s)
    unfolding try_acquire_search
    try_acquire-Inv fuel now rounds s h =
        start-Inv fuel (search_acquire_action (is_some s.session.asset) s.search_retry_ts now) now
          rounds s h

  seen-Inv :
      (s : Smm Conn Asset Handle) (cmd : OperatorCommand)
      → Inv s
      → Inv (record s { last_seen_operator_command = cmd })
  seen-Inv s cmd h = record {
    points = h.points;
    whole = h.whole;
    one_report = h.one_report;
    one_retry = h.one_retry;
  }

  command-Inv :
      (cmd : OperatorCommand) (s : Smm Conn Asset Handle) → Inv s → Inv (on_command cmd s).0
  command-Inv command_unknown s h = h
  command-Inv (command_other n) s h = h
  command-Inv command_mission_complete s h = h
  command-Inv command_abandon_search s h =
      retry-Inv (publish_search s none) 0 (publish-Inv s none h)

  check-Inv :
      (cmd : OperatorCommand) (s : Smm Conn Asset Handle)
      → Inv s
      → Inv (check_operator_command cmd s).0
  unfolding check_operator_command
  check-Inv cmd s h = elim (Bool-cases (same_command cmd s.last_seen_operator_command)) [
    | inl e ↦ rw e h
    | inr e ↦ rw e (command-Inv cmd _ (seen-Inv s cmd h))
  ]

  reported-Inv :
      (s : Smm Conn Asset Handle) (ts : ℕ) → Inv s → Inv (record s { position_report_last_ts = ts })
  reported-Inv s ts h = record {
    points = h.points;
    whole = h.whole;
    one_report = h.one_report;
    one_retry = h.one_retry;
  }

  pub send_report-Inv :
      (a : TaskAnswers Conn Asset Handle) (pd : PositionData) (s : Smm Conn Asset Handle)
      → Inv s
      → Inv (send_report a pd s).0
  unfolding send_report
  send_report-Inv a pd s h = elim (Bool-cases (is_due a.report_now s)) [
    | inl e ↦ rw e (reported-Inv _ a.report_now (check-Inv a.last_command s h))
    | inr e ↦ rw e h
  ]
