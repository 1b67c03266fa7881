-- ===== src/Smm/Worker/Searches/Acquire.antt =====
-- The acquisition loop loses no search that it is given: src/smm/smm.cpp.
use fss_smm_mav.Prelude.{
  ℕ, zero, suc, refl, Bool, true, false, Option, none, some, List, [], ◌∷◌, ◌++◌, All,
  if◌then◌else◌,
}
use fss_smm_mav.Prelude.Double.{Double}
use fss_smm_mav.Smm.Search.{new_search, new_search-handle}
use fss_smm_mav.Smm.Worker.{
  noted, requests, Smm, Entry, opened, timeouts_set, logged_in, closed, freed, asked_search,
  rtl_called,
}
use fss_smm_mav.Smm.Worker.Acquire.{
  search_acquire_action, is_some, judge, prefixed, destroy_fetched, on_fetched, attempt, after_log,
  go_on, acquire_loop, start_acquire, try_acquire_search, Round, SearchAcquireAction, backoff,
  disconnected_rtl, fetch, Attempt, ended, retried,
}
use fss_smm_mav.Smm.Worker.Judged.{judge-Judged}
use fss_smm_mav.Smm.Worker.Searches.{
  handles, held_handles, nothing-Balances, append-Balances, Balances,
}
use fss_smm_mav.Smm.Worker.Searches.Rounds.{
  noted-Balances, called-Balances, requests-held, RoundBalances, Judged-Balances, prefix-Balances,
  either-Balances, destroy_fetched-Balances, fetch-Balances,
}
use fss_smm_mav.Smm.Worker.Sessions.{IsSessionCall}

module _ {Conn Asset Handle : Type 0} where
  pub session-Balances :
      (a : List Handle) (es : List (Entry Conn Asset Handle))
      → All IsSessionCall es
      → Balances a es a
  session-Balances a [] h = nothing-Balances a
  session-Balances a (opened k ∷ es) h = record { balance = (session-Balances a es h.1).balance }
  session-Balances a (timeouts_set k c t ∷ es) h = record {
    balance = (session-Balances a es h.1).balance;
  }
  session-Balances a (logged_in k ∷ es) h = record { balance = (session-Balances a es h.1).balance }
  session-Balances a (closed k ∷ es) h = record { balance = (session-Balances a es h.1).balance }
  session-Balances a (freed l ∷ es) h = record { balance = (session-Balances a es h.1).balance }
  session-Balances a (_ ∷ es) h = absurd h.0

  abbrev pub StepBalances :
      List Handle → Smm Conn Asset Handle × List (Entry Conn Asset Handle) → Type 0
  StepBalances a r = Balances a r.1 (held_handles r.0.current_search)

  abbrev pub TaskBalances :
      List Handle → Option (Smm Conn Asset Handle × List (Entry Conn Asset Handle)) → Type 0
  TaskBalances a none = Unit
  TaskBalances a (some r) = StepBalances a r

  pub after_log-Balances :
      (a b : List Handle) (log : List (Entry Conn Asset Handle))
      (o : Option (Smm Conn Asset Handle × List (Entry Conn Asset Handle)))
      → Balances a log b
      → TaskBalances b o
      → TaskBalances a (after_log log o)
  after_log-Balances a b log none h k = tt
  after_log-Balances a b log (some (t, es)) h k = append-Balances log es h k

  pub either_step-Balances :
      (a : List Handle) (test : Bool) (x y : Smm Conn Asset Handle × List (Entry Conn Asset Handle))
      → StepBalances a x
      → StepBalances a y
      → StepBalances a (if test then x else y)
  either_step-Balances a true x y h k = h
  either_step-Balances a false x y h k = k

  pub either_task-Balances :
      (a : List Handle) (test : Bool)
      (x y : Option (Smm Conn Asset Handle × List (Entry Conn Asset Handle)))
      → TaskBalances a x
      → TaskBalances a y
      → TaskBalances a (if test then x else y)
  either_task-Balances a true x y h k = h
  either_task-Balances a false x y h k = k

  abbrev pub held : Smm Conn Asset Handle → List Handle
  held s = held_handles s.current_search

  module _ (tan : Double → Double) where
    on_fetched-Balances :
        (n : ℕ) (r : Round Handle) (f : Option Handle) (s : Smm Conn Asset Handle)
        → RoundBalances (handles f ++ held s) (on_fetched tan n r f s)
    on_fetched-Balances n r none s =
        called-Balances (held s) s.callbacks.rtl_cb rtl_called (refl, refl)
    on_fetched-Balances n r (some h) s =
        let c =
          new_search tan s.config.altitude_cap s.config.altitude_floor s.config.camera_fov_deg h
            r.waypoints r.sweep_width in
        let s' = requests s r.before_accept in
        prefix-Balances (h ∷ held s) (h ∷ held s') (noted r.before_accept) (judge n r c s')
          (rw (requests-held s r.before_accept) (noted-Balances (h ∷ held s) r.before_accept))
          (Judged-Balances n r h c s'
            (new_search-handle tan s.config.altitude_cap s.config.altitude_floor
              s.config.camera_fov_deg h r.waypoints r.sweep_width)
            (judge-Judged n r c s'))

    attempt-Balances :
        (n : ℕ) (r : Round Handle) (s : Smm Conn Asset Handle)
        → RoundBalances (held s) (attempt tan n r s)
    unfolding attempt
    attempt-Balances n r s =
        let s' = requests s r.during_fetch in
        let log = asked_search s.session.asset r.fetched ∷ noted r.during_fetch in
        let fetching : Balances (held s) log (handles r.fetched ++ held s') =
          rw (requests-held s r.during_fetch)
            (fetch-Balances (held s) s.session.asset r.fetched r.during_fetch) in
        either-Balances (held s) s'.search_active (ended s' (log ++ destroy_fetched r.fetched))
          (prefixed log (on_fetched tan n r r.fetched s'))
          (append-Balances log (destroy_fetched r.fetched) fetching
            (destroy_fetched-Balances (held s') r.fetched))
          (prefix-Balances (held s) (handles r.fetched ++ held s') log
            (on_fetched tan n r r.fetched s') fetching (on_fetched-Balances n r r.fetched s'))

    go_on-Balances :
        (a : List Handle) (x : Attempt Conn Asset Handle)
        (next_round : Smm Conn Asset Handle
          → Option (Smm Conn Asset Handle × List (Entry Conn Asset Handle)))
        → RoundBalances a x
        → ((t : Smm Conn Asset Handle) → TaskBalances (held t) (next_round t))
        → TaskBalances a (go_on x next_round)
    go_on-Balances a (ended t es) next_round h k = h
    go_on-Balances a (retried t es) next_round h k =
        after_log-Balances a (held t) es (next_round t) h (k t)

    acquire_loop-Balances :
        (fuel n : ℕ) (rounds : ℕ → Round Handle) (s : Smm Conn Asset Handle)
        → TaskBalances (held s) (acquire_loop tan fuel n rounds s)
    unfolding acquire_loop
    acquire_loop-Balances zero n rounds s = tt
    acquire_loop-Balances (suc fuel) n rounds s =
        go_on-Balances (held s) (attempt tan n (rounds n) s)
          (λ s'. acquire_loop tan fuel (suc n) rounds s') (attempt-Balances n (rounds n) s)
          (λ t. acquire_loop-Balances fuel (suc n) rounds t)

    start-Balances :
        (fuel : ℕ) (action : SearchAcquireAction) (now : ℕ) (rounds : ℕ → Round Handle)
        (s : Smm Conn Asset Handle)
        → TaskBalances (held s) (start_acquire tan fuel action now rounds s)
    start-Balances fuel backoff now rounds s = nothing-Balances (held s)
    start-Balances fuel disconnected_rtl now rounds s =
        called-Balances (held s) s.callbacks.rtl_cb rtl_called (refl, refl)
    start-Balances fuel fetch now rounds s = acquire_loop-Balances fuel 0 rounds s

    pub try_acquire-Balances :
        (fuel now : ℕ) (rounds : ℕ → Round Handle) (s : Smm Conn Asset Handle)
        → TaskBalances (held s) (try_acquire_search tan fuel now rounds s)
    unfolding try_acquire_search
    try_acquire-Balances fuel now rounds s =
        start-Balances fuel (search_acquire_action (is_some s.session.asset) s.search_retry_ts now)
          now rounds s
