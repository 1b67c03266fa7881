-- ===== src/Smm/Worker/Outcome/Acquire.antt =====
-- Each acquisition has one of the outcomes: src/smm/smm.cpp.
use fss_smm_mav.Prelude.{
  ℕ, zero, suc, ◌≡◌, refl, ◌∙◌, Bool, true, false, not, Option, none, some, List, ◌∷◌, ◌++◌,
  if◌then◌else◌,
}
use fss_smm_mav.Prelude.Double.{Double}
use fss_smm_mav.Smm.Search.{new_search, destroy_search, SmmSearch}
use fss_smm_mav.Smm.Worker.{
  noted, requests, called, search_calls, let_go, publish_search, Smm, Entry, asked_search,
  load_search_called, rtl_called,
}
use fss_smm_mav.Smm.Worker.Acquire.{
  fails_at, rtl_call, takes, load_call, judge, prefixed, destroy_fetched, on_fetched, attempt,
  after_log, go_on, acquire_loop, Round, Attempt, ended, retried,
}
use fss_smm_mav.Smm.Worker.Judged.{judge-Judged, Judged, taken, revoked, failed, refused}
use fss_smm_mav.Smm.Worker.Outcome.{
  flight_calls, after-Silent, before-Silent, Silent-append, noted-Silent, search_calls-Silent,
  let_go-Silent, Same-trans, requests-Same, prefixed-TurnedOut, Silent, Same, TurnedOut, loads,
  returns_home, gives_way,
}

module _ {Conn Asset Handle : Type 0} where
  abbrev RoundOutcome : (ℕ → Type 0) → Smm Conn Asset Handle → Attempt Conn Asset Handle → Type 0
  RoundOutcome Reading s (ended t es) = TurnedOut Reading s t es
  RoundOutcome Reading s (retried t es) = Silent es × Same s t

  pub rtl_calls : (s : Smm Conn Asset Handle) → flight_calls (rtl_call s) ≡ rtl_call s
  rtl_calls s = flight_called s.callbacks.rtl_cb
    where
      flight_called :
          (b : Bool)
          → flight_calls {Conn = Conn} {Asset = Asset} {Handle = Handle} (called b rtl_called)
            ≡ called b rtl_called
      flight_called true = refl
      flight_called false = refl

  load_calls :
      (b : Bool) (c : SmmSearch Handle)
      → flight_calls {Conn = Conn} {Asset = Asset} (called b (load_search_called c))
        ≡ called b (load_search_called c)
  load_calls true c = refl
  load_calls false c = refl

  module _ (Reading : ℕ → Type 0) where
    Judged-outcome :
        (n : ℕ) (r : Round Handle) (c : SmmSearch Handle) (s : Smm Conn Asset Handle)
        {a : Attempt Conn Asset Handle}
        → Reading r.now
        → Judged n r c s a
        → RoundOutcome Reading s a
    unfolding publish_search
    Judged-outcome n r c s q (taken {calls} k v y) =
        let s' = requests s r.during_accept in
        prefixed-TurnedOut Reading s s' (takes c s') (search_calls calls ++ noted r.during_accept)
          (load_call c s') (requests-Same s r.during_accept)
          (Silent-append (search_calls calls) (noted r.during_accept) (search_calls-Silent calls)
            (noted-Silent r.during_accept))
          (loads c v refl refl refl (
            after-Silent (let_go s'.current_search)
              (called s'.callbacks.load_search_cb (load_search_called c))
              (let_go-Silent s'.current_search)
            ∙ load_calls s'.callbacks.load_search_cb c))
    Judged-outcome n r c s q (revoked {calls} k e) =
        let s' = requests s r.during_accept in
        prefixed-TurnedOut Reading s s' s' (search_calls calls ++ noted r.during_accept)
          (search_calls (destroy_search c)) (requests-Same s r.during_accept)
          (Silent-append (search_calls calls) (noted r.during_accept) (search_calls-Silent calls)
            (noted-Silent r.during_accept))
          (gives_way e refl refl (search_calls-Silent (destroy_search c)).silent)
    Judged-outcome n r c s q (failed {calls} k e l) =
        let s' = requests s r.during_accept in
        prefixed-TurnedOut Reading s s' (fails_at r.now s')
          (search_calls calls ++ noted r.during_accept)
          (rtl_call s' ++ search_calls (destroy_search c)) (requests-Same s r.during_accept)
          (Silent-append (search_calls calls) (noted r.during_accept) (search_calls-Silent calls)
            (noted-Silent r.during_accept))
          (returns_home r.now q refl refl (
            before-Silent (rtl_call s') (search_calls (destroy_search c))
              (search_calls-Silent (destroy_search c))
            ∙ rtl_calls s'))
    Judged-outcome n r c s q (refused {calls} k e l) = (
      Silent-append (search_calls calls ++ noted r.during_accept) (search_calls (destroy_search c))
          (Silent-append (search_calls calls) (noted r.during_accept) (search_calls-Silent calls)
            (noted-Silent r.during_accept))
          (search_calls-Silent (destroy_search c)),
      requests-Same s r.during_accept,
    )

    prefixed_round :
        (s s' : Smm Conn Asset Handle) (log : List (Entry Conn Asset Handle))
        (a : Attempt Conn Asset Handle)
        → Same s s'
        → Silent log
        → RoundOutcome Reading s' a
        → RoundOutcome Reading s (prefixed log a)
    prefixed_round s s' log (ended t es) m q o = prefixed-TurnedOut Reading s s' t log es m q o
    prefixed_round s s' log (retried t es) m q o = (Silent-append log es q o.0, Same-trans m o.1)

    destroy_fetched-Silent :
        (f : Option Handle) → Silent {Conn = Conn} {Asset = Asset} (destroy_fetched f)
    destroy_fetched-Silent none = record { silent = refl }
    destroy_fetched-Silent (some h) = record { silent = refl }

    either_round :
        (s : Smm Conn Asset Handle) (b : Bool) (x y : Attempt Conn Asset Handle)
        → (b ≡ false → RoundOutcome Reading s x)
        → RoundOutcome Reading s y
        → RoundOutcome Reading s (if not b then x else y)
    either_round s true x y h k = k
    either_round s false x y h k = h refl

    module _ (tan : Double → Double) where
      on_fetched_outcome :
          (n : ℕ) (r : Round Handle) (f : Option Handle) (s : Smm Conn Asset Handle)
          → Reading r.now
          → RoundOutcome Reading s (on_fetched tan n r f s)
      on_fetched_outcome n r none s q = returns_home r.now q refl refl (rtl_calls s)
      on_fetched_outcome n r (some h) s q =
          let c =
            new_search tan s.config.altitude_cap s.config.altitude_floor s.config.camera_fov_deg h
              r.waypoints r.sweep_width in
          let s' = requests s r.before_accept in
          prefixed_round s s' (noted r.before_accept) (judge n r c s')
            (requests-Same s r.before_accept) (noted-Silent r.before_accept)
            (Judged-outcome n r c s' q (judge-Judged n r c s'))

      attempt_outcome :
          (n : ℕ) (r : Round Handle) (s : Smm Conn Asset Handle)
          → Reading r.now
          → RoundOutcome Reading s (attempt tan n r s)
      unfolding attempt
      attempt_outcome n r s q =
          let s' = requests s r.during_fetch in
          let log = asked_search s.session.asset r.fetched ∷ noted r.during_fetch in
          let quiet : Silent log = record { silent = (noted-Silent r.during_fetch).silent } in
          either_round s s'.search_active (ended s' (log ++ destroy_fetched r.fetched))
            (prefixed log (on_fetched tan n r r.fetched s'))
            (λ off.
              prefixed-TurnedOut Reading s s' s' log (destroy_fetched r.fetched)
                (requests-Same s r.during_fetch) quiet
                (gives_way off refl refl (destroy_fetched-Silent r.fetched).silent))
            (prefixed_round s s' log (on_fetched tan n r r.fetched s')
              (requests-Same s r.during_fetch) quiet (on_fetched_outcome n r r.fetched s' q))

  -- The outcome of a loop that ends.
  abbrev pub LoopOutcome :
      (ℕ → Type 0)
      → Smm Conn Asset Handle
      → Option (Smm Conn Asset Handle × List (Entry Conn Asset Handle))
      → Type 0
  LoopOutcome Reading s none = Unit
  LoopOutcome Reading s (some (t, es)) = TurnedOut Reading s t es

  module _ (Reading : ℕ → Type 0) (tan : Double → Double) where
    after_log_outcome :
        (s s' : Smm Conn Asset Handle) (log : List (Entry Conn Asset Handle))
        (o : Option (Smm Conn Asset Handle × List (Entry Conn Asset Handle)))
        → Silent log
        → Same s s'
        → LoopOutcome Reading s' o
        → LoopOutcome Reading s (after_log log o)
    after_log_outcome s s' log none q m k = tt
    after_log_outcome s s' log (some (t, es)) q m k = prefixed-TurnedOut Reading s s' t log es m q k

    go_on_outcome :
        (s : Smm Conn Asset Handle) (a : Attempt Conn Asset Handle)
        (next_round : Smm Conn Asset Handle
          → Option (Smm Conn Asset Handle × List (Entry Conn Asset Handle)))
        → RoundOutcome Reading s a
        → ((t : Smm Conn Asset Handle) → LoopOutcome Reading t (next_round t))
        → LoopOutcome Reading s (go_on a next_round)
    go_on_outcome s (ended t es) next_round h k = h
    go_on_outcome s (retried t es) next_round h k =
        after_log_outcome s t es (next_round t) h.0 h.1 (k t)

    pub acquire_loop_outcome :
        (fuel n : ℕ) (rounds : ℕ → Round Handle) (s : Smm Conn Asset Handle)
        → ((m : ℕ) → Reading (rounds m).now)
        → LoopOutcome Reading s (acquire_loop tan fuel n rounds s)
    unfolding acquire_loop
    acquire_loop_outcome zero n rounds s q = tt
    acquire_loop_outcome (suc fuel) n rounds s q =
        go_on_outcome s (attempt tan n (rounds n) s) (λ s'. acquire_loop tan fuel (suc n) rounds s')
          (attempt_outcome Reading tan n (rounds n) s (q n))
          (λ t. acquire_loop_outcome fuel (suc n) rounds t q)
