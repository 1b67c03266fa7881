-- ===== src/Smm/Worker/Ends.antt =====
-- The loop of tryAcquireSearch in src/smm/smm.cpp ends. Ends/Tasks is about the tasks.
pub mod Tasks
use fss_smm_mav.Prelude.{
  ℕ, zero, suc, ◌+◌, ◌≤◌, ◌<◌, ◌≡◌, refl, subst, Bool, true, false, not, Option, none, some, List,
  [], ◌∷◌, ◌++◌, arith, leb, if◌then◌else◌,
}
use fss_smm_mav.Prelude.Double.{Double}
use fss_smm_mav.Smm.Search.{new_search, destroy_search, SmmSearch, SearchCall}
use fss_smm_mav.Smm.Worker.{
  noted, requests, called, search_calls, let_go, Smm, Request, Entry, asked_search,
  load_search_called, rtl_called,
}
use fss_smm_mav.Smm.Worker.Acquire.{
  search_acquire_action, is_some, judge, prefixed, destroy_fetched, on_fetched, attempt, after_log,
  go_on, acquire_loop, start_acquire, try_acquire_search, Round, SearchAcquireAction, backoff,
  disconnected_rtl, fetch, Attempt, ended, retried,
}
use fss_smm_mav.Smm.Worker.Judged.{judge-Judged, Judged, taken, revoked, failed, refused}

module _ {Conn Asset Handle : Type 0} where
  abbrev pub is_fetch : Entry Conn Asset Handle → Bool
  is_fetch (asked_search asset h) = true
  is_fetch _ = false

  -- How often a search is asked for.
  abbrev pub fetches : List (Entry Conn Asset Handle) → ℕ
  fetches [] = 0
  fetches (e ∷ es) = (if is_fetch e then 1 else 0) + fetches es

  fetches-append :
      (es fs : List (Entry Conn Asset Handle)) → fetches (es ++ fs) ≡ fetches es + fetches fs
  fetches-append [] fs = omega arith
  fetches-append (e ∷ es) fs = omega (arith, fetches-append es fs)

  record NoFetch (es : List (Entry Conn Asset Handle)) : Type 0 where
    zero_fetches : fetches es ≡ 0

  NoFetch-append :
      (es fs : List (Entry Conn Asset Handle)) → NoFetch es → NoFetch fs → NoFetch (es ++ fs)
  NoFetch-append es fs h k = record {
    zero_fetches = omega (arith, fetches-append es fs, h.zero_fetches, k.zero_fetches);
  }

  noted-NoFetch : (rs : List Request) → NoFetch (noted rs)
  noted-NoFetch [] = record { zero_fetches = refl }
  noted-NoFetch (r ∷ rs) = record { zero_fetches = omega (arith, (noted-NoFetch rs).zero_fetches) }

  search_calls-NoFetch : (calls : List (SearchCall Handle)) → NoFetch (search_calls calls)
  search_calls-NoFetch [] = record { zero_fetches = refl }
  search_calls-NoFetch (c ∷ calls) = record {
    zero_fetches = omega (arith, (search_calls-NoFetch calls).zero_fetches);
  }

  called-NoFetch :
      (registered : Bool) (e : Entry Conn Asset Handle)
      → is_fetch e ≡ false
      → NoFetch (called registered e)
  called-NoFetch true e h = record { zero_fetches = simp h refl }
  called-NoFetch false e h = record { zero_fetches = refl }

  let_go-NoFetch : (held : Option (SmmSearch Handle)) → NoFetch (let_go held)
  let_go-NoFetch none = record { zero_fetches = refl }
  let_go-NoFetch (some c) = record { zero_fetches = refl }

  -- A round without its fetch.
  abbrev QuietRound : ℕ → Attempt Conn Asset Handle → Type 0
  QuietRound n (ended t es) = NoFetch es
  QuietRound n (retried t es) = NoFetch es × (leb 3 (suc n) ≡ false)

  -- The entries of a round, with the test that a round goes on only before the third retry.
  abbrev RoundFetches : ℕ → Attempt Conn Asset Handle → Type 0
  RoundFetches n (ended t es) = fetches es ≡ 1
  RoundFetches n (retried t es) = (fetches es ≡ 1) × (leb 3 (suc n) ≡ false)

  Judged-fetches :
      (n : ℕ) (r : Round Handle) (c : SmmSearch Handle) (s : Smm Conn Asset Handle)
      {a : Attempt Conn Asset Handle}
      → Judged n r c s a
      → QuietRound n a
  Judged-fetches n r c s (taken {calls} k v y) =
      let s' = requests s r.during_accept in
      NoFetch-append _ _
        (NoFetch-append _ _ (search_calls-NoFetch calls) (noted-NoFetch r.during_accept))
        (NoFetch-append _ _ (let_go-NoFetch s'.current_search)
          (called-NoFetch s'.callbacks.load_search_cb (load_search_called c) refl))
  Judged-fetches n r c s (revoked {calls} k e) =
      NoFetch-append _ _
        (NoFetch-append _ _ (search_calls-NoFetch calls) (noted-NoFetch r.during_accept))
        (search_calls-NoFetch (destroy_search c))
  Judged-fetches n r c s (failed {calls} k e l) =
      let s' = requests s r.during_accept in
      NoFetch-append _ _
        (NoFetch-append _ _ (search_calls-NoFetch calls) (noted-NoFetch r.during_accept))
        (NoFetch-append _ _ (called-NoFetch s'.callbacks.rtl_cb rtl_called refl)
          (search_calls-NoFetch (destroy_search c)))
  Judged-fetches n r c s (refused {calls} k e l) = (
    NoFetch-append _ _
        (NoFetch-append _ _ (search_calls-NoFetch calls) (noted-NoFetch r.during_accept))
        (search_calls-NoFetch (destroy_search c)),
    l,
  )

  prefixed_quiet :
      (n : ℕ) (log : List (Entry Conn Asset Handle)) (a : Attempt Conn Asset Handle)
      → NoFetch log
      → QuietRound n a
      → QuietRound n (prefixed log a)
  prefixed_quiet n log (ended t es) h e = NoFetch-append log es h e
  prefixed_quiet n log (retried t es) h e = (NoFetch-append log es h e.0, e.1)

  prefixed-fetches :
      (n : ℕ) (log : List (Entry Conn Asset Handle)) (a : Attempt Conn Asset Handle)
      → fetches log ≡ 1
      → QuietRound n a
      → RoundFetches n (prefixed log a)
  prefixed-fetches n log (ended t es) h e = omega (arith, fetches-append log es, e.zero_fetches)
  prefixed-fetches n log (retried t es) h e =
      (omega (arith, fetches-append log es, e.0.zero_fetches), e.1)

  either_fetches :
      (n : ℕ) (b : Bool) (x y : Attempt Conn Asset Handle)
      → RoundFetches n x
      → RoundFetches n y
      → RoundFetches n (if not b then x else y)
  either_fetches n true x y h e = e
  either_fetches n false x y h e = h

  destroy_fetched-NoFetch : (f : Option Handle) → NoFetch (destroy_fetched f)
  destroy_fetched-NoFetch none = record { zero_fetches = refl }
  destroy_fetched-NoFetch (some h) = record { zero_fetches = refl }

  module _ (tan : Double → Double) where
    on_fetched_fetches :
        (n : ℕ) (r : Round Handle) (f : Option Handle) (s : Smm Conn Asset Handle)
        → QuietRound n (on_fetched tan n r f s)
    on_fetched_fetches n r none s = called-NoFetch s.callbacks.rtl_cb rtl_called refl
    on_fetched_fetches n r (some h) s =
        let c =
          new_search tan s.config.altitude_cap s.config.altitude_floor s.config.camera_fov_deg h
            r.waypoints r.sweep_width in
        let s' = requests s r.before_accept in
        prefixed_quiet n (noted r.before_accept) (judge n r c s') (noted-NoFetch r.before_accept)
          (Judged-fetches n r c s' (judge-Judged n r c s'))

    attempt_fetches :
        (n : ℕ) (r : Round Handle) (s : Smm Conn Asset Handle) → RoundFetches n (attempt tan n r s)
    unfolding attempt
    attempt_fetches n r s =
        let s' = requests s r.during_fetch in
        let log = asked_search s.session.asset r.fetched ∷ noted r.during_fetch in
        let once : fetches log ≡ 1 = omega (arith, (noted-NoFetch r.during_fetch).zero_fetches) in
        either_fetches n s'.search_active (ended s' (log ++ destroy_fetched r.fetched))
          (prefixed log (on_fetched tan n r r.fetched s'))
          (omega (
            arith,
            once,
            fetches-append log (destroy_fetched r.fetched),
            (destroy_fetched-NoFetch r.fetched).zero_fetches,
          ))
          (prefixed-fetches n log (on_fetched tan n r r.fetched s') once
            (on_fetched_fetches n r r.fetched s'))

  -- The loop has ended, after at most `k` fetches.
  abbrev EndsWithin : ℕ → Option (Smm Conn Asset Handle × List (Entry Conn Asset Handle)) → Type 0
  EndsWithin k none = ⊥
  EndsWithin k (some (t, es)) = fetches es ≤ k

  after_log_ends :
      (k m : ℕ) (log : List (Entry Conn Asset Handle))
      (o : Option (Smm Conn Asset Handle × List (Entry Conn Asset Handle)))
      → fetches log ≡ m
      → EndsWithin k o
      → EndsWithin (m + k) (after_log log o)
  after_log_ends k m log none h e = e
  after_log_ends k m log (some (t, es)) h e = omega (arith, fetches-append log es)

  go_on_ends :
      (n fuel : ℕ) (a : Attempt Conn Asset Handle)
      (next_round : Smm Conn Asset Handle
        → Option (Smm Conn Asset Handle × List (Entry Conn Asset Handle)))
      → n + suc fuel ≡ 3
      → RoundFetches n a
      → ((t : Smm Conn Asset Handle) → 0 < fuel → EndsWithin fuel (next_round t))
      → EndsWithin (1 + fuel) (go_on a next_round)
  go_on_ends n fuel (ended t es) next_round e h k = omega (arith, h)
  go_on_ends n fuel (retried t es) next_round e h k =
      after_log_ends fuel 1 es (next_round t) h.0 (k t (ground (arith, h.1)))

  module _ (tan : Double → Double) where
    acquire_loop_ends :
        (fuel n : ℕ) (rounds : ℕ → Round Handle) (s : Smm Conn Asset Handle)
        → n + fuel ≡ 3
        → 0 < fuel
        → EndsWithin fuel (acquire_loop tan fuel n rounds s)
    unfolding acquire_loop
    acquire_loop_ends zero n rounds s e p = absurd (omega arith)
    acquire_loop_ends (suc fuel) n rounds s e p =
        subst (λ k. EndsWithin k (acquire_loop tan (suc fuel) n rounds s)) (omega arith)
          (go_on_ends n fuel (attempt tan n (rounds n) s)
            (λ s'. acquire_loop tan fuel (suc n) rounds s') e (attempt_fetches tan n (rounds n) s)
            (λ t q. acquire_loop_ends fuel (suc n) rounds t (omega arith) q))

    try_acquire_ends :
        (now : ℕ) (rounds : ℕ → Round Handle) (s : Smm Conn Asset Handle)
        → EndsWithin 3 (try_acquire_search tan 3 now rounds s)
    unfolding try_acquire_search
    try_acquire_ends now rounds s =
        start_ends (search_acquire_action (is_some s.session.asset) s.search_retry_ts now) now
          rounds s
      where
        start_ends :
            (action : SearchAcquireAction) (now : ℕ) (rounds : ℕ → Round Handle)
            (s : Smm Conn Asset Handle)
            → EndsWithin 3 (start_acquire tan 3 action now rounds s)
        start_ends backoff now rounds s = omega arith
        start_ends disconnected_rtl now rounds s =
            omega (arith, (called-NoFetch s.callbacks.rtl_cb rtl_called refl).zero_fetches)
        start_ends fetch now rounds s = acquire_loop_ends 3 0 rounds s refl (omega arith)

  returned :
      (k : ℕ) (o : Option (Smm Conn Asset Handle × List (Entry Conn Asset Handle)))
      → EndsWithin k o
      → (t : Smm Conn Asset Handle) × (es : List (Entry Conn Asset Handle)) × (o ≡ some (t, es))
        × (fetches es ≤ k)
  returned k none h = absurd h
  returned k (some (t, es)) h = (t, es, refl, h)

  -- Whatever the library answers and other threads do, tryAcquireSearch returns, and asks for a
  -- search three times at most.
  pub acquisition_ends :
      (tan : Double → Double) (now : ℕ) (rounds : ℕ → Round Handle) (s : Smm Conn Asset Handle)
      → (t : Smm Conn Asset Handle) × (es : List (Entry Conn Asset Handle)) × (try_acquire_search
            tan 3 now rounds s
          ≡ some (t, es))
        × (fetches es ≤ 3)
  acquisition_ends tan now rounds s =
      returned 3 (try_acquire_search tan 3 now rounds s) (try_acquire_ends tan now rounds s)
