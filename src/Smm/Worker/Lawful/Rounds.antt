-- ===== src/Smm/Worker/Lawful/Rounds.antt =====
-- The acquisition of a search calls the library lawfully: src/smm/smm.cpp.
use fss_smm_mav.Prelude.{
  ℕ, zero, suc, ◌≡◌, refl, sym, subst, ◌∙◌, inl, inr, Bool, true, false, not, Option, none, some,
  List, ◌∷◌, ◌++◌, ltb, if◌then◌else◌, Bool-cases, Option-cases,
}
use fss_smm_mav.Prelude.Double.{Double}
use fss_smm_mav.Smm.Search.{new_search, destroy_search, SmmSearch, SearchCall}
use fss_smm_mav.Smm.Worker.{
  noted, requests, called, search_calls, let_go, publish_search, Session, Smm, Entry, asked_search,
  load_search_called, rtl_called,
}
use fss_smm_mav.Smm.Worker.Acquire.{
  search_acquire_action, is_some, rtl_call, load_call, judge, prefixed, destroy_fetched, on_fetched,
  attempt, after_log, go_on, acquire_loop, try_acquire_search, Round, Attempt, ended, retried,
}
use fss_smm_mav.Smm.Worker.Judged.{
  judge-Judged, Asked, nothing, acceptance, Judged, taken, revoked, failed, refused,
}
use fss_smm_mav.Smm.Worker.Lawful.{
  IsPresent, IsPresent-of, none-Leads, append-Leads, noted-Leads, requests-session, called-Leads,
  destroy-Leads, let_go-Leads, Leads,
}

module _ {Conn Asset Handle : Type 0} where
  Asked-Leads :
      (s : Smm Conn Asset Handle) (c : SmmSearch Handle) (calls : List (SearchCall Handle))
      → Asked s c calls
      → Leads {Conn = Conn} {Asset = Asset} s.search_active (search_calls calls) s.search_active
  Asked-Leads s c _ nothing = none-Leads s.search_active
  Asked-Leads s c _ (acceptance on) = elim (Option-cases c.search_handle) [
    | inl e ↦ simp e (none-Leads s.search_active)
    | inr (h, e) ↦ simp e (record { lawful = (on, tt); role = refl })
  ]

  -- What a round leaves: lawful entries, and the same session if the loop goes on.
  abbrev RoundLeads : Smm Conn Asset Handle → Attempt Conn Asset Handle → Type 0
  RoundLeads s (ended t es) = Leads s.search_active es t.search_active
  RoundLeads s (retried t es) = Leads s.search_active es t.search_active × (t.session ≡ s.session)

  module _ (n : ℕ) (r : Round Handle) (c : SmmSearch Handle) (s : Smm Conn Asset Handle) where
    accept-Leads :
        {calls : List (SearchCall Handle)}
        → Asked s c calls
        → Leads {Conn = Conn} {Asset = Asset} s.search_active
            (search_calls calls ++ noted r.during_accept)
            (requests s r.during_accept).search_active
    accept-Leads {calls} k =
        append-Leads (search_calls calls) (noted r.during_accept) (Asked-Leads s c calls k)
          (noted-Leads s r.during_accept)

    Judged-Leads : {a : Attempt Conn Asset Handle} → Judged n r c s a → RoundLeads s a
    unfolding publish_search
    Judged-Leads (taken {calls} k v y) =
        let s' = requests s r.during_accept in
        append-Leads (search_calls calls ++ noted r.during_accept) (load_call c s') (accept-Leads k)
          (append-Leads (let_go s'.current_search)
            (called s'.callbacks.load_search_cb (load_search_called c))
            (let_go-Leads s'.search_active s'.current_search)
            (called-Leads s'.search_active s'.callbacks.load_search_cb (load_search_called c) tt
              refl))
    Judged-Leads (revoked {calls} k e) =
        append-Leads (search_calls calls ++ noted r.during_accept) (search_calls (destroy_search c))
          (accept-Leads k) (destroy-Leads (requests s r.during_accept).search_active c)
    Judged-Leads (failed {calls} k e l) =
        let s' = requests s r.during_accept in
        append-Leads (search_calls calls ++ noted r.during_accept)
          (rtl_call s' ++ search_calls (destroy_search c)) (accept-Leads k)
          (append-Leads (rtl_call s') (search_calls (destroy_search c))
            (called-Leads s'.search_active s'.callbacks.rtl_cb rtl_called tt refl)
            (destroy-Leads s'.search_active c))
    Judged-Leads (refused {calls} k e l) = (
      append-Leads (search_calls calls ++ noted r.during_accept) (search_calls (destroy_search c))
          (accept-Leads k) (destroy-Leads (requests s r.during_accept).search_active c),
      requests-session s r.during_accept,
    )

  prefix-Leads :
      (s s' : Smm Conn Asset Handle) (log : List (Entry Conn Asset Handle))
      (a : Attempt Conn Asset Handle)
      → Leads s.search_active log s'.search_active
      → s'.session ≡ s.session
      → RoundLeads s' a
      → RoundLeads s (prefixed log a)
  prefix-Leads s s' log (ended t es) h e k = append-Leads log es h k
  prefix-Leads s s' log (retried t es) h e k = (append-Leads log es h k.0, k.1 ∙ e)

  either-Leads :
      (s : Smm Conn Asset Handle) (b : Bool) (x y : Attempt Conn Asset Handle)
      → RoundLeads s x
      → RoundLeads s y
      → RoundLeads s (if not b then x else y)
  either-Leads s true x y h k = k
  either-Leads s false x y h k = h

  destroy_fetched-Leads :
      (b : Bool) (f : Option Handle) → Leads {Conn = Conn} {Asset = Asset} b (destroy_fetched f) b
  destroy_fetched-Leads b none = none-Leads b
  destroy_fetched-Leads b (some h) = record { lawful = (tt, tt); role = refl }

  module _ (tan : Double → Double) where
    on_fetched-Leads :
        (n : ℕ) (r : Round Handle) (f : Option Handle) (s : Smm Conn Asset Handle)
        → RoundLeads s (on_fetched tan n r f s)
    on_fetched-Leads n r none s = called-Leads s.search_active s.callbacks.rtl_cb rtl_called tt refl
    on_fetched-Leads n r (some h) s =
        let c =
          new_search tan s.config.altitude_cap s.config.altitude_floor s.config.camera_fov_deg h
            r.waypoints r.sweep_width in
        let s' = requests s r.before_accept in
        prefix-Leads s s' (noted r.before_accept) (judge n r c s') (noted-Leads s r.before_accept)
          (requests-session s r.before_accept) (Judged-Leads n r c s' (judge-Judged n r c s'))

    fetch-Leads :
        (s : Smm Conn Asset Handle) (r : Round Handle)
        → IsPresent s.session.asset
        → Leads {Conn = Conn} {Asset = Asset} s.search_active
            (asked_search s.session.asset r.fetched ∷ noted r.during_fetch)
            (requests s r.during_fetch).search_active
    fetch-Leads s r p =
        let h = noted-Leads s r.during_fetch in record { lawful = (p, h.lawful); role = h.role }

    attempt-Leads :
        (n : ℕ) (r : Round Handle) (s : Smm Conn Asset Handle)
        → IsPresent s.session.asset
        → RoundLeads s (attempt tan n r s)
    unfolding attempt
    attempt-Leads n r s p =
        let s' = requests s r.during_fetch in
        let log = asked_search s.session.asset r.fetched ∷ noted r.during_fetch in
        either-Leads s s'.search_active (ended s' (log ++ destroy_fetched r.fetched))
          (prefixed log (on_fetched tan n r r.fetched s'))
          (append-Leads log (destroy_fetched r.fetched) (fetch-Leads s r p)
            (destroy_fetched-Leads s'.search_active r.fetched))
          (prefix-Leads s s' log (on_fetched tan n r r.fetched s') (fetch-Leads s r p)
            (requests-session s r.during_fetch) (on_fetched-Leads n r r.fetched s'))

  -- The same of a whole task, if its loop ends.
  abbrev pub TaskLeads :
      Bool → Option (Smm Conn Asset Handle × List (Entry Conn Asset Handle)) → Type 0
  TaskLeads b none = Unit
  TaskLeads b (some (t, es)) = Leads b es t.search_active

  pub after_log-Leads :
      (b b' : Bool) (log : List (Entry Conn Asset Handle))
      (o : Option (Smm Conn Asset Handle × List (Entry Conn Asset Handle)))
      → Leads b log b'
      → TaskLeads b' o
      → TaskLeads b (after_log log o)
  after_log-Leads b b' log none h k = tt
  after_log-Leads b b' log (some (t, es)) h k = append-Leads log es h k

  module _ (tan : Double → Double) where
    go_on-Leads :
        (s : Smm Conn Asset Handle) (a : Attempt Conn Asset Handle)
        (next_round : Smm Conn Asset Handle
          → Option (Smm Conn Asset Handle × List (Entry Conn Asset Handle)))
        → RoundLeads s a
        → ((t : Smm Conn Asset Handle)
            → t.session ≡ s.session
            → TaskLeads t.search_active (next_round t))
        → TaskLeads s.search_active (go_on a next_round)
    go_on-Leads s (ended t es) next_round h k = h
    go_on-Leads s (retried t es) next_round h k =
        after_log-Leads s.search_active t.search_active es (next_round t) h.0 (k t h.1)

    acquire_loop-Leads :
        (fuel n : ℕ) (rounds : ℕ → Round Handle) (s : Smm Conn Asset Handle)
        → IsPresent s.session.asset
        → TaskLeads s.search_active (acquire_loop tan fuel n rounds s)
    unfolding acquire_loop
    acquire_loop-Leads zero n rounds s p = tt
    acquire_loop-Leads (suc fuel) n rounds s p =
        go_on-Leads s (attempt tan n (rounds n) s) (λ s'. acquire_loop tan fuel (suc n) rounds s')
          (attempt-Leads tan n (rounds n) s p)
          (λ t e.
            acquire_loop-Leads fuel (suc n) rounds t
              (subst (λ (c : Session Conn Asset). IsPresent c.asset) (sym e) p))

    pub try_acquire-Leads :
        (fuel now : ℕ) (rounds : ℕ → Round Handle) (s : Smm Conn Asset Handle)
        → TaskLeads s.search_active (try_acquire_search tan fuel now rounds s)
    unfolding try_acquire_search search_acquire_action
    try_acquire-Leads fuel now rounds s = elim (Bool-cases (ltb now s.search_retry_ts)) [
      | inl e ↦ rw e (none-Leads s.search_active)
      | inr e ↦ elim (Bool-cases (is_some s.session.asset)) [
        | inr f ↦ simp (e, f) (called-Leads s.search_active s.callbacks.rtl_cb rtl_called tt refl)
        | inl f ↦ simp (e, f) (acquire_loop-Leads fuel 0 rounds s (IsPresent-of s.session.asset f))
      ]
    ]
