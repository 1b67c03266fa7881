-- ===== src/Smm/Worker/Searches/Rounds.antt =====
-- An acquisition loses no search that it is given: src/smm/smm.cpp.
use mathlib.Core.List.{perm_append_comm, append-nil}
use mathlib.Core.List.Perm
use fss_smm_mav.Prelude.{
  ℕ, ◌≡◌, refl, ◌∙◌, Bool, true, false, not, Option, none, some, List, [], ◌∷◌, ◌++◌, if◌then◌else◌,
}
use fss_smm_mav.Smm.Search.{handle_call, destroy_search, SmmSearch, SearchCall, accepted}
use fss_smm_mav.Smm.Worker.{
  noted, request, requests, called, search_calls, let_go, publish_search, Smm, Request, on_connect,
  on_search, on_cancel_search, on_retry_pending, on_report_position, on_reached_point, Entry,
  asked_search, load_search_called, rtl_called,
}
use fss_smm_mav.Smm.Worker.Acquire.{
  rtl_call, load_call, prefixed, destroy_fetched, Round, Attempt, ended, retried,
}
use fss_smm_mav.Smm.Worker.Judged.{
  Asked, nothing, acceptance, Judged, taken, revoked, failed, refused,
}
use fss_smm_mav.Smm.Worker.Searches.{
  handles, held_handles, given, gone, nothing-Balances, append-Balances, Balances,
}

module _ {Conn Asset Handle : Type 0} where
  pub noted-Balances :
      (a : List Handle) (rs : List Request) → Balances {Conn = Conn} {Asset = Asset} a (noted rs) a
  noted-Balances a [] = nothing-Balances a
  noted-Balances a (r ∷ rs) = record { balance = (noted-Balances a rs).balance }

  -- An entry that gives nothing and lets nothing go.
  abbrev pub IsNeutral : Entry Conn Asset Handle → Type 0
  IsNeutral e = (given (e ∷ []) ≡ []) × (gone (e ∷ []) ≡ [])

  pub called-Balances :
      (a : List Handle) (registered : Bool) (e : Entry Conn Asset Handle)
      → IsNeutral e
      → Balances a (called registered e) a
  called-Balances a true e n = record { balance = rw (n.0, n.1) (Perm.refl a) }
  called-Balances a false e n = nothing-Balances a

  destroy-Balances :
      (a : List Handle) (h : Handle) (c : SmmSearch Handle)
      → c.search_handle ≡ some h
      → Balances {Conn = Conn} {Asset = Asset} (h ∷ a) (search_calls (destroy_search c)) a
  unfolding destroy_search
  destroy-Balances a h c e = simp e (record { balance = Perm.refl (h ∷ a) })

  let_go-Balances :
      (a : List Handle) (held : Option (SmmSearch Handle))
      → Balances {Conn = Conn} {Asset = Asset} (a ++ held_handles held) (let_go held) a
  let_go-Balances a none = rw (append-nil a) (nothing-Balances a)
  let_go-Balances a (some c) = record {
    balance =
        rw (append-nil (handles c.search_handle)) (perm_append_comm (handles c.search_handle) a);
  }

  Asked-Balances :
      (a : List Handle) (s : Smm Conn Asset Handle) (c : SmmSearch Handle)
      (calls : List (SearchCall Handle))
      → Asked s c calls
      → Balances {Conn = Conn} {Asset = Asset} a (search_calls calls) a
  Asked-Balances a s c _ nothing = nothing-Balances a
  Asked-Balances a s c _ (acceptance on) = accepted-Balances c.search_handle
    where
      accepted-Balances :
          (h : Option Handle)
          → Balances {Conn = Conn} {Asset = Asset} a (search_calls (handle_call h accepted)) a
      accepted-Balances none = nothing-Balances a
      accepted-Balances (some h) = record { balance = Perm.refl a }

  pub request-held :
      (s : Smm Conn Asset Handle) (r : Request) → (request s r).current_search ≡ s.current_search
  unfolding request
  request-held s (on_connect host user pass name) = refl
  request-held s (on_search p) = refl
  request-held s on_cancel_search = refl
  request-held s (on_retry_pending p) = refl
  request-held s (on_report_position pd) = refl
  request-held s (on_reached_point point) = refl

  pub requests-held :
      (s : Smm Conn Asset Handle) (rs : List Request)
      → (requests s rs).current_search ≡ s.current_search
  unfolding requests
  requests-held s [] = refl
  requests-held s (r ∷ rs) = requests-held (request s r) rs ∙ request-held s r

  abbrev pub RoundBalances : List Handle → Attempt Conn Asset Handle → Type 0
  RoundBalances a (ended t es) = Balances a es (held_handles t.current_search)
  RoundBalances a (retried t es) = Balances a es (held_handles t.current_search)

  module _ (n : ℕ) (r : Round Handle) (h : Handle) (c : SmmSearch Handle)
      (s : Smm Conn Asset Handle) (e : c.search_handle ≡ some h) where
    abbrev pub held_before : List Handle
    held_before = held_handles s.current_search

    judging :
        (calls : List (SearchCall Handle))
        → Asked s c calls
        → Balances {Conn = Conn} {Asset = Asset}
            (h ∷ held_before)
            (search_calls calls ++ noted r.during_accept)
            (h ∷ held_handles (requests s r.during_accept).current_search)
    judging calls k = rw (requests-held s r.during_accept) (
        append-Balances (search_calls calls) (noted r.during_accept)
          (Asked-Balances (h ∷ held_before) s c calls k)
          (noted-Balances (h ∷ held_before) r.during_accept))

    pub Judged-Balances :
        {a : Attempt Conn Asset Handle} → Judged n r c s a → RoundBalances (h ∷ held_before) a
    unfolding publish_search
    Judged-Balances (taken {calls} k v y) =
        let s' = requests s r.during_accept in
        append-Balances (search_calls calls ++ noted r.during_accept) (load_call c s')
          (judging calls k)
          (append-Balances (let_go s'.current_search)
            (called s'.callbacks.load_search_cb (load_search_called c))
            (let_go-Balances (h ∷ []) s'.current_search)
            (simp e (
              called-Balances (h ∷ []) s'.callbacks.load_search_cb (load_search_called c)
                (refl, refl))))
    Judged-Balances (revoked {calls} k f) =
        append-Balances (search_calls calls ++ noted r.during_accept)
          (search_calls (destroy_search c)) (judging calls k) (destroy-Balances _ h c e)
    Judged-Balances (failed {calls} k f l) =
        let s' = requests s r.during_accept in
        append-Balances (search_calls calls ++ noted r.during_accept)
          (rtl_call s' ++ search_calls (destroy_search c)) (judging calls k)
          (append-Balances (rtl_call s') (search_calls (destroy_search c))
            (called-Balances _ s'.callbacks.rtl_cb rtl_called (refl, refl))
            (destroy-Balances _ h c e))
    Judged-Balances (refused {calls} k f l) =
        append-Balances (search_calls calls ++ noted r.during_accept)
          (search_calls (destroy_search c)) (judging calls k) (destroy-Balances _ h c e)

  pub prefix-Balances :
      (a b : List Handle) (log : List (Entry Conn Asset Handle)) (x : Attempt Conn Asset Handle)
      → Balances a log b
      → RoundBalances b x
      → RoundBalances a (prefixed log x)
  prefix-Balances a b log (ended t es) h k = append-Balances log es h k
  prefix-Balances a b log (retried t es) h k = append-Balances log es h k

  pub either-Balances :
      (a : List Handle) (b : Bool) (x y : Attempt Conn Asset Handle)
      → RoundBalances a x
      → RoundBalances a y
      → RoundBalances a (if not b then x else y)
  either-Balances a true x y h k = k
  either-Balances a false x y h k = h

  pub destroy_fetched-Balances :
      (a : List Handle) (f : Option Handle)
      → Balances {Conn = Conn} {Asset = Asset} (handles f ++ a) (destroy_fetched f) a
  destroy_fetched-Balances a none = nothing-Balances a
  destroy_fetched-Balances a (some h) = record { balance = Perm.refl (h ∷ a) }

  pub fetch-Balances :
      (a : List Handle) (asset : Option Asset) (f : Option Handle) (rs : List Request)
      → Balances {Conn = Conn} a (asked_search asset f ∷ noted rs) (handles f ++ a)
  fetch-Balances a asset f rs =
      append-Balances (asked_search asset f ∷ []) (noted rs)
        (record { balance = rw (append-nil (handles f)) (Perm.refl (handles f ++ a)) })
        (noted-Balances (handles f ++ a) rs)
