-- ===== src/Smm/Worker/Judged.antt =====
-- The ways in which a round of the acquisition ends: src/smm/smm.cpp.
use fss_smm_mav.Prelude.{
  ℕ, suc, ◌≡◌, refl, inl, inr, Bool, true, false, not, List, [], ◌++◌, leb, if◌then◌else◌,
  Bool-cases,
}
use fss_smm_mav.Smm.Search.{handle_call, accept, destroy_search, SmmSearch, SearchCall, accepted}
use fss_smm_mav.Smm.Worker.{noted, requests, search_calls, Smm}
use fss_smm_mav.Smm.Worker.Acquire.{
  fails_at, rtl_call, takes, load_call, judge, Round, Attempt, ended, retried,
}

module _ {Conn Asset Handle : Type 0} where
  -- What the library has been asked before the third read of search_active: to accept the search,
  -- with the role held, or nothing.
  pub data Asked (s : Smm Conn Asset Handle) (c : SmmSearch Handle)
      : List (SearchCall Handle) → Type 0 where
    nothing : Asked s c []
    acceptance : s.search_active ≡ true → Asked s c (handle_call c.search_handle accepted)

  pub data Judged (n : ℕ) (r : Round Handle) (c : SmmSearch Handle) (s : Smm Conn Asset Handle)
      : Attempt Conn Asset Handle → Type 0 where
    taken :
        {calls : List (SearchCall Handle)}
        → Asked s c calls
        → c.valid ≡ true
        → r.accept_answer ≡ true
        → Judged n r c s (
            ended (takes c (requests s r.during_accept)) (
              (search_calls calls ++ noted r.during_accept)
              ++ load_call c (requests s r.during_accept)))
    revoked :
        {calls : List (SearchCall Handle)}
        → Asked s c calls
        → (requests s r.during_accept).search_active ≡ false
        → Judged n r c s (
            ended
              (requests s r.during_accept)
              ((search_calls calls ++ noted r.during_accept) ++ search_calls (destroy_search c)))
    failed :
        {calls : List (SearchCall Handle)}
        → Asked s c calls
        → (requests s r.during_accept).search_active ≡ true
        → leb 3 (suc n) ≡ true
        → Judged n r c s (
            ended (fails_at r.now (requests s r.during_accept)) (
              (search_calls calls ++ noted r.during_accept)
              ++ (rtl_call (requests s r.during_accept) ++ search_calls (destroy_search c))))
    refused :
        {calls : List (SearchCall Handle)}
        → Asked s c calls
        → (requests s r.during_accept).search_active ≡ true
        → leb 3 (suc n) ≡ false
        → Judged n r c s (
            retried
              (requests s r.during_accept)
              ((search_calls calls ++ noted r.during_accept) ++ search_calls (destroy_search c)))

  module _ (n : ℕ) (r : Round Handle) (c : SmmSearch Handle) (s : Smm Conn Asset Handle) where
    not_taken :
        (calls : List (SearchCall Handle)) (active last : Bool)
        → Asked s c calls
        → (requests s r.during_accept).search_active ≡ active
        → leb 3 (suc n) ≡ last
        → Judged n r c s (
            if not active
            then ended
                (requests s r.during_accept)
                ((search_calls calls ++ noted r.during_accept) ++ search_calls (destroy_search c))
            else if last
            then ended (fails_at r.now (requests s r.during_accept)) (
                (search_calls calls ++ noted r.during_accept)
                ++ (rtl_call (requests s r.during_accept) ++ search_calls (destroy_search c)))
            else retried
                (requests s r.during_accept)
                ((search_calls calls ++ noted r.during_accept) ++ search_calls (destroy_search c)))
    not_taken calls false last k e f = revoked k e
    not_taken calls true true k e f = failed k e f
    not_taken calls true false k e f = refused k e f

    pub judge-Judged : Judged n r c s (judge n r c s)
    unfolding judge accept
    judge-Judged = elim (Bool-cases s.search_active) [
      | inr off ↦ simp off (
          not_taken [] (requests s r.during_accept).search_active (leb 3 (suc n)) nothing refl refl)
      | inl on ↦ elim (Bool-cases c.valid) [
        | inr bad ↦
            simp (on, bad)
              (not_taken [] (requests s r.during_accept).search_active (leb 3 (suc n)) nothing refl
                refl)
        | inl good ↦ elim (Bool-cases r.accept_answer) [
          | inr deny ↦
              simp (on, good, deny)
                (not_taken (handle_call c.search_handle accepted)
                  (requests s r.during_accept).search_active (leb 3 (suc n)) (acceptance on) refl
                  refl)
          | inl agree ↦ simp (on, good, agree) (taken (acceptance on) good agree)
        ]
      ]
    ]
