-- ===== src/Smm/Worker/Outcome/Total.antt =====
-- An acquisition that is not backing off ends in one of the outcomes: src/smm/smm.cpp.
use fss_smm_mav.Prelude.{ℕ, ◌≤◌, ◌≡◌, refl, subst, ◌≢◌, ◌⊎◌, inl, inr, Bool, some, List, arith}
use fss_smm_mav.Prelude.Double.{Double}
use fss_smm_mav.Smm.Worker.{Smm, Entry}
use fss_smm_mav.Smm.Worker.Acquire.{
  search_acquire_action, is_some, start_acquire, try_acquire_search, Round, SearchAcquireAction,
  backoff, disconnected_rtl, fetch,
}
use fss_smm_mav.Smm.Worker.Ends.{acquisition_ends}
use fss_smm_mav.Smm.Worker.Outcome.{TurnedOut, returns_home}
use fss_smm_mav.Smm.Worker.Outcome.Acquire.{rtl_calls, LoopOutcome, acquire_loop_outcome}

-- A time that the clock has shown during the acquisition.
abbrev pub IsReading : {Handle : Type 0} → ℕ → (ℕ → Round Handle) → ℕ → Type 0
IsReading now rounds t = (t ≡ now) ⊎ ((n : ℕ) × (t ≡ (rounds n).now))

no_backoff :
    (present : Bool) (retry now : ℕ)
    → retry ≤ now
    → search_acquire_action present retry now ≢ backoff
unfolding search_acquire_action
no_backoff present retry now h = ground arith

module _ {Conn Asset Handle : Type 0} (tan : Double → Double) where
  start_outcome :
      (fuel : ℕ) (action : SearchAcquireAction) (now : ℕ) (rounds : ℕ → Round Handle)
      (s : Smm Conn Asset Handle)
      → action ≢ backoff
      → LoopOutcome (IsReading now rounds) s (start_acquire tan fuel action now rounds s)
  start_outcome fuel backoff now rounds s h = absurd (h refl)
  start_outcome fuel disconnected_rtl now rounds s h =
      returns_home now (inl refl) refl refl (rtl_calls s)
  start_outcome fuel fetch now rounds s h =
      acquire_loop_outcome (IsReading now rounds) tan fuel 0 rounds s (λ m. inr (m, refl))

  -- When it is not backing off, an acquisition ends in one of three ways, whatever the library
  -- answers and other threads do: a valid search is held and its load is asked for; a return home is
  -- asked for and the next attempt put off by the retry interval; or the searching role has been
  -- lost, and nothing is asked for. What is held changes in the first only.
  pub acquisition_turns_out :
      (now : ℕ) (rounds : ℕ → Round Handle) (s : Smm Conn Asset Handle)
      → s.search_retry_ts ≤ now
      → (t : Smm Conn Asset Handle) × (es : List (Entry Conn Asset Handle)) × (try_acquire_search
            tan 3 now rounds s
          ≡ some (t, es))
        × TurnedOut (IsReading now rounds) s t es
  unfolding try_acquire_search
  acquisition_turns_out now rounds s h =
      let (t, es, e, _) = acquisition_ends tan now rounds s in
      (
        t,
        es,
        e,
        subst (LoopOutcome (IsReading now rounds) s) e (
            start_outcome 3 (search_acquire_action (is_some s.session.asset) s.search_retry_ts now)
              now rounds s (no_backoff (is_some s.session.asset) s.search_retry_ts now h)),
      )
