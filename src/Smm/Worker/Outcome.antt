-- ===== src/Smm/Worker/Outcome.antt =====
-- How an acquisition turns out, on every path of tryAcquireSearch: src/smm/smm.cpp.
pub mod Acquire
pub mod Total
use mathlib.Core.List.{append_assoc, append-nil}
use fss_smm_mav.Prelude.{
  ℕ, ◌+◌, ◌%◌, ◌^◌, ◌≡◌, refl, sym, ap, ◌∙◌, true, false, Option, none, some, List, [], ◌∷◌, ◌++◌,
}
use fss_smm_mav.Smm.Search.{points_count, SmmSearch, SearchCall}
use fss_smm_mav.Smm.Worker.{
  noted, request, requests, called, search_calls, let_go, Callbacks, Smm, Request, on_connect,
  on_search, on_cancel_search, on_retry_pending, on_report_position, on_reached_point, Entry,
  load_search_called, rtl_called,
}
use fss_smm_mav.Smm.Worker.Acquire.{search_retry_interval_ms}
use fss_smm_mav.Smm.Worker.Searches.Acquire.{held}

module _ {Conn Asset Handle : Type 0} where
  -- The flight actions that the worker asks for.
  abbrev pub flight_calls : List (Entry Conn Asset Handle) → List (Entry Conn Asset Handle)
  flight_calls [] = []
  flight_calls (rtl_called ∷ es) = rtl_called ∷ flight_calls es
  flight_calls (load_search_called c ∷ es) = load_search_called c ∷ flight_calls es
  flight_calls (_ ∷ es) = flight_calls es

  pub record Silent (es : List (Entry Conn Asset Handle)) : Type 0 where
    pub silent : flight_calls es ≡ []

  flight_calls_cons :
      (e : Entry Conn Asset Handle) (es : List (Entry Conn Asset Handle))
      → flight_calls (e ∷ es) ≡ flight_calls (e ∷ []) ++ flight_calls es
  flight_calls_cons rtl_called es = refl
  flight_calls_cons (load_search_called c) es = refl
  flight_calls_cons _ es = refl

  flight_calls-append :
      (es fs : List (Entry Conn Asset Handle))
      → flight_calls (es ++ fs) ≡ flight_calls es ++ flight_calls fs
  flight_calls-append [] fs = refl
  flight_calls-append (e ∷ es) fs =
      rw (flight_calls_cons e (es ++ fs), flight_calls_cons e es, flight_calls-append es fs)
        (sym (append_assoc (flight_calls (e ∷ [])) (flight_calls es) (flight_calls fs)))

  pub after-Silent :
      (es fs : List (Entry Conn Asset Handle))
      → Silent es
      → flight_calls (es ++ fs) ≡ flight_calls fs
  after-Silent es fs h = rw (flight_calls-append es fs, h.silent) refl

  pub before-Silent :
      (es fs : List (Entry Conn Asset Handle))
      → Silent fs
      → flight_calls (es ++ fs) ≡ flight_calls es
  before-Silent es fs h = flight_calls-append es fs ∙ rw h.silent (append-nil (flight_calls es))

  pub Silent-append :
      (es fs : List (Entry Conn Asset Handle)) → Silent es → Silent fs → Silent (es ++ fs)
  Silent-append es fs h k = record { silent = after-Silent es fs h ∙ k.silent }

  pub noted-Silent : (rs : List Request) → Silent (noted rs)
  noted-Silent [] = record { silent = refl }
  noted-Silent (r ∷ rs) = record { silent = (noted-Silent rs).silent }

  pub search_calls-Silent : (calls : List (SearchCall Handle)) → Silent (search_calls calls)
  search_calls-Silent [] = record { silent = refl }
  search_calls-Silent (c ∷ calls) = record { silent = (search_calls-Silent calls).silent }

  pub let_go-Silent : (held : Option (SmmSearch Handle)) → Silent (let_go held)
  let_go-Silent none = record { silent = refl }
  let_go-Silent (some c) = record { silent = refl }

  -- What the calls of other threads leave to the worker.
  pub record Same (s t : Smm Conn Asset Handle) : Type 0 where
    pub search : t.current_search ≡ s.current_search
    pub retry : t.search_retry_ts ≡ s.search_retry_ts
    pub registered : t.callbacks ≡ s.callbacks

  pub Same-trans : {s t u : Smm Conn Asset Handle} → Same s t → Same t u → Same s u
  Same-trans h k = record {
    search = k.search ∙ h.search;
    retry = k.retry ∙ h.retry;
    registered = k.registered ∙ h.registered;
  }

  request-Same : (s : Smm Conn Asset Handle) (r : Request) → Same s (request s r)
  unfolding request
  request-Same s (on_connect host user pass name) = record {
    search = refl;
    retry = refl;
    registered = refl;
  }
  request-Same s (on_search p) = record { search = refl; retry = refl; registered = refl }
  request-Same s on_cancel_search = record { search = refl; retry = refl; registered = refl }
  request-Same s (on_retry_pending p) = record { search = refl; retry = refl; registered = refl }
  request-Same s (on_report_position pd) = record { search = refl; retry = refl; registered = refl }
  request-Same s (on_reached_point n) = record { search = refl; retry = refl; registered = refl }

  pub requests-Same : (s : Smm Conn Asset Handle) (rs : List Request) → Same s (requests s rs)
  unfolding requests
  requests-Same s [] = record { search = refl; retry = refl; registered = refl }
  requests-Same s (r ∷ rs) = Same-trans (request-Same s r) (requests-Same (request s r) rs)

  -- The ways in which it turns out; `Reading` are the readings of the clock.
  pub data TurnedOut (Reading : ℕ → Type 0) (s t : Smm Conn Asset Handle)
      (es : List (Entry Conn Asset Handle)) : Type 0 where
    loads :
        (c : SmmSearch Handle)
        → c.valid ≡ true
        → t.current_search ≡ some c
        → t.current_search_points ≡ points_count c
        → t.search_retry_ts ≡ 0
        → flight_calls es ≡ called s.callbacks.load_search_cb (load_search_called c)
        → TurnedOut Reading s t es
    returns_home :
        (now : ℕ)
        → Reading now
        → t.current_search ≡ s.current_search
        → t.search_retry_ts ≡ (now + search_retry_interval_ms) % 2 ^ 64
        → flight_calls es ≡ called s.callbacks.rtl_cb rtl_called
        → TurnedOut Reading s t es
    gives_way :
        t.search_active ≡ false
        → t.current_search ≡ s.current_search
        → t.search_retry_ts ≡ s.search_retry_ts
        → flight_calls es ≡ []
        → TurnedOut Reading s t es

  pub prefixed-TurnedOut :
      (Reading : ℕ → Type 0) (s s' t : Smm Conn Asset Handle)
      (log es : List (Entry Conn Asset Handle))
      → Same s s'
      → Silent log
      → TurnedOut Reading s' t es
      → TurnedOut Reading s t (log ++ es)
  prefixed-TurnedOut Reading s s' t log es m q (loads c v h p y f) = loads c v h p y (
      after-Silent log es q
      ∙ f
      ∙ ap (λ (k : Callbacks). called k.load_search_cb (load_search_called c)) m.registered)
  prefixed-TurnedOut Reading s s' t log es m q (returns_home now x h y f) =
      returns_home now x (h ∙ m.search) y (
        after-Silent log es q ∙ f ∙ ap (λ (k : Callbacks). called k.rtl_cb rtl_called) m.registered)
  prefixed-TurnedOut Reading s s' t log es m q (gives_way a h y f) =
      gives_way a (h ∙ m.search) (y ∙ m.retry) (after-Silent log es q ∙ f)
