-- ===== src/Smm/Worker/Acquire.antt =====
-- tryAcquireSearch of src/smm/smm.cpp with src/smm/search-acquire.hpp. What the library, the clock and
-- the other threads do during a round of the loop is an argument.
use fss_smm_mav.Prelude.{
  ℕ, zero, suc, ◌+◌, ◌%◌, ◌^◌, Bool, true, false, not, ◌&&◌, Option, none, some, List, [], ◌∷◌,
  ◌++◌, ltb, leb, if◌then◌else◌,
}
use fss_smm_mav.Prelude.Double.{Double}
use fss_smm_mav.Smm.Search.{new_search, accept, destroy_search, SmmSearch, destroyed}
use fss_smm_mav.Smm.Worker.{
  noted, requests, called, search_calls, let_go, publish_search, Smm, Request, Entry, asked_search,
  search_call, load_search_called, rtl_called,
}
use fss_smm_mav.Types.{Point}

pub data SearchAcquireAction : Type 0 where
  backoff disconnected_rtl fetch : SearchAcquireAction

unfoldable pub search_acquire_action : Bool → ℕ → ℕ → SearchAcquireAction
search_acquire_action asset_present retry_ts now =
    if ltb now retry_ts then backoff else if not asset_present then disconnected_rtl else fetch

abbrev pub search_retry_interval_ms : ℕ
search_retry_interval_ms = 5000

-- A fetch, and what follows it. `waypoints` is what smm_search_get_waypoints gives, `now` the clock
-- at the end of the round; the requests are the calls of other threads between two reads of
-- search_active.
pub record Round (Handle : Type 0) : Type 0 where
  pub fetched : Option Handle
  pub during_fetch : List Request
  pub waypoints : Option (List Point)
  pub sweep_width : ℕ
  pub before_accept : List Request
  pub accept_answer : Bool
  pub during_accept : List Request
  pub now : ℕ

abbrev pub is_some {ℓ} : {A : Type ℓ} → Option A → Bool
is_some none = false
is_some (some a) = true

-- The worker after a round, and whether the loop goes on.
pub data Attempt (Conn Asset Handle : Type 0) : Type 0 where
  ended retried : Smm Conn Asset Handle → List (Entry Conn Asset Handle) → Attempt Conn Asset Handle

module _ {Conn Asset Handle : Type 0} where
  -- The callback and the backoff of a failure.
  abbrev pub fails_at : ℕ → Smm Conn Asset Handle → Smm Conn Asset Handle
  fails_at now s = record s { search_retry_ts = (now + search_retry_interval_ms) % 2 ^ 64 }

  abbrev pub rtl_call : Smm Conn Asset Handle → List (Entry Conn Asset Handle)
  rtl_call s = called s.callbacks.rtl_cb rtl_called

  -- An accepted candidate becomes the held search.
  abbrev pub takes : SmmSearch Handle → Smm Conn Asset Handle → Smm Conn Asset Handle
  takes c s = record (publish_search s (some c)) { search_retry_ts = 0 }

  abbrev pub load_call : SmmSearch Handle → Smm Conn Asset Handle → List (Entry Conn Asset Handle)
  load_call c s =
      let_go s.current_search ++ called s.callbacks.load_search_cb (load_search_called c)

  -- From the second read of search_active, which guards the accept, to the end of the round.
  unfoldable pub judge :
      ℕ → Round Handle → SmmSearch Handle → Smm Conn Asset Handle → Attempt Conn Asset Handle
  unfolding publish_search accept destroy_search
  judge n r c s =
      let (took, calls) =
        if s.search_active && c.valid then accept c r.accept_answer else (false, []) in
      let s' = requests s r.during_accept in
      let log = search_calls calls ++ noted r.during_accept in
      let dropped = search_calls (destroy_search c) in
      if took
      then ended (takes c s') (log ++ load_call c s')
      else if not s'.search_active
      then ended s' (log ++ dropped)
      else if leb 3 (suc n)
      then ended (fails_at r.now s') (log ++ (rtl_call s' ++ dropped))
      else retried s' (log ++ dropped)

  abbrev pub prefixed :
      List (Entry Conn Asset Handle) → Attempt Conn Asset Handle → Attempt Conn Asset Handle
  prefixed log (ended s es) = ended s (log ++ es)
  prefixed log (retried s es) = retried s (log ++ es)

  abbrev pub destroy_fetched : Option Handle → List (Entry Conn Asset Handle)
  destroy_fetched none = []
  destroy_fetched (some h) = search_call (destroyed h) ∷ []

  -- The round from the end of the fetch, with the role held.
  abbrev pub on_fetched :
      (Double → Double)
      → ℕ
      → Round Handle
      → Option Handle
      → Smm Conn Asset Handle
      → Attempt Conn Asset Handle
  on_fetched tan n r none s = ended (fails_at r.now s) (rtl_call s)
  on_fetched tan n r (some h) s = prefixed (noted r.before_accept) (
      judge n r
        (new_search tan s.config.altitude_cap s.config.altitude_floor s.config.camera_fov_deg h
          r.waypoints r.sweep_width)
        (requests s r.before_accept))

  -- One round; `n` is the count of retries before it.
  unfoldable pub attempt :
      (Double → Double) → ℕ → Round Handle → Smm Conn Asset Handle → Attempt Conn Asset Handle
  unfolding new_search
  attempt tan n r s =
      let s' = requests s r.during_fetch in
      let log = asked_search s.session.asset r.fetched ∷ noted r.during_fetch in
      if not s'.search_active
      then ended s' (log ++ destroy_fetched r.fetched)
      else prefixed log (on_fetched tan n r r.fetched s')

  abbrev pub after_log :
      List (Entry Conn Asset Handle)
      → Option (Smm Conn Asset Handle × List (Entry Conn Asset Handle))
      → Option (Smm Conn Asset Handle × List (Entry Conn Asset Handle))
  after_log log none = none
  after_log log (some (s, es)) = some (s, log ++ es)

  -- `return`, or the next round.
  abbrev pub go_on :
      Attempt Conn Asset Handle
      → (Smm Conn Asset Handle → Option (Smm Conn Asset Handle × List (Entry Conn Asset Handle)))
      → Option (Smm Conn Asset Handle × List (Entry Conn Asset Handle))
  go_on (ended s es) next_round = some (s, es)
  go_on (retried s es) next_round = after_log es (next_round s)

  -- The loop, on fuel; none if that runs out.
  unfoldable pub acquire_loop :
      (Double → Double)
      → ℕ
      → ℕ
      → (ℕ → Round Handle)
      → Smm Conn Asset Handle
      → Option (Smm Conn Asset Handle × List (Entry Conn Asset Handle))
  unfolding attempt
  acquire_loop tan zero n rounds s = none
  acquire_loop tan (suc fuel) n rounds s =
      go_on (attempt tan n (rounds n) s) (λ s'. acquire_loop tan fuel (suc n) rounds s')

  abbrev pub start_acquire :
      (Double → Double)
      → ℕ
      → SearchAcquireAction
      → ℕ
      → (ℕ → Round Handle)
      → Smm Conn Asset Handle
      → Option (Smm Conn Asset Handle × List (Entry Conn Asset Handle))
  start_acquire tan fuel backoff now rounds s = some (s, [])
  start_acquire tan fuel disconnected_rtl now rounds s = some (fails_at now s, rtl_call s)
  start_acquire tan fuel fetch now rounds s = acquire_loop tan fuel 0 rounds s

  -- `now` is the clock at the start, `rounds` the rounds of the loop if it comes to them.
  unfoldable pub try_acquire_search :
      (Double → Double)
      → ℕ
      → ℕ
      → (ℕ → Round Handle)
      → Smm Conn Asset Handle
      → Option (Smm Conn Asset Handle × List (Entry Conn Asset Handle))
  unfolding acquire_loop search_acquire_action
  try_acquire_search tan fuel now rounds s =
      start_acquire tan fuel (search_acquire_action (is_some s.session.asset) s.search_retry_ts now)
        now rounds s
