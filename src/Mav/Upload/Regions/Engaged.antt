-- ===== src/Mav/Upload/Regions/Engaged.antt =====
-- Which uploads src/mav/mavlink.cpp engages when the autopilot acknowledges a mission.
use fss_smm_mav.Mav.ModeResolve.{MavModeCommand}
use fss_smm_mav.Mav.Upload.{
  invalidate_in_flight_upload, defer_mode, mode_sent, mode_replayed, open_goto, goto_count_sent,
  forget_goto, open_search, needs_load, take_search, engaged_by, take_ack, Connection,
}
use fss_smm_mav.Mav.Upload.Regions.{
  enter_region, run_regions, window, may_enter, fits_threads, Region, defers, resolves, replays,
  takes_control, restarts, opens_goto, sends_goto, loses_link, opens_search, loads_search, acks,
}
use fss_smm_mav.Prelude.{
  ℕ, ◌+◌, ◌≡◌, refl, ap, Bool, true, false, ◌&&◌, Option, List, [], ◌∷◌, arith, if◌then◌else◌,
}

abbrev pub count : Bool → ℕ
count true = 1
count false = 0

first_of : (b d : Bool) → (b && d) ≡ true → b ≡ true
first_of b d h = ground arith

second_of : (b d : Bool) → (b && d) ≡ true → d ≡ true
second_of b d h = ground arith

-- How many uploads an acknowledgement has engaged, each with MISSION_SET_CURRENT and AUTO, which
-- mission_ack sends when it has left the lock.
abbrev pub engages : Region → Connection → ℕ
engages (acks b) c =
    count (engaged_by b c).goto_set_current + count (engaged_by b c).search_set_current
engages _ c = 0

unfoldable pub engagements : List Region → Connection → ℕ
unfolding enter_region engaged_by
engagements [] c = 0
engagements (r ∷ rs) c = engages r c + engagements rs (enter_region r c)

-- The uploads that commandGoto and uploadSearch open.
abbrev pub opens : Region → ℕ
opens (opens_goto p) = 1
opens (opens_search r) = 1
opens _ = 0

unfoldable pub openings : List Region → ℕ
openings [] = 0
openings (r ∷ rs) = opens r + openings rs

-- The uploads that wait for their acknowledgement.
abbrev pub open_uploads : Connection → ℕ
open_uploads c = count c.goto_ack_pending + count c.search_loading

-- The waiting uploads that come to nothing: what takes control, a restart, a search that replaces
-- them or a refusal ends them all, a lost link or another goto ends a goto.
abbrev pub drops : Region → Connection → ℕ
drops (defers command true) c = open_uploads c
drops (resolves true) c = open_uploads c
drops takes_control c = open_uploads c
drops restarts c = open_uploads c
drops (opens_search r) c = open_uploads c
drops (acks false) c = open_uploads c
drops loses_link c = count c.goto_ack_pending
drops sends_goto c = count c.goto_ack_pending
drops _ c = 0

unfoldable pub dropped : List Region → Connection → ℕ
unfolding enter_region
dropped [] c = 0
dropped (r ∷ rs) c = drops r c + dropped rs (enter_region r c)

-- A goto whose MISSION_COUNT does not go out: commandGoto ends without its second region.
abbrev pub fails : Bool → Region → ℕ
fails b sends_goto = 0
fails b (opens_goto p) = count b
fails b r = if window b r then 0 else count b

unfoldable pub failures : Bool → List Region → ℕ
failures b [] = 0
failures b (r ∷ rs) = fails b r + failures (window b r) rs

-- Whether commandGoto is between its regions at the end.
unfoldable pub last_window : Bool → List Region → Bool
last_window b [] = b
last_window b (r ∷ rs) = last_window (window b r) rs

taken_open :
    (b : Bool) (r : Option ℕ) (c : Connection)
    → open_uploads (if b then record c { search_ref = r } else c) ≡ open_uploads c
taken_open true r c = refl
taken_open false r c = refl

acked_open :
    (goto loading : Bool)
    → count (goto && true) + count (loading && true) ≡ count goto + count loading
acked_open goto loading = ground arith

refused_open : (goto loading : Bool) → count (goto && false) + count (loading && false) ≡ 0
refused_open goto loading = ground arith

region_counts :
    (b : Bool) (r : Region) (c : Connection)
    → may_enter b r ≡ true
    → engages r c + drops r c + fails b r + open_uploads (enter_region r c) + count (window b r)
      ≡ opens r + open_uploads c + count b
unfolding enter_region engaged_by defer_mode mode_sent mode_replayed invalidate_in_flight_upload
    open_goto goto_count_sent forget_goto open_search take_search take_ack
region_counts b (defers command true) c m = omega arith
region_counts true (defers command false) c m = omega arith
region_counts false (defers command false) c m = omega arith
region_counts b (resolves true) c m = omega arith
region_counts true (resolves false) c m = omega arith
region_counts false (resolves false) c m = omega arith
region_counts true (replays command) c m = omega arith
region_counts false (replays command) c m = omega arith
region_counts b takes_control c m = omega arith
region_counts true restarts c m = omega arith
region_counts false restarts c m = omega arith
region_counts true (opens_goto p) c m = omega arith
region_counts false (opens_goto p) c m = omega arith
region_counts true sends_goto c m = omega arith
region_counts false sends_goto c m = absurd (ground (arith, m))
region_counts true loses_link c m = omega arith
region_counts false loses_link c m = omega arith
region_counts b (opens_search r) c m = omega arith
region_counts b (loads_search r) c m = let h = taken_open (needs_load r c) r c in omega (arith, h)
region_counts true (acks true) c m =
    let h = acked_open c.goto_ack_pending c.search_loading in omega (arith, h)
region_counts false (acks true) c m =
    let h = acked_open c.goto_ack_pending c.search_loading in omega (arith, h)
region_counts true (acks false) c m =
    let h = refused_open c.goto_ack_pending c.search_loading in omega (arith, h)
region_counts false (acks false) c m =
    let h = refused_open c.goto_ack_pending c.search_loading in omega (arith, h)

-- Over any interleaving that the threads can produce, each upload is counted once: those engaged by an
-- acknowledgement, those dropped while they waited for one, the gotos whose count did not go out, those
-- waiting at the end and a goto being opened then are together exactly those waiting at the start, a
-- goto being opened then, and those opened since.
pub uploads_are_counted_once :
    (b : Bool) (rs : List Region) (c : Connection)
    → fits_threads b rs ≡ true
    → engagements rs c
        + dropped rs c
        + failures b rs
        + open_uploads (run_regions rs c)
        + count (last_window b rs)
      ≡ openings rs + open_uploads c + count b
unfolding engagements openings dropped failures last_window run_regions fits_threads
uploads_are_counted_once b [] c f = omega arith
uploads_are_counted_once b (r ∷ rs) c f =
    let step = region_counts b r c (first_of (may_enter b r) (fits_threads (window b r) rs) f) in
    let f' = second_of (may_enter b r) (fits_threads (window b r) rs) f in
    let rest = uploads_are_counted_once (window b r) rs (enter_region r c) f' in
    omega (arith, step, rest)

-- What takes control of the autopilot: a mode command that leaves the mission, deferred or not, a
-- disarm, a terminate or a restart.
pub data TakesOver : Region → Type 0 where
  by_deferred_mode : (command : MavModeCommand) → TakesOver (defers command true)
  by_mode : TakesOver (resolves true)
  by_order : TakesOver takes_control
  by_restart : TakesOver restarts

taken_over : (r : Region) (c : Connection) → TakesOver r → open_uploads (enter_region r c) ≡ 0
unfolding enter_region defer_mode mode_sent invalidate_in_flight_upload
taken_over _ c (by_deferred_mode command) = refl
taken_over _ c by_mode = refl
taken_over _ c by_order = refl
taken_over _ c by_restart = refl

-- After a command that takes control, or a restart that is not found between the two regions of
-- commandGoto: no acknowledgement that mission_ack takes from then on has it engage AUTO until
-- commandGoto or uploadSearch opens a new upload, over any interleaving that the threads can produce.
pub dropped_uploads_stay_out :
    (b : Bool) (r : Region) (rs : List Region) (c : Connection)
    → TakesOver r
    → window b r ≡ false
    → fits_threads (window b r) rs ≡ true
    → openings rs ≡ 0
    → engagements rs (enter_region r c) ≡ 0
dropped_uploads_stay_out b r rs c t w f e =
    let none_open = taken_over r c t in
    let bound = uploads_are_counted_once (window b r) rs (enter_region r c) f in
    let closed = ap count w in omega (arith, none_open, bound, e, closed)
