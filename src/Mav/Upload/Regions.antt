-- ===== src/Mav/Upload/Regions.antt =====
-- The parts of mav_connection's methods in src/mav/mavlink.cpp that run under state_lock, as the steps
-- that the threads interleave: the event loop's commands, the loads of the SMM thread, and the
-- acknowledgements and restarts that the receiving thread sees.
pub mod Engaged
pub mod Waypoint
use fss_smm_mav.Mav.ModeResolve.{MavModeCommand}
use fss_smm_mav.Mav.Upload.{
  invalidate_in_flight_upload, defer_mode, mode_sent, mode_replayed, open_goto, goto_count_sent,
  forget_goto, open_search, take_search, take_ack, Connection,
}
use fss_smm_mav.Prelude.{ℕ, Bool, true, false, ◌&&◌, Option, List, [], ◌∷◌}
use fss_smm_mav.Types.{Point}

pub data Region : Type 0 where
  defers : MavModeCommand → (clear_search_loaded : Bool) → Region
  resolves : (clear_search_loaded : Bool) → Region
  replays : MavModeCommand → Region
  -- A disarm, a forced one, or a terminate.
  takes_control : Region
  -- The autopilot is found to have restarted.
  restarts : Region
  opens_goto : Point → Region
  sends_goto : Region
  loses_link : Region
  opens_search : ℕ → Region
  loads_search : Option ℕ → Region
  acks : Bool → Region

unfoldable pub enter_region : Region → Connection → Connection
unfolding defer_mode mode_sent mode_replayed invalidate_in_flight_upload open_goto goto_count_sent
    forget_goto open_search take_search take_ack
enter_region (defers command clear) c = defer_mode command clear c
enter_region (resolves clear) c = mode_sent clear c
enter_region (replays command) c = mode_replayed command c
enter_region takes_control c = invalidate_in_flight_upload c
enter_region restarts c = invalidate_in_flight_upload c
enter_region (opens_goto p) c = open_goto p c
enter_region sends_goto c = goto_count_sent c
enter_region loses_link c = forget_goto c
enter_region (opens_search r) c = open_search r c
enter_region (loads_search r) c = take_search r c
enter_region (acks b) c = take_ack b c

unfoldable pub run_regions : List Region → Connection → Connection
unfolding enter_region
run_regions [] c = c
run_regions (r ∷ rs) c = run_regions rs (enter_region r c)

-- commandGoto has two regions, both of the event loop's thread: the second follows the first with no
-- region of that thread between them. `window` says whether the first is the thread's last region;
-- the receiving and the heartbeat thread do not change that.
abbrev pub window : Bool → Region → Bool
window b (opens_goto p) = true
window b (defers command false) = b
window b (resolves false) = b
window b (replays command) = b
window b restarts = b
window b loses_link = b
window b (acks accepted) = b
window b _ = false

abbrev pub may_enter : Bool → Region → Bool
may_enter b sends_goto = b
may_enter b _ = true

-- The interleavings that the threads can produce.
unfoldable pub fits_threads : Bool → List Region → Bool
fits_threads b [] = true
fits_threads b (r ∷ rs) = may_enter b r && fits_threads (window b r) rs
