-- ===== src/Mav/Upload/Tests.antt =====
-- The uploads at concrete interleavings.
use fss_smm_mav.Mav.Encoding.{degrees_to_deg_e7}
use fss_smm_mav.Mav.Mission.{search_point_mission_seq, mission_item_for, mission_count_for, search}
use fss_smm_mav.Mav.ModeResolve.{
  resolve_mav_mode, mav_type_fixed_wing, plane_mode_rtl, plane_mode_auto,
}
use fss_smm_mav.Mav.Upload.{
  invalidate_in_flight_upload, mode_sent, open_goto, goto_count_sent, open_search, take_search,
  engaged_by, take_ack, load_search, mission_ack, Connection, SearchView, nav_waypoint, set_mode,
  mission_count, mission_set_current, mission_item,
}
use fss_smm_mav.Mav.Upload.Flown.{StaysLoaded, accepted_search_is_flown}
use fss_smm_mav.Mav.Upload.Regions.{
  enter_region, run_regions, fits_threads, Region, resolves, takes_control, restarts, opens_goto,
  sends_goto, opens_search, loads_search, acks,
}
use fss_smm_mav.Mav.Upload.Regions.Engaged.{
  count, engagements, openings, open_uploads, dropped, failures, last_window,
  uploads_are_counted_once, dropped_uploads_stay_out, by_order,
}
use fss_smm_mav.Mav.Upload.Regions.Waypoint.{
  item_reply, reply_to, send_waypoint, search_held, gives_search, all_give, crashes,
  requests_read_what_is_there, replies,
}
use fss_smm_mav.Prelude.{ℕ, ◌+◌, ◌%◌, ◌^◌, ◌≡◌, refl, true, false, none, some, List, [], ◌∷◌}
use fss_smm_mav.Prelude.Double.{of_ℕ}

abbrev idle : Connection
idle = record {
  search_ref = none;
  search_loading = false;
  search_loaded = false;
  goto_position = record { latitude = of_ℕ 0; longitude = of_ℕ 0 };
  goto_active = false;
  goto_ack_pending = false;
  pending_mode_command = none;
}

-- The one search there is, at its first point.
abbrev two_points : ℕ → SearchView
two_points r = record {
  points =
      record { latitude = of_ℕ 1; longitude = of_ℕ 2 }
      ∷ record { latitude = of_ℕ 3; longitude = of_ℕ 4 }
      ∷ [];
  current_point = 1;
  altitude = 60;
}

-- A search is loaded and acknowledged twice, then taken over and acknowledged again.
abbrev flight : List Region
flight =
    loads_search (some 7)
    ∷ resolves true
    ∷ opens_search 7
    ∷ acks true
    ∷ acks true
    ∷ takes_control
    ∷ acks true
    ∷ []

flight_engages : engagements flight idle ≡ 1
unfolding engagements enter_region engaged_by take_search mode_sent open_search take_ack
    invalidate_in_flight_upload
flight_engages = refl

uploads_are_counted_once_example :
    engagements flight idle
      + dropped flight idle
      + failures false flight
      + open_uploads (run_regions flight idle)
      + count (last_window false flight)
    ≡ openings flight + open_uploads idle + count false
unfolding fits_threads
uploads_are_counted_once_example = uploads_are_counted_once false flight idle refl

-- A goto waits for its acknowledgement; the operator disarms, and it comes.
abbrev waiting_goto : Connection
waiting_goto = record idle { goto_active = true; goto_ack_pending = true }

dropped_uploads_stay_out_example :
    engagements (loads_search (some 7) ∷ acks true ∷ []) (enter_region takes_control waiting_goto)
    ≡ 0
unfolding openings fits_threads
dropped_uploads_stay_out_example =
    dropped_uploads_stay_out true takes_control (loads_search (some 7) ∷ acks true ∷ [])
      waiting_goto by_order refl refl refl

-- A restart between the sending of a goto's MISSION_COUNT and the store that follows it does not
-- keep the goto from being engaged.
restart_within_goto :
    engagements (opens_goto idle.goto_position ∷ restarts ∷ sends_goto ∷ acks true ∷ []) idle ≡ 1
unfolding engagements enter_region engaged_by open_goto goto_count_sent take_ack
    invalidate_in_flight_upload
restart_within_goto = refl

requests_read_what_is_there_example :
    crashes
      (send_waypoint 50 3 0 two_points (run_regions (resolves true ∷ opens_search 7 ∷ []) idle))
    ≡ false
unfolding search_held all_give gives_search
requests_read_what_is_there_example =
    requests_read_what_is_there 50 3 0 two_points (resolves true ∷ opens_search 7 ∷ []) idle refl
      refl

search_item_served :
    send_waypoint 50 3 0 two_points (run_regions (opens_search 7 ∷ []) idle)
    ≡ replies (
        mission_item 3 0
          (nav_waypoint true (degrees_to_deg_e7 (of_ℕ 3)) (degrees_to_deg_e7 (of_ℕ 4)) 60))
unfolding send_waypoint reply_to item_reply mission_item_for run_regions enter_region open_search
search_item_served = refl

accepted_search_is_flown_example :
    let up = load_search mav_type_fixed_wing (λ _. true) two_points (some 7) idle in
    let done = mission_ack mav_type_fixed_wing (λ _. true) two_points true up.0 in
    (up.1 ≡ set_mode plane_mode_rtl ∷ mission_count (mission_count_for 2 search % 2 ^ 16) ∷ [])
    × (done.1 ≡ mission_set_current (search_point_mission_seq 1) ∷ set_mode plane_mode_auto ∷ [])
    × StaysLoaded mav_type_fixed_wing (λ _. true) two_points 7 done.0
unfolding resolve_mav_mode
accepted_search_is_flown_example =
    accepted_search_is_flown mav_type_fixed_wing (λ _. true) two_points 7 idle plane_mode_rtl
      plane_mode_auto refl refl refl
