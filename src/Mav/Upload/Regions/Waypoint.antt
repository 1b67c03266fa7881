-- ===== src/Mav/Upload/Regions/Waypoint.antt =====
-- send_waypoint of src/mav/mavlink.cpp, and that it never reads a search that is not there.
use fss_smm_mav.Mav.Encoding.{degrees_to_deg_e7}
use fss_smm_mav.Mav.Mission.{
  mission_item_for, MissionItemKind, takeoff, search_point, goto_point, rtl, search, go_to,
}
use fss_smm_mav.Mav.Upload.{
  invalidate_in_flight_upload, leave_mission, defer_mode, mode_sent, mode_replayed, open_goto,
  goto_count_sent, forget_goto, open_search, needs_load, take_search, take_ack, Connection,
  SearchView, ItemBody, nav_return_to_launch, nav_takeoff, nav_waypoint, Message, mission_item,
}
use fss_smm_mav.Mav.Upload.Regions.{
  enter_region, run_regions, Region, defers, resolves, replays, takes_control, restarts, opens_goto,
  sends_goto, loses_link, opens_search, loads_search, acks,
}
use fss_smm_mav.Prelude.{
  ℕ, zero, suc, ◌+◌, ◌-◌, ◌<◌, ◌≡◌, refl, inl, inr, Bool, true, false, not, ◌&&◌, ◌||◌, Option,
  none, some, List, [], ◌∷◌, arith, length, get_elem?, ltb, leb, ◌==◌, if◌then◌else◌, Bool-cases,
}
use fss_smm_mav.Smm.Worker.Acquire.{is_some}
use fss_smm_mav.Types.{Point}

-- What a MISSION_REQUEST leads to. The last two read through a null pointer, and past a vector.
pub data Reply : Type 0 where
  silent : Reply
  replies : Message → Reply
  null_search no_such_point : Reply

-- The search as read under the lock: the item is built after the lock is released.
abbrev pub view_of : (ℕ → SearchView) → Option ℕ → Option SearchView
view_of view none = none
view_of view (some r) = some (view r)

abbrev pub points_read : Option SearchView → ℕ
points_read none = 0
points_read (some s) = length s.points

abbrev pub point_body : Bool → ℕ → Option Point → Option ItemBody
point_body current altitude_m none = none
point_body current altitude_m (some p) =
    some (
      nav_waypoint current (degrees_to_deg_e7 p.latitude) (degrees_to_deg_e7 p.longitude)
        altitude_m)

module _ (goto_altitude_m seq mission_type : ℕ) where
  abbrev pub replies_with : ItemBody → Reply
  replies_with b = replies (mission_item seq mission_type b)

  abbrev pub point_reply : Option ItemBody → Reply
  point_reply none = no_such_point
  point_reply (some b) = replies_with b

  unfoldable pub item_reply : Point → Option SearchView → MissionItemKind → ℕ → Reply
  unfolding degrees_to_deg_e7
  item_reply p s rtl i = replies_with nav_return_to_launch
  item_reply p s goto_point i = point_reply (point_body false goto_altitude_m (some p))
  item_reply p none takeoff i = null_search
  item_reply p (some s) takeoff i =
      replies_with (nav_takeoff (seq == 1 && s.current_point == 0) s.altitude)
  item_reply p none search_point i = null_search
  item_reply p (some s) search_point i =
      point_reply (point_body (s.current_point == i) s.altitude (get_elem? s.points i))

  -- What follows the lock, of what was read under it.
  unfoldable pub reply_to : Bool → Bool → Point → Option SearchView → Reply
  unfolding item_reply mission_item_for
  reply_to local_goto_active local_search_loading local_goto_position local_search =
      if not local_goto_active && not local_search_loading
      then silent
      else let mode = if local_goto_active then go_to else search in
        let item = mission_item_for seq (points_read local_search) mode in
        item_reply local_goto_position local_search item.kind item.point_index

  unfoldable pub send_waypoint : (ℕ → SearchView) → Connection → Reply
  unfolding reply_to
  send_waypoint view c =
      reply_to c.goto_active c.search_loading c.goto_position (view_of view c.search_ref)

-- The search of an upload is there.
unfoldable pub search_held : Connection → Bool
search_held c = not c.search_loading || is_some c.search_ref

unfoldable pub gives_search : Region → Bool
gives_search (loads_search none) = false
gives_search _ = true

unfoldable pub all_give : List Region → Bool
unfolding gives_search
all_give [] = true
all_give (r ∷ rs) = gives_search r && all_give rs

abbrev pub crashes : Reply → Bool
crashes null_search = true
crashes no_such_point = true
crashes _ = false

left_held :
    (clear : Bool) (c : Connection)
    → search_held c ≡ true
    → search_held (leave_mission clear c) ≡ true
unfolding search_held invalidate_in_flight_upload
left_held true c h = refl
left_held false c h = h

taken_held :
    (b : Bool) (r : ℕ) (c : Connection)
    → search_held c ≡ true
    → search_held (if b then record c { search_ref = some r } else c) ≡ true
unfolding search_held
taken_held true r c h = ground arith
taken_held false r c h = h

region-held :
    (r : Region) (c : Connection)
    → gives_search r ≡ true
    → search_held c ≡ true
    → search_held (enter_region r c) ≡ true
unfolding gives_search search_held enter_region defer_mode mode_sent mode_replayed
    invalidate_in_flight_upload open_goto goto_count_sent forget_goto open_search take_search
    take_ack
region-held (defers command clear) c g h =
    left_held clear (record c { pending_mode_command = some command }) h
region-held (resolves clear) c g h = left_held clear (record c { pending_mode_command = none }) h
region-held (replays command) c g h = h
region-held takes_control c g h = refl
region-held restarts c g h = refl
region-held (opens_goto p) c g h = h
region-held sends_goto c g h = h
region-held loses_link c g h = h
region-held (opens_search r) c g h = refl
region-held (loads_search none) c g h = absurd (ground (arith, g))
region-held (loads_search (some r)) c g h = taken_held (needs_load (some r) c) r c h
region-held (acks b) c g h = refl

run-held :
    (rs : List Region) (c : Connection)
    → all_give rs ≡ true
    → search_held c ≡ true
    → search_held (run_regions rs c) ≡ true
unfolding all_give run_regions
run-held [] c g h = h
run-held (r ∷ rs) c g h =
    run-held rs (enter_region r c) (ground arith) (region-held r c (ground arith) h)

there : {A : Type 0} (xs : List A) (i : ℕ) → i < length xs → is_some (get_elem? xs i) ≡ true
there [] i h = absurd (omega (arith, h))
there (x ∷ xs) zero h = refl
there (x ∷ xs) (suc i) h = there xs i (omega (arith, h))

module _ (goto_altitude_m seq mission_type : ℕ) where
  point_served :
      (current : Bool) (altitude_m : ℕ) (p : Option Point)
      → is_some p ≡ true
      → crashes (point_reply goto_altitude_m seq mission_type (point_body current altitude_m p))
        ≡ false
  point_served current altitude_m none h = absurd (ground (arith, h))
  point_served current altitude_m (some p) h = refl

  goto_served :
      (p : Point) (s : Option SearchView) (n : ℕ)
      → crashes (
          item_reply goto_altitude_m seq mission_type p s
            (mission_item_for seq n go_to).kind
            (mission_item_for seq n go_to).point_index)
        ≡ false
  unfolding item_reply mission_item_for
  goto_served p s n = elim (Bool-cases (leb 2 seq)) [ inl e ↦ rw e refl | inr e ↦ rw e refl ]

  search_served :
      (p : Point) (s : SearchView)
      → crashes (
          item_reply goto_altitude_m seq mission_type p
            (some s)
            (mission_item_for seq (length s.points) search).kind
            (mission_item_for seq (length s.points) search).point_index)
        ≡ false
  unfolding item_reply mission_item_for
  search_served p s = elim (Bool-cases (leb seq 1)) [
    | inl e ↦ rw e refl
    | inr e ↦ elim (Bool-cases (ltb (length s.points + 1) seq)) [
      | inl f ↦ rw (e, f) refl
      | inr f ↦
          rw (e, f)
            (point_served (s.current_point == seq - 2) s.altitude (get_elem? s.points (seq - 2))
              (there s.points (seq - 2) (ground (arith, e, f))))
    ]
  ]

  held_served :
      (view : ℕ → SearchView) (active loading : Bool) (p : Point) (ref : Option ℕ)
      → (not loading || is_some ref) ≡ true
      → crashes (reply_to goto_altitude_m seq mission_type active loading p (view_of view ref))
        ≡ false
  unfolding reply_to
  held_served view true loading p ref h =
      goto_served p (view_of view ref) (points_read (view_of view ref))
  held_served view false true p none h = absurd (ground (arith, h))
  held_served view false true p (some r) h = search_served p (view r)
  held_served view false false p ref h = refl

  -- If no null search is handed to loadSearch, then after any interleaving of the threads' steps a
  -- request for a mission item, of any number, is answered without reading through a null search or
  -- past the points of one.
  pub requests_read_what_is_there :
      (view : ℕ → SearchView) (rs : List Region) (c : Connection)
      → search_held c ≡ true
      → all_give rs ≡ true
      → crashes (send_waypoint goto_altitude_m seq mission_type view (run_regions rs c)) ≡ false
  unfolding send_waypoint search_held
  requests_read_what_is_there view rs c h g =
      let d = run_regions rs c in
      held_served view d.goto_active d.search_loading d.goto_position d.search_ref
        (run-held rs c g h)
