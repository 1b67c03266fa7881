-- ===== src/Smm/Search.antt =====
-- A search as the unit holds it, SMMSearch: src/smm/smm-types.hpp and src/smm/smm.cpp. The handle of
-- the smm-asset library is a parameter, and what the library answers is an argument.
use fss_smm_mav.Dispatch.{int_lt, ℤ, pos}
use fss_smm_mav.Fss.AckGroup.{answer}
use fss_smm_mav.Prelude.{
  ℕ, ◌≡◌, refl, inl, inr, Bool, true, false, not, Option, none, some, List, [], ◌∷◌, ◌++◌, length,
  ltb, if◌then◌else◌, Bool-cases,
}
use fss_smm_mav.Prelude.Double.{of_ℕ, Double}
use fss_smm_mav.Smm.SearchAltitude.{raw_search_altitude, clamp_search_altitude}
use fss_smm_mav.Types.{is_valid, Point}

-- What an array of waypoints decodes to.
pub record ParsedWaypoints : Type 0 where
  pub points : List Point
  pub all_valid : Bool

-- One waypoint of the loop.
abbrev pub parse_waypoint : ParsedWaypoints → Point → ParsedWaypoints
parse_waypoint result wp = record {
  points = result.points ++ wp ∷ [];
  all_valid = if not (is_valid wp) then false else result.all_valid;
}

abbrev pub parse_rest : ParsedWaypoints → List Point → ParsedWaypoints
parse_rest result [] = result
parse_rest result (wp ∷ wps) = parse_rest (parse_waypoint result wp) wps

unfoldable pub parse_waypoints : List Point → ParsedWaypoints
parse_waypoints wps = parse_rest (record { points = []; all_valid = true }) wps

-- `altitude` is none where C++ does not define the cast to an integer.
pub record SmmSearch (Handle : Type 0) : Type 0 where
  pub points : List Point
  pub current_point : ℤ
  pub altitude : Option ℕ
  pub search_handle : Option Handle
  pub valid : Bool

-- smm_search_accept, smm_search_complete, smm_search_destroy.
pub data SearchCall (Handle : Type 0) : Type 0 where
  accepted completed destroyed : Handle → SearchCall Handle

-- The points and the validity after smm_search_get_waypoints, which gives none when it fails.
abbrev pub loaded_waypoints : Option (List Point) → List Point × Bool
loaded_waypoints none = ([], false)
loaded_waypoints (some wps) =
    if ltb 0 (length wps)
    then (let parsed = parse_waypoints wps in (parsed.points, parsed.all_valid))
    else ([], false)

module _ {Handle : Type 0} where
  -- The constructor.
  unfoldable pub new_search :
      (Double → Double) → ℕ → ℕ → Double → Handle → Option (List Point) → ℕ → SmmSearch Handle
  unfolding parse_waypoints raw_search_altitude clamp_search_altitude
  new_search tan altitude_cap altitude_floor camera_fov_deg handle wps sweep =
      let (points, valid) = loaded_waypoints wps in
      record {
        points = points;
        current_point = pos 0;
        altitude =
            clamp_search_altitude (raw_search_altitude tan (of_ℕ sweep) camera_fov_deg)
              altitude_floor altitude_cap;
        search_handle = some handle;
        valid = valid;
      }

  abbrev pub points_count : SmmSearch Handle → ℕ
  points_count c = length c.points

  abbrev pub handle_call : Option Handle → (Handle → SearchCall Handle) → List (SearchCall Handle)
  handle_call none call = []
  handle_call (some h) call = call h ∷ []

  -- `accept`: the library is asked about a valid search only; `answer` is what it says.
  unfoldable pub accept : SmmSearch Handle → Bool → Bool × List (SearchCall Handle)
  accept c answer =
      if not c.valid then (false, []) else (answer, handle_call c.search_handle accepted)

  abbrev pub reached_last : Option Handle → ℕ → ℤ → Bool
  reached_last none count point = false
  reached_last (some h) count point = not (int_lt point (pos count))

  -- `reachedPoint`: the search after it, whether it is completed, and the calls of the library.
  unfoldable pub search_reached :
      SmmSearch Handle → ℤ → SmmSearch Handle × Bool × List (SearchCall Handle)
  search_reached c point =
      if reached_last c.search_handle (points_count c) point
      then (
        record c { search_handle = none },
        true,
        handle_call c.search_handle completed ++ handle_call c.search_handle destroyed,
      )
      else (record c { current_point = point }, false, [])

  -- The destructor.
  unfoldable pub destroy_search : SmmSearch Handle → List (SearchCall Handle)
  destroy_search c = handle_call c.search_handle destroyed

  pub new_search-handle :
      (tan : Double → Double) (altitude_cap altitude_floor : ℕ) (camera_fov_deg : Double)
      (handle : Handle) (wps : Option (List Point)) (sweep : ℕ)
      → (new_search tan altitude_cap altitude_floor camera_fov_deg handle wps sweep).search_handle
        ≡ some handle
  unfolding new_search
  new_search-handle tan altitude_cap altitude_floor camera_fov_deg handle wps sweep = refl

  pub reached-points :
      (c : SmmSearch Handle) (point : ℤ) → (search_reached c point).0.points ≡ c.points
  unfolding search_reached
  reached-points c point = elim (Bool-cases (reached_last c.search_handle (points_count c) point)) [
    | inl e ↦ rw e refl
    | inr e ↦ rw e refl
  ]
