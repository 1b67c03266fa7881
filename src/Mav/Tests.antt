-- ===== src/Mav/Tests.antt =====
-- The theorems on the autopilot's side at concrete inputs.
use fss_smm_mav.Dispatch.{pos, negsuc}
use fss_smm_mav.Mav.Encoding.{int32_max, encode_deg_e7}
use fss_smm_mav.Mav.Mission.{
  search_point_mission_seq, next_search_point_after_reached_seq, bare, mission_item_for, uploaded,
  points_from, search_mission_layout, search_point_resume, takeoff, search_point, rtl, search,
}
use fss_smm_mav.Prelude.{◌≡◌, refl, [], ◌∷◌, ◌++◌, arith}
use fss_smm_mav.Prelude.Double.{one, of_ℕ, lt, eq, le, neg}

search_mission_layout_example :
    uploaded 2 search ≡ bare takeoff ∷ bare takeoff ∷ (points_from 2 0 ++ bare rtl ∷ [])
search_mission_layout_example = search_mission_layout 2 (omega arith)

search_point_resume_example :
    (mission_item_for (search_point_mission_seq 4) 10 search
      ≡ record { kind = search_point; point_index = 4 })
    × (next_search_point_after_reached_seq (search_point_mission_seq 4) ≡ 5)
search_point_resume_example = search_point_resume 4 10 (omega arith) (omega arith)

encoded_beyond : encode_deg_e7 (of_ℕ 4000000000) ≡ pos int32_max
unfolding encode_deg_e7 le lt eq one
encoded_beyond = refl

encoded_west : encode_deg_e7 (neg (of_ℕ 1740000000)) ≡ negsuc 1739999999
unfolding encode_deg_e7 le lt eq one
encoded_west = refl
