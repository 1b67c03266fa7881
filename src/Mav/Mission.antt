-- ===== src/Mav/Mission.antt =====
-- The layout of an uploaded mission: src/mav/mission-plan.hpp.
use fss_smm_mav.Prelude.{
  ℕ, zero, suc, ◌+◌, ◌-◌, ◌%◌, ◌^◌, ◌≤◌, ◌<◌, ◌≡◌, refl, ap, ap₂, subst, ◌∙◌, List, [], ◌∷◌, ◌++◌,
  arith, ltb, leb, if◌then◌else◌,
}

pub data MissionItemKind : Type 0 where
  takeoff search_point goto_point rtl : MissionItemKind

pub data MissionPlanMode : Type 0 where
  search go_to : MissionPlanMode

pub record MissionItem : Type 0 where
  pub kind : MissionItemKind
  pub point_index : ℕ

abbrev pub search_first_point_seq : ℕ
search_first_point_seq = 2

-- `static_cast<uint16_t>`, of an index that is not negative.
unfoldable pub search_point_mission_seq : ℕ → ℕ
search_point_mission_seq point_index = (point_index + search_first_point_seq) % 2 ^ 16

-- The caller has checked that `seq` is a search point's.
unfoldable pub next_search_point_after_reached_seq : ℕ → ℕ
next_search_point_after_reached_seq seq = seq - search_first_point_seq + 1

abbrev pub bare : MissionItemKind → MissionItem
bare k = record { kind = k; point_index = 0 }

unfoldable pub mission_item_for : ℕ → ℕ → MissionPlanMode → MissionItem
mission_item_for seq num_points go_to = if leb 2 seq then bare rtl else bare goto_point
mission_item_for seq num_points search =
    if leb seq 1
    then bare takeoff
    else if ltb (num_points + 1) seq
    then bare rtl
    else record { kind = search_point; point_index = seq - 2 }

unfoldable pub mission_count_for : ℕ → MissionPlanMode → ℕ
mission_count_for num_points go_to = 3
mission_count_for num_points search = num_points + 3

-- The items of `seq` .. `seq + n - 1`.
abbrev items_from : ℕ → ℕ → ℕ → MissionPlanMode → List MissionItem
items_from zero seq num_points mode = []
items_from (suc n) seq num_points mode =
    mission_item_for seq num_points mode ∷ items_from n (suc seq) num_points mode

-- The answers to `n` requests from `seq` on; a request carries its number as a uint16_t.
abbrev pub answers_from : ℕ → ℕ → ℕ → MissionPlanMode → List MissionItem
answers_from zero seq num_points mode = []
answers_from (suc n) seq num_points mode =
    mission_item_for (seq % 2 ^ 16) num_points mode ∷ answers_from n (suc seq) num_points mode

-- `static_cast<uint16_t> (count)`: what the autopilot is told, and then asks for one by one.
abbrev pub count_on_wire : ℕ → MissionPlanMode → ℕ
count_on_wire num_points mode = mission_count_for num_points mode % 2 ^ 16

abbrev pub uploaded : ℕ → MissionPlanMode → List MissionItem
uploaded num_points mode = answers_from (count_on_wire num_points mode) 0 num_points mode

abbrev pub points_from : ℕ → ℕ → List MissionItem
points_from zero i = []
points_from (suc n) i = record { kind = search_point; point_index = i } ∷ points_from n (suc i)

point_item :
    (i num_points : ℕ)
    → i < num_points
    → mission_item_for (suc (suc i)) num_points search
      ≡ record { kind = search_point; point_index = i }
unfolding mission_item_for
point_item i num_points h = ground arith

return_item : (n : ℕ) → mission_item_for (suc (suc n)) n search ≡ bare rtl
unfolding mission_item_for
return_item n = ground arith

-- From the first point on: the remaining points in order, then the return.
search_tail :
    (n i num_points : ℕ)
    → i + n ≡ num_points
    → items_from (suc n) (suc (suc i)) num_points search ≡ points_from n i ++ bare rtl ∷ []
search_tail zero i num_points e =
    ap (λ k. k ∷ [])
      (subst (λ m. mission_item_for (suc (suc i)) m search ≡ bare rtl) (omega (arith, e))
        (return_item i))
search_tail (suc n) i num_points e =
    ap₂ ◌∷◌ (point_item i num_points (omega (arith, e)))
      (search_tail n (suc i) num_points (omega (arith, e)))

mission_count_suc : (n : ℕ) → suc (suc (suc n)) ≡ n + 3
mission_count_suc n = omega arith

answers-items :
    (n seq num_points : ℕ) (mode : MissionPlanMode)
    → seq + n ≤ 2 ^ 16
    → answers_from n seq num_points mode ≡ items_from n seq num_points mode
answers-items zero seq num_points mode h = refl
answers-items (suc n) seq num_points mode h =
    ap₂ ◌∷◌ (ap (λ k. mission_item_for k num_points mode) (omega (arith, h)))
      (answers-items n (suc seq) num_points mode (omega (arith, h)))

search_items :
    (num_points : ℕ)
    → items_from (num_points + 3) 0 num_points search
      ≡ bare takeoff ∷ bare takeoff ∷ (points_from num_points 0 ++ bare rtl ∷ [])
unfolding mission_item_for
search_items num_points =
    subst
      (λ m.
        items_from m 0 num_points search
        ≡ bare takeoff ∷ bare takeoff ∷ (points_from num_points 0 ++ bare rtl ∷ []))
      (mission_count_suc num_points)
      (ap (λ r. bare takeoff ∷ bare takeoff ∷ r)
        (search_tail num_points 0 num_points (omega arith)))

-- If the number of items fits 16 bits: the mission that the autopilot downloads for a search, asking
-- for each of the items it was told of, is two setup items, each search point once and in order, and
-- a return at the end.
pub search_mission_layout :
    (num_points : ℕ)
    → num_points + 3 < 2 ^ 16
    → uploaded num_points search
      ≡ bare takeoff ∷ bare takeoff ∷ (points_from num_points 0 ++ bare rtl ∷ [])
unfolding mission_count_for
search_mission_layout num_points h =
    let count : (num_points + 3) % 2 ^ 16 ≡ num_points + 3 = omega (arith, h) in
    ap (λ k. answers_from k 0 num_points search) count
    ∙ (answers-items (num_points + 3) 0 num_points search (omega (arith, h))
        ∙ search_items num_points)

-- If the mission fits 16-bit sequence numbers: a search point uploaded at its sequence number is
-- the one found there, and reporting it as reached resumes at the point after it.
pub search_point_resume :
    (i num_points : ℕ)
    → i < num_points
    → num_points + 3 ≤ 2 ^ 16
    → (mission_item_for (search_point_mission_seq i) num_points search
        ≡ record { kind = search_point; point_index = i })
      × (next_search_point_after_reached_seq (search_point_mission_seq i) ≡ suc i)
unfolding mission_item_for search_point_mission_seq next_search_point_after_reached_seq
search_point_resume i num_points h b = ground arith
