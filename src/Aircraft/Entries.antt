-- ===== src/Aircraft/Entries.antt =====
-- What a call leaves in the entry of an aircraft: src/aircraft.hpp.
use Prim.Native.String.{String}
use fss_smm_mav.Aircraft.{
  aircraft_key, ts_1sec_interval, acceptable_update, aircraft_eviction_age, add_aircraft,
  found_or_added, find_aircraft, evict_stale_locked, new_position_report, get_aircraft_icao_address,
  AircraftDetails, KnownAircraft,
}
use fss_smm_mav.Prelude.{
  ℕ, ◌+◌, ◌≤◌, ◌≡◌, refl, sym, subst, ◌∙◌, inl, inr, Bool, true, false, Option, none, some, List,
  [], ◌∷◌, arith, ltb, Bool-cases,
}
use fss_smm_mav.Prelude.Assoc.{string_eq, find, assign, find-assign, erase_if, nat_eq}
use fss_smm_mav.Prelude.Double.{le}

-- The entry of the key remembers an acceptance at `t`, or the eviction age has gone by.
pub data Remembers (key : String) (t : ℕ) (m : List (String × AircraftDetails)) (now : ℕ)
    : Type 0 where
  entry : (ad : AircraftDetails) → find key m ≡ some ad → t ≤ ad.ts → Remembers key t m now
  old : t + aircraft_eviction_age ≤ now → Remembers key t m now

find-erase_if :
    (p : AircraftDetails → Bool) (key : String) (v : AircraftDetails)
    (m : List (String × AircraftDetails))
    → find key m ≡ some v
    → p v ≡ false
    → find key (erase_if p m) ≡ some v
unfolding find erase_if
find-erase_if p key v [] e h = cc
find-erase_if p key v ((j, w) ∷ m) e h = ground (arith, find-erase_if p key v m)

kept :
    (key : String) (t now : ℕ) (ad : AircraftDetails) (m : List (String × AircraftDetails))
    → find key m ≡ some ad
    → t ≤ ad.ts
    → Remembers key t (evict_stale_locked now m) now
unfolding evict_stale_locked
kept key t now ad m f h = elim (Bool-cases (ltb (ad.ts + aircraft_eviction_age) now)) [
  | inl e ↦ old (ground arith)
  | inr e ↦
      entry ad
        (find-erase_if (λ (a : AircraftDetails). ltb (a.ts + aircraft_eviction_age) now) key ad m f
          e)
        h
]

find-assign_same :
    (key : String) (v : AircraftDetails) (m : List (String × AircraftDetails))
    → find key (assign key v m) ≡ some v
find-assign_same key v m = find-assign key key v m ∙ simp ((string_eq.beq_iff key key).1 refl) refl

find-assign_other :
    (k key : String) (v : AircraftDetails) (m : List (String × AircraftDetails))
    → string_eq.beq k key ≡ false
    → find key (assign k v m) ≡ find key m
find-assign_other k key v m e = find-assign k key v m ∙ simp e refl

found_or_added-find :
    (o : Option AircraftDetails) (s : KnownAircraft) (key : String) (icao : ℕ)
    → find key s.aircraft ≡ o
    → find key (found_or_added o s key icao).0.aircraft ≡ some (found_or_added o s key icao).1
unfolding found_or_added add_aircraft
found_or_added-find (some ad) s key icao e = e
found_or_added-find none s key icao e = find-assign_same key _ s.aircraft

found_or_added-other :
    (o : Option AircraftDetails) (s : KnownAircraft) (k key : String) (icao : ℕ)
    → string_eq.beq k key ≡ false
    → find key (found_or_added o s k icao).0.aircraft ≡ find key s.aircraft
unfolding found_or_added add_aircraft
found_or_added-other (some ad) s k key icao e = refl
found_or_added-other none s k key icao e = find-assign_other k key _ s.aircraft e

acceptable_update-ts : (ad : AircraftDetails) (now : ℕ) → ad.ts ≤ (acceptable_update ad now).0.ts
unfolding acceptable_update
acceptable_update-ts ad now = ground arith

acceptable_update-accepts :
    (ad : AircraftDetails) (now : ℕ)
    → (acceptable_update ad now).1 ≡ true
    → (ad.ts + ts_1sec_interval ≤ now) × ((acceptable_update ad now).0.ts ≡ now)
unfolding acceptable_update
acceptable_update-accepts ad now h = ground arith

found_or_added-found :
    (o : Option AircraftDetails) (s : KnownAircraft) (k : String) (icao : ℕ) (ad : AircraftDetails)
    → o ≡ some ad
    → (found_or_added o s k icao).1 ≡ ad
unfolding found_or_added
found_or_added-found (some a) s k icao ad e = cc
found_or_added-found none s k icao ad e = cc

pub beq_eq : (k key : String) → string_eq.beq k key ≡ true → k ≡ key
beq_eq k key h = (string_eq.beq_iff k key).0 h

updated_later :
    (t : ℕ) (ad a : AircraftDetails) (now : ℕ)
    → a ≡ ad
    → t ≤ ad.ts
    → t ≤ (acceptable_update a now).0.ts
updated_later t ad a now e h =
    omega (arith, acceptable_update-ts a now, subst (λ (x : AircraftDetails). t ≤ x.ts) (sym e) h)

absurd_find {ℓ} :
    {P : Type ℓ} (o : Option AircraftDetails) (ad : AircraftDetails) → o ≡ none → o ≡ some ad → P
absurd_find none ad e f = cc
absurd_find (some a) ad e f = cc

keep_found :
    (s : KnownAircraft) (k key : String) (icao : ℕ) (a ad : AircraftDetails)
    → find key s.aircraft ≡ some ad
    → find key (found_or_added (some a) s k icao).0.aircraft ≡ some ad
unfolding found_or_added
keep_found s k key icao a ad f = f

found_or_added-keeps :
    (o : Option AircraftDetails) (s : KnownAircraft) (k key : String) (icao : ℕ)
    (ad : AircraftDetails)
    → find k s.aircraft ≡ o
    → find key s.aircraft ≡ some ad
    → find key (found_or_added o s k icao).0.aircraft ≡ some ad
found_or_added-keeps (some a) s k key icao ad e f = keep_found s k key icao a ad f
found_or_added-keeps none s k key icao ad e f = elim (Bool-cases (string_eq.beq k key)) [
  | inl b ↦
      absurd_find (find k s.aircraft) ad e
        (subst (λ j. find j s.aircraft ≡ some ad) (sym (beq_eq k key b)) f)
  | inr b ↦ found_or_added-other none s k key icao b ∙ f
]

pub report_keeps :
    (key : String) (t before : ℕ) (s : KnownAircraft) (call_sign : String) (icao now : ℕ)
    → Remembers key t s.aircraft before
    → before ≤ now
    → Remembers key t (new_position_report s call_sign icao now).0.aircraft now
unfolding new_position_report find_aircraft
report_keeps key t before s call_sign icao now (old h) le = old (omega (arith, h, le))
report_keeps key t before s call_sign icao now (entry ad f h) le =
    let k = aircraft_key call_sign icao in
    let found = found_or_added (find k s.aircraft) s k icao in
    let ad' = (acceptable_update found.1 now).0 in
    elim (Bool-cases (string_eq.beq k key)) [
      | inl e ↦
          kept key t now ad' (assign k ad' found.0.aircraft)
            (subst (λ j. find j (assign k ad' found.0.aircraft) ≡ some ad') (beq_eq k key e)
              (find-assign_same k ad' found.0.aircraft))
            (updated_later t ad found.1 now
              (found_or_added-found (find k s.aircraft) s k icao ad
                (subst (λ j. find j s.aircraft ≡ some ad) (sym (beq_eq k key e)) f))
              h)
      | inr e ↦
          kept key t now ad (assign k ad' found.0.aircraft)
            (find-assign_other k key ad' found.0.aircraft e
              ∙ found_or_added-other (find k s.aircraft) s k key icao e
              ∙ f)
            h
    ]

pub look_up_keeps :
    (key : String) (t before : ℕ) (s : KnownAircraft) (call_sign : String) (now : ℕ)
    → Remembers key t s.aircraft before
    → before ≤ now
    → Remembers key t (get_aircraft_icao_address s call_sign).0.aircraft now
unfolding get_aircraft_icao_address find_aircraft
look_up_keeps key t before s call_sign now (old h) le = old (omega (arith, h, le))
look_up_keeps key t before s call_sign now (entry ad f h) le =
    let k = aircraft_key call_sign 0 in
    entry ad (found_or_added-keeps (find k s.aircraft) s k key 0 ad refl f) h

pub accepted_report-Remembers :
    (s : KnownAircraft) (call_sign : String) (icao now : ℕ)
    → (new_position_report s call_sign icao now).1 ≡ true
    → Remembers
        (aircraft_key call_sign icao)
        now
        (new_position_report s call_sign icao now).0.aircraft
        now
unfolding new_position_report find_aircraft
accepted_report-Remembers s call_sign icao now a =
    let k = aircraft_key call_sign icao in
    let found = found_or_added (find k s.aircraft) s k icao in
    let ad' = (acceptable_update found.1 now).0 in
    kept k now now ad' (assign k ad' found.0.aircraft) (find-assign_same k ad' found.0.aircraft)
      (omega (arith, (acceptable_update-accepts found.1 now a).1))

-- An accepted report comes an interval after the acceptance remembered.
pub accepted_report_later :
    (t before : ℕ) (s : KnownAircraft) (call_sign : String) (icao now : ℕ)
    → Remembers (aircraft_key call_sign icao) t s.aircraft before
    → before ≤ now
    → (new_position_report s call_sign icao now).1 ≡ true
    → t + ts_1sec_interval ≤ now
unfolding new_position_report find_aircraft
accepted_report_later t before s call_sign icao now (old h) le a = omega (arith, h, le)
accepted_report_later t before s call_sign icao now (entry ad f h) le a =
    let k = aircraft_key call_sign icao in
    let o = find k s.aircraft in
    let found = found_or_added o s k icao in
    let e = found_or_added-found o s k icao ad f in
    omega (
      arith,
      (acceptable_update-accepts found.1 now a).0,
      subst (λ (x : AircraftDetails). t ≤ x.ts) (sym e) h,
    )
