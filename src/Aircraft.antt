-- ===== src/Aircraft.antt =====
-- The known aircraft and the debounce of their reports: src/aircraft.hpp. The lock makes each call
-- one step on the state; times are milliseconds, and the local clock's reading is an argument.
pub mod Entries
pub mod Debounce
pub mod Synthetic
mod Tests
use Prim.Native.String.{String, ◌++◌}
use fss_smm_mav.Prelude.{
  ℕ, ◌+◌, ◌*◌, Bool, true, false, not, Option, none, some, List, [], ltb, leb, ◌==◌, if◌then◌else◌,
}
use fss_smm_mav.Prelude.Assoc.{find, assign, erase_if, string_eq, nat_eq}
use fss_smm_mav.Prelude.Decimal.{to_string}

abbrev pub first_icao_address_for_unknown_aircraft : ℕ
first_icao_address_for_unknown_aircraft = 4096

abbrev pub last_icao_address_for_unknown_aircraft : ℕ
last_icao_address_for_unknown_aircraft = 16777215

unfoldable pub next_synthetic_icao : ℕ → ℕ
next_synthetic_icao current =
    if leb last_icao_address_for_unknown_aircraft current
    then first_icao_address_for_unknown_aircraft
    else current + 1

unfoldable pub aircraft_key : String → ℕ → String
unfolding to_string
aircraft_key t_call_sign t_icao_address =
    if not (t_icao_address == 0)
    then "icao:" ++ (to_string t_icao_address)
    else "cs:" ++ t_call_sign

-- `ts` and `icao_address`.
pub record AircraftDetails : Type 0 where
  pub ts : ℕ
  pub icao_address : ℕ

abbrev pub ts_1sec_interval : ℕ
ts_1sec_interval = 1000

unfoldable pub acceptable_update : AircraftDetails → ℕ → AircraftDetails × Bool
acceptable_update ad now =
    if leb (ad.ts + ts_1sec_interval) now then (record ad { ts = now }, true) else (ad, false)

abbrev pub aircraft_eviction_age : ℕ
aircraft_eviction_age = 5 * 60 * 1000

pub record KnownAircraft : Type 0 where
  pub last_allocated_icao : ℕ
  pub aircraft : List (String × AircraftDetails)

unfoldable pub init : KnownAircraft
init = record { last_allocated_icao = first_icao_address_for_unknown_aircraft; aircraft = [] }

-- A new entry of findAircraft, under its key.
unfoldable pub add_aircraft : KnownAircraft → String → ℕ → KnownAircraft × AircraftDetails
unfolding next_synthetic_icao assign
add_aircraft s key t_icao_address =
    let last =
      if t_icao_address == 0
      then next_synthetic_icao s.last_allocated_icao
      else s.last_allocated_icao in
    let ad : AircraftDetails = record {
      ts = 0;
      icao_address = if t_icao_address == 0 then last else t_icao_address;
    } in
    (record { last_allocated_icao = last; aircraft = assign key ad s.aircraft }, ad)

-- The entry that is there, or a new one.
unfoldable pub found_or_added :
    Option AircraftDetails → KnownAircraft → String → ℕ → KnownAircraft × AircraftDetails
unfolding add_aircraft
found_or_added (some ad) s key t_icao_address = (s, ad)
found_or_added none s key t_icao_address = add_aircraft s key t_icao_address

unfoldable pub find_aircraft : KnownAircraft → String → ℕ → KnownAircraft × AircraftDetails
unfolding aircraft_key find found_or_added
find_aircraft s t_call_sign t_icao_address =
    let key = aircraft_key t_call_sign t_icao_address in
    found_or_added (find key s.aircraft) s key t_icao_address

unfoldable pub evict_stale_locked :
    ℕ → List (String × AircraftDetails) → List (String × AircraftDetails)
unfolding erase_if
evict_stale_locked now aircraft =
    erase_if (λ (ad : AircraftDetails). ltb (ad.ts + aircraft_eviction_age) now) aircraft

unfoldable pub new_position_report : KnownAircraft → String → ℕ → ℕ → KnownAircraft × Bool
unfolding find_aircraft acceptable_update evict_stale_locked assign aircraft_key
new_position_report s t_call_sign t_icao_address now_ms =
    let key = aircraft_key t_call_sign t_icao_address in
    let (t, ad) = find_aircraft s t_call_sign t_icao_address in
    let (ad', accepted) = acceptable_update ad now_ms in
    (record t { aircraft = evict_stale_locked now_ms (assign key ad' t.aircraft) }, accepted)

unfoldable pub get_aircraft_icao_address : KnownAircraft → String → KnownAircraft × ℕ
unfolding find_aircraft
get_aircraft_icao_address s t_call_sign =
    let (t, ad) = find_aircraft s t_call_sign 0 in (t, ad.icao_address)
