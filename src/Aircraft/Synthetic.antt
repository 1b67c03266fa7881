-- ===== src/Aircraft/Synthetic.antt =====
-- The synthetic addresses: src/aircraft.hpp.
use Prim.Native.String.{String}
use fss_smm_mav.Aircraft.{
  first_icao_address_for_unknown_aircraft, last_icao_address_for_unknown_aircraft,
  next_synthetic_icao, aircraft_key, init, add_aircraft, found_or_added, find_aircraft,
  new_position_report, get_aircraft_icao_address, AircraftDetails, KnownAircraft,
}
use fss_smm_mav.Aircraft.Debounce.{after, Event, reported, looked_up}
use fss_smm_mav.Prelude.{
  ℕ, ◌≤◌, inl, inr, Option, none, some, List, [], ◌∷◌, arith, ◌==◌, Bool-cases,
}
use fss_smm_mav.Prelude.Assoc.{find, string_eq, nat_eq}

-- 24 bits, and from the start of the unallocated range.
abbrev pub IsSynthetic : ℕ → Type 0
IsSynthetic icao =
    (first_icao_address_for_unknown_aircraft ≤ icao)
    × (icao ≤ last_icao_address_for_unknown_aircraft)

next_synthetic_icao-IsSynthetic : (n : ℕ) → IsSynthetic n → IsSynthetic (next_synthetic_icao n)
unfolding next_synthetic_icao
next_synthetic_icao-IsSynthetic n h = ground (arith, h.0, h.1)

add_aircraft-IsSynthetic :
    (s : KnownAircraft) (key : String) (icao : ℕ)
    → IsSynthetic s.last_allocated_icao
    → IsSynthetic (add_aircraft s key icao).0.last_allocated_icao
unfolding add_aircraft
add_aircraft-IsSynthetic s key icao h = elim (Bool-cases (icao == 0)) [
  | inl e ↦ rw e (next_synthetic_icao-IsSynthetic s.last_allocated_icao h)
  | inr e ↦ rw e h
]

found_or_added-IsSynthetic :
    (o : Option AircraftDetails) (s : KnownAircraft) (key : String) (icao : ℕ)
    → IsSynthetic s.last_allocated_icao
    → IsSynthetic (found_or_added o s key icao).0.last_allocated_icao
unfolding found_or_added
found_or_added-IsSynthetic (some ad) s key icao h = h
found_or_added-IsSynthetic none s key icao h = add_aircraft-IsSynthetic s key icao h

after-IsSynthetic :
    (s : KnownAircraft) (e : Event)
    → IsSynthetic s.last_allocated_icao
    → IsSynthetic (after s e).last_allocated_icao
unfolding new_position_report get_aircraft_icao_address find_aircraft
after-IsSynthetic s (reported call_sign icao now) h =
    let key = aircraft_key call_sign icao in
    found_or_added-IsSynthetic (find key s.aircraft) s key icao h
after-IsSynthetic s (looked_up call_sign now) h =
    let key = aircraft_key call_sign 0 in found_or_added-IsSynthetic (find key s.aircraft) s key 0 h

abbrev pub after_all : KnownAircraft → List Event → KnownAircraft
after_all s [] = s
after_all s (e ∷ es) = after_all (after s e) es

after_all-IsSynthetic :
    (s : KnownAircraft) (es : List Event)
    → IsSynthetic s.last_allocated_icao
    → IsSynthetic (after_all s es).last_allocated_icao
after_all-IsSynthetic s [] h = h
after_all-IsSynthetic s (e ∷ es) h = after_all-IsSynthetic (after s e) es (after-IsSynthetic s e h)

-- However many aircraft without an address are met, the last allocated synthetic address fits the 24
-- bits of the wire and is not below the range for unknown aircraft, so it is never 0.
pub allocated_addresses_fit :
    (es : List Event) → IsSynthetic (after_all init es).last_allocated_icao
unfolding init
allocated_addresses_fit es = after_all-IsSynthetic init es (omega arith, omega arith)
