-- ===== src/Aircraft/Debounce.antt =====
-- Reports of one aircraft are accepted at least a second apart: src/aircraft.hpp.
use Prim.Native.String.{String}
use fss_smm_mav.Aircraft.{
  aircraft_key, ts_1sec_interval, new_position_report, get_aircraft_icao_address, KnownAircraft,
}
use fss_smm_mav.Aircraft.Entries.{
  beq_eq, report_keeps, look_up_keeps, accepted_report-Remembers, accepted_report_later, Remembers,
}
use fss_smm_mav.Prelude.{
  ℕ, ◌+◌, ◌≤◌, ◌≡◌, sym, subst, inl, inr, Bool, true, false, ◌&&◌, List, [], ◌∷◌, arith, Spaced,
  Separated, if◌then◌else◌, Bool-cases,
}
use fss_smm_mav.Prelude.Assoc.{string_eq, nat_eq}
use fss_smm_mav.Prelude.Double.{le}

-- The calls on a known_aircraft, each with the local clock's reading.
pub data Event : Type 0 where
  reported : String → ℕ → ℕ → Event
  looked_up : String → ℕ → Event

abbrev pub clock : Event → ℕ
clock (reported call_sign icao now) = now
clock (looked_up call_sign now) = now

abbrev pub after : KnownAircraft → Event → KnownAircraft
after s (reported call_sign icao now) = (new_position_report s call_sign icao now).0
after s (looked_up call_sign now) = (get_aircraft_icao_address s call_sign).0

-- Whether the event is an accepted report under the key.
abbrev pub accepts : String → KnownAircraft → Event → Bool
accepts key s (reported call_sign icao now) =
    string_eq.beq (aircraft_key call_sign icao) key && (new_position_report s call_sign icao now).1
accepts key s (looked_up call_sign now) = false

-- The times of the accepted reports under a key.
abbrev pub accepted_times : String → KnownAircraft → List Event → List ℕ
accepted_times key s [] = []
accepted_times key s (e ∷ es) =
    let rest = accepted_times key (after s e) es in if accepts key s e then clock e ∷ rest else rest

-- The clock does not go back.
abbrev pub Monotone : ℕ → List Event → Type 0
Monotone t [] = Unit
Monotone t (e ∷ es) = (t ≤ clock e) × Monotone (clock e) es

event_keeps :
    (key : String) (t before : ℕ) (s : KnownAircraft) (e : Event)
    → Remembers key t s.aircraft before
    → before ≤ clock e
    → Remembers key t (after s e).aircraft (clock e)
event_keeps key t before s (reported call_sign icao now) r le =
    report_keeps key t before s call_sign icao now r le
event_keeps key t before s (looked_up call_sign now) r le =
    look_up_keeps key t before s call_sign now r le

and_split : (a b : Bool) → a && b ≡ true → (a ≡ true) × (b ≡ true)
and_split a b h = ground arith

accepted_later :
    (key : String) (t before : ℕ) (s : KnownAircraft) (e : Event)
    → Remembers key t s.aircraft before
    → before ≤ clock e
    → accepts key s e ≡ true
    → t + ts_1sec_interval ≤ clock e
accepted_later key t before s (reported call_sign icao now) r le a =
    let h = and_split _ _ a in
    let same = beq_eq (aircraft_key call_sign icao) key h.0 in
    accepted_report_later t before s call_sign icao now
      (subst (λ j. Remembers j t s.aircraft before) (sym same) r) le h.1
accepted_later key t before s (looked_up call_sign now) r le a = cc

accepted-Remembers :
    (key : String) (s : KnownAircraft) (e : Event)
    → accepts key s e ≡ true
    → Remembers key (clock e) (after s e).aircraft (clock e)
accepted-Remembers key s (reported call_sign icao now) a =
    let h = and_split _ _ a in
    let s' = (new_position_report s call_sign icao now).0 in
    subst (λ j. Remembers j now s'.aircraft now) (beq_eq (aircraft_key call_sign icao) key h.0)
      (accepted_report-Remembers s call_sign icao now h.1)
accepted-Remembers key s (looked_up call_sign now) a = cc

accepted_times-Spaced :
    (key : String) (t before : ℕ) (s : KnownAircraft) (es : List Event)
    → Remembers key t s.aircraft before
    → Monotone before es
    → Spaced ts_1sec_interval t (accepted_times key s es)
accepted_times-Spaced key t before s [] r m = tt
accepted_times-Spaced key t before s (e ∷ es) r m = elim (Bool-cases (accepts key s e)) [
  | inl a ↦ rw a (
    accepted_later key t before s e r m.0 a,
    accepted_times-Spaced key (clock e) (clock e) (after s e) es (accepted-Remembers key s e a) m.1,
  )
  | inr a ↦ rw a (
      accepted_times-Spaced key t (clock e) (after s e) es (event_keeps key t before s e r m.0) m.1)
]

-- While the local clock does not go back, any two consecutive reports accepted under one key are a
-- second apart, whatever other aircraft report, whatever is looked up and whatever is evicted in
-- between.
pub accepted_reports_are_spaced :
    (key : String) (start : ℕ) (s : KnownAircraft) (es : List Event)
    → Monotone start es
    → Separated ts_1sec_interval (accepted_times key s es)
accepted_reports_are_spaced key start s [] m = tt
accepted_reports_are_spaced key start s (e ∷ es) m = elim (Bool-cases (accepts key s e)) [
  | inl a ↦ rw a (
      accepted_times-Spaced key (clock e) (clock e) (after s e) es (accepted-Remembers key s e a)
        m.1)
  | inr a ↦ rw a (accepted_reports_are_spaced key (clock e) (after s e) es m.1)
]
