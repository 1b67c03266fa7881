-- ===== src/Aircraft/Tests.antt =====
-- The theorems on the known aircraft at concrete inputs.
use fss_smm_mav.Aircraft.{aircraft_key, ts_1sec_interval, init}
use fss_smm_mav.Aircraft.Debounce.{
  accepted_times, accepted_reports_are_spaced, Event, reported, looked_up,
}
use fss_smm_mav.Prelude.{List, [], ◌∷◌, arith, Separated}

abbrev reports : List Event
reports =
    reported "ZK-ABC" 0 5000
    ∷ reported "ZK-ABC" 0 5400
    ∷ looked_up "ZK-ABC" 5500
    ∷ reported "" 13101780 5600
    ∷ reported "ZK-ABC" 0 6100
    ∷ []

accepted_reports_are_spaced_example :
    Separated ts_1sec_interval (accepted_times (aircraft_key "ZK-ABC" 0) init reports)
accepted_reports_are_spaced_example =
    accepted_reports_are_spaced (aircraft_key "ZK-ABC" 0) 0 init reports
      (omega arith, (omega arith, (omega arith, (omega arith, (omega arith, tt)))))
