-- ===== src/Smm/Tests.antt =====
-- The theorems on the search-management side at concrete inputs.
use fss_smm_mav.Prelude.{arith}
use fss_smm_mav.Smm.SearchAltitude.{
  clamp_command_altitude, clamp_command_altitude-IsWithin, IsWithin,
}

clamp_command_altitude-IsWithin_example : IsWithin 20 100 (clamp_command_altitude 4000000000 20 100)
clamp_command_altitude-IsWithin_example =
    clamp_command_altitude-IsWithin 4000000000 20 100 (omega arith) (omega arith)
