-- ===== src/Smm/Worker/Lawful/Connecting.antt =====
-- Connecting gives the library no null asset and accepts no search: src/smm/smm.cpp.
use fss_smm_mav.Prelude.{Bool, List, [], ◌∷◌, All}
use fss_smm_mav.Smm.Worker.{Entry, opened, timeouts_set, logged_in, closed, freed}
use fss_smm_mav.Smm.Worker.Lawful.{none-Leads, Leads}
use fss_smm_mav.Smm.Worker.Sessions.{IsSessionCall}

module _ {Conn Asset Handle : Type 0} where
  pub session-Leads :
      (b : Bool) (es : List (Entry Conn Asset Handle)) → All IsSessionCall es → Leads b es b
  session-Leads b [] h = none-Leads b
  session-Leads b (opened k ∷ es) h =
      let rest = session-Leads b es h.1 in record { lawful = (tt, rest.lawful); role = rest.role }
  session-Leads b (timeouts_set k c t ∷ es) h =
      let rest = session-Leads b es h.1 in record { lawful = (tt, rest.lawful); role = rest.role }
  session-Leads b (logged_in k ∷ es) h =
      let rest = session-Leads b es h.1 in record { lawful = (tt, rest.lawful); role = rest.role }
  session-Leads b (closed k ∷ es) h =
      let rest = session-Leads b es h.1 in record { lawful = (tt, rest.lawful); role = rest.role }
  session-Leads b (freed l ∷ es) h =
      let rest = session-Leads b es h.1 in record { lawful = (tt, rest.lawful); role = rest.role }
  session-Leads b (_ ∷ es) h = absurd h.0
