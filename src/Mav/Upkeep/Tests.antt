-- ===== src/Mav/Upkeep/Tests.antt =====
-- The upkeep of the link at concrete times.
use fss_smm_mav.Mav.Link.{mav_comms_is_up, mav_link_should_retire}
use fss_smm_mav.Mav.Upkeep.{new_upkeep, heartbeat_pass, connect_to_mav, attempt_reconnect}
use fss_smm_mav.Mav.Upkeep.Reports.{
  reconnects, chore, chores, reports_alternate, old_link_is_redialled, Chore, passes, hears,
  Alternates,
}
use fss_smm_mav.Prelude.{◌≡◌, refl, true, none, some, List, [], ◌∷◌, arith}
use fss_smm_mav.Types.{ok, failure}

-- A cold start: no link, a dial, the first heartbeat, and a silence that retires the socket.
abbrev cold_start : List Chore
cold_start =
    passes 100
    ∷ reconnects 2000 (some 2100)
    ∷ passes 2200
    ∷ hears 2300
    ∷ passes 3200
    ∷ passes 8000
    ∷ []

cold_start_reports : (chores cold_start new_upkeep).1 ≡ failure ∷ ok ∷ failure ∷ []
unfolding chores chore heartbeat_pass attempt_reconnect connect_to_mav mav_comms_is_up
    mav_link_should_retire
cold_start_reports = refl

reports_alternate_example :
    Alternates true (chores cold_start new_upkeep).1 (chores cold_start new_upkeep).0.mav_comms_ok
reports_alternate_example = reports_alternate cold_start new_upkeep

old_link_is_redialled_example :
    (attempt_reconnect 40001 none
      (record new_upkeep { last_tried = 10000; retry_count = 900 })).last_tried
    ≡ 40001
old_link_is_redialled_example =
    old_link_is_redialled 40001 none (record new_upkeep { last_tried = 10000; retry_count = 900 })
      refl (omega arith) (omega arith)
