-- ===== src/Fss/AckGroup/Events.antt =====
-- Sequences of the calls on a CommandAckGroup: src/fss/command-ack-group.hpp and its caller,
-- handleCommandFrom in src/fss/fss-client-ssl.cpp.
use fss_smm_mav.Fss.AckGroup.{
  on_delivery, resolve, Group, DeliveryResult, Delivery, Disposition, actuate, already_resolved,
  pending, stale_superseded,
}
use fss_smm_mav.Prelude.{ℕ, List, [], ◌∷◌}
use fss_smm_mav.Types.{FssCommandResolution}

module _ {Target : Type 0} where
  -- The copies that the caller has to acknowledge after a delivery.
  abbrev pub due_of : Disposition → Target → List Target → List Target
  due_of pending copy displaced = []
  due_of already_resolved copy displaced = copy ∷ []
  due_of stale_superseded copy displaced = copy ∷ []
  due_of actuate copy displaced = displaced

  abbrev pub due : Delivery Target → DeliveryResult Target → List Target
  due d r = due_of r.disposition d.copy r.superseded

-- The calls on a group, in the order in which the mutex admits them.
pub data Event (Target : Type 0) : Type 0 where
  delivered : Delivery Target → Event Target
  resolved : ℕ → FssCommandResolution → Event Target

module _ {Target : Type 0} where
  -- The group after an event, and the copies to acknowledge.
  abbrev pub after : Group Target → Event Target → Group Target × List Target
  after g (delivered d) = let (g', r) = on_delivery g d in (g', due d r)
  after g (resolved epoch res) = resolve g epoch res

  abbrev pub copies : Event Target → List Target
  copies (delivered d) = d.copy ∷ []
  copies (resolved epoch res) = []
