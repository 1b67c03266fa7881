-- ===== src/Fss/Client/Cached.antt =====
-- A redelivery that is answered at once carries the cached resolution:
-- src/fss/command-ack-group.hpp.
use fss_smm_mav.Fss.AckGroup.{
  within_tolerance, same_logical_command, deliberate_retry, note_id, plain, answer, join,
  open_group, on_delivery, Group, DeliveryResult, Delivery, Disposition, already_resolved,
  stale_superseded,
}
use fss_smm_mav.Fss.Client.{PendingCommandAck}
use fss_smm_mav.Prelude.{
  ◌≡◌, refl, Bool, true, false, not, ◌&&◌, Option, none, some, ltb, if◌then◌else◌,
}
use fss_smm_mav.Types.{FssCommandResolution}

abbrev pub is_cached : Disposition → Option FssCommandResolution → Bool
is_cached already_resolved none = false
is_cached _ _ = true

module _ {Conn : Type 0} where
  abbrev pub IsCached : DeliveryResult (PendingCommandAck Conn) → Type 0
  IsCached r = is_cached r.disposition r.resolution ≡ true

  if-IsCached :
      (b : Bool) (x y : Group (PendingCommandAck Conn) × DeliveryResult (PendingCommandAck Conn))
      → IsCached x.1
      → IsCached y.1
      → IsCached (if b then x else y).1
  if-IsCached true x y p q = p
  if-IsCached false x y p q = q

  -- `already_resolved` carries the resolution.
  answer-IsCached :
      (o : Option FssCommandResolution) (g : Group (PendingCommandAck Conn))
      (d : Delivery (PendingCommandAck Conn))
      → IsCached (answer o g d).1
  unfolding answer
  answer-IsCached (some res) g d = refl
  answer-IsCached none g d = refl

  join-IsCached :
      (g : Group (PendingCommandAck Conn)) (d : Delivery (PendingCommandAck Conn))
      → IsCached (join g d).1
  unfolding join
  join-IsCached g d =
      answer-IsCached g.resolution
        (record g { last_id_by_connection = note_id d g.last_id_by_connection }) d

  pub on_delivery-IsCached :
      (g : Group (PendingCommandAck Conn)) (d : Delivery (PendingCommandAck Conn))
      → IsCached (on_delivery g d).1
  unfolding on_delivery open_group
  on_delivery-IsCached g d =
      let retry = deliberate_retry g d in
      let stale =
        g.active && not (same_logical_command g d) && not retry && ltb d.timestamp g.timestamp in
      let other = if stale then (g, plain stale_superseded) else open_group g d in
      if-IsCached
        (g.active && same_logical_command g d && not retry && within_tolerance g d.timestamp)
        (join g d) other (join-IsCached g d)
        (if-IsCached stale (g, plain stale_superseded) (open_group g d) refl refl)
