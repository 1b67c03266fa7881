-- ===== src/Fss/AckGroup/Retry.antt =====
-- Which deliveries CommandAckGroup has its caller actuate: src/fss/command-ack-group.hpp.
use fss_smm_mav.Fss.AckGroup.{
  within_tolerance, same_logical_command, deliberate_retry, plain, join, open_group, on_delivery,
  Group, DeliveryResult, Delivery, stale_superseded,
}
use fss_smm_mav.Fss.AckGroup.Actuation.{actuates}
use fss_smm_mav.Fss.AckGroup.Copies.{is_actuate, join-disposition}
use fss_smm_mav.Fss.AckGroup.Events.{delivered}
use fss_smm_mav.Fss.Payload.{near}
use fss_smm_mav.Prelude.{
  ℕ, ◌<◌, ◌≡◌, refl, ◌∙◌, ◌≢◌, Bool, true, false, not, ◌&&◌, ◌||◌, some, arith, ltb, ◌==◌,
  if◌then◌else◌,
}
use fss_smm_mav.Prelude.Assoc.{find, string_eq, nat_eq}

fresh_id : (seen id : ℕ) → id ≢ 0 → seen ≢ id → not (id == 0) && not (seen == id) ≡ true
fresh_id seen id p q = ground arith

module _ {Target : Type 0} where
  choice_actuates :
      (active same retry near older : Bool) (x y z : Group Target × DeliveryResult Target)
      → active ≡ true
      → is_actuate x.1.disposition ≡ false
      → is_actuate y.1.disposition ≡ false
      → is_actuate z.1.disposition ≡ true
      → is_actuate
          (if active && same && not retry && near
            then x
            else if active && not same && not retry && older
            then y
            else z).1.disposition
        ≡ (retry || not (if same then near else older))
  choice_actuates true true true near older x y z a p q r = r
  choice_actuates true true false true older x y z a p q r = p
  choice_actuates true true false false older x y z a p q r = r
  choice_actuates true false true near older x y z a p q r = r
  choice_actuates true false false near true x y z a p q r = q
  choice_actuates true false false near false x y z a p q r = r
  choice_actuates false same retry near older x y z a p q r = cc

  -- A delivery to an open group is actuated exactly if it is a retry, or repeats the command outside
  -- the window, or is another command that is not older.
  pub actuates_exactly :
      (g : Group Target) (d : Delivery Target)
      → g.active ≡ true
      → actuates g (delivered d) ≡ (
          deliberate_retry g d
          || not (
              if same_logical_command g d
              then within_tolerance g d.timestamp
              else ltb d.timestamp g.timestamp))
  unfolding on_delivery open_group
  actuates_exactly g d h =
      choice_actuates g.active (same_logical_command g d) (deliberate_retry g d)
        (within_tolerance g d.timestamp) (ltb d.timestamp g.timestamp) (join g d)
        (g, plain stale_superseded) (open_group g d) h (join-disposition g d) refl refl

  known_connection_retry :
      (g : Group Target) (d : Delivery Target) (seen : ℕ)
      → g.active ≡ true
      → d.server_command_id ≢ 0
      → find d.connection_key g.last_id_by_connection ≡ some seen
      → seen ≢ d.server_command_id
      → deliberate_retry g d ≡ true
  unfolding deliberate_retry
  known_connection_retry g d seen a id f n = simp (a, f) (fresh_id seen d.server_command_id id n)

  -- With the group open, an older, different command is actuated if it carries an id and its
  -- connection has last reported another one.
  pub older_retry_is_actuated :
      (g : Group Target) (d : Delivery Target) (seen : ℕ)
      → g.active ≡ true
      → same_logical_command g d ≡ false
      → d.timestamp < g.timestamp
      → d.server_command_id ≢ 0
      → find d.connection_key g.last_id_by_connection ≡ some seen
      → seen ≢ d.server_command_id
      → actuates g (delivered d) ≡ true
  older_retry_is_actuated g d seen a s older id f n =
      actuates_exactly g d a ∙ simp (known_connection_retry g d seen a id f n) refl
