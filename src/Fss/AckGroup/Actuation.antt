-- ===== src/Fss/AckGroup/Actuation.antt =====
-- One operator action is actuated once: src/fss/command-ack-group.hpp.
use Prim.Native.String.{String}
use fss_smm_mav.Fss.AckGroup.{
  within_tolerance, same_logical_command, deliberate_retry, note_id, plain, answer, join,
  open_group, on_delivery, resolve, Group, DeliveryResult, Delivery, stale_superseded,
}
use fss_smm_mav.Fss.AckGroup.Copies.{
  is_actuate, copy_joins, note_id-ids, join-Handles, join-disposition, IsCopyOf, Handles,
}
use fss_smm_mav.Fss.AckGroup.Events.{after, Event, delivered, resolved}
use fss_smm_mav.Prelude.{
  ℕ, suc, ◌≡◌, refl, ap, subst, ◌∙◌, ◌⊎◌, inl, inr, Bool, true, false, not, ◌&&◌, Option, none,
  some, List, [], ◌∷◌, All, ltb, ◌==◌, if◌then◌else◌, Bool-cases,
}
use fss_smm_mav.Prelude.Assoc.{find, string_eq, nat_eq}
use fss_smm_mav.Types.{FssCommandResolution}

module _ {Target : Type 0} where
  -- Whether an event has the caller actuate a command.
  abbrev pub actuates : Group Target → Event Target → Bool
  actuates g (delivered d) = is_actuate (on_delivery g d).1.disposition
  actuates g (resolved epoch res) = false

  -- The times that the caller is told to actuate a command.
  abbrev pub actuations : Group Target → List (Event Target) → ℕ
  actuations g [] = 0
  actuations g (e ∷ es) =
      let rest = actuations (after g e).0 es in if actuates g e then suc rest else rest

  abbrev pub IsRedelivery : (String → ℕ) → Group Target → Event Target → Type 0
  IsRedelivery row g (delivered d) = IsCopyOf row g d
  IsRedelivery row g (resolved epoch res) = Unit

  answer-IsCopyOf :
      (row : String → ℕ) (o : Option FssCommandResolution) (g : Group Target)
      (ids : List (String × ℕ)) (d c : Delivery Target)
      → IsCopyOf row g c
      → IsCopyOf row (answer o (record g { last_id_by_connection = ids }) d).0 c
  unfolding answer same_logical_command within_tolerance
  answer-IsCopyOf row (some res) g ids d c h = record {
    same = h.same;
    in_window = h.in_window;
    id = h.id;
  }
  answer-IsCopyOf row none g ids d c h = record {
    same = h.same;
    in_window = h.in_window;
    id = h.id;
  }

  resolve-IsCopyOf :
      (row : String → ℕ) (g : Group Target) (epoch : ℕ) (res : FssCommandResolution)
      (c : Delivery Target)
      → IsCopyOf row g c
      → IsCopyOf row (resolve g epoch res).0 c
  unfolding resolve same_logical_command within_tolerance
  resolve-IsCopyOf row g epoch res c h = elim (Bool-cases (g.epoch == epoch)) [
    | inl e ↦ rw e (record { same = h.same; in_window = h.in_window; id = h.id })
    | inr e ↦ rw e h
  ]

  resolve-Handles :
      (row : String → ℕ) (g : Group Target) (epoch : ℕ) (res : FssCommandResolution)
      → Handles row g
      → Handles row (resolve g epoch res).0
  unfolding resolve
  resolve-Handles row g epoch res h = elim (Bool-cases (g.epoch == epoch)) [
    | inl e ↦ rw e (record { active = h.active; ids = h.ids })
    | inr e ↦ rw e h
  ]

  -- What a redelivery, or a resolution, leaves as it was.
  record Keeps (row : String → ℕ) (g : Group Target) (e : Event Target) : Type 0 where
    handles : Handles row (after g e).0
    copies : (c : Delivery Target) → IsCopyOf row g c → IsCopyOf row (after g e).0 c
    no_action : actuates g e ≡ false

  redelivery-Keeps :
      (row : String → ℕ) (g : Group Target) (e : Event Target)
      → Handles row g
      → IsRedelivery row g e
      → Keeps row g e
  unfolding join
  redelivery-Keeps row g (delivered d) h r =
      let joins = copy_joins row g d h r in
      record {
        handles = rw joins (join-Handles row g d h r);
        copies = λ c k.
            rw joins (answer-IsCopyOf row g.resolution g (note_id d g.last_id_by_connection) d c k);
        no_action = rw joins (join-disposition g d);
      }
  redelivery-Keeps row g (resolved epoch res) h r = record {
    handles = resolve-Handles row g epoch res h;
    copies = resolve-IsCopyOf row g epoch res;
    no_action = refl;
  }

  redeliveries_kept :
      (row : String → ℕ) (g : Group Target) (e : Event Target) (es : List (Event Target))
      → Keeps row g e
      → All (IsRedelivery row g) es
      → All (IsRedelivery row (after g e).0) es
  redeliveries_kept row g e [] k a = a
  redeliveries_kept row g e (delivered d ∷ es) k a =
      (k.copies d a.0, redeliveries_kept row g e es k a.1)
  redeliveries_kept row g e (resolved epoch res ∷ es) k a =
      (a.0, redeliveries_kept row g e es k a.1)

  redeliveries_never_actuate :
      (row : String → ℕ) (g : Group Target) (es : List (Event Target))
      → Handles row g
      → All (IsRedelivery row g) es
      → actuations g es ≡ 0
  redeliveries_never_actuate row g [] h a = refl
  redeliveries_never_actuate row g (e ∷ es) h a =
      let k = redelivery-Keeps row g e h a.0 in
      rw k.no_action (
        redeliveries_never_actuate row (after g e).0 es k.handles
          (redeliveries_kept row g e es k a.1))

  open_group-Handles :
      (row : String → ℕ) (g : Group Target) (d : Delivery Target)
      → (d.server_command_id ≡ 0) ⊎ (d.server_command_id ≡ row d.connection_key)
      → Handles row (open_group g d).0
  unfolding open_group find
  open_group-Handles row g d h = record {
    active = refl;
    ids = note_id-ids row [] d (λ k id e. cc) h;
  }

  skips_passive :
      (b : Bool) (x y : Group Target × DeliveryResult Target)
      → is_actuate (if b then x else y).1.disposition ≡ true
      → is_actuate x.1.disposition ≡ false
      → (if b then x else y) ≡ y
  skips_passive true x y h p = cc
  skips_passive false x y h p = refl

  actuating_opens :
      (g : Group Target) (d : Delivery Target)
      → is_actuate (on_delivery g d).1.disposition ≡ true
      → on_delivery g d ≡ open_group g d
  unfolding on_delivery
  actuating_opens g d h =
      let retry = deliberate_retry g d in
      let stale =
        g.active && not (same_logical_command g d) && not retry && ltb d.timestamp g.timestamp in
      let other = if stale then (g, plain stale_superseded) else open_group g d in
      let redundant =
        g.active && same_logical_command g d && not retry && within_tolerance g d.timestamp in
      let skips = skips_passive redundant (join g d) other h (join-disposition g d) in
      skips
      ∙ skips_passive stale (g, plain stale_superseded) (open_group g d)
          (subst (λ r. is_actuate r.1.disposition ≡ true) skips h) refl

  -- After a delivery that is actuated, further copies of the same operator action, each with the
  -- command, the window and, if any, the row id of its server, in whatever order they and the
  -- resolution come, are not: the action is actuated once.
  pub one_action_is_actuated_once :
      (row : String → ℕ) (g : Group Target) (d : Delivery Target) (es : List (Event Target))
      → actuates g (delivered d) ≡ true
      → (d.server_command_id ≡ 0) ⊎ (d.server_command_id ≡ row d.connection_key)
      → All (IsRedelivery row (on_delivery g d).0) es
      → actuations g (delivered d ∷ es) ≡ 1
  one_action_is_actuated_once row g d es h id a = rw h (
      ap suc (
        redeliveries_never_actuate row (on_delivery g d).0 es
          (rw (actuating_opens g d h) (open_group-Handles row g d id)) a))
