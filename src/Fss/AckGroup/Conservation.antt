-- ===== src/Fss/AckGroup/Conservation.antt =====
-- Every copy of a command is acknowledged once: src/fss/command-ack-group.hpp.
use mathlib.Core.List.{Perm, perm_append_comm, append-nil}
use mathlib.Core.List.Perm
use fss_smm_mav.Fss.AckGroup.{
  init, within_tolerance, same_logical_command, deliberate_retry, note_id, plain, answer, join,
  open_group, on_delivery, resolve, Group, DeliveryResult, Delivery, stale_superseded,
}
use fss_smm_mav.Fss.AckGroup.Events.{after, Event, due, copies, delivered, resolved}
use fss_smm_mav.Prelude.{
  ℕ, inl, inr, Bool, true, false, not, ◌&&◌, Option, none, some, List, [], ◌∷◌, ◌++◌, ltb, ◌==◌,
  if◌then◌else◌, Bool-cases,
}
use fss_smm_mav.Prelude.Conserve.{final, outgoing, incoming, run_conserves}
use fss_smm_mav.Types.{FssCommandResolution}

module _ {Target : Type 0} where
  -- One copy goes in, and the copies that come out leave.
  abbrev IsBalanced : Group Target → Delivery Target → Group Target × DeliveryResult Target → Type 0
  IsBalanced g d (g', r) = Perm (due d r ++ g'.waiting) (d.copy ∷ g.waiting)

  answer-IsBalanced :
      (o : Option FssCommandResolution) (g : Group Target) (d : Delivery Target)
      → IsBalanced g d (answer o g d)
  unfolding answer
  answer-IsBalanced (some res) g d = Perm.refl (d.copy ∷ g.waiting)
  answer-IsBalanced none g d = perm_append_comm g.waiting (d.copy ∷ [])

  join-IsBalanced : (g : Group Target) (d : Delivery Target) → IsBalanced g d (join g d)
  unfolding join
  join-IsBalanced g d =
      answer-IsBalanced g.resolution
        (record g { last_id_by_connection = note_id d g.last_id_by_connection }) d

  open_group-IsBalanced : (g : Group Target) (d : Delivery Target) → IsBalanced g d (open_group g d)
  unfolding open_group
  open_group-IsBalanced g d = perm_append_comm g.waiting (d.copy ∷ [])

  if-IsBalanced :
      (b : Bool) (g : Group Target) (d : Delivery Target)
      (x y : Group Target × DeliveryResult Target)
      → IsBalanced g d x
      → IsBalanced g d y
      → IsBalanced g d (if b then x else y)
  if-IsBalanced true g d x y p q = p
  if-IsBalanced false g d x y p q = q

  pub on_delivery-IsBalanced :
      (g : Group Target) (d : Delivery Target) → IsBalanced g d (on_delivery g d)
  unfolding on_delivery
  on_delivery-IsBalanced g d =
      let retry = deliberate_retry g d in
      let stale =
        g.active && not (same_logical_command g d) && not retry && ltb d.timestamp g.timestamp in
      let other = if stale then (g, plain stale_superseded) else open_group g d in
      if-IsBalanced
        (g.active && same_logical_command g d && not retry && within_tolerance g d.timestamp) g d
        (join g d) other (join-IsBalanced g d)
        (if-IsBalanced stale g d (g, plain stale_superseded) (open_group g d)
          (Perm.refl (d.copy ∷ g.waiting)) (open_group-IsBalanced g d))

  pub resolve-IsBalanced :
      (g : Group Target) (epoch : ℕ) (res : FssCommandResolution)
      → let (g', acks) = resolve g epoch res in Perm (acks ++ g'.waiting) g.waiting
  unfolding resolve
  resolve-IsBalanced g epoch res = elim (Bool-cases (g.epoch == epoch)) [
    | inl e ↦ rw (e, append-nil g.waiting) (Perm.refl g.waiting)
    | inr e ↦ rw e (Perm.refl g.waiting)
  ]

  after-IsBalanced :
      (g : Group Target) (e : Event Target)
      → Perm ((after g e).1 ++ (after g e).0.waiting) (copies e ++ g.waiting)
  after-IsBalanced g (delivered d) = on_delivery-IsBalanced g d
  after-IsBalanced g (resolved epoch res) = resolve-IsBalanced g epoch res

  -- In any order of deliveries and resolutions, from a new group: the copies acknowledged so far and
  -- the copies still waiting are together exactly the copies received, each as often as it came.
  pub acknowledges_each_copy_once :
      (tolerance_ms : ℕ) (es : List (Event Target))
      → Perm
          (outgoing after (init tolerance_ms) es ++ (final after (init tolerance_ms) es).waiting)
          (incoming copies es)
  unfolding init
  acknowledges_each_copy_once tolerance_ms es =
      rw (← append-nil (incoming copies es))
        (run_conserves after copies (λ g. g.waiting) after-IsBalanced (init tolerance_ms) es)
