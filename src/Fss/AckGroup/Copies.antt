-- ===== src/Fss/AckGroup/Copies.antt =====
-- Redelivered copies of a command join its group: src/fss/command-ack-group.hpp.
use Prim.Native.String.{String}
use fss_smm_mav.Fss.AckGroup.{
  differs_from, within_tolerance, same_logical_command, deliberate_retry, note_id, answer, join,
  on_delivery, Group, Delivery, Disposition, actuate,
}
use fss_smm_mav.Prelude.{
  ℕ, ◌≡◌, refl, sym, ap, subst, ◌∙◌, ◌⊎◌, inl, inr, Bool, true, false, not, ◌&&◌, Option, none,
  some, List, arith, ◌==◌, if◌then◌else◌, Bool-cases,
}
use fss_smm_mav.Prelude.Assoc.{string_eq, find, assign, find-assign, nat_eq}
use fss_smm_mav.Types.{FssCommandResolution}

differs_from_self : (id seen : ℕ) → seen ≡ id → differs_from id (some seen) ≡ false
differs_from_self id seen e = ground arith

known_id_differs :
    (o : Option ℕ) (id : ℕ) → ((n : ℕ) → o ≡ some n → n ≡ id) → differs_from id o ≡ false
known_id_differs none id h = refl
known_id_differs (some n) id h = differs_from_self id n (h n refl)

no_retry : (a b : Bool) (id : ℕ) → (id ≡ 0) ⊎ (b ≡ false) → a && not (id == 0) && b ≡ false
no_retry a b id h = ground arith

picks :
    (b : Bool) (n id m : ℕ) (o : Option ℕ)
    → (if b then some n else o) ≡ some id
    → (b ≡ true → n ≡ m)
    → (o ≡ some id → id ≡ m)
    → id ≡ m
picks true n id m o e p q = ground (arith, p refl)
picks false n id m o e p q = q e

reported : (id row : ℕ) → (id ≡ 0) ⊎ (id ≡ row) → (id == 0) ≡ false → id ≡ row
reported id row h e = ground arith

abbrev pub is_actuate : Disposition → Bool
is_actuate actuate = true
is_actuate _ = false

module _ {Target : Type 0} where
  -- A copy of the command that the group handles, from a server whose row id for the operator's
  -- action is `row` of its connection, if it reports one.
  pub record IsCopyOf (row : String → ℕ) (g : Group Target) (d : Delivery Target) : Type 0 where
    pub same : same_logical_command g d ≡ true
    pub in_window : within_tolerance g d.timestamp ≡ true
    pub id : (d.server_command_id ≡ 0) ⊎ (d.server_command_id ≡ row d.connection_key)

  -- The group is open, and the ids it has seen are those of the action it handles.
  pub record Handles (row : String → ℕ) (g : Group Target) : Type 0 where
    pub active : g.active ≡ true
    pub ids : (k : String) (id : ℕ) → find k g.last_id_by_connection ≡ some id → id ≡ row k

  copy_is_no_retry :
      (row : String → ℕ) (g : Group Target) (d : Delivery Target)
      → Handles row g
      → IsCopyOf row g d
      → deliberate_retry g d ≡ false
  unfolding deliberate_retry
  copy_is_no_retry row g d h c =
      let o = find d.connection_key g.last_id_by_connection in
      no_retry g.active (differs_from d.server_command_id o) d.server_command_id (elim c.id [
        | inl e ↦ inl e
        | inr e ↦
            inr (known_id_differs o d.server_command_id (λ n f. h.ids d.connection_key n f ∙ sym e))
      ])

  pub copy_joins :
      (row : String → ℕ) (g : Group Target) (d : Delivery Target)
      → Handles row g
      → IsCopyOf row g d
      → on_delivery g d ≡ join g d
  unfolding on_delivery
  copy_joins row g d h c = simp (h.active, c.same, c.in_window, copy_is_no_retry row g d h c) refl

  pub note_id-ids :
      (row : String → ℕ) (ids : List (String × ℕ)) (d : Delivery Target)
      → ((k : String) (id : ℕ) → find k ids ≡ some id → id ≡ row k)
      → (d.server_command_id ≡ 0) ⊎ (d.server_command_id ≡ row d.connection_key)
      → (k : String) (id : ℕ) → find k (note_id d ids) ≡ some id
      → id ≡ row k
  unfolding note_id
  note_id-ids row ids d known own k id e =
      let sid = d.server_command_id in
      let key = d.connection_key in
      let found = λ (b : Bool). find k (if b then ids else assign key sid ids) ≡ some id in
      elim (Bool-cases (sid == 0)) [
        | inl z ↦ known k id (subst found z e)
        | inr z ↦
            picks (string_eq.beq key k) sid id (row k) (find k ids)
              (sym (find-assign key k sid ids) ∙ subst found z e)
              (λ b. reported sid (row key) own z ∙ ap row ((string_eq.beq_iff key k).0 b))
              (known k id)
      ]

  answer-Handles :
      (row : String → ℕ) (o : Option FssCommandResolution) (g : Group Target) (d : Delivery Target)
      → Handles row g
      → Handles row (answer o g d).0
  unfolding answer
  answer-Handles row (some res) g d h = h
  answer-Handles row none g d h = record { active = h.active; ids = h.ids }

  answer-disposition :
      (o : Option FssCommandResolution) (g : Group Target) (d : Delivery Target)
      → is_actuate (answer o g d).1.disposition ≡ false
  unfolding answer
  answer-disposition (some res) g d = refl
  answer-disposition none g d = refl

  pub join-Handles :
      (row : String → ℕ) (g : Group Target) (d : Delivery Target)
      → Handles row g
      → IsCopyOf row g d
      → Handles row (join g d).0
  unfolding join
  join-Handles row g d h c =
      answer-Handles row g.resolution
        (record g { last_id_by_connection = note_id d g.last_id_by_connection }) d
        (record { active = h.active; ids = note_id-ids row g.last_id_by_connection d h.ids c.id })

  pub join-disposition :
      (g : Group Target) (d : Delivery Target) → is_actuate (join g d).1.disposition ≡ false
  unfolding join
  join-disposition g d =
      answer-disposition g.resolution
        (record g { last_id_by_connection = note_id d g.last_id_by_connection }) d
