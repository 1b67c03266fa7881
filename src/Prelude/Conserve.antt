-- ===== src/Prelude/Conserve.antt =====
-- Runs of steps in which items come in, wait and go out, none lost and none made.
use mathlib.Core.List.{Perm, perm_append_comm, append_assoc, List, [], ◌∷◌, ◌++◌}
use mathlib.Core.List.Perm

pub perm-swap {ℓ} : {A : Type ℓ} (a b w : List A) → Perm (a ++ (b ++ w)) (b ++ (a ++ w))
perm-swap a b w =
    rw (← append_assoc a b w, ← append_assoc b a w) (Perm.append_right w (perm_append_comm a b))

module _ {S E T : Type 0} where
  -- The state after the events.
  abbrev pub final : (S → E → S × List T) → S → List E → S
  final after s [] = s
  final after s (e ∷ es) = final after (after s e).0 es

  -- What goes out, in order.
  abbrev pub outgoing : (S → E → S × List T) → S → List E → List T
  outgoing after s [] = []
  outgoing after s (e ∷ es) = (after s e).1 ++ outgoing after (after s e).0 es

module _ {E T : Type 0} where
  -- What comes in, in order.
  abbrev pub incoming : (E → List T) → List E → List T
  incoming item [] = []
  incoming item (e ∷ es) = item e ++ incoming item es

module _ {S E T : Type 0} where
  -- If each step conserves the items, so does a run.
  pub run_conserves :
      (after : S → E → S × List T) (item : E → List T) (waiting : S → List T)
      → ((s : S) (e : E) → Perm ((after s e).1 ++ waiting (after s e).0) (item e ++ waiting s))
      → (s : S) (es : List E)
      → Perm (outgoing after s es ++ waiting (final after s es)) (incoming item es ++ waiting s)
  run_conserves after item waiting h s [] = Perm.refl (waiting s)
  run_conserves after item waiting h s (e ∷ es) =
      let (s', out) = after s e in
      rw
        (
          append_assoc out (outgoing after s' es) (waiting (final after s' es)),
          append_assoc (item e) (incoming item es) (waiting s),
        )
        (Perm.trans (Perm.append_left out (run_conserves after item waiting h s' es)) (
          Perm.trans (perm-swap out (incoming item es) (waiting s')) (
            Perm.trans (Perm.append_left (incoming item es) (h s e))
              (perm-swap (incoming item es) (item e) (waiting s)))))
