-- ===== src/Prelude/Lists.antt =====
-- Lists measured by native numbers, and predicates on lists, under the library's names.
use Prim.Native.Nat.{ℕ, zero, suc, ◌+◌, ◌≤◌}
use mathlib.Core.Path.{◌≡◌, refl, ap}
use mathlib.Core.List.{List, [], ◌∷◌, ◌++◌}
use mathlib.Core.Option.{Option, none, some}
use native.Mathlib.Omega.{arith}

module _ {ℓ} {A : Type ℓ} where
  abbrev pub length : List A → ℕ
  length [] = 0
  length (x ∷ xs) = suc (length xs)

  abbrev pub get_elem? : List A → ℕ → Option A
  get_elem? [] i = none
  get_elem? (x ∷ xs) zero = some x
  get_elem? (x ∷ xs) (suc i) = get_elem? xs i

  pub length-append : (xs ys : List A) → length (xs ++ ys) ≡ length xs + length ys
  length-append [] ys = omega arith
  length-append (x ∷ xs) ys = omega (arith, length-append xs ys)

-- Every element satisfies `P`.
abbrev pub All {ℓ κ} : {A : Type ℓ} → (A → Type κ) → List A → Type κ
All P [] = Unit
All P (x ∷ xs) = P x × All P xs

pub All-append {ℓ κ} :
    {A : Type ℓ} (P : A → Type κ) (xs ys : List A) → All P xs → All P ys → All P (xs ++ ys)
All-append P [] ys hx hy = hy
All-append P (x ∷ xs) ys hx hy = (hx.0, All-append P xs ys hx.1 hy)

module _ {ℓ} {A : Type ℓ} where
  abbrev pub replicate : ℕ → A → List A
  replicate zero a = []
  replicate (suc n) a = a ∷ replicate n a

  pub replicate-append_cons :
      (n : ℕ) (a : A) (xs : List A) → replicate n a ++ a ∷ xs ≡ a ∷ (replicate n a ++ xs)
  replicate-append_cons zero a xs = refl
  replicate-append_cons (suc n) a xs = ap (◌∷◌ a) (replicate-append_cons n a xs)

-- Each time is at least the interval after the one before it, the first of them after `t`.
abbrev pub Spaced : ℕ → ℕ → List ℕ → Type 0
Spaced interval t [] = Unit
Spaced interval t (u ∷ us) = (t + interval ≤ u) × Spaced interval u us

abbrev pub Separated : ℕ → List ℕ → Type 0
Separated interval [] = Unit
Separated interval (t ∷ ts) = Spaced interval t ts
