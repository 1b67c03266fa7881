-- ===== src/Prelude/Double.antt =====
-- IEEE 754 binary64 (`double`), executable, as far as the program computes with it.
-- Every finite double is a whole multiple of 2 ^ -1074, so a finite value is held exactly, as a
-- sign and that multiple; `+ - * /` round to the nearest double, ties to even.
use Prim.Native.Nat.{ℕ, zero, suc, ◌+◌, ◌-◌, ◌*◌, ◌/◌, ◌%◌, ◌^◌, ◌<◌}
use mathlib.Core.Path.{◌≡◌, refl, ap, ◌∙◌}
use mathlib.Core.Bool.{Bool, true, false, not, ◌&&◌, ◌||◌}
use native.Mathlib.Omega.{arith}
use native.Mathlib.Nat.{add_comm}
use mathlib.Core.Logic.{inl, inr}
use fss_smm_mav.Prelude.Tests.{ltb, leb, ◌==◌, Bool-cases, if◌then◌else◌}

-- `inf true` and `fin true n` are negative.
pub data Double : Type 0 where
  nan : Double
  inf : Bool → Double
  fin : Bool → ℕ → Double

-- 1.0 in multiples of the smallest positive double.
unfoldable pub one : ℕ
one = 2 ^ 1074

pub one_pos : 0 < one
unfolding one
one_pos = omega arith

-- The double of an integer below 2 ^ 53, which is exact.
abbrev pub of_ℕ : ℕ → Double
of_ℕ n = fin false (n * one)

-- std::isfinite.
abbrev pub is_finite : Double → Bool
is_finite (fin s n) = true
is_finite x = false

-- `static_cast<integer>`: towards zero; the magnitude, of a finite value.
abbrev pub trunc : ℕ → ℕ
trunc n = n / one

-- std::lround: to the nearest integer, halves away from zero; the magnitude, of a finite value.
abbrev pub lround : ℕ → ℕ
lround n = (2 * n + one) / (2 * one)

-- `x < y`: false as soon as one side is a NaN, and between the two zeros.
unfoldable pub lt : Double → Double → Bool
lt (fin false m) (fin false n) = ltb m n
lt (fin true m) (fin true n) = ltb n m
lt (fin true m) (fin false n) = ltb 0 (m + n)
lt (fin s m) (inf negative) = not negative
lt (inf negative) (fin s n) = negative
lt (inf s) (inf t) = s && not t
lt x y = false

-- `x == y`: a NaN differs from itself, and the two zeros are equal.
unfoldable pub eq : Double → Double → Bool
eq (fin false m) (fin false n) = m == n
eq (fin true m) (fin true n) = m == n
eq (fin s m) (fin t n) = m == 0 && n == 0
eq (inf true) (inf true) = true
eq (inf false) (inf false) = true
eq x y = false

unfoldable pub le : Double → Double → Bool
unfolding lt eq
le x y = lt x y || eq x y

abbrev pub neg : Double → Double
neg nan = nan
neg (inf s) = inf (not s)
neg (fin s n) = fin (not s) n

-- std::fabs.
abbrev pub abs : Double → Double
abs nan = nan
abs (inf s) = inf false
abs (fin s n) = fin false n

-- How many low bits a quotient has beyond the 53 of a significand. A quotient of more than 2100
-- bits is out of range whatever is returned for it.
excess : ℕ → ℕ → ℕ
excess zero n = 0
excess (suc fuel) n = let rest = excess fuel (n / 2) in if ltb n (2 ^ 53) then 0 else rest + 1

-- The significand nearest to (p / d), ties to even.
abbrev nearest : ℕ → ℕ → ℕ
nearest p d =
    let q = p / d in
    let r = p % d in if ltb (2 * r) d || (2 * r == d && q % 2 == 0) then q else q + 1

-- The multiple nearest to p / q that has 53 significant bits.
unfoldable pub magnitude : ℕ → ℕ → ℕ
unfolding excess
magnitude p q = let k = 2 ^ excess 2100 (p / q) in nearest p (q * k) * k

-- From 2 ^ 1024 on the result is infinite.
unfoldable pub pack : Bool → ℕ → Double
pack s n = if ltb n (2 ^ 2098) then fin s n else inf s

-- The double nearest to p / q multiples of 2 ^ -1074.
unfoldable pub round : Bool → ℕ → ℕ → Double
round s p q = pack s (magnitude p q)

-- Sum of a positive `m` and a negative `n`; an exact 0 is +0.
abbrev differ : ℕ → ℕ → Double
differ m n = if leb n m then fin false (m - n) else fin true (n - m)

rounded : Double → Double
rounded (fin s n) = round s n 1
rounded x = x

unfoldable pub add : Double → Double → Double
unfolding rounded round
add nan y = nan
add x nan = nan
add (inf true) (inf false) = nan
add (inf false) (inf true) = nan
add (inf s) y = inf s
add x (inf t) = inf t
add (fin false m) (fin false n) = rounded (fin false (m + n))
add (fin true m) (fin true n) = rounded (fin true (m + n))
add (fin false m) (fin true n) = rounded (differ m n)
add (fin true m) (fin false n) = rounded (differ n m)

unfoldable pub sub : Double → Double → Double
unfolding add
sub x y = add x (neg y)

-- The sign of a product or a quotient.
abbrev differs : Bool → Bool → Bool
differs s false = s
differs s true = not s

unfoldable pub mul : Double → Double → Double
unfolding one
mul (fin s m) (fin t n) = round (differs s t) (m * n) one
mul (inf s) (inf t) = inf (differs s t)
mul (inf s) (fin t zero) = nan
mul (inf s) (fin t (suc n)) = inf (differs s t)
mul (fin s zero) (inf t) = nan
mul (fin s (suc n)) (inf t) = inf (differs s t)
mul x y = nan

unfoldable pub div : Double → Double → Double
unfolding one
div (fin s zero) (fin t zero) = nan
div (fin s (suc m)) (fin t zero) = inf (differs s t)
div (fin s m) (fin t (suc n)) = round (differs s t) (m * one) (suc n)
div (inf s) (fin t n) = inf (differs s t)
div (fin s n) (inf t) = fin (differs s t) 0
div x y = nan

-- The literal m / 10 ^ e of the source.
abbrev pub decimal : ℕ → ℕ → Double
decimal m e = div (of_ℕ m) (of_ℕ (10 ^ e))

abs-pack : (s t : Bool) (n : ℕ) → abs (pack s n) ≡ abs (pack t n)
unfolding pack
abs-pack s t n = elim (Bool-cases (ltb n (2 ^ 2098))) [ inl e ↦ rw e | inr e ↦ rw e ]

abs-rounded-differ : (m n : ℕ) → abs (rounded (differ m n)) ≡ abs (rounded (differ n m))
unfolding rounded round
abs-rounded-differ m n = elim (Bool-cases (leb n m)) [
  | inl a ↦ elim (Bool-cases (leb m n)) [
    | inl b ↦ rw (a, b) (ap (λ k. abs (pack false (magnitude k 1))) (same a b))
    | inr b ↦ rw (a, b) (abs-pack false true (magnitude (m - n) 1))
  ]
  | inr a ↦ elim (Bool-cases (leb m n)) [
    | inl b ↦ rw (a, b) (abs-pack true false (magnitude (n - m) 1))
    | inr b ↦ absurd (neither a b)
  ]
]
  where
    same : leb n m ≡ true → leb m n ≡ true → m - n ≡ n - m
    same a b = ground arith

    neither : leb n m ≡ false → leb m n ≡ false → ⊥
    neither a b = ground arith

-- The distance of two doubles does not depend on their order.
pub abs-sub_comm : (x y : Double) → abs (sub x y) ≡ abs (sub y x)
unfolding sub
abs-sub_comm nan nan = refl
abs-sub_comm nan (inf t) = ground arith
abs-sub_comm nan (fin t n) = ground arith
abs-sub_comm (inf s) nan = ground arith
abs-sub_comm (inf s) (inf t) = ground arith
abs-sub_comm (inf s) (fin t n) = ground arith
abs-sub_comm (fin s m) nan = ground arith
abs-sub_comm (fin s m) (inf t) = ground arith
abs-sub_comm (fin false m) (fin false n) = abs-rounded-differ m n
abs-sub_comm (fin true m) (fin true n) = abs-rounded-differ n m
abs-sub_comm (fin false m) (fin true n) =
    rw (add_comm n m) (abs-pack false true (magnitude (m + n) 1))
abs-sub_comm (fin true m) (fin false n) =
    rw (add_comm n m) (abs-pack true false (magnitude (m + n) 1))

differ_self : (m : ℕ) → differ m m ≡ fin false 0
differ_self m = ground arith

zero_rounded : rounded (fin false 0) ≡ fin false 0
unfolding rounded round pack magnitude
zero_rounded = refl

pub sub_self : (x : Double) → is_finite x ≡ true → sub x x ≡ fin false 0
unfolding sub
sub_self nan f = cc
sub_self (inf s) f = cc
sub_self (fin false m) f = ap rounded (differ_self m) ∙ zero_rounded
sub_self (fin true m) f = ap rounded (differ_self m) ∙ zero_rounded

test_tenths : eq (add (decimal 1 1) (decimal 2 1)) (decimal 3 1) ≡ false
unfolding eq add div round pack magnitude
test_tenths = refl

test_halves : eq (add (decimal 5 1) (decimal 25 2)) (decimal 75 2) ≡ true
unfolding eq add div round pack magnitude
test_halves = refl
