-- ===== src/Prelude/Decimal.antt =====
-- std::to_string of an unsigned integer.
use Prim.Native.Nat.{ℕ, zero, suc, ◌/◌, ◌%◌}
use Prim.Native.String.{String, ◌++◌}
use mathlib.Core.Path.{◌≡◌, refl}
use fss_smm_mav.Prelude.Tests.{ltb, ◌==◌, if◌then◌else◌}

abbrev digit : ℕ → String
digit n =
    if n == 0
    then "0"
    else if n == 1
    then "1"
    else if n == 2
    then "2"
    else if n == 3
    then "3"
    else if n == 4
    then "4"
    else if n == 5
    then "5"
    else if n == 6
    then "6"
    else if n == 7
    then "7"
    else if n == 8
    then "8"
    else "9"

-- The digits of `n`; fuel of at least their number suffices.
abbrev digits : ℕ → ℕ → String
digits zero n = ""
digits (suc fuel) n =
    let rest = digits fuel (n / 10) in if ltb n 10 then digit n else rest ++ digit (n % 10)

-- A uint64_t has at most 20 digits.
unfoldable pub to_string : ℕ → String
to_string n = digits 20 n

to_string_test : to_string 65030 ≡ "65030"
unfolding to_string
to_string_test = refl
