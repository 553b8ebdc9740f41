-- ===== src/Base/Text/Decimal.antt =====
-- `%d` of a natural number, digit by digit from the last one. A number has at most as many digits
-- as one more than itself, which is the fuel.
use rhobs.Base.Tests.{ltb, if◌then◌else◌}
use Prim.Native.Nat.{ℕ, zero, suc, ◌/◌, ◌%◌, ◌<◌}
use Prim.Native.String.{String, ◌++◌}
use mathlib.Core.Path.{◌≡◌, refl}
use native.Mathlib.Omega.{arith}
use rhobs.Base.Tests.{eqb}

unfoldable pub digit : ℕ → String
digit d =
    if eqb d 0
    then "0"
    else if eqb d 1
    then "1"
    else if eqb d 2
    then "2"
    else if eqb d 3
    then "3"
    else if eqb d 4
    then "4"
    else if eqb d 5
    then "5"
    else if eqb d 6
    then "6"
    else if eqb d 7
    then "7"
    else if eqb d 8
    then "8"
    else "9"

unfoldable pub show_fuel : ℕ → ℕ → String
unfolding digit
show_fuel zero n = ""
show_fuel (suc fuel) n =
    let rest = show_fuel fuel (n / 10) in if ltb n 10 then digit n else rest ++ digit (n % 10)

unfoldable pub show : ℕ → String
unfolding show_fuel
show n = show_fuel (suc n) n

-- More fuel than the number changes nothing.
pub show_fuel-enough : (f g n : ℕ) → n < f → n < g → show_fuel f n ≡ show_fuel g n
unfolding show_fuel
show_fuel-enough zero g n h k = elim h [ ]
show_fuel-enough (suc f) zero n h k = elim k [ ]
show_fuel-enough (suc f) (suc g) n h k = ground (arith, show_fuel-enough f g (n / 10))

show_test : show 10902 ≡ "10902"
unfolding show
show_test = refl
