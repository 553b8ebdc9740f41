-- ===== src/Base/Text/Numeral.antt =====
-- The number that a decimal numeral stands for.
use Prim.Native.Char.{code}
use Prim.Native.Nat.{ℕ, zero, suc, ◌+◌, ◌*◌, ◌-◌, ◌/◌, ◌%◌, ◌<◌}
use Prim.Native.String.{String, ◌++◌}
use mathlib.Core.Path.{◌≡◌, refl, ap, sym, ◌∙◌}
use native.Mathlib.Omega.{arith}
use text.Mathlib.TextLemmas.{cons-append, nil-append}
use rhobs.Base.Text.Decimal.{digit, show_fuel, show}

unfoldable value_from : ℕ → String → ℕ
value_from acc String.[] = acc
value_from acc (String.◌∷◌ c s) = value_from (10 * acc + (code c - 48)) s

value_from-append :
    (acc : ℕ) (s t : String) → value_from acc (s ++ t) ≡ value_from (value_from acc s) t
unfolding value_from
value_from-append acc String.[] t = ap (value_from acc) (nil-append t)
value_from-append acc (String.◌∷◌ c s) t =
    ap (value_from acc) (cons-append c s t) ∙ value_from-append (10 * acc + (code c - 48)) s t

value_from-digit : (acc d : ℕ) → d < 10 → value_from acc (digit d) ≡ 10 * acc + d
unfolding value_from digit
value_from-digit acc zero h = refl
value_from-digit acc (suc zero) h = refl
value_from-digit acc (suc (suc zero)) h = refl
value_from-digit acc (suc (suc (suc zero))) h = refl
value_from-digit acc (suc (suc (suc (suc zero)))) h = refl
value_from-digit acc (suc (suc (suc (suc (suc zero))))) h = refl
value_from-digit acc (suc (suc (suc (suc (suc (suc zero)))))) h = refl
value_from-digit acc (suc (suc (suc (suc (suc (suc (suc zero))))))) h = refl
value_from-digit acc (suc (suc (suc (suc (suc (suc (suc (suc zero)))))))) h = refl
value_from-digit acc (suc (suc (suc (suc (suc (suc (suc (suc (suc zero))))))))) h = refl
value_from-digit acc (suc (suc (suc (suc (suc (suc (suc (suc (suc (suc d)))))))))) h =
    omega (arith, h)

value-show_fuel : (f n : ℕ) → n < f → value_from 0 (show_fuel f n) ≡ n
unfolding show_fuel
value-show_fuel zero n h = elim h [ ]
value-show_fuel (suc f) n h = ground (
  arith,
  value_from-append 0 (show_fuel f (n / 10)) (digit (n % 10)),
  value-show_fuel f (n / 10),
  value_from-digit 0 n,
  value_from-digit (n / 10) (n % 10),
)

-- Reading what was printed gives the number back.
value_from-show : (n : ℕ) → value_from 0 (show n) ≡ n
unfolding show
value_from-show n = value-show_fuel (suc n) n (omega arith)

-- Numbers that are printed alike are equal.
pub show-injective : (m n : ℕ) → show m ≡ show n → m ≡ n
show-injective m n e = sym (value_from-show m) ∙ (ap (value_from 0) e ∙ value_from-show n)
