-- ===== src/Base/Text/Order.antt =====
-- Go's `<` on strings is a strict linear order.
use Prim.Native.Nat.{Ordering, compare as compare_ℕ}
use Prim.Native.Char.{Char, code}
use Prim.Native.String.{String, then, compare}
use Prim.Native.String.compare
use mathlib.Core.Path.{◌≡◌, refl}
use mathlib.Core.Logic.{inl, inr}
use mathlib.Core.Bool.{Bool, true, false}
use native.Mathlib.Omega.{arith}
use text.Mathlib.Text.{is_lt}
use text.Mathlib.TextEquality.{path_by_compare}
use rhobs.Base.Tests.{Bool-cases}

unfoldable pub text_lt : String → String → Bool
text_lt s t = is_lt (compare s t)

abbrev swap : Ordering → Ordering
swap Ordering.lt = Ordering.gt
swap Ordering.eq = Ordering.eq
swap Ordering.gt = Ordering.lt

compare_cons :
    (c d : Char) (s t : String)
    → compare (String.◌∷◌ c s) (String.◌∷◌ d t) ≡ then (compare_ℕ (code c) (code d)) (compare s t)
compare_cons c d s t = λ i. compare.cons-cons c d s t i

compare_nil_cons : (d : Char) (t : String) → compare "" (String.◌∷◌ d t) ≡ Ordering.lt
compare_nil_cons d t = λ i. compare.nil-cons d t i

compare_cons_nil : (c : Char) (s : String) → compare (String.◌∷◌ c s) "" ≡ Ordering.gt
compare_cons_nil c s = λ i. compare.cons-nil c s i

compare-swap : (s t : String) → compare t s ≡ swap (compare s t)
compare-swap String.[] String.[] = refl
compare-swap String.[] (String.◌∷◌ d t) = ground (arith, compare_nil_cons d t, compare_cons_nil d t)
compare-swap (String.◌∷◌ c s) String.[] = ground (arith, compare_nil_cons c s, compare_cons_nil c s)
compare-swap (String.◌∷◌ c s) (String.◌∷◌ d t) =
    ground (arith, compare_cons c d s t, compare_cons d c t s, compare-swap s t)

pub text_lt_asymm : (s t : String) → text_lt s t ≡ true → text_lt t s ≡ false
unfolding text_lt
text_lt_asymm s t h = ground (arith, compare-swap s t)

pub text_lt_irrefl : (s : String) → text_lt s s ≡ false
unfolding text_lt
text_lt_irrefl s = ground (arith, compare-swap s s)

pub text_lt_total : (s t : String) → text_lt s t ≡ false → text_lt t s ≡ false → s ≡ t
unfolding text_lt
text_lt_total s t h k = path_by_compare s t (ground (arith, compare-swap s t))

pub text_lt_trans : (r s t : String) → text_lt r s ≡ true → text_lt s t ≡ true → text_lt r t ≡ true
unfolding text_lt
text_lt_trans String.[] String.[] t h k = k
text_lt_trans String.[] (String.◌∷◌ d s) String.[] h k = ground (arith, compare_cons_nil d s)
text_lt_trans String.[] (String.◌∷◌ d s) (String.◌∷◌ e t) h k = ground (arith, compare_nil_cons e t)
text_lt_trans (String.◌∷◌ c r) String.[] t h k = ground (arith, compare_cons_nil c r)
text_lt_trans (String.◌∷◌ c r) (String.◌∷◌ d s) String.[] h k = ground (arith, compare_cons_nil d s)
text_lt_trans (String.◌∷◌ c r) (String.◌∷◌ d s) (String.◌∷◌ e t) h k =
    ground
      (arith, compare_cons c d r s, compare_cons d e s t, compare_cons c e r t, text_lt_trans r s t)

pub text_lt_cotrans :
    (r s t : String) → text_lt s r ≡ false → text_lt t s ≡ false → text_lt t r ≡ false
text_lt_cotrans r s t h k = elim (Bool-cases (text_lt s t)) [
  | inl st ↦ elim (Bool-cases (text_lt t r)) [
    | inl tr ↦ ground (arith, text_lt_trans s t r st tr)
    | inr e ↦ e
  ]
  | inr n ↦ rw (← text_lt_total s t n k) h
]
