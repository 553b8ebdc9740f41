-- ===== src/Base/Text/Suffix.antt =====
-- `has_suffix` decides the suffix relation.
use Prim.Native.String.{String, ◌++◌}
use mathlib.Core.Path.{◌≡◌, ap, ◌∙◌, sym}
use mathlib.Core.Logic.{◌↔◌, inl, inr}
use mathlib.Core.Bool.{true}
use native.Mathlib.Omega.{arith}
use text.Mathlib.TextEquality.{eq_iff}
use text.Mathlib.TextBridge.{IsSuffix}
use text.Mathlib.TextLemmas.{cons-append, nil-append}
use rhobs.Base.Tests.{Bool-cases}
use rhobs.Base.Equality.{◌==◌, text_comparable, ==_refl}
use rhobs.Base.Text.{has_suffix}

has_suffix_refl : (t : String) → has_suffix t t ≡ true
unfolding has_suffix
has_suffix_refl String.[] = ==_refl {A = String} ""
has_suffix_refl (String.◌∷◌ c t) = ground (arith, ==_refl (String.◌∷◌ c t))

has_suffix-append : (u t : String) → has_suffix (u ++ t) t ≡ true
unfolding has_suffix
has_suffix-append String.[] t = rw nil-append (has_suffix_refl t)
has_suffix-append (String.◌∷◌ c u) t = rw cons-append (ground (arith, has_suffix-append u t))

has_suffix_sound : (s t : String) → has_suffix s t ≡ true → IsSuffix t s
unfolding has_suffix
has_suffix_sound String.[] t h = (String.[], nil-append t ∙ sym ((eq_iff "" t).0 h))
has_suffix_sound (String.◌∷◌ c s) t h = elim (Bool-cases (String.◌∷◌ c s == t)) [
  | inl e ↦ (String.[], nil-append t ∙ sym ((eq_iff (String.◌∷◌ c s) t).0 e))
  | inr n ↦
      let (u, p) = has_suffix_sound s t (ground arith) in
      (String.◌∷◌ c u, cons-append c u t ∙ ap (String.◌∷◌ c) p)
]

pub has_suffix_iff : (s t : String) → (has_suffix s t ≡ true) ↔ IsSuffix t s
has_suffix_iff s t = (has_suffix_sound s t, λ p. rw p.1 at (has_suffix-append p.0 t))
