-- ===== src/Base/Text/Split.antt =====
-- strings.Split for a separator of one character.
use Prim.Native.Char.{Char, code}
use Prim.Native.String.{String, ◌++◌}
use mathlib.Core.Path.{◌≡◌, refl, sym, ap, ◌∙◌}
use mathlib.Core.Logic.{inl, inr}
use mathlib.Core.Bool.{false}
use mathlib.Core.List.{List, [], ◌∷◌}
use native.Mathlib.Omega.{arith}
use text.Mathlib.TextEquality.{Char-path}
use text.Mathlib.TextLemmas.{cons-append, nil-append}
use rhobs.Base.Tests.{eqb, eqb_iff, if◌then◌else◌, Bool-cases}
use rhobs.Base.Lists.{All}
use rhobs.Base.Text.{contains_char}

-- A character goes before the first part.
abbrev onto_first : Char → List String → List String
onto_first d [] = String.◌∷◌ d String.[] ∷ []
onto_first d (x ∷ xs) = String.◌∷◌ d x ∷ xs

unfoldable pub split : String → Char → List String
split String.[] c = "" ∷ []
split (String.◌∷◌ d s) c =
    let rest = split s c in if eqb (code d) (code c) then "" ∷ rest else onto_first d rest

-- The parts with the separator between them.
abbrev pub join : Char → List String → String
join c [] = ""
join c (x ∷ []) = x
join c (x ∷ y ∷ xs) = x ++ String.◌∷◌ c (join c (y ∷ xs))

join-onto_first :
    (c d : Char) (xs : List String) → join c (onto_first d xs) ≡ String.◌∷◌ d (join c xs)
join-onto_first c d [] = refl
join-onto_first c d (x ∷ []) = refl
join-onto_first c d (x ∷ y ∷ xs) = cons-append d x (String.◌∷◌ c (join c (y ∷ xs)))

onto_first-cons :
    (d : Char) (xs : List String) → (y : String) × (ys : List String) × (onto_first d xs ≡ y ∷ ys)
onto_first-cons d [] = (String.◌∷◌ d String.[], [], refl)
onto_first-cons d (x ∷ xs) = (String.◌∷◌ d x, xs, refl)

pub split-cons : (s : String) (c : Char) → (x : String) × (xs : List String) × (split s c ≡ x ∷ xs)
unfolding split
split-cons String.[] c = ("", [], refl)
split-cons (String.◌∷◌ d s) c = elim (Bool-cases (eqb (code d) (code c))) [
  | inl same ↦ ("", split s c, rw same refl)
  | inr other ↦ let (x, xs, e) = onto_first-cons d (split s c) in (x, xs, rw other e)
]

join-next :
    (c : Char) (x : String) (xs : List String)
    → join c ("" ∷ x ∷ xs) ≡ String.◌∷◌ c (join c (x ∷ xs))
join-next c x xs = nil-append (String.◌∷◌ c (join c (x ∷ xs)))

-- The parts make up the text again.
pub join-split : (s : String) (c : Char) → join c (split s c) ≡ s
unfolding split
join-split String.[] c = refl
join-split (String.◌∷◌ d s) c = elim (Bool-cases (eqb (code d) (code c))) [
  | inl same ↦
      let (x, xs, e) = split-cons s c in
      let cd : d ≡ c = Char-path d c ((eqb_iff (code d) (code c)).0 same) in
      let rest : join c (x ∷ xs) ≡ s = ap (join c) (sym e) ∙ join-split s c in
      rw same (ap (λ r. join c ("" ∷ r)) e ∙ join-next c x xs ∙ cc)
  | inr other ↦ rw other (join-onto_first c d (split s c) ∙ ap (String.◌∷◌ d) (join-split s c))
]

-- A part that does not hold the separator.
abbrev pub IsPart : Char → String → Type 0
IsPart c x = contains_char x c ≡ false

onto_first-All :
    (c d : Char) (xs : List String)
    → eqb (code d) (code c) ≡ false
    → All (IsPart c) xs
    → All (IsPart c) (onto_first d xs)
unfolding contains_char
onto_first-All c d [] e h = (ground (arith, e), tt)
onto_first-All c d (x ∷ xs) e (here, later) = (ground (arith, e, here), later)

-- No part holds the separator.
pub split-All : (s : String) (c : Char) → All (IsPart c) (split s c)
unfolding split contains_char
split-All String.[] c = (refl, tt)
split-All (String.◌∷◌ d s) c = elim (Bool-cases (eqb (code d) (code c))) [
  | inl same ↦ rw same (refl, split-All s c)
  | inr other ↦ rw other (onto_first-All c d (split s c) other (split-All s c))
]
