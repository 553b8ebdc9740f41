-- ===== src/Base/Text/Separator.antt =====
-- A text is cut in one way at its last separator.
use Prim.Native.Char.{Char}
use Prim.Native.String.{String, ◌++◌}
use mathlib.Core.Path.{◌≡◌, refl, ◌∙◌, sym}
use mathlib.Core.Bool.{true, false}
use native.Mathlib.Omega.{arith}
use text.Mathlib.TextLemmas.{cons-append, nil-append, head-eq_of_cons-eq, tail-eq_of_cons-eq}
use rhobs.Base.Text.{contains_char}

-- The character `c` stands in a text that holds it after some prefix.
contains_char-middle : (u v : String) (c : Char) → contains_char (u ++ String.◌∷◌ c v) c ≡ true
unfolding contains_char
contains_char-middle String.[] v c = rw nil-append (ground arith)
contains_char-middle (String.◌∷◌ d u) v c =
    rw cons-append (ground (arith, contains_char-middle u v c))

-- Two texts that end in a separator and a tail without it agree on both sides of it.
pub last_cut_inj :
    (c : Char) (u v s t : String)
    → contains_char s c ≡ false
    → contains_char t c ≡ false
    → u ++ String.◌∷◌ c s ≡ v ++ String.◌∷◌ c t
    → (u ≡ v) × (s ≡ t)
last_cut_inj c String.[] String.[] s t hs ht e =
    (refl, tail-eq_of_cons-eq (sym (nil-append _) ∙ e ∙ nil-append _))
last_cut_inj c String.[] (String.◌∷◌ d v) s t hs ht e =
    let p =
      tail-eq_of_cons-eq
        (sym (nil-append (String.◌∷◌ c s)) ∙ e ∙ cons-append d v (String.◌∷◌ c t)) in
    cc (contains_char-middle v t c)
last_cut_inj c (String.◌∷◌ d u) String.[] s t hs ht e =
    let p =
      tail-eq_of_cons-eq
        (sym (nil-append (String.◌∷◌ c t)) ∙ sym e ∙ cons-append d u (String.◌∷◌ c s)) in
    cc (contains_char-middle u s c)
last_cut_inj c (String.◌∷◌ d u) (String.◌∷◌ f v) s t hs ht e =
    let p = sym (cons-append d u (String.◌∷◌ c s)) ∙ e ∙ cons-append f v (String.◌∷◌ c t) in
    let (q, r) = last_cut_inj c u v s t hs ht (tail-eq_of_cons-eq p) in
    (cc (head-eq_of_cons-eq p, q), r)
