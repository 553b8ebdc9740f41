-- ===== src/Mage/Secrets/Placeholders.antt =====
-- The placeholders of an OpenShift template, as OpenShift documents them: `${NAME}` in a text.
use Prim.Native.Char.{Char, code}
use rhobs.Base.{ℕ, String, ◌<>◌, Bool, eqb, text_comparable, if◌then◌else◌, List, [], ◌∷◌, ◌++◌}
use rhobs.Base.Dict.{Dict}
use rhobs.Mage.Value.{Fields}
use rhobs.Mage.Secrets.References.{text_at}

-- Where in a text the scan is: outside, after a dollar, or in a name.
pub data Scan : Type 0 where
  outside : Scan
  after_dollar : Scan
  in_name : String → Scan

abbrev pub is_char : Char → ℕ → Bool
is_char c d = eqb (code c) d

-- The names of the placeholders of a text, in their order.
unfoldable pub placeholders_from : Scan → String → List String
placeholders_from outside String.[] = []
placeholders_from outside (String.◌∷◌ c s) =
    let go = placeholders_from after_dollar s in
    let stay = placeholders_from outside s in if is_char c b'$' then go else stay
placeholders_from after_dollar String.[] = []
placeholders_from after_dollar (String.◌∷◌ c s) =
    if is_char c b'{'
    then placeholders_from (in_name "") s
    else if is_char c b'$'
    then placeholders_from after_dollar s
    else placeholders_from outside s
placeholders_from (in_name n) String.[] = []
placeholders_from (in_name n) (String.◌∷◌ c s) =
    if is_char c b'}'
    then n ∷ placeholders_from outside s
    else placeholders_from (in_name (n <> String.◌∷◌ c "")) s

abbrev pub placeholders_of : Dict String String → List String
placeholders_of [] = []
placeholders_of ((k, v) ∷ d) = placeholders_from outside v ++ placeholders_of d

abbrev pub declared_by : List Fields → List String
declared_by [] = []
declared_by (p ∷ ps) = text_at "Name" p ∷ declared_by ps
