-- ===== src/Base/Text.antt =====
-- Go's `strings` functions that the program calls, on native texts.
pub mod Suffix
pub mod Separator
pub mod Decimal
pub mod Numeral
pub mod Order
pub mod Split
use Prim.Native.Char.{Char, code}
use Prim.Native.String.{String}
use mathlib.Core.Bool.{Bool, true, false, ◌&&◌, ◌||◌, not}
use rhobs.Base.Tests.{eqb, if◌then◌else◌}
use rhobs.Base.Equality.{◌==◌, text_comparable}

-- strings.HasSuffix
unfoldable pub has_suffix : String → String → Bool
has_suffix String.[] t = "" == t
has_suffix (String.◌∷◌ c s) t = String.◌∷◌ c s == t || has_suffix s t

-- strings.TrimSuffix
unfoldable pub trim_suffix : String → String → String
trim_suffix String.[] t = ""
trim_suffix (String.◌∷◌ c s) t = if String.◌∷◌ c s == t then "" else String.◌∷◌ c (trim_suffix s t)

-- strings.ContainsRune
unfoldable pub contains_char : String → Char → Bool
contains_char String.[] c = false
contains_char (String.◌∷◌ d s) c = eqb (code d) (code c) || contains_char s c

-- strings.TrimRight
unfoldable pub trim_right : String → String → String
unfolding contains_char
trim_right String.[] cutset = ""
trim_right (String.◌∷◌ c s) cutset =
    let rest = trim_right s cutset in
    if rest == "" && contains_char cutset c then "" else String.◌∷◌ c rest
