-- ===== src/Mage/Paths.antt =====
-- Reading a value that a generator has built: the field at a path of names, and its parts.
use rhobs.Base.{String, ◌==◌, text_comparable, if◌then◌else◌, ℕ, List, [], ◌∷◌, ◌++◌}
use rhobs.Base.Dict.{Dict}
use rhobs.Mage.Value.{
  Value, Values, Fields, text, num, constant, list, struct, string_map, end, ◌&◌, done, field,
}

abbrev pub absent : Value
absent = constant "nil"

abbrev pub find : String → Fields → Value
find k done = absent
find k (field j v fs) = if j == k then v else find k fs

abbrev pub fields : Value → Fields
fields (struct fs) = fs
fields v = done

-- The value at a path below a value; `absent` if there is none.
abbrev pub at : List String → Value → Value
at [] v = v
at (k ∷ path) v = at path (find k (fields v))

abbrev all_of : Values → List Value
all_of end = []
all_of (v & vs) = v ∷ all_of vs

abbrev pub items : Value → List Value
items (list vs) = all_of vs
items v = []

abbrev pub strings : Value → Dict String String
strings (string_map d) = d
strings v = []

abbrev pub text_of : Value → String
text_of (text s) = s
text_of v = ""

abbrev pub num_of : Value → ℕ
num_of (num n) = n
num_of v = 0

-- The items at a path of each of some values.
abbrev pub all_items : List String → List Value → List Value
all_items path [] = []
all_items path (v ∷ vs) = items (at path v) ++ all_items path vs

-- The text at a path of each of some values.
abbrev pub texts_at : List String → List Value → List String
texts_at path [] = []
texts_at path (v ∷ vs) = text_of (at path v) ∷ texts_at path vs
