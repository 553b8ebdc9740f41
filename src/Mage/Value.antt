-- ===== src/Mage/Value.antt =====
-- The Kubernetes values that the generators build. A literal of an imported struct type is the list
-- of the fields that it sets, a named constant and a call of an imported package stay symbolic, and
-- a pointer is the value that it points to.
use rhobs.Base.{ℕ, String, Bool}
use rhobs.Base.Dict.{Dict}

infixr 20 ◌&◌ ◌⊕◌
infix 30 ◌:=◌
mutual
  pub data Value : Type 0 where
    text : String → Value
    num : ℕ → Value
    flag : Bool → Value
    constant : String → Value
    call : String → Values → Value
    list : Values → Value
    string_map : Dict String String → Value
    struct : Fields → Value

  pub data Values : Type 0 where
    end : Values
    ◌&◌ : Value → Values → Values

  pub data Fields : Type 0 where
    done : Fields
    field : String → Value → Fields → Fields

abbrev pub ◌:=◌ : String → Value → String × Value
k := v = (k, v)

abbrev pub ◌⊕◌ : String × Value → Fields → Fields
b ⊕ fs = field b.0 b.1 fs

abbrev pub append_value : Values → Value → Values
append_value end v = v & end
append_value (w & ws) v = w & append_value ws v

-- A `runtime.Object`: its type and object metadata, and the other fields of the literal.
pub record Object : Type 0 where
  pub api_version : String
  pub kind : String
  pub name : String
  pub namespace : String
  pub labels : Dict String String
  pub annotations : Dict String String
  pub body : Fields
