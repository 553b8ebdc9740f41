-- ===== src/Mage/Operator/Rules.antt =====
-- What the roles of the operator grant.
use rhobs.Base.{
  String, ◌<>◌, ◌≡◌, ◌==◌, text_comparable, Bool, ◌&&◌, ◌||◌, if◌then◌else◌, List, [], ◌∷◌, map,
  any, all, All, contains, arith,
}
use rhobs.Base.Text.{trim_suffix}
use rhobs.Mage.Value.{Value, Object, struct}
use rhobs.Mage.Paths.{at, items, text_of}
use rhobs.Mage.Operator.Accounts.{service_account}
use rhobs.Mage.Operator.Resources.{literals}
use rhobs.Mage.Operator.Crds.{components}
use rhobs.Mage.Operator.Bound.{is_binding, is_role_of, is_account, subjects}

abbrev listed : String → Value → List String
listed k v = map text_of (items (at (k ∷ []) v))

-- A policy rule allows a verb on a resource of an API group.
abbrev allows : (group resource verb : String) → Value → Bool
allows group resource verb rule =
    contains (listed "Resources" rule) resource
    && (contains (listed "APIGroups" rule) group && contains (listed "Verbs" rule) verb)

abbrev rules : Object → List Value
rules o = items (at ("Rules" ∷ []) (struct o.body))

abbrev role_allows : (group resource verb : String) → Object → Bool
role_allows group resource verb o = any (allows group resource verb) (rules o)

-- An account is granted what a role allows that a binding gives it.
abbrev pub granted : List Object → (account : Object) → (group resource verb : String) → Bool
granted os account group resource verb =
    any
      (λ b.
        is_binding b
        && (any (λ s. is_account s account) (subjects b)
            && any (λ o. is_role_of b o && role_allows group resource verb o) os))
      os

abbrev thanos_group : String
thanos_group = "monitoring.thanos.io"

abbrev all_verbs : List String
all_verbs = "create" ∷ "delete" ∷ "get" ∷ "list" ∷ "patch" ∷ "update" ∷ "watch" ∷ []

-- The resources of the custom resource definitions that `crds` fetches, after the names of its files.
pub custom_resources : List String
unfolding trim_suffix
custom_resources = map (λ c. trim_suffix c ".yaml") components

-- What a controller of a resource needs: the resource, its status and its finalizers.
abbrev pub controls : (namespace resource : String) → Bool
controls namespace resource =
    all (granted (literals namespace) (service_account namespace) thanos_group resource) all_verbs
    && (all
          (granted (literals namespace) (service_account namespace) thanos_group
            (resource <> "/status"))
          ("get" ∷ "patch" ∷ "update" ∷ [])
        && granted (literals namespace) (service_account namespace) thanos_group
            (resource <> "/finalizers") "update")

-- The roles for people: each viewer's and each editor's name is that of its resource.
abbrev role_name : (resource suffix : String) → String
role_name resource suffix = "thanos-operator-" <> (resource <> suffix)

abbrev role_of : (name : String) → List Object → List Object
role_of name [] = []
role_of name (o ∷ os) = let rest = role_of name os in if o.name == name then o ∷ rest else rest

abbrev pub people : List (String × String)
people =
    ("thanosquery", "thanosqueries")
    ∷ ("thanoscompact", "thanoscompacts")
    ∷ ("thanosreceive", "thanosreceives")
    ∷ ("thanosruler", "thanosrulers")
    ∷ ("thanosstore", "thanosstores")
    ∷ []

-- Some roles allow some verbs on a resource, `get` on its status, and nothing else.
abbrev Exactly :
    (resource : String) (verbs : List String) → List Object → (group other verb : String) → Type 0
Exactly resource verbs os group other verb = any (role_allows group other verb) os ≡ (
    (resource == other && (thanos_group == group && contains verbs verb))
    || ((resource <> "/status") == other && (thanos_group == group && "get" == verb)))

abbrev readers : List String
readers = "get" ∷ "list" ∷ "watch" ∷ []

abbrev pub Separates : (namespace group other verb : String) → String × String → Type 0
Separates namespace group other verb (name, resource) =
    Exactly resource readers (role_of (role_name name "-viewer-role") (literals namespace)) group
      other verb
    × Exactly resource all_verbs (role_of (role_name name "-editor-role") (literals namespace))
        group other verb

-- Of each of the five custom resources, the viewer role allows to get, list and watch it, the editor role
-- also to create, delete, patch and update it, both allow to get its status, and neither allows
-- anything else: this says of every API group, resource and verb whether the role allows it.
pub people-allowed :
    (namespace group other verb : String) → All (Separates namespace group other verb) people
people-allowed namespace group other verb = (
  (ground arith, ground arith),
  (
    (ground arith, ground arith),
    (
      (ground arith, ground arith),
      ((ground arith, ground arith), ((ground arith, ground arith), tt)),
    ),
  ),
)
