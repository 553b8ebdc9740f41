-- ===== src/Mage/Operator/Bound.antt =====
-- What the resources of the operator refer to.
use rhobs.Base.{
  String, ◌<>◌, ◌≡◌, ◌==◌, text_comparable, Bool, true, ◌&&◌, if◌then◌else◌, List, [], ◌∷◌, map,
  any, all, contains, distinct, length,
}
use rhobs.Base.Dict.{Dict}
use rhobs.Base.Outcome.Runs.{Runs}
use rhobs.Mage.Value.{Value, Object, text, call, struct, end, ◌&◌}
use rhobs.Mage.Paths.{at, items, all_items, strings, text_of, texts_at}
use rhobs.Mage.Params.Lookup.{Need, image, resources}
use rhobs.Mage.Operator.Monitors.{service_monitor}

abbrev pub operator_needs : List Need
operator_needs =
    image "KUBE_RBAC_PROXY"
    ∷ resources "KUBE_RBAC_PROXY"
    ∷ image "THANOS_OPERATOR"
    ∷ resources "MANAGER"
    ∷ []

abbrev text_in : List String → Object → String
text_in path o = text_of (at path (struct o.body))

abbrev items_in : List String → Object → List Value
items_in path o = items (at path (struct o.body))

abbrev pub is_binding : Object → Bool
is_binding o = contains ("RoleBinding" ∷ "ClusterRoleBinding" ∷ []) o.kind

-- The object is the role that a binding refers to.
abbrev pub is_role_of : Object → Object → Bool
is_role_of b o =
    o.kind == text_in ("RoleRef" ∷ "Kind" ∷ []) b && o.name == text_in ("RoleRef" ∷ "Name" ∷ []) b

-- The object is the service account that a subject of a binding names.
abbrev pub is_account : Value → Object → Bool
is_account s o =
    o.kind == text_of (at ("Kind" ∷ []) s)
    && (o.name == text_of (at ("Name" ∷ []) s) && o.namespace == text_of (at ("Namespace" ∷ []) s))

abbrev pub subjects : Object → List Value
subjects b = items_in ("Subjects" ∷ []) b

abbrev bound : List Object → Object → Bool
bound os b =
    if is_binding b
    then any (is_role_of b) os && all (λ s. any (is_account s) os) (subjects b)
    else true

-- The pods of a deployment run as a service account of its namespace.
abbrev has_account : List Object → Object → Bool
has_account os d =
    if d.kind == "Deployment"
    then any
        (λ o.
          o.kind == "ServiceAccount"
          && (o.name == text_in ("Spec" ∷ "Template" ∷ "Spec" ∷ "ServiceAccountName" ∷ []) d
              && o.namespace == d.namespace))
        os
    else true

abbrev entries_in : Dict String String → Dict String String → Bool
entries_in d e = all (λ x. any (λ y. x.0 == y.0 && x.1 == y.1) e) d

abbrev map_in : List String → Object → Dict String String
map_in path o = strings (at path (struct o.body))

abbrev named_target : Value → String
named_target (call f (text s & end)) = s
named_target v = ""

-- A service selects the pods of a deployment, whose containers have the ports that it leads to.
abbrev leads_to : Object → Object → Bool
leads_to s d =
    d.kind == "Deployment"
    && (entries_in (map_in ("Spec" ∷ "Selector" ∷ []) s)
          (map_in ("Spec" ∷ "Template" ∷ "ObjectMeta" ∷ "Labels" ∷ []) d)
        && all
            (λ p.
              contains
                (texts_at ("Name" ∷ []) (
                  all_items ("Ports" ∷ [])
                    (items_in ("Spec" ∷ "Template" ∷ "Spec" ∷ "Containers" ∷ []) d)))
                (named_target (at ("TargetPort" ∷ []) p)))
            (items_in ("Spec" ∷ "Ports" ∷ []) s))

abbrev leads : List Object → Object → Bool
leads os s = if s.kind == "Service" then any (leads_to s) os else true

-- A service monitor selects a service by its labels, which has the ports that it scrapes.
abbrev scrapes : Object → Object → Bool
scrapes sm s =
    s.kind == "Service"
    && (entries_in (map_in ("Spec" ∷ "Selector" ∷ "MatchLabels" ∷ []) sm) s.labels
        && (contains (map text_of (items_in ("Spec" ∷ "NamespaceSelector" ∷ "MatchNames" ∷ []) sm))
              s.namespace
            && all (λ p. contains (texts_at ("Name" ∷ []) (items_in ("Spec" ∷ "Ports" ∷ []) s)) p)
                (texts_at ("Port" ∷ []) (items_in ("Spec" ∷ "Endpoints" ∷ []) sm))))

abbrev kind_and_name : Object → String
kind_and_name o = o.kind <> ("/" <> o.name)

pub record IsBound (namespace : String) (os : List Object) : Type 0 where
  pub counted : length os ≡ 20
  pub once : distinct (map kind_and_name os) ≡ true
  pub bindings : all (bound os) os ≡ true
  pub accounts : all (has_account os) os ≡ true
  pub services : all (leads os) os ≡ true
  pub monitors : all (λ sm. any (scrapes sm) os) (service_monitor namespace) ≡ true
