-- ===== src/Slo/Rules.antt =====
-- configuration/observatorium/slo.go: `makePrometheusRule`. A rule's labels are a Go map, which the two
-- passes over the rules change in place. The Pyrra library, which makes the rules of an
-- objective, is a parameter.
use rhobs.Base.{
  String, ◌==◌, text_comparable, not, if◌then◌else◌, ◌⊎◌, inl, inr, Option, none, some, List, [],
  ◌∷◌, ◌++◌,
}
use rhobs.Base.Dict.{Dict, lookup}
use rhobs.Base.Outcome.{Outcome, ok, panic, ◌>>=◌}
use rhobs.Mage.Heap.{Ref, Heap, read, assign, remove}
use rhobs.Slo.{Objective}

-- `monitoringv1.Rule`: what the passes read, and the rest of it.
pub record Rule : Type 0 where
  pub alert : String
  pub labels : Ref
  pub rest : String

pub record RuleGroup : Type 0 where
  pub name : String
  pub rules : List Rule

-- `appInterfacePrometheusRule`: the schema, the metadata and the groups.
pub record PrometheusRule : Type 0 where
  pub schema : String
  pub name : String
  pub labels : Dict String String
  pub groups : List RuleGroup

abbrev pub rule_file_labels : Dict String String
rule_file_labels = ("prometheus", "app-sre") ∷ ("role", "alert-rules") ∷ []

-- `if v, ok := labels[old]; ok { labels[new] = v; delete(labels, old) }`
abbrev pub moved : (old new : String) → Ref → Heap → Option String → Outcome Heap
moved old new r h none = ok h
moved old new r h (some v) = do g ← assign r new v h; ok (remove r old g)

unfoldable pub rename : (old new : String) → Ref → Heap → Outcome Heap
unfolding lookup read assign remove
rename old new r h = moved old new r h (lookup old (read r h))

abbrev pub hacked : Ref → Heap → Option String → Outcome Heap
hacked r h none = ok h
hacked r h (some v) =
    if v == "observatorium-alertmanager" then assign r "service" "observatorium-api" h else ok h

-- `// Prune certain alert labels.` and `// Hack for AM alert labels.`
unfoldable pub prune : Ref → Heap → Outcome Heap
unfolding lookup read assign remove
prune r h =
    let g = remove r "container" (remove r "client" (remove r "le" h)) in
    hacked r g (lookup "service" (read r g))

-- One round of the first loop over the rules, `// AppSRE customizations.`
unfoldable pub customise : Rule → Heap → Outcome Heap
unfolding prune rename
customise r h = do
  pruned ← if not (r.alert == "") then prune r.labels h else ok h
  long ← rename "long" "long_burnrate_window" r.labels pruned
  rename "short" "short_burnrate_window" r.labels long

abbrev pub lowered : Ref → Heap → Option String → Outcome Heap
lowered r h none = ok h
lowered r h (some v) =
    if v == "critical"
    then assign r "severity" "high" h
    else if v == "warning"
    then assign r "severity" "medium" h
    else ok h

-- One round of the second loop over the rules.
unfoldable pub lower_severity : Rule → Heap → Outcome Heap
unfolding lookup read assign
lower_severity r h =
    if r.alert == "SLOMetricAbsent"
    then assign r.labels "severity" "medium" h
    else lowered r.labels h (lookup "severity" (read r.labels h))

module _ (step : Rule → Heap → Outcome Heap) where
  unfoldable pub for_rules : List Rule → Heap → Outcome Heap
  for_rules [] h = ok h
  for_rules (r ∷ rs) h = do g ← step r h; for_rules rs g

  -- `for i := range grp { for j := range grp[i].Rules { … } }`
  unfoldable pub for_groups : List RuleGroup → Heap → Outcome Heap
  unfolding for_rules
  for_groups [] h = ok h
  for_groups (g ∷ gs) h = do h' ← for_rules g.rules h; for_groups gs h'

unfoldable pub customise_groups : List RuleGroup → Heap → Outcome Heap
unfolding for_groups customise lower_severity
customise_groups grp h = do g ← for_groups customise grp h; for_groups lower_severity grp g

-- What the library returns, in the state of the maps that it leaves.
abbrev pub Call : Type 0 → Type 0
Call A = Heap → (String ⊎ A) × Heap

-- `if err != nil { mimic.PanicErr(err) }`
abbrev pub checked : {A : Type 0} → (String ⊎ A) × Heap → Outcome (A × Heap)
checked (inl e, h) = panic e
checked (inr a, h) = ok (a, h)

module _ {Internal : Type 0} (internal : Objective → Call Internal)
    (increase_rules burnrates generic_rules : Internal → Call RuleGroup) where
  unfoldable pub objective_groups : Objective → Heap → Outcome (List RuleGroup × Heap)
  objective_groups obj h = do
    o ← checked (internal obj h)
    i ← checked (increase_rules o.0 o.1)
    b ← checked (burnrates o.0 i.1)
    g ← checked (generic_rules o.0 b.1)
    ok (i.0 ∷ b.0 ∷ g.0 ∷ [], g.1)

  -- The loop over the objectives, which appends three groups for each.
  unfoldable pub groups_loop :
      List Objective → List RuleGroup → Heap → Outcome (List RuleGroup × Heap)
  unfolding objective_groups
  groups_loop [] grp h = ok (grp, h)
  groups_loop (obj ∷ objs) grp h = do
    made ← objective_groups obj h
    groups_loop objs (grp ++ made.0) made.1

  unfoldable pub make_prometheus_rule :
      List Objective → (name : String) → Heap → Outcome (PrometheusRule × Heap)
  unfolding groups_loop customise_groups
  make_prometheus_rule objs name h = do
    grp ← groups_loop objs [] h
    g ← customise_groups grp.0 grp.1
    ok (
      record {
        schema = "/openshift/prometheus-rule-1.yml";
        name = name;
        labels = rule_file_labels;
        groups = grp.0;
      },
      g,
    )
