-- ===== src/Slo/Names.antt =====
-- The names and the expressions of the objectives of all environments.
use rhobs.Base.{
  String, ◌<>◌, ◌≡◌, refl, ◌==◌, text_comparable, Bool, true, if◌then◌else◌, List, [], ◌∷◌, ◌++◌,
  map, all, contains, distinct, none, some,
}
use rhobs.Base.Dict.{lookup}
use rhobs.Base.Outcome.{ok}
use rhobs.Slo.{
  Objective, Indicator, dashboard_ids, telemeter_production, telemeter_staging,
  rhelemeter_production, rhelemeter_staging, mst_production, mst_stage,
}
use rhobs.Slo.Generate.{EnvSlos, all_slos}

-- The objectives of all environments, each with the name of its file.
abbrev pub pyrra_files : List EnvSlos → List (String × Objective)
pyrra_files [] = []
pyrra_files (e ∷ es) =
    map (λ o. (e.env_name <> ("-" <> (o.name <> ".yaml")), o)) e.objs ++ pyrra_files es

-- The files of rules, each with the name of the rules in it.
abbrev pub rule_titles : List (String × String)
rule_titles =
    ("rhobs-slos-rhelemeter-production.prometheusrules.yaml", "rhobs-slos-rhelemeter-production")
    ∷ ("rhobs-slos-rhelemeter-stage.prometheusrules.yaml", "rhobs-slos-rhelemeter-stage")
    ∷ ("rhobs-slos-telemeter-production.prometheusrules.yaml", "rhobs-slos-telemeter-production")
    ∷ ("rhobs-slos-telemeter-stage.prometheusrules.yaml", "rhobs-slos-telemeter-stage")
    ∷ ("rhobs-slos-mst-production.prometheusrules.yaml", "rhobs-slos-mst-production")
    ∷ ("rhobs-slos-mst-stage.prometheusrules.yaml", "rhobs-slos-mst-stage")
    ∷ []

abbrev total_of : Indicator → String
total_of (Indicator.ratio errors total) = total
total_of (Indicator.latency success total) = total

-- An availability objective has the target of 99 percent, and a latency objective that of 90.
abbrev has_target : Objective → Bool
has_target o =
    o.target == elim o.indicator [ Indicator.ratio e t ↦ "99" | Indicator.latency s t ↦ "90" ]

-- The names of the objectives whose total is that of an earlier one with the same kind of indicator.
abbrev same_total : (seen : List String) → List Objective → List String
same_total seen [] = []
same_total seen (o ∷ os) =
    let rest = same_total (total_of o.indicator ∷ seen) os in
    if contains seen (total_of o.indicator) then o.name ∷ rest else rest

abbrev unknown_dashboards : List EnvSlos → List String
unknown_dashboards [] = []
unknown_dashboards (e ∷ es) =
    let rest = unknown_dashboards es in
    elim (lookup e.env_name dashboard_ids) [ none ↦ e.env_name ∷ rest | some d ↦ rest ]

abbrev copied : List String
copied = "api-metrics-rule-read-100M-latency-slo" ∷ "api-metrics-read-100M-latency-slo" ∷ []

pub record IsGenerated (envs : List EnvSlos) : Type 0 where
  pub environments :
      map (λ e. e.env_name) envs
      ≡ rhelemeter_production ∷ rhelemeter_staging ∷ telemeter_production ∷ telemeter_staging
        ∷ mst_production ∷ mst_stage ∷ []
  pub rules_named :
      map (λ e. (e.rule_filename <> ".prometheusrules.yaml", e.rule_filename)) envs ≡ rule_titles
  pub files_once : distinct (map (λ f. f.0) (pyrra_files envs)) ≡ true
  pub alerts_once : all (λ e. distinct (map (λ o. o.alert) e.objs)) envs ≡ true
  pub targets : all (λ e. all has_target e.objs) envs ≡ true
  pub totals :
      map (λ e. same_total [] e.objs) envs ≡ [] ∷ [] ∷ copied ∷ copied ∷ copied ∷ copied ∷ []
  pub dashboards : unknown_dashboards envs ≡ rhelemeter_production ∷ rhelemeter_staging ∷ []

-- The objectives are listed without a panic, whatever the prefix.
pub all_slos-IsGenerated :
    (prefix : String) → (envs : List EnvSlos) × (all_slos prefix ≡ ok envs) × IsGenerated envs
unfolding all_slos lookup
all_slos-IsGenerated prefix = (
  _,
  refl,
  record {
    environments = refl;
    rules_named = refl;
    files_once = refl;
    alerts_once = refl;
    targets = refl;
    totals = refl;
    dashboards = refl;
  },
)
