-- ===== src/Slo/Tests.antt =====
-- The theorems on the objectives at concrete inputs.
use rhobs.Base.{
  inr, distinct, map, true, text_comparable, ℕ, ◌≡◌, refl, nat_comparable, none, some, List, [],
  ◌∷◌, All,
}
use rhobs.Base.Outcome.{ok}
use rhobs.Mage.Heap.{Heap, read}
use rhobs.Slo.{Objective}
use rhobs.Slo.Written.{Accepts, Makes, titles, gen_slo-writes}
use rhobs.Slo.Generate.{EnvSlos, SloFiles, all_slos, gen_slo}
use rhobs.Slo.Names.{IsGenerated, pyrra_files, rule_titles, all_slos-IsGenerated}
use rhobs.Slo.Rules.{Call, Rule, RuleGroup, customise_groups}
use rhobs.Slo.Labels.{HasMap, alerts_at, rules_of, final, customise_groups-final}
use rhobs.Slo.Tidy.{IsTidy, customise_groups-AllTidy}

-- A library that accepts every objective, and makes no rules.
abbrev accepted : Objective → Call (Unit {0})
accepted obj h = (inr tt, h)

abbrev no_rules : Unit {0} → Call RuleGroup
no_rules x h = (inr (record { name = "none"; rules = [] }), h)

all_accepted : (objs : List Objective) → All (Accepts accepted no_rules no_rules no_rules) objs
all_accepted [] = tt
all_accepted (o ∷ objs) =
    let made : Makes accepted no_rules no_rules no_rules (no_rules tt) = λ h. (_, h, refl, tt) in
    ((λ h. (tt, h, refl, made, made, made)), all_accepted objs)

accepted_in :
    (envs : List EnvSlos) → All (λ e. All (Accepts accepted no_rules no_rules no_rules) e.objs) envs
accepted_in [] = tt
accepted_in (e ∷ envs) = (all_accepted e.objs, accepted_in envs)

envs_run : (envs : List EnvSlos) × (all_slos "pyrra.dev/" ≡ ok envs) × IsGenerated envs
envs_run = all_slos-IsGenerated "pyrra.dev/"

abbrev no_maps : Heap
no_maps = record { fresh = 0; maps = [] }

gen_slo-writes_example :
    (files : SloFiles) × (g : Heap) × (gen_slo "pyrra.dev/" accepted no_rules no_rules no_rules
        no_maps
      ≡ ok (files, g))
    × (files.pyrra ≡ pyrra_files envs_run.0)
    × (distinct (map (λ f. f.0) files.pyrra) ≡ true)
    × (titles files.rules ≡ rule_titles)
    × IsGenerated envs_run.0
gen_slo-writes_example =
    gen_slo-writes "pyrra.dev/" accepted no_rules no_rules no_rules envs_run.0 no_maps envs_run.1
      (accepted_in envs_run.0)

-- The map of two recording rules, and that of a critical alert of the Alertmanager.
abbrev two_maps : Heap
two_maps = record {
  fresh = 2;
  maps =
      (0, ("slo", "a") ∷ ("le", "5") ∷ [])
      ∷ (
        1,
        ("severity", "critical")
            ∷ ("long", "1h")
            ∷ ("le", "5")
            ∷ ("service", "observatorium-alertmanager")
            ∷ [],
      )
      ∷ [];
}

abbrev recording : Rule
recording = record { alert = ""; labels = some 0; rest = "" }

abbrev burning : Rule
burning = record { alert = "ErrorBudgetBurn"; labels = some 1; rest = "" }

abbrev absent : Rule
absent = record { alert = "SLOMetricAbsent"; labels = some 1; rest = "" }

abbrev unlabelled : Rule
unlabelled = record { alert = ""; labels = none; rest = "" }

abbrev groups : List RuleGroup
groups =
    record { name = "increase"; rules = recording ∷ recording ∷ absent ∷ [] }
    ∷ record { name = "burnrates"; rules = burning ∷ unlabelled ∷ [] }
    ∷ []

groups-HasMap : All HasMap (rules_of groups)
groups-HasMap = ((λ e. refl), ((λ e. refl), ((λ e. cc), ((λ e. refl), ((λ e. refl), tt)))))

customise_groups-final_example :
    (g : Heap) × (customise_groups groups two_maps ≡ ok g)
    × ((a : ℕ) → read (some a) g ≡ final (alerts_at a (rules_of groups)) (read (some a) two_maps))
customise_groups-final_example = customise_groups-final groups two_maps groups-HasMap

groups_run :
    (g : Heap) × (customise_groups groups two_maps ≡ ok g)
    × ((a : ℕ) → read (some a) g ≡ final (alerts_at a (rules_of groups)) (read (some a) two_maps))
groups_run = customise_groups-final groups two_maps groups-HasMap

customise_groups-AllTidy_example :
    IsTidy
      ("SLOMetricAbsent" ∷ "ErrorBudgetBurn" ∷ [])
      (read (some 1) two_maps)
      (read (some 1) groups_run.0)
customise_groups-AllTidy_example =
    customise_groups-AllTidy groups two_maps groups_run.0 groups-HasMap groups_run.1 1
      "SLOMetricAbsent" ("ErrorBudgetBurn" ∷ []) refl
