-- ===== src/Slo/Generate.antt =====
-- configuration/observatorium/slo.go: `GenSLO` and `envSLOs`, as the files that they add to the two
-- generators.
use rhobs.Base.{String, ◌<>◌, List, [], ◌∷◌, ◌++◌, map}
use rhobs.Base.Outcome.{Outcome, ok, ◌>>=◌}
use rhobs.Rbac.{metrics_signal}
use rhobs.Mage.Heap.{Heap}
use rhobs.Slo.{
  RhobsInstanceEnv, Objective, telemeter_production, telemeter_staging, rhelemeter_production,
  rhelemeter_staging, mst_production, mst_stage,
}
use rhobs.Slo.Telemeter.{telemeter_slos, rhelemeter_slos}
use rhobs.Slo.Observatorium.{observatorium_slos}
use rhobs.Slo.Rules.{Call, RuleGroup, PrometheusRule, make_prometheus_rule}

-- The objectives of an environment, and the name of its file of rules: the arguments of a call of `envSLOs`.
pub record EnvSlos : Type 0 where
  pub env_name : RhobsInstanceEnv
  pub objs : List Objective
  pub rule_filename : String

-- What one generator is given for Pyrra, and the other for Prometheus. The labels of a rule are a map.
pub record SloFiles : Type 0 where
  pub pyrra : List (String × Objective)
  pub rules : List (String × PrometheusRule)

abbrev pub pyrra_name : RhobsInstanceEnv → Objective → String
pyrra_name env_name obj = env_name <> ("-" <> (obj.name <> ".yaml"))

abbrev pub rules_name : (rule_filename : String) → String
rules_name rule_filename = rule_filename <> ".prometheusrules.yaml"

module _ (prefix : String) where
  -- The objectives of the six environments, in the order of the calls of `envSLOs`. The source lists those
  -- of an environment just before its call; a list depends on no call, and panics only for another signal.
  unfoldable pub all_slos : Outcome (List EnvSlos)
  unfolding observatorium_slos telemeter_slos rhelemeter_slos
  all_slos = do
    telemeter_prod ← observatorium_slos prefix telemeter_production metrics_signal
    telemeter_stage ← observatorium_slos prefix telemeter_staging metrics_signal
    mst_prod_slos ← observatorium_slos prefix mst_production metrics_signal
    mst_stage_slos ← observatorium_slos prefix mst_stage metrics_signal
    ok (
        record {
          env_name = rhelemeter_production;
          objs = rhelemeter_slos prefix rhelemeter_production;
          rule_filename = "rhobs-slos-rhelemeter-production";
        }
        ∷ record {
          env_name = rhelemeter_staging;
          objs = rhelemeter_slos prefix rhelemeter_staging;
          rule_filename = "rhobs-slos-rhelemeter-stage";
        }
        ∷ record {
          env_name = telemeter_production;
          objs = telemeter_slos prefix telemeter_production ++ telemeter_prod;
          rule_filename = "rhobs-slos-telemeter-production";
        }
        ∷ record {
          env_name = telemeter_staging;
          objs = telemeter_slos prefix telemeter_staging ++ telemeter_stage;
          rule_filename = "rhobs-slos-telemeter-stage";
        }
        ∷ record {
          env_name = mst_production;
          objs = mst_prod_slos;
          rule_filename = "rhobs-slos-mst-production";
        }
        ∷ record {
          env_name = mst_stage;
          objs = mst_stage_slos;
          rule_filename = "rhobs-slos-mst-stage";
        }
        ∷ [])

module _ (prefix : String) {Internal : Type 0} (internal : Objective → Call Internal)
    (increase_rules burnrates generic_rules : Internal → Call RuleGroup) where
  unfoldable pub env_slos : EnvSlos → SloFiles → Heap → Outcome (SloFiles × Heap)
  unfolding make_prometheus_rule
  env_slos e files h = do
    made ←
        make_prometheus_rule internal increase_rules burnrates generic_rules e.objs e.rule_filename
          h
    ok (
      record {
        pyrra = files.pyrra ++ map (λ obj. (pyrra_name e.env_name obj, obj)) e.objs;
        rules = files.rules ++ ((rules_name e.rule_filename, made.0) ∷ []);
      },
      made.1,
    )

  unfoldable pub env_slos_loop : List EnvSlos → SloFiles → Heap → Outcome (SloFiles × Heap)
  unfolding env_slos
  env_slos_loop [] files h = ok (files, h)
  env_slos_loop (e ∷ es) files h = do made ← env_slos e files h; env_slos_loop es made.0 made.1

  unfoldable pub gen_slo : Heap → Outcome (SloFiles × Heap)
  unfolding all_slos env_slos_loop
  gen_slo h = do envs ← all_slos prefix; env_slos_loop envs (record { pyrra = []; rules = [] }) h
