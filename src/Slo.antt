-- ===== src/Slo.antt =====
-- configuration/observatorium/slo.go: the service level objectives. What is written to the Pyrra
-- types is a record, and `slo.PropagationLabelsPrefix` of that package is the argument `prefix`.
pub mod Telemeter
pub mod Observatorium
pub mod Generate
pub mod Rules
pub mod Names
pub mod Passes
pub mod Labels
pub mod Lookups
pub mod Folds
pub mod Tidy
pub mod Written
mod Tests
use Prim.Native.Char.{Char, code}
use rhobs.Base.{
  ℕ, String, ◌<>◌, ◌==◌, text_comparable, Bool, true, false, eqb, if◌then◌else◌, List, [], ◌∷◌,
  ◌++◌, map,
}
use rhobs.Base.Dict.{Dict}
use rhobs.Mage.Params.{index}

abbrev pub global_slo_window_duration : String
global_slo_window_duration = "28d"

abbrev pub global_metrics_slo_availability_target_percent : String
global_metrics_slo_availability_target_percent = "99"

abbrev pub global_slo_latency_target_percent : String
global_slo_latency_target_percent = "90"

abbrev pub generic_slo_latency_seconds : String
generic_slo_latency_seconds = "5"

abbrev pub RhobsInstanceEnv : Type 0
RhobsInstanceEnv = String

abbrev pub telemeter_production : RhobsInstanceEnv
telemeter_production = "telemeter-production"

abbrev pub telemeter_staging : RhobsInstanceEnv
telemeter_staging = "telemeter-staging"

abbrev pub rhelemeter_production : RhobsInstanceEnv
rhelemeter_production = "rhelemeter-production"

abbrev pub rhelemeter_staging : RhobsInstanceEnv
rhelemeter_staging = "rhelemeter-stage"

abbrev pub mst_production : RhobsInstanceEnv
mst_production = "mst-production"

abbrev pub mst_stage : RhobsInstanceEnv
mst_stage = "mst-stage"

abbrev pub rhobsp02ue1_production : RhobsInstanceEnv
rhobsp02ue1_production = "rhobsp02ue1-production"

abbrev pub dashboard_ids : Dict RhobsInstanceEnv String
dashboard_ids =
    (telemeter_production, "f9fa7677fb4a2669f123f9a0f2234b47")
    ∷ (telemeter_staging, "080e53f245a15445bdf777ae0e66945d")
    ∷ (mst_production, "283e7002d85c08126681241df2fdb22b")
    ∷ (mst_stage, "92520ea4d6976f30d1618164e186ef9b")
    ∷ (rhobsp02ue1_production, "7f4df1c2d5518d5c3f2876ca9bb874a8")
    ∷ []

abbrev pub dashboard_data_source : Dict RhobsInstanceEnv String
dashboard_data_source =
    (telemeter_production, "telemeter-prod-01-prometheus")
    ∷ (telemeter_staging, "app-sre-stage-01-prometheus")
    ∷ (mst_production, "telemeter-prod-01-prometheus")
    ∷ (mst_stage, "app-sre-stage-01-prometheus")
    ∷ (rhobsp02ue1_production, "rhobsp02ue1-prometheus")
    ∷ []

abbrev pub api_job_selector : Dict RhobsInstanceEnv String
api_job_selector =
    (telemeter_production, "observatorium-observatorium-api")
    ∷ (telemeter_staging, "observatorium-observatorium-api")
    ∷ (mst_production, "observatorium-observatorium-mst-api")
    ∷ (mst_stage, "observatorium-observatorium-mst-api")
    ∷ (rhobsp02ue1_production, "observatorium-observatorium-mst-api")
    ∷ []

abbrev pub metrics_ns : Dict RhobsInstanceEnv String
metrics_ns =
    (telemeter_production, "observatorium-metrics-production")
    ∷ (telemeter_staging, "observatorium-metrics-stage")
    ∷ (mst_production, "observatorium-mst-production")
    ∷ (mst_stage, "observatorium-mst-stage")
    ∷ (rhobsp02ue1_production, "observatorium-mst-production")
    ∷ []

abbrev pub up_ns : Dict RhobsInstanceEnv String
up_ns =
    (telemeter_production, "observatorium-production")
    ∷ (telemeter_staging, "observatorium-stage")
    ∷ (mst_production, "observatorium-mst-production")
    ∷ (mst_stage, "observatorium-mst-stage")
    ∷ (rhobsp02ue1_production, "observatorium-mst-production")
    ∷ []

pub data SloType : Type 0 where
  latency availability : SloType

-- `rhobsSLOs`
pub record RhobsSlos : Type 0 where
  pub name : String
  pub labels : Dict String String
  pub description : String
  pub success_or_errors_expr : String
  pub total_expr : String
  pub alert_name : String
  pub slo_type : SloType

-- `ServiceLevelIndicator`: the one of its two pointers that is set.
pub data Indicator : Type 0 where
  ratio : (errors total : String) → Indicator
  latency : (success total : String) → Indicator

-- `pyrrav1alpha1.ServiceLevelObjective`, as it is built.
pub record Objective : Type 0 where
  pub name : String
  pub labels : Dict String String
  pub annotations : Dict String String
  pub description : String
  pub window : String
  pub alert : String
  pub target : String
  pub indicator : Indicator

abbrev lower_in : (upper lower : String) → Char → Char
lower_in String.[] l c = c
lower_in (String.◌∷◌ u us) String.[] c = c
lower_in (String.◌∷◌ u us) (String.◌∷◌ l ls) c =
    let rest = lower_in us ls c in if eqb (code u) (code c) then l else rest

-- strings.ToLower, of the ASCII texts that it is applied to.
unfoldable pub to_lower : String → String
to_lower String.[] = ""
to_lower (String.◌∷◌ c s) =
    String.◌∷◌ (lower_in "ABCDEFGHIJKLMNOPQRSTUVWXYZ" "abcdefghijklmnopqrstuvwxyz" c) (to_lower s)

unfoldable pub get_grafana_link : RhobsInstanceEnv → String
unfolding index
get_grafana_link env_name =
    "https://grafana.app-sre.devshift.net/d/"
    <> (index env_name dashboard_ids ""
        <> ("/"
            <> (env_name
                <> ("-slos?orgId=1&refresh=10s&var-datasource="
                    <> (index env_name dashboard_data_source ""
                        <> "&var-namespace={{$labels.namespace}}&var-job=All&var-pod=All&var-interval=5m")))))

unfoldable pub get_runbook_link : (alert : String) → String
get_runbook_link alert =
    "https://github.com/rhobs/configuration/blob/main/docs/sop/observatorium.md#" <> alert

abbrev target_of : SloType → String
target_of SloType.availability = global_metrics_slo_availability_target_percent
target_of SloType.latency = global_slo_latency_target_percent

abbrev indicator_of : RhobsSlos → SloType → Indicator
indicator_of s SloType.availability = Indicator.ratio s.success_or_errors_expr s.total_expr
indicator_of s SloType.latency = Indicator.latency s.success_or_errors_expr s.total_expr

module _ (prefix : String) where
  -- One round of the loop of `GetObjectives`.
  unfoldable pub objective : RhobsInstanceEnv → RhobsSlos → Objective
  unfolding get_grafana_link get_runbook_link
  objective env_name s = record {
    name = s.name;
    labels = s.labels;
    annotations =
        (prefix <> "message", s.description)
        ∷ (prefix <> "dashboard", get_grafana_link env_name)
        ∷ (prefix <> "runbook", get_runbook_link s.alert_name)
        ∷ [];
    description = s.description;
    window = global_slo_window_duration;
    alert = s.alert_name;
    target = target_of s.slo_type;
    indicator = indicator_of s s.slo_type;
  }

  unfoldable pub get_objectives : List RhobsSlos → RhobsInstanceEnv → List Objective
  unfolding objective
  get_objectives slos env_name = map (objective env_name) slos
