-- ===== src/Slo/Observatorium.antt =====
-- configuration/observatorium/slo.go: the objectives of the Observatorium API.
pub mod Availability
pub mod Latency
use rhobs.Base.{String, ◌<>◌, ◌==◌, text_comparable, if◌then◌else◌, List, [], ◌∷◌, ◌++◌}
use rhobs.Base.Outcome.{Outcome, ok, panic}
use rhobs.Mage.Params.{index}
use rhobs.Slo.{
  RhobsInstanceEnv, SloType, RhobsSlos, Objective, generic_slo_latency_seconds, api_job_selector,
  metrics_ns, up_ns, to_lower, get_objectives,
}
use rhobs.Rbac.{Signal, metrics_signal}
use rhobs.Slo.Observatorium.Availability.{availability_slos}
use rhobs.Slo.Observatorium.Latency.{latency_slos}

module _ (prefix : String) where
  unfoldable pub observatorium_slos : RhobsInstanceEnv → Signal → Outcome (List Objective)
  unfolding index get_objectives
  observatorium_slos env_name signal =
      if signal == metrics_signal
      then ok (
          get_objectives prefix (availability_slos prefix env_name ++ latency_slos prefix env_name)
            env_name)
      else panic (signal <> " is not an Observatorium signal")
