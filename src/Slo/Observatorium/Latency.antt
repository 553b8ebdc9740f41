-- ===== src/Slo/Observatorium/Latency.antt =====
-- configuration/observatorium/slo.go: the latency objectives of the Observatorium API.
use rhobs.Base.{String, ◌<>◌, text_comparable, List, [], ◌∷◌}
use rhobs.Mage.Params.{index}
use rhobs.Slo.{
  RhobsInstanceEnv, SloType, RhobsSlos, generic_slo_latency_seconds, api_job_selector, up_ns,
}

module _ (prefix : String) where
  abbrev pub latency_slos : (env_name : RhobsInstanceEnv) → List RhobsSlos
  latency_slos env_name =
      record {
        name = "api-metrics-write-latency-slo";
        labels = ((prefix <> "service"), "observatorium-api") ∷ ("instance", env_name) ∷ [];
        description =
            "API /receive handler is burning too much error budget to guarantee latency SLOs.";
        success_or_errors_expr =
            (((("http_request_duration_seconds_bucket{job=\""
                    <> (index env_name api_job_selector ""))
                  <> "\", handler=\"receive\", group=\"metricsv1\", code=~\"^2..$\", le=\"")
                <> generic_slo_latency_seconds)
              <> "\"}");
        total_expr =
            (("http_request_duration_seconds_count{job=\"" <> (index env_name api_job_selector ""))
              <> "\", handler=\"receive\", group=\"metricsv1\", code=~\"^2..$\"}");
        alert_name = "APIMetricsWriteLatencyErrorBudgetBurning";
        slo_type = SloType.latency;
      }
      ∷ record {
        name = "api-metrics-rule-read-1M-latency-slo";
        labels = ((prefix <> "service"), "observatorium-api") ∷ ("instance", env_name) ∷ [];
        description =
            "API /query endpoint for rules evaluation is burning too much error budget for 1M samples, to guarantee latency SLOs.";
        success_or_errors_expr =
            (("up_custom_query_duration_seconds_bucket{query=\"rule-query-path-sli-1M-samples\", namespace=\""
                <> (index env_name up_ns ""))
              <> "\", http_code=~\"^2..$\", le=\"10\"}");
        total_expr =
            (("up_custom_query_duration_seconds_count{query=\"rule-query-path-sli-1M-samples\", namespace=\""
                <> (index env_name up_ns ""))
              <> "\", http_code=~\"^2..$\"}");
        alert_name = "APIMetricsRuleReadLatency1MErrorBudgetBurning";
        slo_type = SloType.latency;
      }
      ∷ record {
        name = "api-metrics-rule-read-10M-latency-slo";
        labels = ((prefix <> "service"), "observatorium-api") ∷ ("instance", env_name) ∷ [];
        description =
            "API /query endpoint for rules evaluation is burning too much error budget for 100M samples, to guarantee latency SLOs.";
        success_or_errors_expr =
            (("up_custom_query_duration_seconds_bucket{query=\"rule-query-path-sli-10M-samples\", namespace=\""
                <> (index env_name up_ns ""))
              <> "\", http_code=~\"^2..$\", le=\"30\"}");
        total_expr =
            (("up_custom_query_duration_seconds_count{query=\"rule-query-path-sli-10M-samples\", namespace=\""
                <> (index env_name up_ns ""))
              <> "\", http_code=~\"^2..$\"}");
        alert_name = "APIMetricsRuleReadLatency10MErrorBudgetBurning";
        slo_type = SloType.latency;
      }
      ∷ record {
        name = "api-metrics-rule-read-100M-latency-slo";
        labels = ((prefix <> "service"), "observatorium-api") ∷ ("instance", env_name) ∷ [];
        description =
            "API /query endpoint for rules evaluation is burning too much error budget for 100M samples, to guarantee latency SLOs.";
        success_or_errors_expr =
            (("up_custom_query_duration_seconds_bucket{query=\"rule-query-path-sli-1M-samples\", namespace=\""
                <> (index env_name up_ns ""))
              <> "\", http_code=~\"^2..$\", le=\"120\"}");
        total_expr =
            (("up_custom_query_duration_seconds_count{query=\"rule-query-path-sli-1M-samples\", namespace=\""
                <> (index env_name up_ns ""))
              <> "\", http_code=~\"^2..$\"}");
        alert_name = "APIMetricsRulenReadLatency100MErrorBudgetBurning";
        slo_type = SloType.latency;
      }
      ∷ record {
        name = "api-metrics-read-1M-latency-slo";
        labels = ((prefix <> "service"), "observatorium-api") ∷ ("instance", env_name) ∷ [];
        description =
            "API /query endpoint is burning too much error budget for 1M samples, to guarantee latency SLOs.";
        success_or_errors_expr =
            (("up_custom_query_duration_seconds_bucket{query=\"query-path-sli-1M-samples\", namespace=\""
                <> (index env_name up_ns ""))
              <> "\", http_code=~\"^2..$\", le=\"10\"}");
        total_expr =
            (("up_custom_query_duration_seconds_count{query=\"query-path-sli-1M-samples\", namespace=\""
                <> (index env_name up_ns ""))
              <> "\", http_code=~\"^2..$\"}");
        alert_name = "APIMetricsReadLatency1MErrorBudgetBurning";
        slo_type = SloType.latency;
      }
      ∷ record {
        name = "api-metrics-read-10M-latency-slo";
        labels = ((prefix <> "service"), "observatorium-api") ∷ ("instance", env_name) ∷ [];
        description =
            "API /query endpoint is burning too much error budget for 100M samples, to guarantee latency SLOs.";
        success_or_errors_expr =
            (("up_custom_query_duration_seconds_bucket{query=\"query-path-sli-10M-samples\", namespace=\""
                <> (index env_name up_ns ""))
              <> "\", http_code=~\"^2..$\", le=\"30\"}");
        total_expr =
            (("up_custom_query_duration_seconds_count{query=\"query-path-sli-10M-samples\", namespace=\""
                <> (index env_name up_ns ""))
              <> "\", http_code=~\"^2..$\"}");
        alert_name = "APIMetricsReadLatency10MErrorBudgetBurning";
        slo_type = SloType.latency;
      }
      ∷ record {
        name = "api-metrics-read-100M-latency-slo";
        labels = ((prefix <> "service"), "observatorium-api") ∷ ("instance", env_name) ∷ [];
        description =
            "API /query endpoint is burning too much error budget for 100M samples, to guarantee latency SLOs.";
        success_or_errors_expr =
            (("up_custom_query_duration_seconds_bucket{query=\"query-path-sli-1M-samples\", namespace=\""
                <> (index env_name up_ns ""))
              <> "\", http_code=~\"^2..$\", le=\"120\"}");
        total_expr =
            (("up_custom_query_duration_seconds_count{query=\"query-path-sli-1M-samples\", namespace=\""
                <> (index env_name up_ns ""))
              <> "\", http_code=~\"^2..$\"}");
        alert_name = "APIMetricsReadLatency100MErrorBudgetBurning";
        slo_type = SloType.latency;
      }
      ∷ []
