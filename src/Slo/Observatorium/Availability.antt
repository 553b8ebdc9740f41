-- ===== src/Slo/Observatorium/Availability.antt =====
-- configuration/observatorium/slo.go: the availability objectives of the Observatorium API.
use rhobs.Base.{String, ◌<>◌, text_comparable, List, [], ◌∷◌}
use rhobs.Mage.Params.{index}
use rhobs.Slo.{RhobsInstanceEnv, SloType, RhobsSlos, api_job_selector, metrics_ns}

module _ (prefix : String) where
  abbrev pub availability_slos : (env_name : RhobsInstanceEnv) → List RhobsSlos
  availability_slos env_name =
      record {
        name = "api-metrics-write-availability-slo";
        labels = ((prefix <> "service"), "observatorium-api") ∷ ("instance", env_name) ∷ [];
        description =
            "API /receive handler is burning too much error budget to guarantee availability SLOs.";
        success_or_errors_expr =
            (("http_requests_total{job=\"" <> (index env_name api_job_selector ""))
              <> "\", handler=\"receive\", group=\"metricsv1\", code=~\"^5..$\"}");
        total_expr =
            (("http_requests_total{job=\"" <> (index env_name api_job_selector ""))
              <> "\", handler=\"receive\", group=\"metricsv1\"}");
        alert_name = "APIMetricsWriteAvailabilityErrorBudgetBurning";
        slo_type = SloType.availability;
      }
      ∷ record {
        name = "api-metrics-rule-query-availability-slo";
        labels = ((prefix <> "service"), "observatorium-api") ∷ ("instance", env_name) ∷ [];
        description =
            "API /query handler endpoint for rules evaluation is burning too much error budget to guarantee availability SLOs.";
        success_or_errors_expr =
            "http_requests_total{job=\"observatorium-ruler-query\", handler=\"query\", code=~\"^5..$\"}";
        total_expr = "http_requests_total{job=\"observatorium-ruler-query\", handler=\"query\"}";
        alert_name = "APIMetricsRulerQueryAvailabilityErrorBudgetBurning";
        slo_type = SloType.availability;
      }
      ∷ record {
        name = "api-metrics-query-availability-slo";
        labels = ((prefix <> "service"), "observatorium-api") ∷ ("instance", env_name) ∷ [];
        description =
            "API /query handler is burning too much error budget to guarantee availability SLOs.";
        success_or_errors_expr =
            (("http_requests_total{job=\"" <> (index env_name api_job_selector ""))
              <> "\", handler=\"query\", group=\"metricsv1\", code=~\"^5..$\"}");
        total_expr =
            (("http_requests_total{job=\"" <> (index env_name api_job_selector ""))
              <> "\", handler=\"query\", group=\"metricsv1\"}");
        alert_name = "APIMetricsQueryAvailabilityErrorBudgetBurning";
        slo_type = SloType.availability;
      }
      ∷ record {
        name = "api-metrics-query-range-availability-slo";
        labels = ((prefix <> "service"), "observatorium-api") ∷ ("instance", env_name) ∷ [];
        description =
            "API /query_range handler is burning too much error budget to guarantee availability SLOs.";
        success_or_errors_expr =
            (("http_requests_total{job=\"" <> (index env_name api_job_selector ""))
              <> "\", handler=\"query_range\", group=\"metricsv1\", code=~\"^5..$\"}");
        total_expr =
            (("http_requests_total{job=\"" <> (index env_name api_job_selector ""))
              <> "\", handler=\"query_range\", group=\"metricsv1\"}");
        alert_name = "APIMetricsQueryRangeAvailabilityErrorBudgetBurning";
        slo_type = SloType.availability;
      }
      ∷ record {
        name = "api-rules-raw-write-availability-slo";
        labels = ((prefix <> "service"), "observatorium-api") ∷ ("instance", env_name) ∷ [];
        description =
            "API /rules/raw endpoint for writes is burning too much error budget to guarantee availability SLOs.";
        success_or_errors_expr =
            (("http_requests_total{job=\"" <> (index env_name api_job_selector ""))
              <> "\", handler=\"rules-raw\", method=\"PUT\", group=\"metricsv1\", code=~\"^5..$\"}");
        total_expr =
            (("http_requests_total{job=\"" <> (index env_name api_job_selector ""))
              <> "\", handler=\"rules-raw\", method=\"PUT\", group=\"metricsv1\"}");
        alert_name = "APIRulesRawWriteAvailabilityErrorBudgetBurning";
        slo_type = SloType.availability;
      }
      ∷ record {
        name = "api-rules-read-availability-slo";
        labels = ((prefix <> "service"), "observatorium-api") ∷ ("instance", env_name) ∷ [];
        description =
            "API /rules endpoint is burning too much error budget to guarantee availability SLOs.";
        success_or_errors_expr =
            (("http_requests_total{job=\"" <> (index env_name api_job_selector ""))
              <> "\", handler=\"rules\", method=\"GET\", group=\"metricsv1\", code=~\"^5..$\"}");
        total_expr =
            (("http_requests_total{job=\"" <> (index env_name api_job_selector ""))
              <> "\", handler=\"rules\", method=\"GET\", group=\"metricsv1\"}");
        alert_name = "APIRulesReadAvailabilityErrorBudgetBurning";
        slo_type = SloType.availability;
      }
      ∷ record {
        name = "api-rules-sync-availability-slo";
        labels = ((prefix <> "service"), "observatorium-api") ∷ ("instance", env_name) ∷ [];
        description =
            "Thanos Ruler /reload endpoint is burning too much error budget to guarantee availability SLOs.";
        success_or_errors_expr =
            (("client_api_requests_total{client=\"reload\", container=\"thanos-rule-syncer\", namespace=\""
                <> (index env_name metrics_ns ""))
              <> "\", code=~\"^5..$\"}");
        total_expr =
            (("client_api_requests_total{client=\"reload\", container=\"thanos-rule-syncer\", namespace=\""
                <> (index env_name metrics_ns ""))
              <> "\"}");
        alert_name = "APIRulesSyncAvailabilityErrorBudgetBurning";
        slo_type = SloType.availability;
      }
      ∷ record {
        name = "api-alerting-availability-slo";
        labels = ((prefix <> "service"), "observatorium-api") ∷ ("instance", env_name) ∷ [];
        description =
            "API Thanos Rule failing to send alerts to Alertmanager and is burning too much error budget to guarantee availability SLOs.";
        success_or_errors_expr =
            (("thanos_alert_sender_alerts_dropped_total{container=\"thanos-rule\", namespace=\""
                <> (index env_name metrics_ns ""))
              <> "\", code=~\"^5..$\"}");
        total_expr =
            (("thanos_alert_sender_alerts_dropped_total{container=\"thanos-rule\", namespace=\""
                <> (index env_name metrics_ns ""))
              <> "\"}");
        alert_name = "APIAlertmanagerAvailabilityErrorBudgetBurning";
        slo_type = SloType.availability;
      }
      ∷ record {
        name = "api-alerting-notif-availability-slo";
        labels = ("service", "observatorium-api") ∷ ("instance", env_name) ∷ [];
        description =
            "API Alertmanager failing to deliver alerts to upstream targets and is burning too much error budget to guarantee availability SLOs.";
        success_or_errors_expr =
            (("alertmanager_notifications_failed_total{service=\"observatorium-alertmanager\", namespace=\""
                <> (index env_name metrics_ns ""))
              <> "\", code=~\"^5..$\"}");
        total_expr =
            (("alertmanager_notifications_failed_total{service=\"observatorium-alertmanager\", namespace=\""
                <> (index env_name metrics_ns ""))
              <> "\"}");
        alert_name = "APIAlertmanagerNotificationsAvailabilityErrorBudgetBurning";
        slo_type = SloType.availability;
      }
      ∷ []
