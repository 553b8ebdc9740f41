-- ===== src/Slo/Telemeter.antt =====
-- configuration/observatorium/slo.go: the objectives of telemeter and of rhelemeter.
use rhobs.Base.{String, ◌<>◌, text_comparable, List, [], ◌∷◌, ◌++◌}
use rhobs.Slo.{
  RhobsInstanceEnv, SloType, RhobsSlos, Objective, generic_slo_latency_seconds, to_lower,
  get_objectives,
}

module _ (prefix : String) where
  abbrev receive_slos : (instance_name : String) → List RhobsSlos
  receive_slos instance_name =
      record {
        name =
            ("rhobs-" <> ((to_lower instance_name) <> "-server-metrics-receive-availability-slo"));
        labels =
            ("route", ((to_lower instance_name) <> "-server-receive"))
            ∷ ((prefix <> "service"), "telemeter")
            ∷ [];
        description =
            (instance_name
              <> " Server /receive is burning too much error budget to guarantee availability SLOs.");
        success_or_errors_expr =
            ("haproxy_server_http_responses_total{route=\""
              <> ((to_lower instance_name) <> "-server-metrics-v1-receive\", code=~\"5..\"}"));
        total_expr =
            ("haproxy_server_http_responses_total{route=\""
              <> ((to_lower instance_name) <> "-server-metrics-v1-receive\"}"));
        alert_name = (instance_name <> "ServerMetricsReceiveWriteAvailabilityErrorBudgetBurning");
        slo_type = SloType.availability;
      }
      ∷ record {
        name = ("rhobs-" <> ((to_lower instance_name) <> "-server-metrics-receive-latency-slo"));
        labels =
            ("route", ((to_lower instance_name) <> "-server-receive"))
            ∷ ((prefix <> "service"), "telemeter")
            ∷ [];
        description =
            (instance_name
              <> " Server /receive is burning too much error budget to guarantee latency SLOs.");
        success_or_errors_expr =
            ("http_request_duration_seconds_bucket{job=\""
              <> ((to_lower instance_name)
                  <> ("-server\", handler=\"receive\", code=~\"^2..$\", le=\""
                      <> (generic_slo_latency_seconds <> "\"}"))));
        total_expr =
            ("http_request_duration_seconds_count{job=\""
              <> ((to_lower instance_name) <> "-server\", handler=\"receive\", code=~\"^2..$\"}"));
        alert_name = (instance_name <> "ServerMetricsReceiveWriteLatencyErrorBudgetBurning");
        slo_type = SloType.latency;
      }
      ∷ []

  unfoldable pub telemeter_receive_slos :
      RhobsInstanceEnv → (instance_name : String) → List Objective
  unfolding get_objectives to_lower
  telemeter_receive_slos env_name instance_name =
      get_objectives prefix (receive_slos instance_name) env_name

  abbrev upload_slos : List RhobsSlos
  upload_slos =
      record {
        name = "rhobs-telemeter-server-metrics-upload-availability-slo";
        labels = ("route", "telemeter-server-upload") ∷ ((prefix <> "service"), "telemeter") ∷ [];
        description =
            "Telemeter Server /upload is burning too much error budget to guarantee availability SLOs.";
        success_or_errors_expr =
            "haproxy_server_http_responses_total{route=\"telemeter-server-upload\", code=~\"5..\"}";
        total_expr = "haproxy_server_http_responses_total{route=\"telemeter-server-upload\"}";
        alert_name = "TelemeterServerMetricsUploadWriteAvailabilityErrorBudgetBurning";
        slo_type = SloType.availability;
      }
      ∷ record {
        name = "rhobs-telemeter-server-metrics-upload-latency-slo";
        labels = ("route", "telemeter-server-upload") ∷ ((prefix <> "service"), "telemeter") ∷ [];
        description =
            "Telemeter Server /upload is burning too much error budget to guarantee latency SLOs.";
        success_or_errors_expr =
            (("http_request_duration_seconds_bucket{job=\"telemeter-server\", handler=\"upload\", code=~\"^2..$\", le=\""
                <> generic_slo_latency_seconds)
              <> "\"}");
        total_expr =
            "http_request_duration_seconds_count{job=\"telemeter-server\", handler=\"upload\", code=~\"^2..$\"}";
        alert_name = "TelemeterServerMetricsUploadWriteLatencyErrorBudgetBurning";
        slo_type = SloType.latency;
      }
      ∷ []

  unfoldable pub telemeter_upload_slos : RhobsInstanceEnv → List Objective
  unfolding get_objectives
  telemeter_upload_slos env_name = get_objectives prefix upload_slos env_name

  unfoldable pub telemeter_slos : RhobsInstanceEnv → List Objective
  unfolding telemeter_upload_slos telemeter_receive_slos
  telemeter_slos env_name =
      telemeter_upload_slos env_name ++ telemeter_receive_slos env_name "Telemeter"

  unfoldable pub rhelemeter_slos : RhobsInstanceEnv → List Objective
  unfolding telemeter_receive_slos
  rhelemeter_slos env_name = telemeter_receive_slos env_name "Rhelemeter"
