-- ===== src/Framework/Tests/Steady.antt =====
-- The theorem on a cluster that stays healthy at a concrete input.
use rhobs.Base.{ℕ, suc, ◌≡◌, refl, ap, ◌∙◌, true, [], ◌∷◌, arith}
use rhobs.Framework.{returned}
use rhobs.Framework.Steady.{Meets, Prompt}
use rhobs.Framework.Workloads.{Kind}
use rhobs.Framework.Workloads.Steady.{WorkloadSteady}
use rhobs.Framework.Deployments.{deployments, is_available}
use rhobs.Framework.StatefulSets.{stateful_sets, is_current}
use rhobs.Framework.Services.{serves}
use rhobs.Framework.Main.{success}
use rhobs.Framework.Kubernetes.{Duration}
use rhobs.Framework.Client.{get_client}
use rhobs.Framework.Main.Steady.{IsSteady}
use rhobs.Framework.Main.Program.{Flags, default_flags, level_info, log_level, ns_list, program}
use rhobs.Framework.Main.Program.Steady.{program-succeeds}
use rhobs.Framework.Tests.Program.{library}
use rhobs.Framework.Tests.{answer, poll_result, ready, running, clock, full, web}

answer-Meets : {A : Type 0} {P : A → Type 0} (u : ℕ) (a : A) → P a → Meets clock u P (answer a)
answer-Meets u a p v uv = (a, suc v, refl, omega arith, p)

full-Prompt : (i o : Duration) → Prompt full clock i o
full-Prompt i o = record {
  retries = λ u fn h. h;
  polls = λ u k h v uv.
      let (b, w, e, vw, p) = h v uv in
      (tt, w, ap poll_result e ∙ ap (λ x. poll_result (returned x, w)) p, vw, tt);
}

ready-WorkloadSteady :
    (k : Kind ℕ) (s : ℕ)
    → ((n name : _) → k.get n name ≡ answer ready)
    → k.available 3 2 ready ≡ true
    → WorkloadSteady full k clock s "rhobs" ready
ready-WorkloadSteady k s e h = record {
  wanted = 3;
  labels = ("app", "thanos-query") ∷ [];
  has_replicas = refl;
  has_labels = refl;
  is_available = rw (e "rhobs" "thanos-query") (answer-Meets s ready h);
  pods = answer-Meets s (running ∷ []) (refl, refl);
}

rhobs-IsSteady : (s : ℕ) → IsSteady full clock s "rhobs"
unfolding is_available is_current serves
rhobs-IsSteady s = record {
  deployed = record {
    readable = (refl, λ pod container. answer-Meets s "level=info" tt);
    listed =
        answer-Meets s (ready ∷ [])
          (refl, (ready-WorkloadSteady (deployments full) s (λ n name. refl) refl, tt));
  };
  has_sets = record {
    readable = (refl, λ pod container. answer-Meets s "level=info" tt);
    listed =
        answer-Meets s (ready ∷ [])
          (refl, (ready-WorkloadSteady (stateful_sets full) s (λ n name. refl) refl, tt));
  };
  has_services = record {
    named = refl;
    listed = answer-Meets s (record { name = "thanos-query"; ports = web ∷ [] } ∷ []) (
      refl,
      (
        answer-Meets s (record { name = "thanos-query"; ports = web ∷ [] })
            (
              [],
              web,
              [],
              refl,
              answer-Meets s (record { ports = web ∷ []; addresses = "10.0.0.1" ∷ [] } ∷ []) refl,
            ),
        tt,
      ),
    );
  };
}

abbrev flags : Flags
flags = record default_flags { namespace = "rhobs" }

program-succeeds_example : (w : ℕ) × (program library flags 0 ≡ (returned success, w))
unfolding log_level get_client ns_list
program-succeeds_example =
    program-succeeds library clock flags level_info full 0 2 refl refl
      (full-Prompt flags.interval flags.timeout) refl refl (rhobs-IsSteady 2, tt)
