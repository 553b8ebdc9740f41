-- ===== src/Framework/Tests/Program.antt =====
-- The theorem on the whole program at a concrete input.
use mathlib.Core.Path.{subst}
use rhobs.Base.{ℕ, ◌≡◌, refl, ap, String, some, List, [], ◌∷◌, All}
use rhobs.Base.Text.Split.{join, split, IsPart}
use rhobs.Framework.{Result, returned, failed}
use rhobs.Framework.Kubernetes.{Cluster}
use rhobs.Framework.Kubernetes.Laws.{Lawful}
use rhobs.Framework.Client.{ClientLibrary, get_client}
use rhobs.Framework.Main.{success, fatal}
use rhobs.Framework.Main.Program.{Flags, default_flags, program}
use rhobs.Framework.Main.Program.Examined.{
  DeploymentsExamined, SetsExamined, ServicesExamined, program-Examined,
}
use rhobs.Framework.Tests.{answer, clock, full, full-Lawful}

split_run : split "rhobs,,default," "," ≡ "rhobs" ∷ "" ∷ "default" ∷ "" ∷ []
unfolding split
split_run = refl

-- A library that makes clients of one cluster.
abbrev pub library : ClientLibrary ℕ Unit
library = record {
  in_cluster_config = answer tt;
  build_config_from_flags = λ master kubeconfig. answer tt;
  new_for_config = λ config. answer full;
}

abbrev rhobs_flags : Flags
rhobs_flags = record default_flags { namespace = "rhobs," }

program_run : program library rhobs_flags 0 ≡ (returned success, 13)
unfolding program
program_run = refl

invalid_level_run :
    program library (record default_flags { loglevel = "verbose" }) 0 ≡ (returned fatal, 0)
unfolding program
invalid_level_run = refl

abbrev made : Result (Cluster ℕ) × ℕ → Cluster ℕ
made (returned c, w) = c
made (failed e, w) = full
made (Result.crashed, w) = full

program-Examined_example :
    (namespaces : List String) × (join "," namespaces ≡ "rhobs,")
    × All (IsPart ",") namespaces
    × (c : Cluster ℕ) × (s : ℕ) × (get_client library "" 0 ≡ (returned (some c), s))
    × (v : ℕ) × (x : ℕ) × DeploymentsExamined c clock namespaces s v
    × SetsExamined c clock namespaces v x
    × ServicesExamined c clock namespaces x 13
program-Examined_example =
    program-Examined library clock
      (λ config c u v e. subst (λ c. Lawful c clock) (ap made e) full-Lawful) rhobs_flags 0 13
      program_run
