-- ===== src/Framework/Main/Program/Steady.antt =====
-- The whole program on a cluster that stays healthy.
use rhobs.Base.{◌≡◌, ap, ◌∙◌, true, false, some, All}
use rhobs.Base.Text.Split.{split-cons}
use rhobs.Framework.{returned, after, is_empty}
use rhobs.Framework.Kubernetes.{Cluster, is_positive}
use rhobs.Framework.Kubernetes.Laws.{Time}
use rhobs.Framework.Steady.{Prompt}
use rhobs.Framework.Client.{ClientLibrary, get_client}
use rhobs.Framework.Main.{success}
use rhobs.Framework.Main.Steady.{IsSteady, main-succeeds}
use rhobs.Framework.Main.Program.{Flags, Level, log_level, ns_list, program, from_level, on_client}

ns_list-nonempty : (flags : Flags) → is_empty (ns_list flags) ≡ false
unfolding ns_list
ns_list-nonempty flags = let (x, xs, e) = split-cons flags.namespace "," in ap is_empty e

-- The program ends with success, and does not end in a panic, if the log level is one that it knows,
-- GetClient makes a client, and from then on the cluster stays healthy: in each of the namespaces of the
-- flag, which has a name, deployments, stateful sets and services are listed; every deployment and
-- stateful set has replicas and a selector, is available at its wanted replicas, and selects pods, all of
-- which are healthy; every service has a port with addresses; and logs can be read. The interval and the
-- timeout are positive; `RetryOnConflict` returns if what it retries does, and
-- `PollUntilContextTimeout` if its condition always holds.
pub program-succeeds :
    {W Config : Type 0} (k : ClientLibrary W Config) (t : Time W) (flags : Flags) (level : Level)
    (c : Cluster W) (u s : W)
    → log_level flags.loglevel ≡ some level
    → get_client k flags.kubeconfig u ≡ (returned (some c), s)
    → Prompt c t flags.interval flags.timeout
    → is_positive flags.interval ≡ true
    → is_positive flags.timeout ≡ true
    → All (IsSteady c t s) (ns_list flags)
    → (w : W) × (program k flags u ≡ (returned success, w))
unfolding program
program-succeeds k t flags level c u s known got prompt pi po steady =
    let (w, e) =
      main-succeeds c t s flags.interval flags.timeout prompt pi po (ns_list flags)
        (ns_list-nonempty flags) steady in
    (w, ap (λ l. from_level k flags l u) known ∙ ap (after (on_client k flags)) got ∙ e)
