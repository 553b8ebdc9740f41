-- ===== src/Framework/Main/Program/Examined.antt =====
-- What a success of the program says of the cluster.
use rhobs.Base.{
  ◌≡◌, ap, ◌∙◌, ◌⊎◌, inl, inr, ◌==◌, text_comparable, if◌then◌else◌, String, Option, none, some,
  List, All,
}
use rhobs.Base.Text.Split.{join, join-split, IsPart, split-All}
use rhobs.Framework.{returned, ret, handle}
use rhobs.Framework.Kubernetes.{Cluster}
use rhobs.Framework.Kubernetes.Laws.{Time, Lawful}
use rhobs.Framework.Kubernetes.Returned.{bind-returned, handle-returned}
use rhobs.Framework.Client.{ClientLibrary, client, get_client}
use rhobs.Framework.Workloads.Examined.{Examined}
use rhobs.Framework.Workloads.Listed.Missed.{Missed, NoneListed}
use rhobs.Framework.Workloads.Listed.Strict.{Never}
use rhobs.Framework.Deployments.Examined.{DeploymentSeen, check_deployments-Examined}
use rhobs.Framework.StatefulSets.Examined.{SetSeen, check_stateful_sets-Examined}
use rhobs.Framework.Services.Examined.{ServiceSeen, check_services-Examined}
use rhobs.Framework.Main.{main, success, main-passes}
use rhobs.Framework.Main.Program.{Flags, Level, log_level, ns_list, program, from_level, on_client}

module _ {W : Type 0} (c : Cluster W) (t : Time W) (namespaces : List String) where
  -- No deployments were listed for one of the namespaces, or every deployment of each was seen healthy.
  abbrev pub DeploymentsExamined : W → W → Type 0
  DeploymentsExamined u w =
      (v : W) × (Missed t c.list_deployments u v namespaces
        ⊎ All (Examined t c.list_deployments Never (DeploymentSeen c t) u v w) namespaces)

  -- Every stateful set of each of the namespaces was seen healthy, if any were listed.
  abbrev pub SetsExamined : W → W → Type 0
  SetsExamined u w =
      (v : W) × All
        (Examined t c.list_stateful_sets (NoneListed t c.list_stateful_sets) (SetSeen c t) u v w)
        namespaces

  -- No services were listed for one of the namespaces, or every service of each was seen healthy.
  abbrev pub ServicesExamined : W → W → Type 0
  ServicesExamined u w =
      (v : W) × (Missed t c.list_services u v namespaces
        ⊎ All (Examined t c.list_services Never (ServiceSeen c t) u v w) namespaces)

module _ {W Config : Type 0} (k : ClientLibrary W Config) where
  -- The library made a client at some moment.
  abbrev Made : Cluster W → Type 0
  Made c = (config : Config) × (u : W) × (v : W) × (k.new_for_config config u ≡ (returned c, v))

  get_client-Made :
      (kubeconfig : String) (c : Cluster W) (u v : W)
      → get_client k kubeconfig u ≡ (returned (some c), v)
      → Made c
  unfolding get_client client
  get_client-Made kubeconfig c u v e =
      let configured =
        if kubeconfig == "" then k.in_cluster_config else k.build_config_from_flags "" kubeconfig in
      elim (handle-returned configured (λ e. ret none)
        (λ config. handle (k.new_for_config config) (λ e. ret none) (λ c. ret (some c))) e) [
          | inr (j, x, p, q) ↦ let no_client : ret none x ≡ (returned (some c), v) = q in cc
          | inl (config, x, p, q) ↦
              elim (handle-returned (k.new_for_config config) (λ e. ret none) (λ c. ret (some c))
                q) [
                  | inr (j, y, p', q') ↦
                      let no_client : ret none y ≡ (returned (some c), v) = q' in cc
                  | inl (d, y, p', q') ↦
                      let same : d ≡ c = cc in (config, x, y, p' ∙ ap (λ z. (returned z, y)) same)
                ]
        ]

  -- The client of a program that succeeds, and its checks.
  abbrev Ran : Flags → W → W → Type 0
  Ran flags u w =
      (c : Cluster W) × (s : W) × (get_client k flags.kubeconfig u ≡ (returned (some c), s))
      × (main c flags.interval flags.timeout (ns_list flags) s ≡ (returned success, w))

  on_client-Ran :
      (flags : Flags) (client : Option (Cluster W)) (u v w : W)
      → get_client k flags.kubeconfig u ≡ (returned client, v)
      → on_client k flags client v ≡ (returned success, w)
      → Ran flags u w
  on_client-Ran flags none u v w e h = cc
  on_client-Ran flags (some c) u v w e h = (c, v, e, h)

  from_level-Ran :
      (flags : Flags) (level : Option Level) (u w : W)
      → from_level k flags level u ≡ (returned success, w)
      → Ran flags u w
  from_level-Ran flags none u w e = cc
  from_level-Ran flags (some level) u w e =
      let (client, v, p, q) = bind-returned (get_client k flags.kubeconfig) (on_client k flags) e in
      on_client-Ran flags client u v w p q

-- When the program ends with success, the namespaces are the parts of the flag, which have no comma and
-- make up the flag with commas between them, and GetClient made a client. For each of the three checks
-- with it, a namespace has the empty name, or what was listed for it, which is not nothing, was seen
-- healthy afterwards: deployments and stateful sets at their wanted replicas, with healthy pods, and
-- services with addresses for one of their ports, by name and number. But of the deployments and of the
-- services none of this is known if nothing was listed for one of the namespaces that has a name; of the
-- stateful sets, it is not known for the namespaces for which nothing was listed. It rests on the
-- clients that the library makes, and the two waiting helpers, behaving as documented.
pub program-Examined :
    {W Config : Type 0} (k : ClientLibrary W Config) (t : Time W)
    → ((config : Config) (c : Cluster W) (u v : W)
        → k.new_for_config config u ≡ (returned c, v)
        → Lawful c t)
    → (flags : Flags) (u w : W) → program k flags u ≡ (returned success, w)
    → (namespaces : List String) × (join "," namespaces ≡ flags.namespace)
      × All (IsPart ",") namespaces
      × (c : Cluster W) × (s : W) × (get_client k flags.kubeconfig u ≡ (returned (some c), s))
      × (v : W) × (x : W) × DeploymentsExamined c t namespaces s v
      × SetsExamined c t namespaces v x
      × ServicesExamined c t namespaces x w
unfolding program ns_list
program-Examined k t lawful flags u w e =
    let (c, s, got, ran) = from_level-Ran k flags (log_level flags.loglevel) u w e in
    let (config, y, z, made) = get_client-Made k flags.kubeconfig c u s got in
    let l = lawful config c y z made in
    let namespaces = ns_list flags in
    let i = flags.interval in
    let o = flags.timeout in
    let (v, x, ds, ss, vs) = main-passes c i o namespaces s w ran in
    (
      namespaces,
      join-split flags.namespace ",",
      split-All flags.namespace ",",
      c,
      s,
      got,
      v,
      x,
      check_deployments-Examined l i o namespaces s v ds,
      check_stateful_sets-Examined l i o namespaces v x ss,
      check_services-Examined l i o namespaces x w vs,
    )
