-- ===== src/Framework/Client.antt =====
-- tests/integration_tests/framework/pkg/client/client.go. What it calls of the Kubernetes library is a
-- parameter.
use rhobs.Base.{String, ◌==◌, text_comparable, if◌then◌else◌, Option, none, some}
use rhobs.Framework.{Action, ret, handle}
use rhobs.Framework.Kubernetes.{Cluster}

-- The three calls, over the type of `rest.Config`.
pub record ClientLibrary (W Config : Type 0) : Type 0 where
  pub in_cluster_config : Action W Config
  pub build_config_from_flags : (master kubeconfig : String) → Action W Config
  pub new_for_config : Config → Action W (Cluster W)

module _ {W Config : Type 0} (k : ClientLibrary W Config) where
  -- No client where `LogFatal` has ended the program.
  unfoldable pub client : (kubeconfig : String) → Action W (Option (Cluster W))
  client kubeconfig =
      handle
        (if kubeconfig == "" then k.in_cluster_config else k.build_config_from_flags "" kubeconfig)
        (λ e. ret none)
        (λ config. handle (k.new_for_config config) (λ e. ret none) (λ c. ret (some c)))

  unfoldable pub get_client : (kubeconfig : String) → Action W (Option (Cluster W))
  unfolding client
  get_client kubeconfig = client kubeconfig
