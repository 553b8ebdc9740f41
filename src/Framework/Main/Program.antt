-- ===== src/Framework/Main/Program.antt =====
-- cmd/rhobs-test/main.go from the flags on: the log level, the list of namespaces and the client.
pub mod Examined
pub mod Steady
use rhobs.Base.{
  ℕ, ◌*◌, String, ◌==◌, text_comparable, Bool, true, false, if◌then◌else◌, Option, none, some, List,
}
use rhobs.Base.Text.Split.{split}
use rhobs.Framework.{Action, ret, ◌>>=◌}
use rhobs.Framework.Kubernetes.{Cluster, Duration, nanoseconds}
use rhobs.Framework.Client.{ClientLibrary, get_client}
use rhobs.Framework.Main.{Exit, fatal, main}

-- The variables that the flags set.
pub record Flags : Type 0 where
  pub namespace : String
  pub kubeconfig : String
  pub loglevel : String
  pub interval : Duration
  pub timeout : Duration

abbrev seconds : ℕ → Duration
seconds n = nanoseconds (n * 1000000000)

abbrev pub default_flags : Flags
default_flags = record {
  namespace = "default";
  kubeconfig = "";
  loglevel = "";
  interval = seconds 60;
  timeout = seconds 300;
}

pub data Level : Type 0 where
  level_debug level_info level_warning level_error level_fatal : Level

-- The level that `init` gives to the logger; `LogFatal` ends the program on any other name.
unfoldable pub log_level : String → Option Level
log_level loglevel =
    if loglevel == ""
    then some level_info
    else if loglevel == "debug"
    then some level_debug
    else if loglevel == "error"
    then some level_error
    else if loglevel == "info"
    then some level_info
    else if loglevel == "warn"
    then some level_warning
    else none

-- `NsList` of the configuration.
unfoldable pub ns_list : Flags → List String
unfolding split
ns_list flags = split flags.namespace ","

module _ {W Config : Type 0} (k : ClientLibrary W Config) where
  -- `main` on the client, if there is one.
  abbrev on_client : Flags → Option (Cluster W) → Action W Exit
  on_client flags none = ret fatal
  on_client flags (some c) = main c flags.interval flags.timeout (ns_list flags)

  -- `init` after the flags are parsed, and `main`.
  abbrev from_level : Flags → Option Level → Action W Exit
  from_level flags none = ret fatal
  from_level flags (some level) = do client ← get_client k flags.kubeconfig; on_client flags client

  unfoldable pub program : Flags → Action W Exit
  unfolding log_level ns_list get_client main
  program flags = from_level flags (log_level flags.loglevel)
