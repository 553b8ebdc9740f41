-- ===== src/Mage/Cr/Needs.antt =====
-- For each generator of cr.go: the parameters it needs, and the identity of what it returns.
pub mod Stores
use rhobs.Base.{String, ◌≡◌, Bool, ◌&&◌, List, [], ◌∷◌, arith}
use rhobs.Base.{text_comparable, all}
use rhobs.Base.Dict.{Dict}
use rhobs.Base.Outcome.{Outcome, ◌>>=◌, is_ok}
use rhobs.Base.Outcome.Runs.{Runs, Runs-bind, Runs-then, Runs-ok}
use rhobs.Mage.Value.{Value, Object}
use rhobs.Mage.Params.{TemplateMaps, template_fn}
use rhobs.Mage.Params.Lookup.{
  Need, image, version, log_level, storage, replicas, resources, bucket, meets, has,
  is_ok-template_fn,
}
use rhobs.Mage.Cr.Tracing.{tracing_sidecar}
use rhobs.Mage.Cr.Ruler.{ruler_cr}
use rhobs.Mage.Cr.Receive.{receive_cr}
use rhobs.Mage.Cr.Query.{query}
use rhobs.Mage.Cr.Compact.{default_compact, telemeter_compact}
use rhobs.Mage.Cr.Store.{store0to2w, store2wto90d, store90dplus, store_default}

-- Type, name and namespace.
abbrev pub Identity : Type 0
Identity = String × String × String

abbrev pub identity : Object → Identity
identity o = (o.kind, o.name, o.namespace)

module _ {A : Type 0} {P : A → Type 0} where
  pub Runs-need :
      {T : Type 0} (param : String) (m : Dict String T) (f : T → Outcome A) {needs : Bool}
      → ((v : T) → Runs needs P (f v))
      → Runs (has param m && needs) P (template_fn param m >>= f)
  Runs-need param m f h = rw (← is_ok-template_fn param m) (Runs-bind (template_fn param m) f h)

is_ok-tracing : (m : TemplateMaps) → is_ok (tracing_sidecar m) ≡ has "JAEGER_AGENT" m.images
unfolding tracing_sidecar
is_ok-tracing m = ground (arith, is_ok-template_fn "JAEGER_AGENT" m.images)

module _ {A : Type 0} {P : A → Type 0} where
  pub Runs-tracing :
      (m : TemplateMaps) (f : Value → Outcome A) {needs : Bool}
      → ((v : Value) → Runs needs P (f v))
      → Runs (has "JAEGER_AGENT" m.images && needs) P (tracing_sidecar m >>= f)
  Runs-tracing m f h = rw (← is_ok-tracing m) (Runs-bind (tracing_sidecar m) f h)

pub ruleset runs_rules = (Runs-need, Runs-tracing, Runs-ok)

abbrev pub receive_cr_needs : List Need
receive_cr_needs =
    image "RECEIVE_ROUTER"
    ∷ version "RECEIVE_ROUTER"
    ∷ log_level "RECEIVE_ROUTER"
    ∷ resources "RECEIVE_ROUTER"
    ∷ replicas "RECEIVE_ROUTER"
    ∷ image "JAEGER_AGENT"
    ∷ bucket "TELEMETER"
    ∷ image "JAEGER_AGENT"
    ∷ image "RECEIVE_INGESTOR_TELEMETER"
    ∷ version "RECEIVE_INGESTOR_TELEMETER"
    ∷ log_level "RECEIVE_INGESTOR_TELEMETER"
    ∷ resources "RECEIVE_INGESTOR_TELEMETER"
    ∷ replicas "RECEIVE_INGESTOR_TELEMETER"
    ∷ storage "RECEIVE_TELEMETER"
    ∷ image "RECEIVE_INGESTOR_DEFAULT"
    ∷ version "RECEIVE_INGESTOR_DEFAULT"
    ∷ log_level "RECEIVE_INGESTOR_DEFAULT"
    ∷ resources "RECEIVE_INGESTOR_DEFAULT"
    ∷ replicas "RECEIVE_INGESTOR_DEFAULT"
    ∷ bucket "DEFAULT"
    ∷ storage "RECEIVE_DEFAULT"
    ∷ []

pub receive_cr-Runs :
    (namespace : String) (m : TemplateMaps)
    → Runs
        (all (meets m) receive_cr_needs)
        (λ o. identity o ≡ ("ThanosReceive", "rhobs", namespace))
        (receive_cr namespace m)
unfolding receive_cr
receive_cr-Runs namespace m = search runs_rules depth 48

abbrev pub query_needs : List Need
query_needs =
    image "QUERY"
    ∷ version "QUERY"
    ∷ log_level "QUERY"
    ∷ resources "QUERY"
    ∷ replicas "QUERY"
    ∷ image "JAEGER_AGENT"
    ∷ image "QUERY_FRONTEND"
    ∷ version "QUERY_FRONTEND"
    ∷ log_level "QUERY_FRONTEND"
    ∷ resources "QUERY_FRONTEND"
    ∷ replicas "QUERY_FRONTEND"
    ∷ image "JAEGER_AGENT"
    ∷ []

pub query-Runs :
    (namespace : String) (m : TemplateMaps)
    → Runs
        (all (meets m) query_needs)
        (λ o. identity o ≡ ("ThanosQuery", "rhobs", namespace))
        (query namespace m)
unfolding query
query-Runs namespace m = search runs_rules depth 30

abbrev pub ruler_cr_needs : List Need
ruler_cr_needs =
    image "RULER"
    ∷ version "RULER"
    ∷ log_level "RULER"
    ∷ resources "RULER"
    ∷ replicas "RULER"
    ∷ bucket "DEFAULT"
    ∷ storage "RULER"
    ∷ image "JAEGER_AGENT"
    ∷ []

pub ruler_cr-Runs :
    (namespace : String) (m : TemplateMaps)
    → Runs
        (all (meets m) ruler_cr_needs)
        (λ o. identity o ≡ ("ThanosRuler", "rhobs", namespace))
        (ruler_cr namespace m)
unfolding ruler_cr
ruler_cr-Runs namespace m = search runs_rules depth 22

abbrev pub default_compact_needs : List Need
default_compact_needs =
    image "COMPACT_DEFAULT"
    ∷ version "COMPACT_DEFAULT"
    ∷ log_level "COMPACT_DEFAULT"
    ∷ resources "COMPACT_DEFAULT"
    ∷ bucket "DEFAULT"
    ∷ storage "COMPACT_DEFAULT"
    ∷ image "JAEGER_AGENT"
    ∷ []

pub default_compact-Runs :
    (namespace : String) (m : TemplateMaps)
    → Runs
        (all (meets m) default_compact_needs)
        (λ o. identity o ≡ ("ThanosCompact", "rhobs", namespace))
        (default_compact namespace m)
unfolding default_compact
default_compact-Runs namespace m = search runs_rules depth 20

abbrev pub telemeter_compact_needs : List Need
telemeter_compact_needs =
    version "COMPACT_TELEMETER"
    ∷ image "COMPACT_TELEMETER"
    ∷ log_level "COMPACT_TELEMETER"
    ∷ resources "COMPACT_TELEMETER"
    ∷ bucket "TELEMETER"
    ∷ storage "COMPACT_TELEMETER"
    ∷ image "JAEGER_AGENT"
    ∷ []

pub telemeter_compact-Runs :
    (namespace : String) (m : TemplateMaps)
    → Runs
        (all (meets m) telemeter_compact_needs)
        (λ o. identity o ≡ ("ThanosCompact", "telemeter", namespace))
        (telemeter_compact namespace m)
unfolding telemeter_compact
telemeter_compact-Runs namespace m = search runs_rules depth 20
