-- ===== src/Mage/Cr/Needs/Stores.antt =====
-- For each store gateway of cr.go: the parameters it needs, and the identity of what it returns.
use rhobs.Base.{String, ◌≡◌, List, [], ◌∷◌}
use rhobs.Base.{text_comparable, all}
use rhobs.Base.Outcome.Runs.{Runs}
use rhobs.Mage.Params.{TemplateMaps}
use rhobs.Mage.Params.Lookup.{
  Need, image, version, log_level, storage, replicas, resources, bucket, meets,
}
use rhobs.Mage.Cr.Store.{store0to2w, store2wto90d, store90dplus, store_default}
use rhobs.Mage.Cr.Needs.{identity, runs_rules}

abbrev pub store0to2w_needs : List Need
store0to2w_needs =
    image "STORE02W"
    ∷ version "STORE02W"
    ∷ log_level "STORE02W"
    ∷ resources "STORE02W"
    ∷ replicas "STORE02W"
    ∷ bucket "TELEMETER"
    ∷ storage "STORE02W"
    ∷ image "JAEGER_AGENT"
    ∷ []

pub store0to2w-Runs :
    (namespace : String) (m : TemplateMaps)
    → Runs
        (all (meets m) store0to2w_needs)
        (λ o. identity o ≡ ("ThanosStore", "telemeter-0to2w", namespace))
        (store0to2w namespace m)
unfolding store0to2w
store0to2w-Runs namespace m = search runs_rules depth 22

abbrev pub store2wto90d_needs : List Need
store2wto90d_needs =
    image "STORE2W90D"
    ∷ version "STORE2W90D"
    ∷ log_level "STORE2W90D"
    ∷ resources "STORE2W90D"
    ∷ replicas "STORE2W90D"
    ∷ bucket "TELEMETER"
    ∷ storage "STORE2W90D"
    ∷ image "JAEGER_AGENT"
    ∷ []

pub store2wto90d-Runs :
    (namespace : String) (m : TemplateMaps)
    → Runs
        (all (meets m) store2wto90d_needs)
        (λ o. identity o ≡ ("ThanosStore", "telemeter-2wto90d", namespace))
        (store2wto90d namespace m)
unfolding store2wto90d
store2wto90d-Runs namespace m = search runs_rules depth 22

abbrev pub store90dplus_needs : List Need
store90dplus_needs =
    image "STORE90D+"
    ∷ version "STORE90D+"
    ∷ log_level "STORE90D+"
    ∷ resources "STORE90D+"
    ∷ replicas "STORE90D+"
    ∷ bucket "TELEMETER"
    ∷ storage "STORE90D+"
    ∷ image "JAEGER_AGENT"
    ∷ []

pub store90dplus-Runs :
    (namespace : String) (m : TemplateMaps)
    → Runs
        (all (meets m) store90dplus_needs)
        (λ o. identity o ≡ ("ThanosStore", "telemeter-90dplus", namespace))
        (store90dplus namespace m)
unfolding store90dplus
store90dplus-Runs namespace m = search runs_rules depth 22

abbrev pub store_default_needs : List Need
store_default_needs =
    image "STORE_DEFAULT"
    ∷ version "STORE_DEFAULT"
    ∷ log_level "STORE_DEFAULT"
    ∷ resources "STORE_DEFAULT"
    ∷ replicas "STORE_DEFAULT"
    ∷ bucket "DEFAULT"
    ∷ storage "STORE_DEFAULT"
    ∷ image "JAEGER_AGENT"
    ∷ []

pub store_default-Runs :
    (namespace : String) (m : TemplateMaps)
    → Runs
        (all (meets m) store_default_needs)
        (λ o. identity o ≡ ("ThanosStore", "default", namespace))
        (store_default namespace m)
unfolding store_default
store_default-Runs namespace m = search runs_rules depth 22
