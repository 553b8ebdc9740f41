-- ===== src/Mage/Params/Lookup.antt =====
-- What `TemplateFn` needs of the maps.
use rhobs.Base.{String, ◌≡◌, Bool, true, false, Option, none, some, arith}
use rhobs.Base.{text_comparable}
use rhobs.Base.Dict.{lookup}
use rhobs.Base.Outcome.{is_ok}
use rhobs.Mage.Params.{ParamMap, TemplateMaps, template_fn}

abbrev is_some {ℓ} : {T : Type ℓ} → Option T → Bool
is_some none = false
is_some (some v) = true

abbrev pub has {ℓ} : {T : Type ℓ} → String → ParamMap T → Bool
has param m = is_some (lookup param m)

pub is_ok-template_fn {ℓ} :
    {T : Type ℓ} (param : String) (m : ParamMap T) → is_ok (template_fn param m) ≡ has param m
unfolding template_fn
is_ok-template_fn param m = ground arith

-- A parameter that a generator looks up, with the map it is looked up in.
pub data Need : Type 0 where
  image version log_level storage replicas resources bucket : String → Need

abbrev pub meets : TemplateMaps → Need → Bool
meets m (image p) = has p m.images
meets m (version p) = has p m.versions
meets m (log_level p) = has p m.log_levels
meets m (storage p) = has p m.storage_size
meets m (replicas p) = has p m.replicas
meets m (resources p) = has p m.resource_requirements
meets m (bucket p) = has p m.object_storage_bucket
