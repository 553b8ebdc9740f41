-- ===== src/Mage/Secrets/References.antt =====
-- What refers to the secrets of the object stores, and what they refer to.
use rhobs.Base.{
  String, ◌≡◌, refl, Bool, true, false, ◌&&◌, ◌||◌, Bool-cases, inl, inr, ◌==◌, text_comparable,
  if◌then◌else◌, Option, none, some, List, [], ◌∷◌, ◌++◌, any, all, arith,
}
use rhobs.Base.Dict.{Dict, lookup}
use rhobs.Base.Outcome.{ok}
use rhobs.Mage.Value.{Value, Object, Fields, text, string_map, struct, done, field}
use rhobs.Mage.Params.{template_fn, found}
use rhobs.Mage.Params.Resources.{stage_maps}
use rhobs.Mage.Params.Local.{local_maps}
use rhobs.Mage.OperatorCr.{File, Contents, template, documents, stage_namespace, local_namespace}
use rhobs.Mage.Secrets.{stage_secrets, local_secrets}

-- The text of a field, and the fields of a field.
abbrev pub text_at : String → Fields → String
text_at k done = ""
text_at k (field j (text s) fs) = if j == k then s else text_at k fs
text_at k (field j v fs) = text_at k fs

abbrev fields_at : String → Fields → Fields
fields_at k done = done
fields_at k (field j (struct gs) fs) = if j == k then gs else fields_at k fs
fields_at k (field j v fs) = fields_at k fs

abbrev pub strings_at : String → Fields → Dict String String
strings_at k done = []
strings_at k (field j (string_map d) fs) = if j == k then d else strings_at k fs
strings_at k (field j v fs) = strings_at k fs

abbrev fields_of : Value → Fields
fields_of (struct fs) = fs
fields_of v = done

abbrev is_key : String → Dict String String → Bool
is_key k [] = false
is_key k ((j, v) ∷ d) = j == k || is_key k d

-- The object is the secret that a bucket's configuration refers to, with its key.
abbrev pub is_secret_of : (namespace : String) → Value → Object → Bool
is_secret_of namespace bucket o =
    o.kind == "Secret"
    && (o.namespace == namespace
        && (o.name == text_at "Name" (fields_at "LocalObjectReference" (fields_of bucket))
            && is_key (text_at "Key" (fields_of bucket)) (strings_at "StringData" o.body)))

abbrev objects_of : Contents → List Object
objects_of (template name objects params) = objects
objects_of (documents objects) = objects

abbrev pub objects_in : List File → List Object
objects_in [] = []
objects_in (f ∷ fs) = objects_of f.contents ++ objects_in fs

found-some :
    {T : Type 0} (param : String) (x : Option T) {v : T} → found param x ≡ ok v → x ≡ some v
found-some param none e = cc
found-some param (some w) e = cc

lookup-all :
    (P : Value → Bool) (d : Dict String Value) (k : String) (v : Value)
    → all (λ e. P e.1) d ≡ true
    → lookup k d ≡ some v
    → P v ≡ true
unfolding lookup
lookup-all P [] k v h e = cc
lookup-all P ((j, w) ∷ d) k v h e = elim (Bool-cases (j == k)) [
  | inl here ↦
      let found : some w ≡ some v = rw here at e in
      let same : w ≡ v = cc in let first : P w ≡ true = ground (arith, h) in cc
  | inr there ↦ lookup-all P d k v (ground (arith, h)) (rw there at e)
]

-- The bucket configuration of any parameter of the stage environment refers to a secret that the
-- same environment generates, in its namespace and with the key that is referred to.
pub stage_bucket-secret :
    (param : String) (bucket : Value)
    → template_fn param stage_maps.object_storage_bucket ≡ ok bucket
    → any (is_secret_of stage_namespace bucket) (objects_in stage_secrets) ≡ true
unfolding template_fn stage_secrets
stage_bucket-secret param bucket e =
    lookup-all (λ b. any (is_secret_of stage_namespace b) (objects_in stage_secrets))
      stage_maps.object_storage_bucket param bucket refl (found-some param _ e)

-- The bucket configuration of any parameter of the local environment refers to a secret that the
-- same environment generates, in its namespace and with the key that is referred to.
pub local_bucket-secret :
    (param : String) (bucket : Value)
    → template_fn param local_maps.object_storage_bucket ≡ ok bucket
    → any (is_secret_of local_namespace bucket) (objects_in local_secrets) ≡ true
unfolding template_fn local_secrets
local_bucket-secret param bucket e =
    lookup-all (λ b. any (is_secret_of local_namespace b) (objects_in local_secrets))
      local_maps.object_storage_bucket param bucket refl (found-some param _ e)
