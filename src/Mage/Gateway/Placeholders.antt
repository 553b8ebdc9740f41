-- ===== src/Mage/Gateway/Placeholders.antt =====
-- The placeholders of the gateway's template, and its parameters.
use mathlib.Core.Path.{subst}
use rhobs.Base.{String, ◌≡◌, refl, sym, text_comparable, true, List, [], ◌∷◌, ◌++◌, all, contains}
use rhobs.Base.Outcome.{ok}
use rhobs.Mage.Value.{Object, Value, Fields}
use rhobs.Mage.Paths.{all_items, text_of}
use rhobs.Mage.Params.{TemplateMaps}
use rhobs.Mage.Heap.{Heap}
use rhobs.Mage.OperatorCr.{File, Contents, template, documents, stage_namespace}
use rhobs.Mage.Secrets.References.{strings_at}
use rhobs.Mage.Secrets.Placeholders.{outside, placeholders_from, placeholders_of, declared_by}
use rhobs.Mage.Gateway.Target.{gateway_files}
use rhobs.Mage.Gateway.Written.{generated, gateway_files-Generated}
use rhobs.Mage.Gateway.References.{objects_in, containers, missing_from}

abbrev in_texts : List Value → List String
in_texts [] = []
in_texts (v ∷ vs) = placeholders_from outside (text_of v) ++ in_texts vs

abbrev in_secrets : List Object → List String
in_secrets [] = []
in_secrets (o ∷ os) = placeholders_of (strings_at "StringData" o.body) ++ in_secrets os

-- The placeholders in the arguments of the containers, and in the secrets.
abbrev used : List File → List String
used fs =
    in_texts (all_items ("Args" ∷ []) (containers (objects_in fs))) ++ in_secrets (objects_in fs)

abbrev params_of : Contents → List Fields
params_of (template name objects params) = params
params_of (documents objects) = []

abbrev declared : List File → List String
declared [] = []
declared (f ∷ fs) = declared_by (params_of f.contents) ++ declared fs

pub record IsDeclared (fs : List File) : Type 0 where
  pub all_declared : all (contains (declared fs)) (used fs) ≡ true
  pub unused : missing_from (used fs) (declared fs) ≡ "CNVQE_ORGANIZATION_ID" ∷ []

generated-IsDeclared :
    (m : TemplateMaps) (h : Heap) (rbac i j k : String) (g : Heap)
    → IsDeclared (generated m h stage_namespace rbac i j k g)
unfolding placeholders_from
generated-IsDeclared m h rbac i j k g = record { all_declared = refl; unused = refl }

-- In whatever files the target of the gateway generates for the stage environment, every placeholder
-- in the arguments of the containers or in the secrets is a parameter that the template declares, and
-- of the declared parameters exactly `CNVQE_ORGANIZATION_ID` is not used there.
pub gateway_files-IsDeclared :
    (m : TemplateMaps) (h : Heap) (rbac : String) (fs : List File)
    → gateway_files m stage_namespace rbac h ≡ ok fs
    → IsDeclared fs
gateway_files-IsDeclared m h rbac fs e =
    let (i, j, k, g, same, labelled, selecting) =
      (gateway_files-Generated m h stage_namespace rbac).post fs e in
    subst IsDeclared (sym same) (generated-IsDeclared m h rbac i j k g)
