-- ===== src/Mage/Operator/Crds.antt =====
-- magefiles/operator.go: the custom resource definitions. The HTTP client and the YAML decoder are
-- parameters: what a request returns depends on the world, which it changes.
use rhobs.Base.{
  String, ◌<>◌, text_comparable, nat_comparable, ◌==◌, ℕ, if◌then◌else◌, List, [], ◌∷◌, ◌++◌, ◌⊎◌,
  inl, inr,
}
use rhobs.Base.Outcome.{Outcome, ok, ◌>>=◌}
use rhobs.Mage.Value.{Object}
use rhobs.Mage.OperatorCr.{File, template, documents, generator, first_items}

abbrev pub crd_main : String
crd_main = "refs/heads/main"

abbrev pub crd_ref_stage : String
crd_ref_stage = "b58f3ec98a62b904950148bd5aea906a2c6a519e"

-- `http.Response` as read.
pub record Response : Type 0 where
  pub status_code : ℕ
  pub status : String
  pub body : String

abbrev pub components : List String
components =
    "thanoscompacts.yaml" ∷ "thanosqueries.yaml" ∷ "thanosreceives.yaml" ∷ "thanosrulers.yaml"
    ∷ "thanosstores.yaml" ∷ []

abbrev pub base : (ref : String) → String
base ref =
    "https://raw.githubusercontent.com/thanos-community/thanos-operator/"
    <> (ref <> "/config/crd/bases/monitoring.thanos.io_")

-- A function's error, or its value.
abbrev pub Fallible : Type 0 → Type 0
Fallible A = String ⊎ A

module _ {W : Type 0} (get : String → W → Fallible Response × W) (close : Response → W → W)
    (decode : String → Fallible Object) where
  -- The rest of the loop after a request has returned.
  abbrev pub received :
      (manifest : String)
      → (List Object → W → Fallible (List Object) × W)
      → List Object
      → Fallible Response × W
      → Fallible (List Object) × W
  received manifest next objs (inl e, w) =
      (inl ("failed to fetch " <> (manifest <> (": " <> e))), w)
  received manifest next objs (inr resp, w) =
      if resp.status_code == 200
      then elim (decode resp.body) [
        | inl e ↦ (inl ("failed to decode " <> (manifest <> (": " <> e))), w)
        | inr obj ↦ next (objs ++ (obj ∷ [])) (close resp w)
      ]
      else (inl ("failed to fetch " <> (manifest <> (": " <> resp.status))), w)

  unfoldable pub crds_loop :
      (ref : String) → List String → List Object → W → Fallible (List Object) × W
  crds_loop ref [] objs w = (inr objs, w)
  crds_loop ref (component ∷ rest) objs w =
      received (base ref <> component) (crds_loop ref rest) objs (get (base ref <> component) w)

  unfoldable pub crds : (ref : String) → W → Fallible (List Object) × W
  crds ref w = crds_loop ref components [] w

  abbrev pub stage_file : List Object → File
  stage_file objs = record {
    dir = generator "staging" "bundle";
    name = "thanos-operator-crds.yaml";
    contents = template "thanos-operator-crds" objs [];
  }

  abbrev pub local_file : List Object → File
  local_file items = record {
    dir = generator "local" "bundle";
    name = "thanos-operator-crds.yaml";
    contents = documents items;
  }

  -- The error is returned, or the file is generated.
  abbrev pub stage_ends : Fallible (List Object) → Fallible File
  stage_ends (inl e) = inl e
  stage_ends (inr objs) = inr (stage_file objs)

  unfoldable pub stage_crds : W → Fallible File × W
  stage_crds w = let (r, w') = crds crd_ref_stage w in (stage_ends r, w')

  -- `objs[0]` to `objs[4]` are encoded.
  abbrev pub local_ends : Fallible (List Object) → Outcome (Fallible File)
  local_ends (inl e) = ok (inl e)
  local_ends (inr objs) = do items ← first_items 5 objs; ok (inr (local_file items))

  unfoldable pub local_crds : W → Outcome (Fallible File) × W
  local_crds w = let (r, w') = crds crd_ref_stage w in (local_ends r, w')
