-- ===== src/Mage/OperatorCr.antt =====
-- magefiles/cr.go: `OperatorCR` of the stage and of the local environment.
pub mod Order
pub mod Generated
pub mod Written
use rhobs.Base.{
  ℕ, String, Bool, true, false, not, ◌==◌, text_comparable, if◌then◌else◌, List, [], ◌∷◌, ◌++◌,
}
use rhobs.Base.Outcome.{Outcome, ok, panic, ◌>>=◌}
use rhobs.Base.Sort.{sort_slice}
use rhobs.Base.Text.Order.{text_lt}
use rhobs.Mage.Value.{Object, Fields, text, done, ◌:=◌, ◌⊕◌}
use rhobs.Mage.Params.{TemplateMaps}
use rhobs.Mage.Params.Resources.{stage_maps}
use rhobs.Mage.Params.Local.{local_maps}
use rhobs.Mage.Cr.Store.{store_cr}
use rhobs.Mage.Cr.Receive.{receive_cr}
use rhobs.Mage.Cr.Query.{query_cr}
use rhobs.Mage.Cr.Ruler.{ruler_cr}
use rhobs.Mage.Cr.Compact.{compact_cr}

-- What is encoded into a file: an OpenShift template of objects, or the objects themselves.
pub data Contents : Type 0 where
  template : (name : String) → List Object → (params : List Fields) → Contents
  documents : List Object → Contents

-- `gen.Add(name, …)` on the generator of a directory.
pub record File : Type 0 where
  pub dir : List String
  pub name : String
  pub contents : Contents

-- The order "by Kind then Name" of the two calls of `sort.Slice`.
unfoldable pub less : Object → Object → Bool
unfolding text_lt
less i j = if not (i.kind == j.kind) then text_lt i.kind j.kind else text_lt i.name j.name

abbrev pub stage_namespace : String
stage_namespace = "rhobs-stage"

abbrev pub local_namespace : String
local_namespace = "rhobs-local"

-- The directory of `generator(component)`.
abbrev pub generator : (environment component : String) → List String
generator environment component = "resources" ∷ "services" ∷ component ∷ environment ∷ []

-- The objects of `Stage.OperatorCR` before they are sorted.
unfoldable pub stage_objects : String → TemplateMaps → Outcome (List Object)
unfolding receive_cr query_cr ruler_cr store_cr
stage_objects namespace m = do
  r ← receive_cr namespace m
  q ← query_cr namespace m true
  u ← ruler_cr namespace m
  s ← store_cr namespace m
  ok ((r ∷ []) ++ (q ++ ((u ∷ []) ++ s)))

unfoldable pub stage_operator_cr : Outcome File
unfolding stage_objects sort_slice less
stage_operator_cr = do
  objs ← stage_objects stage_namespace stage_maps
  ok (record {
    dir = generator "staging" "rhobs-thanos-operator";
    name = "rhobs.yaml";
    contents = template "thanos-rhobs" (sort_slice less objs) (
        ("Name" := text "OAUTH_PROXY_COOKIE_SECRET"
          ⊕ "Generate" := text "expression"
          ⊕ "From" := text "[a-zA-Z0-9]{40}"
          ⊕ done)
        ∷ []);
  })

-- The objects of `Local.OperatorCR` before they are sorted.
unfoldable pub local_objects : String → TemplateMaps → Outcome (List Object)
unfolding receive_cr query_cr ruler_cr compact_cr store_cr
local_objects namespace m = do
  r ← receive_cr namespace m
  q ← query_cr namespace m false
  u ← ruler_cr namespace m
  c ← compact_cr namespace m false
  s ← store_cr namespace m
  ok ((r ∷ []) ++ (q ++ ((u ∷ []) ++ (c ++ s))))

-- `objs[0], …, objs[n - 1]`: an index out of range panics.
unfoldable pub first_items : ℕ → List Object → Outcome (List Object)
first_items ℕ.zero objs = ok []
first_items (ℕ.suc n) [] = panic "runtime error: index out of range"
first_items (ℕ.suc n) (o ∷ objs) = do rest ← first_items n objs; ok (o ∷ rest)

unfoldable pub local_operator_cr : Outcome File
unfolding local_objects sort_slice less first_items
local_operator_cr = do
  objs ← local_objects local_namespace local_maps
  items ← first_items 9 (sort_slice less objs)
  ok (record {
    dir = generator "local" "rhobs-thanos-operator";
    name = "rhobs.yaml";
    contents = documents items;
  })
