-- ===== src/Mage/Cr/Store.antt =====
-- magefiles/cr.go: the store gateways.
mod Recent
mod Other
unfoldable pub use Recent.{store0to2w, store2wto90d}
unfoldable pub use Other.{store90dplus, store_default}
use rhobs.Base.{String, true, false, text_comparable, List, [], ◌∷◌}
use rhobs.Base.Outcome.{Outcome, ok, ◌>>=◌}
use rhobs.Mage.Value.{Object, text, num, flag, constant, list, struct, end, ◌&◌, done, ◌:=◌, ◌⊕◌}
use rhobs.Mage.Params.{TemplateMaps, template_fn}
use rhobs.Mage.Cr.Tracing.{tracing_sidecar}

unfoldable pub store_cr : String → TemplateMaps → Outcome (List Object)
unfolding store0to2w store2wto90d store90dplus store_default
store_cr namespace m = do
  a ← store0to2w namespace m
  b ← store2wto90d namespace m
  c ← store90dplus namespace m
  d ← store_default namespace m
  ok (a ∷ b ∷ c ∷ d ∷ [])
