-- ===== src/Mage/Gateway/Labels.antt =====
-- The labels of the gateway's objects, and what selects them.
use rhobs.Base.{
  ℕ, suc, ◌<◌, ◌≤◌, ◌≡◌, ap, ◌∙◌, ◌==◌, nat_comparable, text_comparable, String, false, some, arith,
}
use rhobs.Base.Dict.{Dict, insert}
use rhobs.Base.Outcome.{ok, ◌>>=◌}
use rhobs.Mage.Params.{TemplateMaps, index, observatorium_api}
use rhobs.Mage.Heap.{
  Heap, read, make_map, copy_loop, read-make_map, read-made, assign-returned, assign-fresh,
}
use rhobs.Mage.Gateway.{GatewayLabels, gateway_labels, selector_labels}

-- The labels of every object: those that select the pods, and the version.
abbrev pub meta_labels : TemplateMaps → Dict String String
meta_labels m =
    insert "app.kubernetes.io/version" (index observatorium_api m.versions "")
      (copy_loop selector_labels)

-- What a call of `gatewayLabels` leaves: two new maps, and the others as they were.
pub record Made (m : TemplateMaps) (h : Heap) : Type 0 where
  pub labels : ℕ
  pub selector : ℕ
  pub after : Heap
  pub returns :
      gateway_labels m h ≡ ok (record { labels = some labels; selector = some selector }, after)
  pub labels_below : labels < after.fresh
  pub selector_below : selector < after.fresh
  pub grows : h.fresh ≤ after.fresh
  pub apart : (labels == selector) ≡ false
  pub old : (b : ℕ) → b < h.fresh → (labels == b) ≡ false
  pub labels_read : read (some labels) after ≡ meta_labels m
  pub selector_read : read (some selector) after ≡ selector_labels
  pub kept : (b : ℕ) → b < h.fresh → read (some b) after ≡ read (some b) h

pub make : (m : TemplateMaps) (h : Heap) → Made m h
unfolding gateway_labels
make m h =
    let h1 = (make_map selector_labels h).1 in
    let h2 = (make_map (copy_loop (read (some h.fresh) h1)) h1).1 in
    let version = index observatorium_api m.versions "" in
    let (g, done, here, there) =
      assign-returned "app.kubernetes.io/version" version (suc h.fresh) h2 in
    let size : g.fresh ≡ suc (suc h.fresh) =
      assign-fresh "app.kubernetes.io/version" version (suc h.fresh) h2 g done in
    let apart : (b : ℕ) → b < suc h.fresh → (suc h.fresh == b) ≡ false =
      λ b lt. ground (arith, lt, nat_comparable.equal_iff (suc h.fresh) b) in
    let selector1 : read (some h.fresh) h1 ≡ selector_labels = read-made selector_labels h in
    let built : GatewayLabels = record { labels = some (suc h.fresh); selector = some h.fresh } in
    record {
      labels = suc h.fresh;
      selector = h.fresh;
      after = g;
      returns = ap (λ x. x >>= λ h3. ok (built, h3)) done;
      labels_below = omega (arith, size);
      selector_below = omega (arith, size);
      grows = omega (arith, size);
      apart = apart h.fresh (omega arith);
      old = λ b lt. apart b (omega arith);
      labels_read =
          here
          ∙ ap (insert "app.kubernetes.io/version" version)
              (read-made (copy_loop (read (some h.fresh) h1)) h1 ∙ ap copy_loop selector1);
      selector_read =
          there h.fresh (apart h.fresh (omega arith))
          ∙ read-make_map (some h.fresh) (copy_loop (read (some h.fresh) h1)) h1 (omega arith)
          ∙ selector1;
      kept = λ b lt.
          there b (apart b (omega arith))
          ∙ read-make_map (some b) (copy_loop (read (some h.fresh) h1)) h1 (omega arith)
          ∙ read-make_map (some b) selector_labels h lt;
    }
