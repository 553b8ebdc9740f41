-- ===== src/Framework/Workloads/Listed/Strict.antt =====
-- The loop over the namespaces where it ends at the first namespace that has nothing, as in the packages
-- deployment and service.
use rhobs.Base.{
  ◌≡◌, ◌==◌, text_comparable, Bool-cases, if◌then◌else◌, inl, inr, String, List, arith,
}
use rhobs.Base.Dict.{Dict, insert}
use rhobs.Framework.{Action, returned, ◌>>=◌}
use rhobs.Framework.Kubernetes.Laws.{Time}
use rhobs.Framework.Kubernetes.Returned.{bind-returned}
use rhobs.Framework.Workloads.Listed.{Listed, Turn}

-- No namespace is passed over.
abbrev pub Never : {W : Type 0} → W → W → String → Type 0
Never u w n = ⊥

module _ {W A : Type 0} (t : Time W) (list get : String → Action W (List A))
    (listed : (n : String) (u v : W) (items : List A)
      → get n u ≡ (returned items, v)
      → Listed t list u v n items)
    (loop : Dict String (List A) → List String → Action W (Dict String (List A))) where
  pub turn-Strict :
      (found acc : Dict String (List A)) (m : String) (namespaces : List String) (u w : W)
      → (if m == ""
            then loop acc namespaces
            else (get m >>= λ items. loop (insert m items acc) namespaces))
          u
        ≡ (returned found, w)
      → Turn t list Never loop found acc m namespaces u w
  turn-Strict found acc m namespaces u w e = elim (Bool-cases (m == "")) [
    | inl skip ↦ inl (ground (arith, text_comparable.equal_iff m ""), rw skip at e)
    | inr real ↦
        let (items, v, p, e') =
          bind-returned (get m) (λ items. loop (insert m items acc) namespaces) (rw real at e) in
        inr (inr (items, v, listed m u v items p, e'))
  ]
