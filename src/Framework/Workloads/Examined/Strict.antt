-- ===== src/Framework/Workloads/Examined/Strict.antt =====
-- What is known of the namespaces in the packages deployment and service, where a namespace that has nothing
-- ends the loop over the namespaces.
use rhobs.Base.{
  ◌≡◌, false, ◌==◌, text_comparable, if◌then◌else◌, ◌⊎◌, inl, inr, String, List, [], ◌∷◌, All,
}
use rhobs.Base.Dict.{Dict, lookup, insert}
use rhobs.Framework.{Action, returned, failed, ret, fail, ◌>>=◌, is_empty}
use rhobs.Framework.Errors.{Failure}
use rhobs.Framework.Kubernetes.Laws.{Time, Forward}
use rhobs.Framework.Kubernetes.Failed.{store-failed}
use rhobs.Framework.Workloads.{items_of}
use rhobs.Framework.Workloads.Examined.{Examined, Known-Examined, nil-Examined}
use rhobs.Framework.Workloads.Listed.{Listed, Turn, loop-listed, store-listed}
use rhobs.Framework.Workloads.Listed.Missed.{NoneListed, Missed, loop-Missed}
use rhobs.Framework.Workloads.Listed.Strict.{Never, turn-Strict}

module _ {W A : Type 0} (t : Time W) (list get : String → Action W (List A)) (none : Failure)
    (forward : (n : String) → Forward t (get n))
    (listed : (n : String) (u v : W) (items : List A)
      → get n u ≡ (returned items, v)
      → Listed t list u v n items)
    (missed : (n : String) (u w : W)
      → (n == "") ≡ false
      → get n u ≡ (failed none, w)
      → NoneListed t list u w n)
    (loop : Dict String (List A) → List String → Action W (Dict String (List A)))
    (ends : (acc : Dict String (List A)) → loop acc [] ≡ ret acc)
    (step : (acc : Dict String (List A)) (m : String) (namespaces : List String)
      → loop acc (m ∷ namespaces) ≡ (
          if m == ""
          then loop acc namespaces
          else (get m >>= λ items. loop (insert m items acc) namespaces))) where
  turn :
      (found acc : Dict String (List A)) (m : String) (namespaces : List String) (u w : W)
      → loop acc (m ∷ namespaces) u ≡ (returned found, w)
      → Turn t list Never loop found acc m namespaces u w
  turn found acc m namespaces u w e =
      turn-Strict t list get listed loop found acc m namespaces u w
        (rw (step acc m namespaces) at e)

  module _ (P : W → W → String → A → Type 0) (j : Failure) (apart : j ≡ none → ⊥)
      (namespaces : List String) where
    -- The loop between the two guards.
    abbrev stored : Action W (Dict String (List A))
    stored =
        if is_empty namespaces
        then fail j
        else (loop [] namespaces >>= λ found. if is_empty found then fail none else ret found)

    -- Nothing was listed for one of the namespaces, or each of them was examined.
    pub check-Examined :
        (u w : W)
        → ((v : W) × (stored u ≡ (failed none, v)))
          ⊎ ((found : Dict String (List A)) × (v : W) × (stored u ≡ (returned found, v))
              × All (λ n. All (P v w n) (items_of (lookup n found))) namespaces)
        → (v : W) × (Missed t list u v namespaces ⊎ All (Examined t list Never P u v w) namespaces)
    check-Examined u w (inr (found, v, p, fine)) = (
      v,
      inr (
          Known-Examined t list Never P found namespaces u v w
            (store-listed t list Never loop (λ r u v w n p q a. a) ends turn j none namespaces found
              u v p)
            fine),
    )
    check-Examined u w (inl (v, p)) = (
      v,
      elim (store-failed namespaces (loop [] namespaces) j none apart p) [
        | inl e ↦
            inl (loop-Missed t list none get forward missed loop ends step [] namespaces u v e)
        | inr e ↦ inr (
            nil-Examined t list Never P namespaces u v w (
              loop-listed t list Never loop (λ r u v w n p q a. a) ends turn [] [] namespaces u v
                e))
      ],
    )
