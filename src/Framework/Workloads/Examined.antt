-- ===== src/Framework/Workloads/Examined.antt =====
-- What is known of the namespaces of a check that passed, without the map that it kept.
pub mod Strict
use rhobs.Base.{◌≡◌, ap, text_comparable, ◌⊎◌, inl, inr, String, some, List, [], ◌∷◌, All}
use mathlib.Core.Path.{subst}
use rhobs.Base.Dict.{Dict, lookup}
use rhobs.Framework.{Action}
use rhobs.Framework.Kubernetes.Laws.{Time}
use rhobs.Framework.Workloads.{items_of}
use rhobs.Framework.Workloads.Listed.{Listed, Known}

module _ {W A : Type 0} (t : Time W) (list : String → Action W (List A))
    (Absent : W → W → String → Type 0) (P : W → W → String → A → Type 0) where
  -- A namespace is the empty name, or passed over, or something was listed for it between the first two
  -- moments, and all that was listed was found in order between the last two.
  abbrev pub Examined : W → W → W → String → Type 0
  Examined u v w n =
      (n ≡ "") ⊎ Absent u v n ⊎ ((items : List A) × Listed t list u v n items × All (P v w n) items)

  pub Known-Examined :
      (found : Dict String (List A)) (namespaces : List String) (u v w : W)
      → All (Known t list Absent found u v) namespaces
      → All (λ n. All (P v w n) (items_of (lookup n found))) namespaces
      → All (Examined u v w) namespaces
  Known-Examined found [] u v w known fine = tt
  Known-Examined found (n ∷ namespaces) u v w (inl e, known) (f, fine) =
      (inl e, Known-Examined found namespaces u v w known fine)
  Known-Examined found (n ∷ namespaces) u v w (inr (inl a), known) (f, fine) =
      (inr (inl a), Known-Examined found namespaces u v w known fine)
  Known-Examined found (n ∷ namespaces) u v w (inr (inr (items, k, h)), known) (f, fine) = (
    inr (inr (items, h, subst (All (P v w n)) (ap items_of k) f)),
    Known-Examined found namespaces u v w known fine,
  )

  -- If the map is empty, nothing was listed.
  pub nil-Examined :
      (namespaces : List String) (u v w : W)
      → All (Known t list Absent [] u v) namespaces
      → All (Examined u v w) namespaces
  unfolding lookup
  nil-Examined [] u v w known = tt
  nil-Examined (n ∷ namespaces) u v w (inl e, known) = (inl e, nil-Examined namespaces u v w known)
  nil-Examined (n ∷ namespaces) u v w (inr (inl a), known) =
      (inr (inl a), nil-Examined namespaces u v w known)
  nil-Examined (n ∷ namespaces) u v w (inr (inr (items, k, h)), known) = cc
