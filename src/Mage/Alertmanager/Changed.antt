-- ===== src/Mage/Alertmanager/Changed.antt =====
-- The manifests that change, as functions of each, and what the post-processing needs of the list.
use rhobs.Base.{
  ℕ, ◌≡◌, refl, text_comparable, Bool, true, some, List, [], ◌∷◌, map, All, Bool-cases, inl, inr,
}
use rhobs.Mage.Heap.{Ref, Heap, IsBelow}
use rhobs.Mage.Gateway.{alert_manager_name}
use rhobs.Mage.Alertmanager.{Manifest}
use rhobs.Mage.Alertmanager.Target.{with_https}
use rhobs.Mage.Alertmanager.Listed.{wanted, count, only}

abbrev pub is_served : Manifest → Bool
is_served = wanted "Service" alert_manager_name

abbrev pub is_account : Manifest → Bool
is_account = wanted "ServiceAccount" ""

abbrev pub is_set : Manifest → Bool
is_set = wanted "StatefulSet" ""

-- What the service and the account become.
abbrev pub served : Manifest → Manifest
served = only is_served with_https

abbrev pub redirected : Ref → Manifest → Manifest
redirected r = only is_account (λ o. record o { annotations = r })

-- Both maps of a manifest are nil or there.
abbrev pub HasMaps : Heap → Manifest → Type 0
HasMaps h o = IsBelow o.labels h × IsBelow o.annotations h

-- There is one object of each kind that is looked for, and the service has annotations.
pub record IsComplete (ms : List Manifest) : Type 0 where
  pub one_service : count is_served ms ≡ 1
  pub one_account : count is_account ms ≡ 1
  pub one_set : count is_set ms ≡ 1
  pub annotated : All (λ o. is_served o ≡ true → (a : ℕ) × (o.annotations ≡ some a)) ms

pub only-same {ℓ} :
    {B : Type ℓ} (q : Manifest → B) (p : Manifest → Bool) (g : Manifest → Manifest)
    → ((o : Manifest) → q (g o) ≡ q o)
    → (o : Manifest) → q (only p g o) ≡ q o
only-same q p g same o = elim (Bool-cases (p o)) [ inl e ↦ rw e (same o) | inr e ↦ rw e refl ]

module _ (f : Manifest → Manifest) where
  pub All_map :
      (Q P : Manifest → Type 0)
      → ((o : Manifest) → Q o → P (f o))
      → (os : List Manifest) → All Q os
      → All P (map f os)
  All_map Q P step [] h = tt
  All_map Q P step (o ∷ os) (q, h) = (step o q, All_map Q P step os h)

  pub map_All :
      (Q P : Manifest → Type 0)
      → ((o : Manifest) → Q (f o) → P o)
      → (os : List Manifest) → All Q (map f os)
      → All P os
  map_All Q P step [] h = tt
  map_All Q P step (o ∷ os) (q, h) = (step o q, map_All Q P step os h)
