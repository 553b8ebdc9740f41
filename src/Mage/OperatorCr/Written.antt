-- ===== src/Mage/OperatorCr/Written.antt =====
-- magefiles/cr.go: the files that `OperatorCR` writes.
use rhobs.Base.{ℕ, ◌≡◌, refl, List, [], ◌∷◌, length, arith}
use rhobs.Base.Outcome.{Outcome, ok}
use rhobs.Base.Outcome.Runs.{Runs}
use rhobs.Mage.Value.{Object}
use rhobs.Mage.OperatorCr.{first_items}

-- The first items, when there are no others, are the list itself.
pub first_items-length :
    (n : ℕ) (objs : List Object) → length objs ≡ n → first_items n objs ≡ ok objs
unfolding first_items
first_items-length ℕ.zero [] h = refl
first_items-length ℕ.zero (o ∷ objs) h = absurd (omega (arith, h))
first_items-length (ℕ.suc n) [] h = absurd (omega (arith, h))
first_items-length (ℕ.suc n) (o ∷ objs) h = rw (first_items-length n objs (omega (arith, h))) refl
