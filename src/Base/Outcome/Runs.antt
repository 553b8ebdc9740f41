-- ===== src/Base/Outcome/Runs.antt =====
-- A judgement on a chain of calls that may panic: when it returns, and what it returns.
use mathlib.Core.Path.{◌≡◌, refl, ap, subst}
use mathlib.Core.Bool.{Bool, true, ◌&&◌}
use mathlib.Core.List.{List, ◌++◌}
use rhobs.Base.Lists.{all, all-append}
use rhobs.Base.Outcome.{Outcome, ok, panic, ◌>>=◌, is_ok}

-- `m` returns exactly if `needs` holds, and what it returns satisfies `P`.
pub record Runs {ℓ κ} {A : Type ℓ} (needs : Bool) (P : A → Type κ) (m : Outcome A)
    : Type (ℓ ⊔ κ) where
  pub returns : is_ok m ≡ needs
  pub post : (a : A) → m ≡ ok a → P a

module _ {ℓ κ μ} {A : Type ℓ} {B : Type κ} {P : B → Type μ} where
  pub Runs-bind :
      (m : Outcome A) (f : A → Outcome B) {needs : Bool}
      → ((a : A) → Runs needs P (f a))
      → Runs (is_ok m && needs) P (m >>= f)
  Runs-bind (ok a) f h = h a
  Runs-bind (panic message) f h = record { returns = refl; post = λ b e. cc }

module _ {ℓ κ μ} {A : Type ℓ} {B : Type κ} {Q : A → Type μ} {P : B → Type μ} where
  -- The rest of the chain may use what the first call returns.
  pub Runs-then :
      (m : Outcome A) (f : A → Outcome B) {first rest : Bool}
      → Runs first Q m
      → ((a : A) → Q a → Runs rest P (f a))
      → Runs (first && rest) P (m >>= f)
  Runs-then (ok a) f r h = rw (← r.returns) (h a (r.post a refl))
  Runs-then (panic message) f r h = rw (← r.returns) (record { returns = refl; post = λ b e. cc })

module _ {ℓ κ} {A : Type ℓ} {P : A → Type κ} where
  pub Runs-ok : (a : A) → P a → Runs true P (ok a)
  Runs-ok a p = record { returns = refl; post = λ b e. let q : a ≡ b = cc in subst P q p }

module _ {ℓ κ μ} {A : Type ℓ} {B : Type κ} {P : B → Type μ} where
  -- A call whose result is only put into a value.
  pub Runs-map :
      (m : Outcome A) (f : A → B) → ((a : A) → P (f a)) → Runs (is_ok m) P (m >>= λ a. ok (f a))
  Runs-map (ok a) f h = Runs-ok (f a) (h a)
  Runs-map (panic message) f h = record { returns = refl; post = λ b e. cc }

module _ {ℓ κ μ} {A : Type ℓ} {Q : A → Type κ} {P : A → Type μ} where
  pub Runs-mono :
      {needs : Bool} (m : Outcome A) → Runs needs Q m → ((a : A) → Q a → P a) → Runs needs P m
  Runs-mono m r h = record { returns = r.returns; post = λ a e. h a (r.post a e) }

pub bind_assoc {ℓ κ μ} :
    {A : Type ℓ} {B : Type κ} {C : Type μ} (m : Outcome A) (f : A → Outcome B) (k : B → Outcome C)
    → ((m >>= f) >>= k) ≡ (m >>= λ a. f a >>= k)
bind_assoc (ok a) f k = refl
bind_assoc (panic message) f k = refl

-- A chain whose first call returns.
pub bound {ℓ κ} :
    {A : Type ℓ} {B : Type κ} {x : Outcome A} {a : A} (f : A → Outcome B)
    → x ≡ ok a
    → (x >>= f) ≡ f a
bound f e = ap (λ x. x >>= f) e

pub returned {ℓ} : {A : Type ℓ} (x : Outcome A) → is_ok x ≡ true → (a : A) × (x ≡ ok a)
returned (ok a) h = (a, refl)
returned (panic message) h = cc

-- The needs of a chain as the items of a list.
module _ {ℓ κ μ ν} {A : Type ℓ} {B : Type κ} {T : Type ν} {Q : A → Type μ} {P : B → Type μ} where
  pub Runs-append :
      (holds : T → Bool) (xs ys : List T) (m : Outcome A) (f : A → Outcome B)
      → Runs (all holds xs) Q m
      → ((a : A) → Q a → Runs (all holds ys) P (f a))
      → Runs (all holds (xs ++ ys)) P (m >>= f)
  Runs-append holds xs ys m f r h = rw (all-append holds xs ys) (Runs-then m f r h)
