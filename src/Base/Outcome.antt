-- ===== src/Base/Outcome.antt =====
-- A call that returns, or that ends the process by a panic. A panic carries its message: the first
-- argument of `panic` or of `mimic.Panicf`.
pub mod Runs
use Prim.Native.String.{String}
use mathlib.Core.Bool.{Bool, true, false}

pub data Outcome {ℓ} (A : Type ℓ) : Type ℓ where
  ok : A → Outcome A
  panic : (message : String) → Outcome A

module _ {ℓ κ} {A : Type ℓ} {B : Type κ} where
  infixl 5 ◌>>=◌
  abbrev pub ◌>>=◌ : Outcome A → (A → Outcome B) → Outcome B
  panic message >>= next = panic message
  ok a >>= next = next a

abbrev pub is_ok {ℓ} : {A : Type ℓ} → Outcome A → Bool
is_ok (ok a) = true
is_ok (panic message) = false
