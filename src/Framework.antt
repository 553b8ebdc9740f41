-- ===== src/Framework.antt =====
-- tests/integration_tests/framework/: the checks of a cluster. A call may change the world it is made
-- in, and returns a value, fails with an error, or ends the program in a panic.
pub mod Errors
pub mod Kubernetes
pub mod Pods
pub mod Workloads
pub mod Deployments
pub mod StatefulSets
pub mod Services
pub mod Client
pub mod Main
pub mod Steady
mod Tests
use rhobs.Base.{Bool, true, false, not, ◌&&◌, String, Option, none, some, List, [], ◌∷◌, ◌++◌}
use rhobs.Framework.Errors.{Failure}

pub data Result (A : Type 0) : Type 0 where
  returned : A → Result A
  failed : Failure → Result A
  crashed : Result A

abbrev pub Action : Type 0 → Type 0 → Type 0
Action W A = W → Result A × W

-- Two lists of errors.
abbrev pub ErrorLists : Type 0
ErrorLists = List Failure × List Failure

abbrev pub joined : ErrorLists → ErrorLists → ErrorLists
joined x y = (x.0 ++ y.0, x.1 ++ y.1)

module _ {W : Type 0} where
  abbrev pub ret : {A : Type 0} → A → Action W A
  ret a w = (returned a, w)

  abbrev pub fail : {A : Type 0} → Failure → Action W A
  fail e w = (failed e, w)

  abbrev pub after : {A B : Type 0} → (A → Action W B) → Result A × W → Result B × W
  after f (returned a, w) = f a w
  after f (failed e, w) = (failed e, w)
  after f (crashed, w) = (crashed, w)

  infixl 20 ◌>>=◌
  abbrev pub ◌>>=◌ : {A B : Type 0} → Action W A → (A → Action W B) → Action W B
  (m >>= f) w = after f (m w)

  -- `err := m()`, with the error kept as a value.
  abbrev pub caught :
      {A B : Type 0} → (Failure → Action W B) → (A → Action W B) → Result A × W → Result B × W
  caught h f (returned a, w) = f a w
  caught h f (failed e, w) = h e w
  caught h f (crashed, w) = (crashed, w)

  abbrev pub handle :
      {A B : Type 0} → Action W A → (Failure → Action W B) → (A → Action W B) → Action W B
  handle m h f w = caught h f (m w)

  -- The error that a call adds to a list of errors.
  abbrev pub errors_of : {A : Type 0} → Action W A → Action W (List Failure)
  errors_of m = handle m (λ e. ret (e ∷ [])) (λ a. ret [])

  -- Reading through a pointer.
  abbrev pub deref : {A : Type 0} → Option A → Action W A
  deref none w = (crashed, w)
  deref (some a) w = (returned a, w)

  -- `for _, a := range xs`, with two lists of errors that each turn may extend.
  abbrev pub for_each : {A : Type 0} → (A → Action W ErrorLists) → List A → Action W ErrorLists
  for_each f [] = ret ([], [])
  for_each f (a ∷ xs) = f a >>= λ x. for_each f xs >>= λ y. ret (joined x y)

abbrev pub is_empty {ℓ} : {A : Type ℓ} → List A → Bool
is_empty [] = true
is_empty (x ∷ xs) = false
