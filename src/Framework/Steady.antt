-- ===== src/Framework/Steady.antt =====
-- A judgement on a call that returns whenever it is made from some moment on.
use rhobs.Base.{
  ◌≡◌, refl, ap, ◌∙◌, Bool, true, false, if◌then◌else◌, Option, some, List, [], ◌∷◌, All,
}
use rhobs.Framework.{
  Action, ErrorLists, joined, returned, ret, after, ◌>>=◌, caught, handle, errors_of, deref,
  for_each,
}
use rhobs.Framework.Errors.{Failure}
use rhobs.Framework.Kubernetes.{Cluster, Duration}
use rhobs.Framework.Kubernetes.Laws.{Time}

module _ {W : Type 0} (t : Time W) (u : W) where
  -- From the moment `u` on the call returns, and what it returns satisfies `P`.
  abbrev pub Meets : {A : Type 0} → (A → Type 0) → Action W A → Type 0
  Meets {A} P m =
      (v : W) → t.Reaches u v → (a : A) × (w : W) × (m v ≡ (returned a, w)) × t.Reaches v w × P a

  -- It returns, and that is all.
  abbrev pub Done : Action W (Unit {0}) → Type 0
  Done = Meets (λ a. Unit {0})

  pub Meets-ret : {A : Type 0} {P : A → Type 0} (a : A) → P a → Meets P (ret a)
  Meets-ret a p v uv = (a, v, refl, t.now v, p)

  pub Meets-mono :
      {A : Type 0} {P Q : A → Type 0} (m : Action W A)
      → Meets P m
      → ((a : A) → P a → Q a)
      → Meets Q m
  Meets-mono m h f v uv = let (a, w, e, vw, p) = h v uv in (a, w, e, vw, f a p)

  pub Meets-bind :
      {A B : Type 0} {P : A → Type 0} {Q : B → Type 0} (m : Action W A) (f : A → Action W B)
      → Meets P m
      → ((a : A) → P a → Meets Q (f a))
      → Meets Q (m >>= f)
  Meets-bind m f h k v uv =
      let (a, w, e, vw, p) = h v uv in
      let (b, x, e', wx, q) = k a p w (t.later uv vw) in
      (b, x, ap (after f) e ∙ e', t.later vw wx, q)

  pub Meets-handle :
      {A B : Type 0} {P : A → Type 0} {Q : B → Type 0} (m : Action W A) (g : Failure → Action W B)
      (f : A → Action W B)
      → Meets P m
      → ((a : A) → P a → Meets Q (f a))
      → Meets Q (handle m g f)
  Meets-handle m g f h k v uv =
      let (a, w, e, vw, p) = h v uv in
      let (b, x, e', wx, q) = k a p w (t.later uv vw) in
      (b, x, ap (caught g f) e ∙ e', t.later vw wx, q)

  pub Meets-errors_of :
      {A : Type 0} {P : A → Type 0} (m : Action W A)
      → Meets P m
      → Meets (λ es. es ≡ []) (errors_of m)
  Meets-errors_of m h = Meets-handle m (λ e. ret (e ∷ [])) (λ a. ret []) h λ a p. Meets-ret [] refl

  pub Meets-pass :
      {A : Type 0} {P : A → Type 0} {b : Bool} (m n : Action W A)
      → b ≡ true
      → Meets P m
      → Meets P (if b then m else n)
  Meets-pass m n e h = rw e h

  pub Meets-else :
      {A : Type 0} {P : A → Type 0} {b : Bool} (m n : Action W A)
      → b ≡ false
      → Meets P n
      → Meets P (if b then m else n)
  Meets-else m n e h = rw e h

  pub Meets-deref :
      {A : Type 0} {P : A → Type 0} (p : Option A) (a : A) → p ≡ some a → P a → Meets P (deref p)
  Meets-deref p a e h v uv = (a, v, ap (λ x. deref x v) e, t.now v, h)

  pub Meets-for_each :
      {A : Type 0} (f : A → Action W ErrorLists) (xs : List A)
      → All (λ a. Meets (λ es. es ≡ ([], [])) (f a)) xs
      → Meets (λ es. es ≡ ([], [])) (for_each f xs)
  Meets-for_each f [] h = Meets-ret ([], []) refl
  Meets-for_each f (a ∷ xs) (here, later) =
      Meets-bind (f a) (λ x. for_each f xs >>= λ y. ret (joined x y)) here
        λ x p.
          Meets-bind (for_each f xs) (λ y. ret (joined x y)) (Meets-for_each f xs later)
            λ y q. Meets-ret (joined x y) cc

-- What is relied on besides `Lawful`: `RetryOnConflict` returns if what it retries does, and
-- `PollUntilContextTimeout` if its condition holds whenever it is called, for an interval and a timeout
-- that let it be called at all.
pub record Prompt {W : Type 0} (c : Cluster W) (t : Time W) (interval timeout : Duration)
    : Type 0 where
  pub retries : (u : W) (fn : Action W Unit) → Done t u fn → Done t u (c.retry_on_conflict fn)
  pub polls :
      (u : W) (condition : Action W Bool)
      → Meets t u (λ b. b ≡ true) condition
      → Done t u (c.poll_until_context_timeout interval timeout condition)
