-- ===== src/Framework/Workloads/Passed.antt =====
-- What the turns of the loops over a map did, in any of the three packages, when the validation of the
-- map is known to have returned.
use rhobs.Base.{◌≡◌, ap, ◌∙◌, text_comparable, not, ◌||◌, if◌then◌else◌, String, List, [], All}
use rhobs.Base.Dict.{Dict, lookup}
use rhobs.Framework.{Action, ErrorLists, returned, ret, fail, ◌>>=◌, for_each, is_empty}
use rhobs.Framework.Errors.{Failure}
use rhobs.Framework.Kubernetes.{Duration, is_positive}
use rhobs.Framework.Kubernetes.Laws.{Time, Forward}
use rhobs.Framework.Kubernetes.Returned.{bind-returned, guard-returned, no_errors}
use rhobs.Framework.Kubernetes.Waiting.{Clean, loops-Clean}
use rhobs.Framework.Workloads.{items_of}

module _ {W A : Type 0} (t : Time W) (f : String → A → Action W ErrorLists)
    (forward : (n : String) (a : A) → Forward t (f n a)) where
  -- None of the guards ended it, and every turn added no error.
  pub validate-Clean :
      (k1 k2 k3 k4 : Failure) (i o : Duration) (namespaces : List String)
      (found : Dict String (List A)) (u w : W) {a : Unit}
      → (if is_empty namespaces
            then fail k1
            else if is_empty found
            then fail k2
            else if not (is_positive i) || not (is_positive o)
            then fail k3
            else (for_each (λ n. for_each (f n) (items_of (lookup n found))) namespaces
                >>= λ errors.
                    if not (is_empty errors.0) || not (is_empty errors.1) then fail k4 else ret tt))
          u
        ≡ (returned a, w)
      → All (λ n. All (λ x. Clean t (f n x) u w) (items_of (lookup n found))) namespaces
  validate-Clean k1 k2 k3 k4 i o namespaces found u w e =
      let loops = for_each (λ n. for_each (f n) (items_of (lookup n found))) namespaces in
      let verdict : ErrorLists → Action W Unit =
        λ errors. if not (is_empty errors.0) || not (is_empty errors.1) then fail k4 else ret tt in
      let timed =
        if not (is_positive i) || not (is_positive o) then fail k3 else loops >>= verdict in
      let (n1, e1) =
        guard-returned (is_empty namespaces) k1 (if is_empty found then fail k2 else timed) e in
      let (n2, e2) = guard-returned (is_empty found) k2 timed e1 in
      let (n3, e3) =
        guard-returned (not (is_positive i) || not (is_positive o)) k3 (loops >>= verdict) e2 in
      let (errors, v, p, e4) = bind-returned loops verdict e3 in
      let (n4, e5) =
        guard-returned (not (is_empty errors.0) || not (is_empty errors.1)) k4 (ret tt) e4 in
      let clean : loops u ≡ (returned ([], []), w) =
        p ∙ ap (λ x. (returned x, v)) (no_errors errors n4) ∙ ap (λ x. (returned ([], []), x)) cc in
      loops-Clean t f (λ n. items_of (lookup n found)) forward namespaces u w clean
