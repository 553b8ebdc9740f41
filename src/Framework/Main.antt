-- ===== src/Framework/Main.antt =====
-- tests/integration_tests/framework/cmd/rhobs-test/main.go: the three checks, one after the other, on the
-- namespaces that the flag lists. The flags, the client and the logger are set up before.
pub mod Steady
pub mod Program
use rhobs.Base.{◌≡◌, refl, if◌then◌else◌, String, List, [], ◌∷◌, ◌++◌}
use rhobs.Framework.{Action, returned, ret, ◌>>=◌, errors_of, is_empty}
use rhobs.Framework.Errors.{Failure}
use rhobs.Framework.Kubernetes.{Cluster, Duration}
use rhobs.Framework.Kubernetes.Returned.{bind-returned, errors_of-returned}
use rhobs.Framework.Deployments.{check_deployments}
use rhobs.Framework.StatefulSets.{check_stateful_sets}
use rhobs.Framework.Services.{check_services}

pub data Exit : Type 0 where
  success : Exit
  -- `LogFatal`
  fatal : Exit

module _ {W : Type 0} (c : Cluster W) (interval timeout : Duration) where
  -- The errors that `main` collects in `errList`.
  unfoldable pub collect : List String → Action W (List Failure)
  unfolding check_deployments check_stateful_sets check_services
  collect namespaces = do
    dep ← errors_of (check_deployments c interval timeout namespaces)
    sts ← errors_of (check_stateful_sets c interval timeout namespaces)
    svc ← errors_of (check_services c interval timeout namespaces)
    ret (dep ++ (sts ++ svc))

  unfoldable pub main : List String → Action W Exit
  unfolding collect
  main namespaces = do errors ← collect namespaces; ret (if is_empty errors then success else fatal)

abbrev verdict : {W : Type 0} → List Failure → Action W Exit
verdict errors = ret (if is_empty errors then success else fatal)

no_errors_left :
    {W : Type 0} (ds ss vs errors : List Failure) {y z w : W}
    → verdict errors y ≡ (returned success, w)
    → ret (ds ++ (ss ++ vs)) z ≡ (returned errors, y)
    → (ds ≡ []) × (ss ≡ []) × (vs ≡ []) × (z ≡ w)
no_errors_left [] [] [] [] e h = (refl, refl, refl, cc)
no_errors_left ds ss vs (x ∷ errors) e h = cc
no_errors_left [] [] (v ∷ vs) [] e h = cc
no_errors_left [] (s ∷ ss) vs [] e h = cc
no_errors_left (d ∷ ds) ss vs [] e h = cc

clean_call :
    {W : Type 0} (m : Action W Unit) {ds : List Failure} {u v w : W}
    → errors_of m u ≡ (returned ds, v)
    → ds ≡ []
    → v ≡ w
    → m u ≡ (returned tt, w)
clean_call m {u} {v} {w} e h k =
    let here : errors_of m u ≡ (returned [], w) = cc in let (a, g) = errors_of-returned m here in g

three-returned :
    {W : Type 0} (m n o : Action W Unit) {u w : W}
    → ((do ds ← errors_of m; ss ← errors_of n; vs ← errors_of o; ret (ds ++ (ss ++ vs)))
          >>= verdict)
        u
      ≡ (returned success, w)
    → (v : W) × (x : W) × (m u ≡ (returned tt, v))
      × (n v ≡ (returned tt, x))
      × (o x ≡ (returned tt, w))
three-returned m n o e =
    let (errors, y, p, q) =
      bind-returned
        (do ds ← errors_of m; ss ← errors_of n; vs ← errors_of o; ret (ds ++ (ss ++ vs))) verdict
        e in
    let (ds, v, p1, q1) =
      bind-returned (errors_of m)
        (λ ds. errors_of n >>= λ ss. errors_of o >>= λ vs. ret (ds ++ (ss ++ vs))) p in
    let (ss, x, p2, q2) =
      bind-returned (errors_of n) (λ ss. errors_of o >>= λ vs. ret (ds ++ (ss ++ vs))) q1 in
    let (vs, z, p3, q3) = bind-returned (errors_of o) (λ vs. ret (ds ++ (ss ++ vs))) q2 in
    let (no_ds, no_ss, no_vs, zw) = no_errors_left ds ss vs errors q q3 in
    (v, x, clean_call m p1 no_ds refl, clean_call n p2 no_ss refl, clean_call o p3 no_vs zw)

module _ {W : Type 0} (c : Cluster W) (interval timeout : Duration) where
  -- The program ends with success only if each of the three checks returned no error, each in the
  -- world that the one before it left.
  pub main-passes :
      (namespaces : List String) (u w : W)
      → main c interval timeout namespaces u ≡ (returned success, w)
      → (v : W) × (x : W) × (check_deployments c interval timeout namespaces u ≡ (returned tt, v))
        × (check_stateful_sets c interval timeout namespaces v ≡ (returned tt, x))
        × (check_services c interval timeout namespaces x ≡ (returned tt, w))
  unfolding main collect
  main-passes namespaces u w e =
      three-returned (check_deployments c interval timeout namespaces)
        (check_stateful_sets c interval timeout namespaces)
        (check_services c interval timeout namespaces) e
