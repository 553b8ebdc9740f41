-- ===== src/Lib.antt =====
-- The configuration of the Red Hat observability service: Go programs that generate Kubernetes
-- manifests, and a program that checks a cluster to which they were applied.
--
-- The parts, and how they interact:
-- - configuration/observatorium/rbac.go builds the access configuration of the API. `GenerateRBAC`
--   calls `attachBinding` once for each client, with the tenant, the signals, the permissions and the
--   environments of the client; the roles are shared between the calls through a map.
-- - configuration/observatorium/slo.go: `GenSLO` lists the service level objectives of six
--   environments, has a library make groups of rules of them, and changes the labels of the rules.
-- - magefiles/ builds the manifests of the environments. The targets look parameters up in the maps of
--   an environment (template.go), build objects with them (cr.go, operator.go, servicemonitors.go,
--   gateway.go, cache.go and secrets.go, with the helpers of lib.go), or have a library make them
--   and change them (alertmanager.go), and add them to a file in the directory of the environment
--   (magefile.go). `Stage.Gateway` encodes what `GenerateRBAC` returns in a configuration map; `CRDS` fetches definitions over the network.
-- - tests/integration_tests/framework/ checks deployments, stateful sets and services of a cluster: each
--   package lists its objects by namespace, waits for each of them, and looks at the pods behind it.
--
-- The files:
-- - Base: lists, Go maps as association lists (Dict), strings (Text: suffixes, the place of a separator, strings.Split,
--   decimal numbers and how a numeral is read, the order of strings), integers (Integer), calls that may panic (Outcome), sort.Slice (Sort).
-- - Rbac: the types, `getOrCreateRoleName`, `tenantNameFollowsConvention` and `attachBinding`, one
--   definition for each function and for each of their loops, under the function's name in snake case.
--   A configuration goes in and comes out; a panic loses it. Keys: how the map and the roles represent
--   a list of keys. Calls and Attach: what one call does, and when. Grants: who may do what afterwards.
--   Spec: the permissions that a configuration gives, read from its bindings and roles. Generate:
--   `GenerateRBAC` and its arguments; Generate/Run, Generate/Permits and Generate/Writers: what it permits.
-- - Slo: the types and the tables of slo.go and `get_objectives`; Slo/Telemeter and Slo/Observatorium
--   list the objectives, by service and by signal; Slo/Rules is `makePrometheusRule`, with one definition
--   for each pass over the rules; Slo/Generate is `GenSLO` and `envSLOs`. Passes, Lookups and Folds:
--   what the passes do to labels, in place and as functions, for one rule and for several that share a map;
--   Labels and Tidy: what they leave. Names: the objectives; Written: the files.
-- - Mage: Value holds the literals of Kubernetes types, as the fields that they set, and Paths reads
--   them. Params is magefiles/template.go, with `TemplateFn` as `template_fn`; its children hold the
--   maps. Library is `makeOauthProxy` of magefiles/lib.go. Cr and its children are the generators of magefiles/cr.go,
--   under their names in snake case; `storeCR` and `compactCR` have one definition for each object.
--   Cr/Needs: the parameters of each generator. OperatorCr: the two `OperatorCR` targets;
--   OperatorCr/Generated, Order and Written: what they generate, in which order, and in which file.
--   Objects is the list handling of magefiles/lib.go, Heap the maps that several objects refer to, with
--   its `deepCopyMap`, and Cache is magefiles/cache.go; Cache/Labels: what its objects are labelled
--   with. Secrets is magefiles/secrets.go; Secrets/References: what refers to the secrets;
--   Secrets/Placeholders: the template parameters that secrets use.
-- - Mage/Gateway is magefiles/gateway.go: one module for each kind of object, the functions under their
--   names in snake case, and Target for `Stage.Gateway`. Labels and Written: the objects and files that a
--   run generates; Selected: how it ends, and which pods are selected; References and Placeholders: what
--   the objects refer to; Tenants: those of the gateway and those of `GenerateRBAC`.
-- - Mage/Operator is magefiles/operator.go: Accounts, Manager, Editors, Viewers, Bindings and Deployment
--   hold the literals of `operatorResources` and Resources their list and the `Operator` targets; Crds is
--   `crds` and the `CRDS` targets, and Monitors magefiles/servicemonitors.go. Fetched: the loop over the
--   requests; Written: the files; Bound: what the objects refer to; Rules: what the roles grant.
-- - Mage/Alertmanager is magefiles/alertmanager.go: the options of the stateful set, and in Target what is
--   changed in the manifests, with `postProcessServiceMonitor` of lib.go; Mage/TemplateYaml is the encoder of
--   services_go/observatorium/encoders.go that it asks for. Peers: the addresses of its pods. Listed,
--   Changed, Taken and Kept: the lists and the maps after a change; Processed and Built: what the targets
--   generate.
-- - Framework: calls that change the world, return, fail or panic. Errors: the errors of the packages.
--   Kubernetes: the objects as they are read, and the client and the two waiting helpers as parameters;
--   Kubernetes/Laws: what is relied on in them; Returned, Failed and Waiting: what a call did, by its result.
--   Pods is pkg/pod/pod.go. Workloads is what
--   pkg/deployment/deployment.go and pkg/statefulset/statefulset.go have in common, with what differs in
--   `Kind`; Deployments and StatefulSets are the rest of the two. Services is pkg/service/service.go and
--   Client pkg/client/client.go. Main is the `main` of cmd/rhobs-test/main.go from the checks on, and
--   Main/Program its `init` and `main` from the values of the flags on.
-- - Framework, the proofs: Health and Verdict modules say what is known when a check passes, Listing
--   modules what is checked at all, and Examined modules put the two together, up to Main/Program/Examined.
--   Steady is the judgement that a call returns whenever it is made from some moment on, with its rules,
--   and what is relied on for that in the waiting helpers; the Steady modules follow it through the
--   functions of each package up to `main`. Of what the packages have in common, Workloads/Listed is the
--   loop that fills a map, Passed and Stored the loops over it.
--
-- State: Go code that changes a shared object takes it as an argument and returns it; where objects
-- share a map, they hold a reference to it. In the framework the world is a type parameter: the client's
-- calls take it and return it, and time is a preorder on it. In Crds it is one as well: a request takes
-- it, and closing the body of a response changes it.
-- Loops are structural recursion on the lists that they range over. `show`, which prints a number, is
-- on fuel, one more than the number, and a lemma beside it shows that this is enough. Numbers
-- are natural numbers: the code only compares and prints them, and none of those that occur is
-- negative, but for durations and for two settings of memcached, which have a sign.
--
-- Parameters: the client of the cluster, and the library that makes it; the HTTP request, the closing of a body and the decoder of `crds`;
-- the encoders of JSON and YAML that `Stage.Gateway` calls; the library that makes the manifests of the
-- Alertmanager, and `GetObject`, which finds one of them; the library of Pyrra, as four functions, and
-- its prefix of the labels that become annotations.
--
-- Not modelled: other calls of third-party packages stay symbolic in a value; the encoding
-- to YAML and the writing of files; logging, which nothing depends on; the parsing of flags. The order
-- of a Go map is nowhere relied on. Of the generators, magefiles/telemeter_rules.go,
-- the `Build` targets, which call the others in turn, the `Read` of encoders.go, which edits a text
-- by regular expressions, and the rest of services_go/, which mostly sets fields of structs of another
-- project, are left out, as are the Jsonnet templates and what they generate.
pub mod Base
pub mod Rbac
pub mod Framework
pub mod Mage
pub mod Slo
