-- ===== src/Lib.antt =====
-- The BFE ingress controller: it reads Ingress objects of Kubernetes and keeps the configuration
-- files of the BFE proxy in step with them.
--
-- The program's parts. A controller for each kind of object (internal/controllers) passes what it
-- reads to the builder (internal/bfeConfig/configBuilder.go), whose operations run under one lock.
-- The builder has three parts (internal/bfeConfig/configs): the server data (routes, hosts and
-- cluster parameters), whose rules are kept in a cache by host and path; the clusters (instances and
-- weights); and the certificates. A failure in one part takes the Ingress out of the others. A timer
-- writes the files that have changed and tells BFE to reload them.
--
-- The files of the model.
--   Base        texts as lists of bytes, Go maps as association lists, signed integers, decimal
--               numbers, paths of files, results with errors
--   Json        what the program uses of encoding/json: strings in Json.Strings, tokens in Json.Lex,
--               values in Json.Parse
--   MultiMap    the set multimap of the indexes, an interface; MultiMap.Assoc fills it
--   Kube, Bfe   the objects of Kubernetes and the configuration files of BFE; Bfe.External is what
--               the program calls of other packages
--   Annotations internal/bfeConfig/annotations: annotation.go, priority.go, router.go,
--               balance.go (its decoding in Annotations.Decode), status.go
--   Names       internal/bfeConfig/util/name.go
--   RouteRule   internal/bfeConfig/configs/routeRuleCache.go: `put`, `delete`, `get` in
--               RouteRule.Cache, the comparison and the sort in RouteRule.Order
--   ServerData  internal/bfeConfig/configs/serverDataConfig.go: checks and conditions in
--               ServerData.Conditions, the tables in ServerData.Tables, UpdateIngress and
--               DeleteIngress in ServerData.Update, Reload in ServerData.Reload
--   Cluster     internal/bfeConfig/configs/clusterConfig.go: endpoints and ports in
--               Cluster.Instances, Ingresses in Cluster.Update, Services in Cluster.Service
--   Tls         internal/bfeConfig/configs/TLSConfig.go; the files of the certificates in Tls.Disk
--   Builder     internal/bfeConfig/configBuilder.go; Builder.Sound has its steps and the
--               configurations that they reach
--   Filter      internal/controllers/filter
--   Reconcile   internal/controllers/ingress: netv1/ingress_controller.go (`ReconcileV1Ingress`, what
--               it reads in Reconcile.Reading, and `Reconcile` with `setStatus` in
--               Reconcile.Controller), the two older versions in Reconcile.Beta,
--               Reconcile.NetV1beta1 and Reconcile.ExtV1beta1, and in Reconcile.Objects
--               service_controller.go and secret_controller.go; Reconcile.Reached has the calls of the
--               controllers and the timer, in any order
--   Options     internal/option/options.go and internal/option/ingress/options.go
--   Start       internal/controllers/start.go
--   Command     cmd/ingress-controller: flags.go and main.go
--   Files       internal/bfeConfig/util/io.go
--   Samples, Tests  concrete parameters, runs, and the theorems at concrete inputs
--
-- Conventions. An operation is a function from the state to the new state, with an error where the
-- code returns one; a panic is `none`. A Go map is iterated in any order: the model takes that of
-- its list. The texts of `NewVersion`, the options and the results of calls of the API server and of
-- the file system are arguments. Every loop is a recursion over the list that it walks; the printing
-- of a number n runs on fuel n + 1, which is enough for its digits (Base.Decimal).
--
-- A JSON text is read by a recursion over its bytes, and over its tokens with a stack, as deep as the
-- 10000 values that Go allows.
--
-- Not modelled: the client of the API server and the manager of the controllers, whose answers are
-- arguments; the texts of the errors of encoding/json; the file system, which is a parameter
-- (Files.FileSystem); the goroutines around the parts; the flags that the logger defines, an argument of
-- the parsing of the command line. The files of the server data and of the clusters are written like
-- those of the certificates; for them only the errors of writing are in the model.
pub mod Base
pub mod MultiMap
pub mod Json
pub mod Annotations
pub mod RouteRule
pub mod Kube
pub mod Bfe
pub mod Names
pub mod Options
pub mod Start
pub mod Command
pub mod Files
pub mod ServerData
pub mod Cluster
pub mod Tls
pub mod Builder
pub mod Filter
pub mod Reconcile
pub mod Samples
pub mod Tests
