-- ===== src/Lib.antt =====
-- OVRO, the OpenShift Virtualization Rightsizing Operator: a model of its Go program and of what
-- keeps a recommendation on its way from the analysis of a VM to a decision and a restart.
--
-- The program has a controller that analyses each VM and keeps one recommendation for it, an API
-- server whose handlers list, apply, revert, exclude and decide on recommendations, a controller
-- that restarts VMs at a scheduled time, a proxy through which owners decide, and helpers: the
-- calculator, the client of the metrics server, the resolver of owners, the approval tokens, and the
-- dispatcher of notifications with its seven forwarders. They meet in the Kubernetes API server, which
-- holds the recommendations, the policy and the VMs; the main program puts them together.
--
-- Files and sources:
--   Types, Types/Policy       api/v1alpha1/rightsizingrecommendation_types.go,
--                             rightsizingpolicy_types.go and defaults.go
--   Calculator and below      internal/calculator/calculator.go: Analyze, ComputePercentile
--   Notifier and below        internal/notifier: SendAll, SendAllExcept and sendFiltered of
--                             notifier.go, NewDispatcher (Registry), each forwarder in a file of
--                             its name, and what they share (Http); Delivery proves
--   Prometheus and below      internal/prometheus: client.go (NewClient in Setup), and queries.go
--                             (Queries)
--   Program and below         cmd/main.go: the set-up of the approval workflow, the manager's
--                             (Manager), and the adapters of the metrics client and of the secrets
--                             (Adapters); the options of internal/apiserver/server.go;
--                             cmd/approval-proxy/main.go (Adapters); the listeners of both programs
--                             (Listeners)
--   Token                     internal/approval/token.go: GenerateToken, ValidateToken
--   Owner                     internal/owner/resolver.go: ResolveOwner
--   Server and below          internal/apiserver/handlers.go: every handler, under its own name
--                             (Access, Apply, Decide, Exclusion, Overview, PolicyApi), with the
--                             records of server.go; Routes is its table of routes and ServeHTTP,
--                             Middleware is middleware.go; Lifecycle, Outcomes and Overview/Bag
--                             prove
--   Controller and below      internal/controller: Reconcile with autoApply (AutoApply, Demo,
--                             Recommend, Reconcile), the restart controller (Restart), and the
--                             calls of internal/applier/applier.go; Lifecycle, Expiry, Reminder and
--                             Excluded prove
--   Proxy and below           internal/approvalproxy/proxy.go: handleGetApprove, handlePostApprove,
--                             alone and in front of the handlers, New and fetchRecommendation
--                             (Http), ServeHTTP (Routes); Scheduled and Restarted prove
--   Lifecycle and below       the abstract state machine of a recommendation, and its invariant
--   System and below          any history of the parts together, and from a start
--   Platform and below        what the program calls: the API server, the VMs, the clock and the
--                             parsers, as an interface, its assumptions, and an instance in memory
--   Floats, Floats/Laws       float64, as an interface, and what theorems assume of it
--   Prelude and below         lists, Boolean tests and integers over the native numbers
--   Tests and below           the theorems applied at a small cluster
--
-- State is passed explicitly: a handler takes its path values, its decoded body (`none` where the
-- body does not decode) and a world, and returns the response and the next world; a reconciliation
-- returns its result and the next world. Each is one step. Where two of them overlap in time, the
-- API server refuses the later write with a conflict, which is a failed call here; any write may
-- fail, and a failed update may have been stored or not. An int32 or int64 is an integer whose
-- wrap-around is written out (`wrap32`, `wrap64`); an instant is a number of nanoseconds. All loops
-- are structural recursion, so no fuel is needed.
--
-- Assumed of the platform (`IsLawful` in Platform/Laws): a read that finds an object finds the one
-- that is held, a write touches only its own key, an update of an object keeps its status, an update
-- of the status keeps all else, a create stores no status. Assumed of forwarders (`IsQuiet`): a send
-- leaves the recommendations alone. Assumed of golang-jwt (`IsLawfulJwt` in Token/RoundTrip): a
-- token that was signed with a key is parsed with it until it expires, and is an error from then on.
--
-- Assumed of float64 where a theorem says so (Floats/Laws): the order of the numbers (`IsOrdered`),
-- and the rounding of whole numbers below 2^53 and of products with a factor up to 1 (`IsRounding`).
-- `sort.Float64s` is an insertion sort by its order. net/http, net/smtp and crypto/tls are parameters
-- that take a request or a command and a world: a JSON body is its tree, an answer its status, text
-- and parsed body. Texts of errors leave out the marks of `%q`.
-- `http.ServeMux` is a parameter that picks a route of a table (`IsMux` in Server/Routes/Guarded).
--
-- The manager, the watchers of certificates and the clients are parameters of the manager's set-up,
-- whose exits are errors; net/http's servers are the values that they are asked for (`Listening`).
--
-- Not modelled: HTML templates, the manager's health probes, what the manager does once it is started, the
-- servers behind the listeners, generated deep copies, the registration of types with a scheme, log
-- lines, limits on the size of bodies, and the console plugin.
pub mod Prelude
pub mod Types
pub mod Floats
pub mod Notifier
pub mod Platform
pub mod Token
pub mod Owner
pub mod Server
pub mod Lifecycle
pub mod Calculator
pub mod Controller
pub mod Prometheus
pub mod Proxy
pub mod Program
pub mod System
pub mod Tests
