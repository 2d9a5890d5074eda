-- ===== src/Lib.antt =====
-- The propagation controller: deployments of an application are rolled out in the order of the
-- waves of a configuration. A controller in each cluster publishes the status of its deployment in
-- a shared image registry, reads the statuses of the other deployments there, and copies the
-- manifests of a version to the place that its own cluster deploys from, once the deployments
-- before it have run that version without a fault for long enough.
--
-- - `Base`: Booleans, lists and integers that the other modules share, and Go's pair of a value and
--   an error as `Result`, with the error's message.
-- - `Api`: api/v1alpha1/propagation_types.go, health_types.go and common.go. `Api.Report` has the
--   methods of `DeploymentStatusesReport`, `Api.Next` has `NextVersion`. Below them are the
--   specifications: a report read from its newest status back (`Report.History`), the time since
--   the last fault (`Report.Duration`), and the choice among the candidates (`Next.Choice`).
-- - `Config`: pkg/repo/config/config.go and the functions of
--   internal/controller/propagation_controller.go that derive from it what a deployment waits for.
--   The specification is the list of all waves of all environments (`Config.Waves`).
-- - `Clients`: pkg/clients/propagation_backend_client_oci.go. `Clients` has the cached client and
--   `PropagationClient` over the interface `PropagationBackendClient`; `Clients.Registry` states
--   what a registry is that the interface stands for; `Clients.Oci` is the implementation with
--   images and `Clients.Clientset` the map from objects to clients. `Clients.Oci.Lawful` relates
--   the implementation to `Clients.Registry`. `Clients.Fetch`, `Publish` and `Transfer` are about
--   the operations of one client, `Clients.Exchange` about two clients of one registry.
-- - `Controller`: `Reconcile` of internal/controller/propagation_controller.go, over interfaces to
--   the cluster, to the objects that hold versions and to the client. `Controller.Fetch` has the
--   loop that fetches statuses, its goroutines one after another, and `Controller.Interleaving` has
--   these in any order. `Controller.Decide` has the test that comes before a propagation, and
--   `Controller.Reconcile` the rest, in a function for each part up to the next early return.
--   `Controller.System` puts the reconciler and its clientset together. The proofs are in
--   `Controller.Gate` and `Controller.Progress` (when the test lets a version through),
--   `Controller.Reports` (the loop), `Controller.Safety` and `Controller.Panic` (both together: no
--   nil status is dereferenced), `Controller.Round` (a relation that contains each call of the
--   world contains a whole round; `Round.Staging` and `Round.Beside` turn to the deployments of the
--   wave in front and to those beside), `Controller.System.Rounds` (what a round may do to the
--   registry, `IsRound`), `System.Beside` and `System.Staging` (these together), `System.Caches`
--   (where a client has written) and `System.Honest` (the backends that the program makes).
--   `Controller.Fleet` is the system of all controllers over one registry, with a step for a round
--   of each, for a restart and for a publication by others; `Fleet.Installed` and `Fleet.Lockstep`
--   are about the states that it can reach. `Kpctl.Outside` takes a run of `PublishConfigs` as such
--   a publication.
-- - `Manager`: cmd/main.go, the functions `SetupWithManager`, and the kinds that
--   api/v1alpha1/groupversion_info.go and api/promotion/v1alpha1/groupversion_info.go register.
-- - `Promotion`: internal/controller/promotion/releasepromotion_controller.go with the types of
--   api/promotion/v1alpha1/releasepromotion_types.go, and what is left of
--   releasepromotion_client.go.
-- - `Kpctl`: cmd/kpctl/cmd/publish.go, and in `Kpctl.Command` cmd/kpctl/cmd/root.go.
-- - `Tests`: the theorems at concrete inputs.
--
-- A method that changes its receiver returns the new one. A call of the cluster, of the registry or
-- of the clock takes the state of the world and returns the next one; each reading of the clock is
-- a call of its own. Instants and durations are integers of nanoseconds, and `time.Time.Sub` ends
-- at the bounds of an `int64`. Every loop runs over a list and is structural recursion, so there is
-- no fuel.
--
-- Parameters stand for code outside the repository: the tag `latest` of go-containerregistry
-- (`default_tag`), the parser of `net/url`, the image library, `encoding/json`, the Kubernetes
-- client, controller-runtime, `meta`, kyaml, cobra, viper, git and the file system. What a theorem
-- needs of them are hypotheses: `IsImageLibrary` for the image library and the registry behind it,
-- `IsRegistry` for a backend in general, `IsHonest` for a cluster whose objects all name one
-- registry, `IsCodec` for what a backend writes and JSON parses, `IsSeparate` for a cluster
-- that is not the registry, `KeepsObject` for its updates of a status, `IsCopying` for crane,
-- `IsRuntime` for controller-runtime, `IsSite` for the place where a controller runs, a clock that
-- does not go back, and `IsPast` for one that is not before what is stored.
--
-- Not modelled: the generated deep copies; the object `Health` and the selectors for health, which
-- the source does not use; the steps inside a call of `GetStatus`, whose cache several goroutines
-- write without a lock; rounds of two controllers that overlap in time, and a controller with
-- several objects.
pub mod Base
pub mod Api
pub mod Config
pub mod Clients
pub mod Controller
pub mod Manager
pub mod Kpctl
pub mod Promotion
mod Tests
