-- ===== src/Controller.antt =====
-- `PropagationReconciler` of internal/controller/propagation_controller.go. What it calls of the
-- cluster, of the image backend and of the clock is an interface over the state `W` of the world.
pub mod Fetch
pub mod Decide
pub mod Reconcile
pub mod Reports
pub mod Gate
pub mod Safety
pub mod Progress
pub mod Interleaving
pub mod Round
pub mod Panic
pub mod System
pub mod Fleet
use Prim.Native.String.{◌++◌ as append}
use propagation_controller.Base.{
  ℤ, pos, String, Bool, true, false, Option, none, some, List, Result, ok, err, Error, ◌==◌,
  if◌then◌else◌, not,
}
use propagation_controller.Api.{DeploymentStatus, Condition, Propagation}
use propagation_controller.Config.{Config}
use propagation_controller.Clients.Clientset.{NamespacedName}

-- What the reconciler uses of the Kubernetes client and of `meta`. An update that succeeds replaces
-- the object by the server's answer. Setting a condition may read the clock.
pub record Cluster (W : Type 0) : Type 0 where
  pub get_propagation : NamespacedName → W → Result Propagation × W
  pub update_status : Propagation → W → Result Propagation × W
  pub set_status_condition : Condition → List Condition → W → List Condition × W
  pub find_status_condition : List Condition → String → Option Condition
  pub now : W → ℤ × W

-- The unstructured object that holds a version, and what is used of kyaml: `look_up` is `Pipe` with
-- `Lookup` of the path that `SmarterPathSplitter` makes of the text.
pub record Objects (W Object Node : Type 0) : Type 0 where
  pub get_object : String → String → NamespacedName → W → Result Object × W
  pub from_map : Object → Result Node
  pub look_up : String → Node → Result Node
  pub is_nil_or_empty : Node → Bool
  pub is_string_value : Node → Bool
  pub value : Node → String

-- The methods of `PropagationClientset` and `PropagationClient` that are called. A call may change
-- the client `C`.
pub record Backend (W C : Type 0) : Type 0 where
  pub open_client : Propagation → W → Result C × W
  pub get_config : C → W → Result Config × C × W
  pub publish_status : String → DeploymentStatus → C → W → Result (Unit {0}) × C × W
  pub get_status : String → C → W → Result DeploymentStatus × C × W
  pub propagate : String → String → C → W → Result (Unit {0}) × C × W

-- `ctrl.Result` with the error; or the panic of a nil dereference.
pub data Outcome : Type 0 where
  done : Outcome
  requeue_after : ℤ → Outcome
  failed : Error → Outcome
  panic : Outcome

-- `fmt.Errorf("error looking up version path: %w", err)`
abbrev pub lookup_error : Error → Error
lookup_error e = append "error looking up version path: " e

-- `getVersion`
module _ {W Object Node : Type 0} (objects : Objects W Object Node) where
  unfoldable pub read_version : Node → Result String
  read_version rn =
      if objects.is_nil_or_empty rn
      then err "version is empty"
      else if not (objects.is_string_value rn)
      then err "version field is not a string"
      else ok (objects.value rn)

  unfoldable pub version_at : String → Result Object → Result String
  unfolding read_version
  version_at path (err e) = err e
  version_at path (ok object) = elim (objects.from_map object) [
    | err e ↦ err e
    | ok node ↦ elim (objects.look_up path node) [
      | err e ↦ err (lookup_error e)
      | ok rn ↦ read_version rn
    ]
  ]

  unfoldable pub get_version : Propagation → W → Result String × W
  unfolding version_at
  get_version p w =
      if p.spec.deployment.version.name == ""
      then (err "missing version's object name", w)
      else if p.spec.deployment.version.field_path == ""
      then (err "missing version's object fieldPath", w)
      else (let (object, w') =
            objects.get_object p.spec.deployment.version.api_version p.spec.deployment.version.kind
              (record { namespace = p.namespace; name = p.spec.deployment.version.name }) w in
          (version_at p.spec.deployment.version.field_path object, w'))
