-- ===== src/Manager.antt =====
-- cmd/main.go and the functions `SetupWithManager` of the two reconcilers, with the kinds that the
-- packages of api/ register. What is called of controller-runtime is an interface over the state `W`;
-- its scheme is the list of the kinds that are registered in it. A line that is logged is left out,
-- but for the one before `os.Exit(1)`, which tells where the program ends.
pub mod Start
use propagation_controller.Base.{
  String, Bool, true, false, ◌&&◌, ◌||◌, Option, none, some, List, [], ◌∷◌, ◌++◌, Result, ok, err,
  ◌==◌,
}

-- `schema.GroupVersionKind`
pub record GroupVersionKind : Type 0 where
  pub group : String
  pub version : String
  pub kind : String

unfoldable pub same_kind : GroupVersionKind → GroupVersionKind → Bool
same_kind a b = a.group == b.group && a.version == b.version && a.kind == b.kind

unfoldable pub is_registered : GroupVersionKind → List GroupVersionKind → Bool
is_registered kind [] = false
is_registered kind (k ∷ kinds) = same_kind k kind || is_registered kind kinds

-- A kind of the `GroupVersion` of api/v1alpha1.
abbrev pub kuberik : String → GroupVersionKind
kuberik kind = record { group = "kuberik.io"; version = "v1alpha1"; kind = kind }

-- A kind of the `GroupVersion` of api/promotion/v1alpha1.
abbrev pub promotion_kuberik : String → GroupVersionKind
promotion_kuberik kind = record {
  group = "promotion.kuberik.io";
  version = "v1alpha1";
  kind = kind;
}

-- What the functions `init` of api/v1alpha1 register with its `SchemeBuilder`.
abbrev pub kuberik_kinds : List GroupVersionKind
kuberik_kinds =
    kuberik "Health" ∷ kuberik "HealthList" ∷ kuberik "Propagation" ∷ kuberik "PropagationList" ∷ []

-- What `init` of api/promotion/v1alpha1 registers with its own.
abbrev pub promotion_kinds : List GroupVersionKind
promotion_kinds =
    promotion_kuberik "ReleasePromotion" ∷ promotion_kuberik "ReleasePromotionList" ∷ []

-- `ctrl.Options`
pub record ManagerOptions : Type 0 where
  pub scheme : List GroupVersionKind
  pub metrics_bind_address : String
  pub health_probe_bind_address : String
  pub leader_election : Bool
  pub leader_election_id : String

-- `complete` is `Complete` of the builder with the kind of its `For` and the text of its `Named`.
pub record ControllerRuntime (W Manager : Type 0) : Type 0 where
  pub new_manager : ManagerOptions → W → Result Manager × W
  pub complete : GroupVersionKind → Option String → Manager → W → Result (Unit {0}) × W
  pub add_healthz_check : String → Manager → W → Result (Unit {0}) × W
  pub add_readyz_check : String → Manager → W → Result (Unit {0}) × W
  pub start : Manager → W → Result (Unit {0}) × W

-- The variables that `main` binds to flags.
pub record Flags : Type 0 where
  pub metrics_addr : String
  pub probe_addr : String
  pub enable_leader_election : Bool

abbrev pub default_flags : Flags
default_flags = record {
  metrics_addr = ":8080";
  probe_addr = ":8081";
  enable_leader_election = false;
}

-- How the program ends: `main` returns, or it exits with status 1 after the message.
pub data Exit : Type 0 where
  returned : Exit
  exited : String → Exit

-- `if err != nil { setupLog.Error(err, message); os.Exit(1) }`
abbrev pub or_exit {ℓ} :
    {B : Type ℓ} {W : Type 0} → String → Result B × W → (B → W → Exit × W) → Exit × W
or_exit message (err e, w) next = (exited message, w)
or_exit message (ok b, w) next = next b w

-- The scheme that `init` fills. `client_go_kinds` are those of the Kubernetes client.
unfoldable pub manager_scheme : List GroupVersionKind → List GroupVersionKind
manager_scheme client_go_kinds = client_go_kinds ++ kuberik_kinds

unfoldable pub manager_options : List GroupVersionKind → Flags → ManagerOptions
unfolding manager_scheme
manager_options client_go_kinds flags = record {
  scheme = manager_scheme client_go_kinds;
  metrics_bind_address = flags.metrics_addr;
  health_probe_bind_address = flags.probe_addr;
  leader_election = flags.enable_leader_election;
  leader_election_id = "4d52a72c.kuberik.io";
}

module _ {W Manager : Type 0} (runtime : ControllerRuntime W Manager) where
  -- `(*PropagationReconciler).SetupWithManager`
  unfoldable pub setup_propagation : Manager → W → Result (Unit {0}) × W
  setup_propagation = runtime.complete (kuberik "Propagation") none

  -- `(*ReleasePromotionReconciler).SetupWithManager`
  unfoldable pub setup_promotion : Manager → W → Result (Unit {0}) × W
  setup_promotion =
      runtime.complete (promotion_kuberik "ReleasePromotion") (some "promotion-releasepromotion")

  -- `main` from the health checks on.
  unfoldable pub start_manager : Manager → W → Exit × W
  start_manager mgr w =
      or_exit "unable to set up health check" (runtime.add_healthz_check "healthz" mgr w) λ _ w.
        or_exit "unable to set up ready check" (runtime.add_readyz_check "readyz" mgr w)
          λ _ w. or_exit "problem running manager" (runtime.start mgr w) λ _ w. (returned, w)

  -- `main`, behind the flags.
  unfoldable pub main : List GroupVersionKind → Flags → W → Exit × W
  unfolding setup_propagation setup_promotion start_manager manager_options
  main client_go_kinds flags w =
      or_exit "unable to start manager"
        (runtime.new_manager (manager_options client_go_kinds flags) w)
        λ mgr w. or_exit "unable to create controller" (setup_propagation mgr w) λ _ w.
          or_exit "unable to create controller" (setup_promotion mgr w) λ _ w. start_manager mgr w
