-- ===== src/Controller/System/Staging.antt =====
-- What a version has behind it that a round of the whole reconciler deploys.
use propagation_controller.Base.{◌≡◌, ℤ, ◌≤ℤ◌, String, Option, Result, ok, inl, inr, ◌⊎◌}
use propagation_controller.Api.{Propagation}
use propagation_controller.Clients.Registry.{Contents}
use propagation_controller.Clients.{Bytes, PropagationBackendClient}
use propagation_controller.Clients.Clientset.{NamespacedName}
use propagation_controller.Clients.Transfer.{deploy_of}
use propagation_controller.Controller.{Cluster, Objects}
use propagation_controller.Controller.Round.{KeepsObject}
use propagation_controller.Controller.Round.Staging.{IsStaged, WasAllowed-IsStaged}
use propagation_controller.Controller.System.{
  System, system_cluster, system_objects, system_backend, reconcile_system,
}
use propagation_controller.Controller.System.Relation.{IsSeparate, IsDeployed}
use propagation_controller.Controller.System.Beside.{IsJoint, WasAllowed-IsJoint}
use propagation_controller.Controller.System.Opening.{IsHonest, IsReadyFor}
use propagation_controller.Controller.System.Rounds.{
  IsOpened, system_keeps, reconcile_system-IsRound,
}

module _ {V A Object Node : Type 0} (default_tag : String) (cluster : Cluster V)
    (objects : Objects V Object Node) (get_secret : NamespacedName → V → Result (Option Bytes) × V)
    (new_backend : String → Option Bytes → Result (PropagationBackendClient V A))
    (content : Contents V A) (separate : IsSeparate content cluster objects get_secret)
    (store_time : ℤ → ℤ) (keeps : KeepsObject store_time cluster)
    (honest : IsHonest content cluster new_backend)
    (mono : (w : V) → (cluster.now w).0 ≤ℤ (cluster.now (cluster.now w).1).0) (key : NamespacedName)
    (s : System V A) (p : Propagation)
    (found : (cluster.get_propagation key s.world).0 ≡ ok p) where
  -- A deployment by the round, of a version for which the reports of the wave in front count the
  -- bake time, while those beside keep up.
  pub record IsStagedDeployment (w : V) : Type 0 where
    pub deployed :
        IsDeployed default_tag cluster objects get_secret new_backend content
          (IsOpened default_tag cluster objects get_secret new_backend content separate store_time
            keeps honest key s p found)
          p.spec
          w
    pub staged :
        IsStaged default_tag
          (system_cluster {A = A} cluster)
          (system_objects objects)
          (system_backend default_tag get_secret new_backend)
          store_time
          (system_keeps default_tag cluster objects get_secret new_backend content separate
            store_time keeps honest)
          deployed.start
          p.spec
          deployed.version
          deployed.fetching
    pub joint :
        IsJoint default_tag cluster objects get_secret new_backend content separate store_time keeps
          honest p.spec deployed.start deployed.fetching

  pub reconcile_system-IsStaged :
      IsReadyFor default_tag content p s
      → let w =
          (reconcile_system default_tag get_secret new_backend cluster objects key s).1.world in
        (content.held w (deploy_of p.spec.deployment.name)
          ≡ content.held s.world (deploy_of p.spec.deployment.name))
        ⊎ IsStagedDeployment w
  reconcile_system-IsStaged ready =
      elim ((reconcile_system-IsRound default_tag cluster objects get_secret new_backend content
        separate store_time keeps honest key s p found ready).0).deployed [
          | inl same ↦ inl same
          | inr d ↦ inr (record {
            deployed = d;
            staged =
                WasAllowed-IsStaged default_tag (system_cluster {A = A} cluster)
                  (system_objects objects) (system_backend default_tag get_secret new_backend)
                  store_time
                  (system_keeps default_tag cluster objects get_secret new_backend content separate
                    store_time keeps honest)
                  (λ s. mono s.world) d.start p.spec d.version d.fetching d.was_allowed;
            joint =
                WasAllowed-IsJoint default_tag cluster objects get_secret new_backend content
                  separate store_time keeps honest d.start d.fetching p.spec d.version d.was_allowed
                  d.own;
          })
        ]
