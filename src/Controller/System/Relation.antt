-- ===== src/Controller/System/Relation.antt =====
-- What a round may do to the registry, and that rounds compose.
use propagation_controller.Base.{
  List, ◌≡◌, ap, ◌∙◌, String, Option, some, Result, ok, inl, inr, ◌⊎◌,
}
use propagation_controller.Api.{PropagationSpec}
use propagation_controller.Api.{Condition, Propagation}
use propagation_controller.Clients.{
  ArtifactMetadata, Bytes, PropagationBackendClient, deploy_status, status_payload, manifest,
  deploy,
}
use propagation_controller.Clients.Registry.{Contents, IsCoherent}
use propagation_controller.Clients.Steps.{status_of}
use propagation_controller.Clients.Transfer.{manifest_of, deploy_of}
use propagation_controller.Clients.Clientset.{NamespacedName, find_client}
use propagation_controller.Controller.{Cluster, Objects}
use propagation_controller.Controller.Round.{IsOwnVersion, own_status, WasAllowed}
use propagation_controller.Controller.System.{
  System, Handle, system_cluster, system_objects, system_backend,
}

status-ne-manifest : deploy_status ≡ manifest → ⊥
status-ne-manifest e = cc

status-ne-deploy : deploy_status ≡ deploy → ⊥
status-ne-deploy e = cc

deploy-ne-manifest : deploy ≡ manifest → ⊥
deploy-ne-manifest e = cc

-- The cluster is not the registry: its calls change nothing in there.
pub record IsSeparate {V A Object Node : Type 0} (content : Contents V A) (cluster : Cluster V)
    (objects : Objects V Object Node) (get_secret : NamespacedName → V → Result (Option Bytes) × V)
    : Type 0 where
  pub reads : (n : ArtifactMetadata) (w : V) → content.held (cluster.now w).1 n ≡ content.held w n
  pub gets :
      (key : NamespacedName) (n : ArtifactMetadata) (w : V)
      → content.held (cluster.get_propagation key w).1 n ≡ content.held w n
  pub updates :
      (p : Propagation) (n : ArtifactMetadata) (w : V)
      → content.held (cluster.update_status p w).1 n ≡ content.held w n
  pub sets_condition :
      (x : Condition) (xs : List Condition) (n : ArtifactMetadata) (w : V)
      → content.held (cluster.set_status_condition x xs w).1 n ≡ content.held w n
  pub gets_object :
      (api_version kind : String) (key : NamespacedName) (n : ArtifactMetadata) (w : V)
      → content.held (objects.get_object api_version kind key w).1 n ≡ content.held w n
  pub gets_secret :
      (key : NamespacedName) (n : ArtifactMetadata) (w : V)
      → content.held (get_secret key w).1 n ≡ content.held w n

-- The backend was made of some base URL and credentials.
abbrev pub IsMade :
    {V A : Type 0}
    → (String → Option Bytes → Result (PropagationBackendClient V A))
    → PropagationBackendClient V A
    → Type 0
IsMade new_backend b = (url : String) × (secret : Option Bytes) × (new_backend url secret ≡ ok b)

-- The handle's client is coherent, and is the one that the clientset has.
pub record IsOwn {V A : Type 0} (default_tag : String)
    (new_backend : String → Option Bytes → Result (PropagationBackendClient V A))
    (content : Contents V A) (x : Handle V A × System V A) : Type 0 where
  pub coherent : IsCoherent default_tag content x.0.client x.1.world
  pub stored : find_client x.0.key x.1.clientset.clients ≡ some x.0.client
  pub is_made : IsMade new_backend x.0.client.backend

-- `Begins` says where the round starts, behind the opening of the client.
module _ {V A Object Node : Type 0} (default_tag : String) (cluster : Cluster V)
    (objects : Objects V Object Node) (get_secret : NamespacedName → V → Result (Option Bytes) × V)
    (new_backend : String → Option Bytes → Result (PropagationBackendClient V A))
    (content : Contents V A) (Begins : Handle V A × System V A → Type 0) where
  -- The deploy place holds the bytes of the manifest of a version that the decision allowed. When the
  -- statuses that it rests on were fetched, the client was coherent, and the registry held what it held
  -- at the start of the round, but for the status and the deploy place of the deployment itself.
  pub record IsDeployed (spec : PropagationSpec) (w : V) : Type 0 where
    pub version : String
    pub start : Handle V A × System V A
    pub begins : Begins start
    pub fetching : Handle V A × System V A
    pub own : IsOwn default_tag new_backend content fetching
    pub unchanged :
        (n : ArtifactMetadata)
        → (status_of spec.deployment.name ≡ n)
          ⊎ ((deploy_of spec.deployment.name ≡ n)
              ⊎ (content.held fetching.1.world n ≡ content.held start.1.world n))
    pub was_allowed :
        WasAllowed default_tag
          (system_cluster {A = A} cluster)
          (system_objects objects)
          (system_backend default_tag get_secret new_backend)
          start
          spec
          version
          fetching
    pub copy : Bytes
    pub read : content.held w (manifest_of spec.deployment.name version) ≡ some copy
    pub written : content.held w (deploy_of spec.deployment.name) ≡ some copy

  -- The status place holds the bytes of what a backend makes of the status healthy at a version that
  -- was read as the specification says.
  pub record IsReported (spec : PropagationSpec) (w : V) : Type 0 where
    pub version : String
    pub own :
        IsOwnVersion default_tag
          (system_cluster {A = A} cluster)
          (system_objects objects)
          (system_backend default_tag get_secret new_backend)
          spec
          version
    pub backend : PropagationBackendClient V A
    pub is_made : IsMade new_backend backend
    pub new : A
    pub made : backend.new_artifact (status_payload (own_status version)) ≡ ok new
    pub written : content.held w (status_of spec.deployment.name) ≡ some (content.raw new)

  -- What may happen to the registry in a round: its own status may be published, and
  -- an allowed version may be deployed. Nothing else changes.
  pub record IsRound (spec : PropagationSpec) (w w' : V) : Type 0 where
    pub others :
        (n : ArtifactMetadata)
        → (status_of spec.deployment.name ≡ n)
          ⊎ ((deploy_of spec.deployment.name ≡ n) ⊎ (content.held w' n ≡ content.held w n))
    pub deployed :
        (content.held w' (deploy_of spec.deployment.name)
          ≡ content.held w (deploy_of spec.deployment.name))
        ⊎ IsDeployed spec w'
    pub reported :
        (content.held w' (status_of spec.deployment.name)
          ≡ content.held w (status_of spec.deployment.name))
        ⊎ IsReported spec w'

  pub not-deploy_status : (d : String) → status_of d ≡ deploy_of d → ⊥
  not-deploy_status d e = absurd (status-ne-deploy (ap (λ m. m.type) e))

  not-manifest_status : (d v : String) → status_of d ≡ manifest_of d v → ⊥
  not-manifest_status d v e = absurd (status-ne-manifest (ap (λ m. m.type) e))

  pub not-manifest_deploy : (d v : String) → deploy_of d ≡ manifest_of d v → ⊥
  not-manifest_deploy d v e = absurd (deploy-ne-manifest (ap (λ m. m.type) e))

  -- The manifests stay.
  IsRound-manifest :
      (spec : PropagationSpec) (w w' : V) (v : String)
      → IsRound spec w w'
      → content.held w' (manifest_of spec.deployment.name v)
        ≡ content.held w (manifest_of spec.deployment.name v)
  IsRound-manifest spec w w' v r = elim (r.others (manifest_of spec.deployment.name v)) [
    | inl e ↦ absurd (not-manifest_status _ v e)
    | inr (inl e) ↦ absurd (not-manifest_deploy _ v e)
    | inr (inr e) ↦ e
  ]

  pub IsRound-same :
      (spec : PropagationSpec) (w w' : V)
      → ((n : ArtifactMetadata) → content.held w' n ≡ content.held w n)
      → IsRound spec w w'
  IsRound-same spec w w' same = record {
    others = λ n. inr (inr (same n));
    deployed = inl (same _);
    reported = inl (same _);
  }

  pub IsRound-trans :
      (spec : PropagationSpec) (u v w : V) → IsRound spec u v → IsRound spec v w → IsRound spec u w
  IsRound-trans spec u v w r s = record {
    others = λ n. elim (s.others n) [
      | inl e ↦ inl e
      | inr (inl e) ↦ inr (inl e)
      | inr (inr e) ↦ elim (r.others n) [
        | inl f ↦ inl f
        | inr (inl f) ↦ inr (inl f)
        | inr (inr f) ↦ inr (inr (e ∙ f))
      ]
    ];
    deployed = elim s.deployed [
      | inr d ↦ inr d
      | inl e ↦ elim r.deployed [
        | inl f ↦ inl (e ∙ f)
        | inr d ↦ inr (record {
          version = d.version;
          start = d.start;
          begins = d.begins;
          fetching = d.fetching;
          own = d.own;
          unchanged = d.unchanged;
          was_allowed = d.was_allowed;
          copy = d.copy;
          read = IsRound-manifest spec v w d.version s ∙ d.read;
          written = e ∙ d.written;
        })
      ]
    ];
    reported = elim s.reported [
      | inr d ↦ inr d
      | inl e ↦ elim r.reported [
        | inl f ↦ inl (e ∙ f)
        | inr d ↦ inr (record {
          version = d.version;
          own = d.own;
          backend = d.backend;
          is_made = d.is_made;
          new = d.new;
          made = d.made;
          written = e ∙ d.written;
        })
      ]
    ];
  }
