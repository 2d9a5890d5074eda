-- ===== src/Controller/System/Beside.antt =====
-- What the registry held for the deployments beside when a round of the whole reconciler came to deploy.
use propagation_controller.Base.{
  sym, ◌≡◌, refl, ◌∙◌, ℤ, String, Option, some, List, All, All-imp, Result, ok,
}
use propagation_controller.Api.{
  DeploymentStatus, DeploymentStatusesReport, PropagationSpec, healthy,
}
use propagation_controller.Config.{Config}
use propagation_controller.Clients.Registry.{Contents}
use propagation_controller.Clients.{ArtifactMetadata, Bytes, PropagationBackendClient, get_status}
use propagation_controller.Clients.Steps.{status_of, get_status-IsKept, get_status-held}
use propagation_controller.Clients.Clientset.{NamespacedName}
use propagation_controller.Controller.{Cluster, Objects}
use propagation_controller.Controller.Round.{KeepsObject, WasAllowed}
use propagation_controller.Controller.Round.Beside.{IsSettled, IsTogether, WasAllowed-IsTogether}
use propagation_controller.Controller.System.{
  System, Handle, through, system_cluster, system_objects, system_backend,
}
use propagation_controller.Controller.System.Relation.{IsSeparate, IsOwn}
use propagation_controller.Controller.System.Own.{IsOwn-outside, IsOwn-through}
use propagation_controller.Controller.System.Opening.{IsHonest}
use propagation_controller.Controller.System.Rounds.{system_keeps}

module _ {V A Object Node : Type 0} (default_tag : String) (cluster : Cluster V)
    (objects : Objects V Object Node) (get_secret : NamespacedName → V → Result (Option Bytes) × V)
    (new_backend : String → Option Bytes → Result (PropagationBackendClient V A))
    (content : Contents V A) (separate : IsSeparate content cluster objects get_secret) where
  -- A state on the way through the fetching of the statuses from `x` on: the registry holds the same,
  -- and the client has the same backend.
  pub record IsFetching (x y : Handle V A × System V A) : Type 0 where
    pub own : IsOwn default_tag new_backend content y
    pub same : (n : ArtifactMetadata) → content.held y.1.world n ≡ content.held x.1.world n
    pub backend : y.0.client.backend ≡ x.0.client.backend

  pub IsFetching-now :
      (x : Handle V A × System V A) (h : Handle V A) (s : System V A)
      → IsFetching x (h, s)
      → IsFetching x (h, record s { world = (cluster.now s.world).1 })
  IsFetching-now x h s q = record {
    own =
        IsOwn-outside default_tag get_secret new_backend content h s (cluster.now s.world).1
          (λ n. separate.reads n s.world) q.own;
    same = λ n. separate.reads n s.world ∙ q.same n;
    backend = q.backend;
  }

  pub IsFetching-get_status :
      (x : Handle V A × System V A) (d : String) (h : Handle V A) (s : System V A)
      → IsFetching x (h, s)
      → let y = through h s (get_status default_tag d h.client s.world) in IsFetching x (y.1, y.2)
  IsFetching-get_status x d h s q =
      let y = get_status default_tag d h.client s.world in
      let kept = get_status-IsKept default_tag content h.client s.world q.own.coherent d in
      record {
        own =
            IsOwn-through default_tag get_secret new_backend content h s y.1 y.2 q.own kept.backend
              kept.coherent;
        same = λ n. kept.keeps n ∙ q.same n;
        backend = kept.backend ∙ q.backend;
      }

  module _ (store_time : ℤ → ℤ) (keeps : KeepsObject store_time cluster)
      (honest : IsHonest content cluster new_backend) where
    abbrev Keeps : KeepsObject store_time (system_cluster {A = A} cluster)
    Keeps =
        system_keeps default_tag cluster objects get_secret new_backend content separate store_time
          keeps honest

    -- The registry held a status of the deployment with the version, and it was healthy.
    pub record HasPublished (x : Handle V A × System V A) (version d : String) : Type 0 where
      pub bytes : Bytes
      pub status : DeploymentStatus
      pub held : content.held x.1.world (status_of d) ≡ some bytes
      pub parsed : content.decode bytes ≡ ok status
      pub same_version : status.version ≡ version
      pub is_healthy : status.state ≡ healthy

    abbrev Settled :
        (x : Handle V A × System V A)
        → Config
        → String
        → List DeploymentStatusesReport
        → String
        → Type 0
    Settled x =
        IsSettled default_tag (system_cluster {A = A} cluster) (system_objects objects)
          (system_backend default_tag get_secret new_backend) store_time Keeps (IsFetching x)
          (λ h s q. IsFetching-now x h s q) (λ d h s q. IsFetching-get_status x d h s q)

    IsSettled-HasPublished :
        (x : Handle V A × System V A) (config : Config) (version : String)
        (reports : List DeploymentStatusesReport) (d : String)
        → Settled x config version reports d
        → HasPublished x version d
    IsSettled-HasPublished x config version reports d settled =
        let (bytes, held, parsed) =
          get_status-held default_tag content settled.client.client settled.world.world
            settled.kind.own.coherent d settled.status settled.returned in
        record {
          bytes = bytes;
          status = settled.status;
          held = sym (settled.kind.same (status_of d)) ∙ held;
          parsed = parsed;
          same_version = settled.same_version;
          is_healthy = settled.is_healthy;
        }

    -- All deployments beside were at the version that the round read as its own, by what the registry
    -- held when the statuses were fetched.
    pub record IsJoint (spec : PropagationSpec) (start x : Handle V A × System V A) : Type 0 where
      pub together :
          IsTogether default_tag
            (system_cluster {A = A} cluster)
            (system_objects objects)
            (system_backend default_tag get_secret new_backend)
            store_time
            Keeps
            (IsFetching x)
            (λ h s q. IsFetching-now x h s q)
            (λ d h s q. IsFetching-get_status x d h s q)
            start
            spec
            x
      pub published : All (HasPublished x together.version) together.beside

    pub WasAllowed-IsJoint :
        (start x : Handle V A × System V A) (spec : PropagationSpec) (v : String)
        → WasAllowed default_tag
            (system_cluster {A = A} cluster)
            (system_objects objects)
            (system_backend default_tag get_secret new_backend)
            start
            spec
            v
            x
        → IsOwn default_tag new_backend content x
        → IsJoint spec start x
    WasAllowed-IsJoint start x spec v was own =
        let together =
          WasAllowed-IsTogether default_tag (system_cluster {A = A} cluster)
            (system_objects objects) (system_backend default_tag get_secret new_backend) store_time
            Keeps (IsFetching x) (λ h s q. IsFetching-now x h s q)
            (λ d h s q. IsFetching-get_status x d h s q) start spec v x was
            (record { own = own; same = λ n. refl; backend = refl }) in
        record {
          together = together;
          published =
              All-imp
                (λ e settled. IsSettled-HasPublished x together.config together.version _ e settled)
                together.beside together.settled;
        }
