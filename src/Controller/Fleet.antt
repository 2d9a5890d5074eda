-- ===== src/Controller/Fleet.antt =====
-- The controllers of all deployments over one registry. Each is a process of its own, with a clientset,
-- in a cluster of its own, and reconciles the object of its deployment, a round at a time. No two
-- rounds overlap. Between the rounds a process may start again, and others may publish the
-- configuration and new manifests.
pub mod Bystander
pub mod Invariant
pub mod Carried
pub mod Since
pub mod Installed
pub mod Lockstep
use propagation_controller.Base.{
  ◌≡◌, ℤ, ◌≤ℤ◌, String, Option, none, Result, ok, ◌⊎◌, ◌==◌, if◌then◌else◌,
}
use propagation_controller.Api.{Propagation}
use propagation_controller.Clients.Registry.{Contents}
use propagation_controller.Clients.{ArtifactMetadata, Bytes, PropagationBackendClient, manifest}
use propagation_controller.Clients.Steps.{config_place}
use propagation_controller.Clients.Clientset.{
  NamespacedName, PropagationClientset, new_propagation_clientset, key_of,
}
use propagation_controller.Controller.{Cluster, Objects}
use propagation_controller.Controller.Round.{KeepsObject}
use propagation_controller.Controller.System.{System, reconcile_system}
use propagation_controller.Controller.System.Relation.{IsSeparate}
use propagation_controller.Controller.System.Opening.{IsHonest}

-- Where a controller runs: the key of its object and what it calls.
pub record Site (V A Object Node : Type 0) : Type 0 where
  pub key : NamespacedName
  pub cluster : Cluster V
  pub objects : Objects V Object Node
  pub get_secret : NamespacedName → V → Result (Option Bytes) × V
  pub new_backend : String → Option Bytes → Result (PropagationBackendClient V A)

-- The site is that of the deployment: its object is always for that one. Its cluster is not the
-- registry, its clock does not go back, and its objects name the one
-- registry.
pub record IsSite {V A Object Node : Type 0} (content : Contents V A) (store_time : ℤ → ℤ)
    (d : String) (site : Site V A Object Node) : Type 0 where
  pub separate : IsSeparate content site.cluster site.objects site.get_secret
  pub keeps : KeepsObject store_time site.cluster
  pub honest : IsHonest content site.cluster site.new_backend
  pub mono : (w : V) → (site.cluster.now w).0 ≤ℤ (site.cluster.now (site.cluster.now w).1).0
  pub named :
      (w : V) (p : Propagation)
      → (site.cluster.get_propagation site.key w).0 ≡ ok p
      → p.spec.deployment.name ≡ d
  pub keyed :
      (w : V) (p : Propagation)
      → (site.cluster.get_propagation site.key w).0 ≡ ok p
      → key_of p ≡ site.key

-- The clientset of each deployment's controller, and the world that they share.
pub record Fleet (V A : Type 0) : Type 0 where
  pub clientsets : String → PropagationClientset V A
  pub world : V

module _ {V A : Type 0} where
  abbrev pub with_clientset : String → PropagationClientset V A → V → Fleet V A → Fleet V A
  with_clientset d set w s = record {
    clientsets = λ e. if e == d then set else s.clientsets e;
    world = w;
  }

  -- What the controller of the deployment sees.
  abbrev pub system_at : String → Fleet V A → System V A
  system_at d s = record { clientset = s.clientsets d; world = s.world }

  -- The controller of the deployment starts again, with no client.
  abbrev pub restart_at : String → Fleet V A → Fleet V A
  restart_at d s = with_clientset d new_propagation_clientset s.world s

module _ {V A : Type 0} (content : Contents V A) where
  -- What others may change in the registry: the configuration, and manifests that are not there yet.
  abbrev pub IsOutside : V → V → Type 0
  IsOutside w w' =
      (n : ArtifactMetadata)
      → (content.held w' n ≡ content.held w n)
        ⊎ ((n ≡ config_place) ⊎ ((n.type ≡ manifest) × (content.held w n ≡ none)))

module _ {V A Object Node : Type 0} (default_tag : String) (content : Contents V A)
    (sites : String → Site V A Object Node) where
  -- A round of the deployment's controller.
  abbrev pub round_at : String → Fleet V A → Fleet V A
  round_at d s =
      let site = sites d in
      let x =
        (reconcile_system default_tag site.get_secret site.new_backend site.cluster site.objects
          site.key (system_at d s)).1 in
      with_clientset d x.clientset x.world s

  pub data Step (s t : Fleet V A) : Type 0 where
    round : (d : String) → t ≡ round_at d s → Step s t
    restart : (d : String) → t ≡ restart_at d s → Step s t
    outside : t.clientsets ≡ s.clientsets → IsOutside content s.world t.world → Step s t

  -- Any number of steps.
  pub data Reach (s : Fleet V A) : Fleet V A → Type 0 where
    start : Reach s s
    next : {t u : Fleet V A} → Reach s t → Step t u → Reach s u
