-- ===== src/Controller/Fleet/Lockstep.antt =====
-- The deployments beside one that a round deploys have published, from what ran in their own clusters,
-- the version that the round read as its own.
use propagation_controller.Base.{◌≡◌, ℤ, String, All, ◌⊎◌}
use propagation_controller.Clients.Registry.{Contents}
use propagation_controller.Clients.{PropagationBackendClient}
use propagation_controller.Clients.Exchange.{IsCodec}
use propagation_controller.Clients.Steps.{status_of}
use propagation_controller.Controller.System.Relation.{IsMade}
use propagation_controller.Controller.Fleet.{Site, IsSite, Fleet}
use propagation_controller.Controller.Fleet.Carried.{Deployed, Reported}
use propagation_controller.Controller.Fleet.Since.{MadeSince}

module _ {V A Object Node : Type 0} (default_tag : String) (content : Contents V A)
    (store_time : ℤ → ℤ) (sites : String → Site V A Object Node)
    (laws : (d : String) → IsSite content store_time d (sites d)) where
  -- What the backend of a site makes of a status is parsed back to the status as it is stored.
  abbrev pub IsUnderstood : Type 0
  IsUnderstood =
      (d : String) (b : PropagationBackendClient V A)
      → IsMade (sites d).new_backend b
      → IsCodec content store_time b

  -- The status of `e` at the state is the one from `s₀`, or a round of its own controller published it
  -- healthy at the version, which it had read as its own.
  pub record HasRun (s₀ : Fleet V A) (s : Fleet V A) (version e : String) : Type 0 where
    pub since :
        MadeSince default_tag content store_time sites laws
          (Reported default_tag content store_time sites laws e)
          s₀
          s.world
    pub same_version : since.made.2.version ≡ version

  abbrev pub KeepsUp : Fleet V A → String → Fleet V A → String → String → Type 0
  KeepsUp s₀ d s version e =
      (d ≡ e)
      ⊎ ((content.held s.world (status_of e) ≡ content.held s₀.world (status_of e))
          ⊎ HasRun s₀ s version e)

  -- In the deployment's cluster is installed what a round has deployed since, and the deployments
  -- beside kept up with the version that it read as its own.
  pub record IsInStep (s₀ : Fleet V A) (d : String) (w : V) : Type 0 where
    pub since :
        MadeSince default_tag content store_time sites laws
          (Deployed default_tag content store_time sites laws d)
          s₀
          w
    pub kept_up :
        All
          (KeepsUp s₀ d since.begin since.made.2.joint.together.version)
          since.made.2.joint.together.beside
