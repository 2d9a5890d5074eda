-- ===== src/Controller/Fleet/Installed.antt =====
-- What is installed in the clusters of a fleet, in every state that it can reach.
use propagation_controller.Base.{ℤ, String}
use propagation_controller.Clients.Registry.{Contents}
use propagation_controller.Clients.Steps.{status_of}
use propagation_controller.Clients.Transfer.{deploy_of}
use propagation_controller.Controller.Fleet.{Site, IsSite, Fleet}
use propagation_controller.Controller.Fleet.Since.{Since}
use propagation_controller.Controller.Fleet.Carried.{Deployed, Reported}

module _ {V A Object Node : Type 0} (default_tag : String) (content : Contents V A)
    (store_time : ℤ → ℤ) (sites : String → Site V A Object Node)
    (laws : (d : String) → IsSite content store_time d (sites d)) where
  -- In the deployment's cluster is installed what was there at `s₀`, or what a round has deployed since.
  abbrev pub Installed : Fleet V A → String → Fleet V A → Type 0
  Installed s₀ d s =
      Since default_tag content store_time sites laws
        (Deployed default_tag content store_time sites laws d) (deploy_of d) s₀ s

  -- The deployment's status is what it was at `s₀`, or what a round has published since.
  abbrev pub Published : Fleet V A → String → Fleet V A → Type 0
  Published s₀ d s =
      Since default_tag content store_time sites laws
        (Reported default_tag content store_time sites laws d) (status_of d) s₀ s
