-- ===== src/Controller/Round.antt =====
-- What a round may do, as one relation. A relation on states that contains each call that a round
-- makes, and is closed under composition, contains the whole round.
pub mod Reading
pub mod Ending
pub mod Whole
pub mod Staging
pub mod Beside
use propagation_controller.Base.{◌≡◌, ℤ, String, none, List, map, Result, ok}
use propagation_controller.Api.{
  DeploymentStatus, DeploymentStatusesReport, healthy, Condition, Propagation, PropagationSpec,
}
use propagation_controller.Config.{Config, deploy_conditions_from_config}
use propagation_controller.Clients.Clientset.{NamespacedName}
use propagation_controller.Controller.{Cluster, Objects, Backend, get_version}
use propagation_controller.Controller.Fetch.{Fetched, fetch_all}
use propagation_controller.Controller.Gate.{IsAllowed}
use propagation_controller.Controller.Reconcile.{
  zero_time, with_status, condition, set_condition, required_statuses,
}

-- A status, and a report, with the instants that the cluster stores for its own. (A `metav1.Time` is written with
-- whole seconds.)
abbrev pub stored_status : (ℤ → ℤ) → DeploymentStatus → DeploymentStatus
stored_status store_time s = record s { start = store_time s.start }

abbrev pub stored_report : (ℤ → ℤ) → DeploymentStatusesReport → DeploymentStatusesReport
stored_report store_time r = record r { statuses = map (stored_status store_time) r.statuses }

-- What the answer to an update of the status keeps of the object that was sent: its specification,
-- the conditions that it deploys by, and its reports, but for what storing does to an instant.
pub record KeepsObject {W : Type 0} (store_time : ℤ → ℤ) (cluster : Cluster W) : Type 0 where
  pub spec : (p p' : Propagation) (w : W) → (cluster.update_status p w).0 ≡ ok p' → p'.spec ≡ p.spec
  pub conditions :
      (p p' : Propagation) (w : W)
      → (cluster.update_status p w).0 ≡ ok p'
      → p'.status.deploy_conditions ≡ p.status.deploy_conditions
  pub reports :
      (p p' : Propagation) (w : W)
      → (cluster.update_status p w).0 ≡ ok p'
      → p'.status.deployment_statuses_reports
        ≡ map (stored_report store_time) p.status.deployment_statuses_reports

-- The status that a round publishes for its own deployment.
abbrev pub own_status : String → DeploymentStatus
own_status version = record { version = version; start = zero_time; state = healthy }

module _ {W C Object Node : Type 0} (default_tag : String) (cluster : Cluster W)
    (objects : Objects W Object Node) (backend : Backend W C) where
  -- What the round has fetched for the object, from a client and a state on.
  abbrev pub fetched_from : Propagation → C × W → Fetched W C
  fetched_from p x =
      fetch_all cluster backend (required_statuses default_tag cluster objects backend p)
        p.status.deployment_statuses_reports none x.0 x.1

  -- The object with the condition that it was fetched, and the state behind the setting of that.
  abbrev pub fetched_condition : Propagation → Fetched W C → Propagation × W
  fetched_condition p f =
      set_condition default_tag cluster objects backend p
        (condition p "StatusesFetched" "True" "StatusesFetchSuccess" "Statuses fetched") f.world

  -- The object that is stored, with the reports.
  abbrev pub fresh : Propagation → Fetched W C → Propagation
  fresh p f =
      let p' = (fetched_condition p f).0 in
      with_status p' (record p'.status { deployment_statuses_reports = f.reports })

  -- The version was read as the specification says.
  abbrev pub IsOwnVersion : PropagationSpec → String → Type 0
  IsOwnVersion spec version =
      (p : Propagation) × (w : W) × (p.spec ≡ spec) × ((get_version objects p w).0 ≡ ok version)

  -- In a round from `start` on, with the configuration that was fetched there, the decision allowed
  -- the version for an object with the specification and the conditions that the configuration has
  -- for it. It rests on the answer to the update that stores the reports, and these were fetched from
  -- `x` on without an error.
  pub record WasAllowed (start : C × W) (spec : PropagationSpec) (v : String) (x : C × W)
      : Type 0 where
    pub config : Config
    pub version : String
    pub object : Propagation
    pub stored : Propagation
    pub configured : (backend.get_config start.0 start.1).0 ≡ ok config
    pub same_spec : object.spec ≡ spec
    pub derived : deploy_conditions_from_config object config ≡ ok object.status.deploy_conditions
    pub reader : Propagation
    pub reading : W
    pub same_reader : reader.spec ≡ spec
    pub read : (get_version objects reader reading).0 ≡ ok version
    pub complete : (fetched_from object x).error ≡ none
    pub updated :
        (cluster.update_status
          (fresh object (fetched_from object x))
          (fetched_condition object (fetched_from object x)).1).0
        ≡ ok stored
    pub allowed :
        IsAllowed cluster.now config version default_tag stored
          (cluster.update_status
            (fresh object (fetched_from object x))
            (fetched_condition object (fetched_from object x)).1).1
          v

  -- The decision was taken on the way from `start` to `y`.
  pub record IsDecided (R : C × W → C × W → Type 0) (start : C × W) (spec : PropagationSpec)
      (v : String) (y : C × W) : Type 0 where
    pub fetching : C × W
    pub reached : R start fetching
    pub from_there : R fetching y
    pub was_allowed : WasAllowed start spec v fetching

  -- `R` contains every call that a round from `start` on makes for an object with the specification.
  pub record IsEffect (spec : PropagationSpec) (start : C × W) (R : C × W → C × W → Type 0)
      : Type 0 where
    pub stays : (s : C × W) → R s s
    pub composes : (s t u : C × W) → R s t → R t u → R s u
    pub reads : (c : C) (w : W) → R (c, w) (c, (cluster.now w).1)
    pub updates : (p : Propagation) (c : C) (w : W) → R (c, w) (c, (cluster.update_status p w).1)
    pub sets_condition :
        (x : Condition) (xs : List Condition) (c : C) (w : W)
        → R (c, w) (c, (cluster.set_status_condition x xs w).1)
    pub gets_object :
        (api_version kind : String) (key : NamespacedName) (c : C) (w : W)
        → R (c, w) (c, (objects.get_object api_version kind key w).1)
    pub gets_config :
        (c : C) (w : W) → R (c, w) ((backend.get_config c w).1, (backend.get_config c w).2)
    pub gets_status :
        (d : String) (c : C) (w : W)
        → R (c, w) ((backend.get_status d c w).1, (backend.get_status d c w).2)
    pub publishes :
        (version : String) (c : C) (w : W)
        → IsOwnVersion spec version
        → let x = backend.publish_status spec.deployment.name (own_status version) c w in
          R (c, w) (x.1, x.2)
    pub propagates :
        (v : String) (c : C) (w : W)
        → IsDecided R start spec v (c, w)
        → let x = backend.propagate spec.deployment.name v c w in R (c, w) (x.1, x.2)
