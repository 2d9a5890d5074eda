-- ===== src/Api.antt =====
-- The types of api/v1alpha1/propagation_types.go and health_types.go. A `metav1.Time` is an instant
-- and a `metav1.Duration` a length of time, both integers of nanoseconds. `HealthState` is a string
-- type in the source, and is one here. Of the object's metadata the name, the namespace and the
-- generation are kept, which are what the controllers read.
pub mod Report
pub mod Next
use propagation_controller.Base.{ℕ, ℤ, String, List, Option}

abbrev pub HealthState : Type 0
HealthState = String

abbrev pub healthy : HealthState
healthy = "Healthy"

abbrev pub pending : HealthState
pending = "Pending"

abbrev pub unhealthy : HealthState
unhealthy = "Unhealthy"

pub record DeploymentStatus : Type 0 where
  pub version : String
  pub start : ℤ
  pub state : HealthState

pub record DeploymentStatusesReport : Type 0 where
  pub deployment_name : String
  pub statuses : List DeploymentStatus

pub record PropagationBackend : Type 0 where
  pub base_url : String
  pub secret_ref : Option String

pub record LocalObjectField : Type 0 where
  pub kind : String
  pub name : String
  pub api_version : String
  pub field_path : String

-- `HealthSelector` is left out: the source marks it "Not implemented!" and nothing reads it.
pub record Deployment : Type 0 where
  pub name : String
  pub version : LocalObjectField

pub record PropagationSpec : Type 0 where
  pub poll_interval : ℤ
  pub backend : PropagationBackend
  pub deployment : Deployment

pub record DeployAfter : Type 0 where
  pub deployments : List String
  pub bake_time : ℤ

pub record DeployConditions : Type 0 where
  pub deploy_after : DeployAfter
  pub deploy_with : List String

-- `metav1.Condition`
pub record Condition : Type 0 where
  pub type : String
  pub status : String
  pub observed_generation : ℤ
  pub last_transition_time : ℤ
  pub reason : String
  pub message : String

pub record PropagationStatus : Type 0 where
  pub deployment_status : DeploymentStatus
  pub conditions : List Condition
  pub deployment_statuses_reports : List DeploymentStatusesReport
  pub deploy_conditions : DeployConditions

pub record Propagation : Type 0 where
  pub name : String
  pub namespace : String
  pub generation : ℤ
  pub spec : PropagationSpec
  pub status : PropagationStatus

-- The constant `Ready` of common.go.
abbrev pub ready_condition : String
ready_condition = "Ready"
