-- ===== src/Promotion.antt =====
-- `ReleasePromotionReconciler` of internal/controller/promotion/releasepromotion_controller.go, with
-- the types of api/promotion/v1alpha1/releasepromotion_types.go. The Kubernetes client and crane are
-- interfaces over the state `W` of the world.
pub mod Copy
pub mod Client
use Prim.Native.String.{◌++◌ as append}
use propagation_controller.Base.{
  ℤ, pos, String, Bool, true, false, Option, none, some, List, [], ◌∷◌, Result, ok, err, Error,
  ◌==◌, if◌then◌else◌,
}
use propagation_controller.Api.{Condition}
use propagation_controller.Clients.Clientset.{NamespacedName}

pub record Repository : Type 0 where
  pub url : String
  pub auth : Option String

pub record ReleasePromotionSpec : Type 0 where
  pub protocol : String
  pub releases_repository : Repository
  pub target_repository : Repository

-- A former form of `Repository`, which nothing uses.
pub record ReleaseRepository : Type 0 where
  pub url : String
  pub secret_ref : Option String

pub record ReleasePromotionStatus : Type 0 where
  pub conditions : List Condition

pub record ReleasePromotion : Type 0 where
  pub spec : ReleasePromotionSpec
  pub status : ReleasePromotionStatus

-- What is used of the Kubernetes client, of `meta` and of the clock.
pub record PromotionCluster (W : Type 0) : Type 0 where
  pub get_promotion : NamespacedName → W → Result ReleasePromotion × W
  pub is_not_found : Error → Bool
  pub now : W → ℤ × W
  pub set_status_condition : Condition → List Condition → W → Bool × List Condition × W
  pub update_promotion : ReleasePromotion → W → Result ReleasePromotion × W

-- What is used of crane.
pub record Crane (W : Type 0) : Type 0 where
  pub list_tags : String → W → Result (List String) × W
  pub copy : String → String → W → Result (Unit {0}) × W

-- The empty `ctrl.Result` with the error; or the panic of an index out of range.
pub data PromotionOutcome : Type 0 where
  finished : PromotionOutcome
  rejected : Error → PromotionOutcome
  out_of_range : PromotionOutcome

-- The condition `Available` that a failure leaves.
abbrev pub unavailable : ℤ → String → Error → Condition
unavailable t reason e = record {
  type = "Available";
  status = "False";
  observed_generation = pos 0;
  last_transition_time = t;
  reason = reason;
  message = e;
}

abbrev pub source_reference : ReleasePromotion → String → String
source_reference p release = append p.spec.releases_repository.url (append ":" release)

abbrev pub target_reference : ReleasePromotion → String
target_reference p = append p.spec.target_repository.url ":latest"

module _ {W : Type 0} (cluster : PromotionCluster W) (crane : Crane W) where
  -- The two blocks that report a failure; the result of the update is dropped.
  unfoldable pub report_failure : ReleasePromotion → String → Error → W → PromotionOutcome × W
  report_failure p reason e w =
      let (t, w') = cluster.now w in
      let (changed, conditions, w'') =
        cluster.set_status_condition (unavailable t reason e) p.status.conditions w' in
      let (_, w''') =
        cluster.update_promotion (record p { status = record { conditions = conditions } }) w'' in
      (rejected e, if changed then w''' else w'')

  -- The block for the protocol `oci`.
  unfoldable pub promote : ReleasePromotion → List String → W → PromotionOutcome × W
  unfolding report_failure
  promote p [] w = (out_of_range, w)
  promote p (release ∷ _) w =
      let (r, w') = crane.copy (source_reference p release) (target_reference p) w in
      elim r [ err e ↦ report_failure p "ArtifactPromotionFailed" e w' | ok _ ↦ (finished, w') ]

  -- From `ListTags` on.
  unfoldable pub promote_releases : ReleasePromotion → W → PromotionOutcome × W
  unfolding promote
  promote_releases p w =
      let (r, w') = crane.list_tags p.spec.releases_repository.url w in
      elim r [
        | err e ↦ report_failure p "ListTagsFailed" e w'
        | ok releases ↦ if p.spec.protocol == "oci" then promote p releases w' else (finished, w')
      ]

  -- `(*ReleasePromotionReconciler).Reconcile`
  unfoldable pub reconcile_promotion : NamespacedName → W → PromotionOutcome × W
  unfolding promote_releases
  reconcile_promotion key w =
      let (r, w') = cluster.get_promotion key w in
      elim r [
        | err e ↦ (if cluster.is_not_found e then finished else rejected e, w')
        | ok p ↦ promote_releases p w'
      ]
