-- ===== src/Api/Next.antt =====
-- `(*Propagation).NextVersion` of api/v1alpha1/propagation_types.go. `default_tag` is the constant
-- `name.DefaultTag` of go-containerregistry. Each call of `VersionHealthyDuration` reads the clock:
-- `now` gives the reading, and the state behind it.
pub mod Newest
pub mod Candidates
pub mod Baked
pub mod Choice
use mathlib.Core.List.{reverse}
use propagation_controller.Base.{
  ℤ, ltb_ℤ, String, Bool, true, false, not, List, [], ◌∷◌, ◌++◌, contains, ◌==◌, if◌then◌else◌,
}
use propagation_controller.Api.{
  DeploymentStatus, DeploymentStatusesReport, DeployAfter, Propagation,
}
use propagation_controller.Api.Report.{version_healthy_duration}

-- The innermost loop over one report's statuses, given with the newest first as the loop meets them.
unfoldable pub add_versions : List String → List DeploymentStatus → List String
add_versions versions [] = versions
add_versions versions (status ∷ older) =
    add_versions
      (if not (contains versions status.version) then versions ++ status.version ∷ [] else versions)
      older

-- The loop that fills `versions` from the reports of the first deployment to wait for.
unfoldable pub add_reports : String → List String → List DeploymentStatusesReport → List String
unfolding add_versions
add_reports deployment versions [] = versions
add_reports deployment versions (report ∷ reports) =
    add_reports deployment
      (if report.deployment_name == deployment
        then add_versions versions (reverse report.statuses)
        else versions)
      reports

module _ {S : Type 0} (now : S → ℤ × S) where
  -- The inner loop over the reports for one candidate; `false` is `continue versions`.
  unfoldable pub bakes : DeployAfter → String → List DeploymentStatusesReport → S → Bool × S
  bakes after v [] s = (true, s)
  bakes after v (r ∷ reports) s =
      let skip = bakes after v reports s in
      let (t, s') = now s in
      let next = bakes after v reports s' in
      if not (contains after.deployments r.deployment_name)
      then skip
      else if ltb_ℤ (version_healthy_duration t r v) after.bake_time
      then (false, s')
      else next

  -- The loop labelled `versions`.
  unfoldable pub first_baked :
      DeployAfter → List DeploymentStatusesReport → List String → S → String × S
  first_baked after reports [] s = ("", s)
  first_baked after reports (v ∷ versions) s =
      let (baked, s') = bakes after v reports s in
      let rest = first_baked after reports versions s' in if baked then (v, s') else rest

  -- The body of `NextVersion` by the deployments to wait for.
  unfoldable pub next_after :
      String → DeployAfter → List String → List DeploymentStatusesReport → S → String × S
  next_after default_tag after [] reports s = (default_tag, s)
  next_after default_tag after (first ∷ _) reports s =
      first_baked after reports (add_reports first [] reports) s

  unfoldable pub next_version : String → Propagation → S → String × S
  unfolding next_after
  next_version default_tag p s =
      let after = p.status.deploy_conditions.deploy_after in
      next_after default_tag after after.deployments p.status.deployment_statuses_reports s
