-- ===== src/Controller/Decide.antt =====
-- The part of `Reconcile` that decides whether to propagate, and to which version.
use propagation_controller.Base.{
  ℤ, ltb_ℤ, String, not, ◌||◌, Option, none, some, List, [], ◌∷◌, ◌==◌, if◌then◌else◌,
}
use propagation_controller.Api.{DeploymentStatus, DeploymentStatusesReport, Propagation, healthy}
use propagation_controller.Api.Report.{
  find_deployment_status_report, last_status, version_healthy_duration,
}
use propagation_controller.Api.Next.{next_version}
use propagation_controller.Config.{Config, deployment_bake_time}

-- One round of the loop over `DeployWith`, or its end: go on, return to wait, or panic.
pub data Verdict : Type 0 where
  clear hold crash : Verdict

pub data Decision : Type 0 where
  wait : Decision
  no_candidate : Decision
  go : String → Decision
  broken : Decision

module _ {W : Type 0} (now : W → ℤ × W) (config : Config) (version : String) where
  -- The condition of the `if`; `LastStatus()` is dereferenced before the clock is read.
  unfoldable pub check_last :
      String → DeploymentStatusesReport → Option DeploymentStatus → W → Verdict × W
  check_last deployment report none w = (crash, w)
  check_last deployment report (some last) w =
      if not (last.version == version) || not (last.state == healthy)
      then (hold, w)
      else (let (t, w') = now w in
          (
            if ltb_ℤ (version_healthy_duration t report version)
                  (deployment_bake_time config deployment)
                then hold
                else clear,
            w',
          ))

  unfoldable pub check_deployment : String → Option DeploymentStatusesReport → W → Verdict × W
  unfolding check_last
  check_deployment deployment none w = (hold, w)
  check_deployment deployment (some report) w = check_last deployment report (last_status report) w

  unfoldable pub check_all : List String → List DeploymentStatusesReport → W → Verdict × W
  check_all [] reports w = (clear, w)
  check_all (deployment ∷ rest) reports w =
      let (v, w') =
        check_deployment deployment (find_deployment_status_report reports deployment) w in
      let next = check_all rest reports w' in
      elim v [ clear ↦ next | hold ↦ (hold, w') | crash ↦ (crash, w') ]

  -- The loop, and then `NextVersion`.
  unfoldable pub decide : String → Propagation → W → Decision × W
  decide default_tag p w =
      let (v, w') =
        check_all p.status.deploy_conditions.deploy_with p.status.deployment_statuses_reports w in
      elim v [
        | crash ↦ (broken, w')
        | hold ↦ (wait, w')
        | clear ↦
            let (next, w'') = next_version now default_tag p w' in
            (if next == "" then no_candidate else go next, w'')
      ]
