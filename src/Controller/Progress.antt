-- ===== src/Controller/Progress.antt =====
-- When the reconciler goes on: the conditions of `Controller.Gate` are also enough.
use mathlib.Core.Path.{subst}
use mathlib.Core.List.{head-eq_of_cons-eq, tail-eq_of_cons-eq}
use propagation_controller.Base.{
  ◌≡◌, ◌≢◌, refl, sym, ap, ◌∙◌, ℤ, ◌≤ℤ◌, String, Bool, true, false, some, List, [], ◌∷◌, ◌++◌, All,
  ◌==◌, if◌then◌else◌, inl, inr, Bool-cases, eq_iff, arith, false≢true, contains,
}
use propagation_controller.Api.{DeploymentStatus, DeploymentStatusesReport, Propagation, healthy}
use propagation_controller.Api.Report.{
  find_deployment_status_report, last_status, version_healthy_duration,
}
use propagation_controller.Api.Report.Duration.{version_healthy_duration_mono}
use propagation_controller.Api.Next.{next_version, add_reports}
use propagation_controller.Api.Next.Baked.{is_baked, is_baked_before}
use propagation_controller.Api.Next.Newest.{add_reports-newest}
use propagation_controller.Api.Next.Choice.{next_version-Choice}
use propagation_controller.Config.{Config, deployment_bake_time}
use propagation_controller.Controller.Decide.{
  clear, no_candidate, go, check_last, check_deployment, check_all, decide,
}
use propagation_controller.Controller.Gate.{
  unlike, too_soon, first_check, verdict, to_decision, decide_step,
}

-- At instant `t` the deployment has run the version, healthy, for its wave's bake time.
pub record IsSettled (t : ℤ) (config : Config) (version deployment : String)
    (reports : List DeploymentStatusesReport) : Type 0 where
  pub report : DeploymentStatusesReport
  pub last : DeploymentStatus
  pub found : find_deployment_status_report reports deployment ≡ some report
  pub newest : last_status report ≡ some last
  pub same_version : last.version ≡ version
  pub is_healthy : last.state ≡ healthy
  pub baked : deployment_bake_time config deployment ≤ℤ version_healthy_duration t report version

module _ {W : Type 0} (now : W → ℤ × W) (mono : (w : W) → (now w).0 ≤ℤ (now (now w).1).0)
    (config : Config) (version : String) where
  check_last-settled :
      (t : ℤ) (d : String) (r : DeploymentStatusesReport) (last : DeploymentStatus) (w : W)
      → t ≤ℤ (now w).0
      → last.version ≡ version
      → last.state ≡ healthy
      → deployment_bake_time config d ≤ℤ version_healthy_duration t r version
      → check_last now config version d r (some last) w ≡ (clear, (now w).1)
  unfolding check_last
  check_last-settled t d r last w le same good baked =
      let longer = version_healthy_duration_mono t (now w).0 r version le in
      let like : unlike now config version d r last w ≡ false =
        ground (arith, eq_iff last.version version, eq_iff last.state healthy) in
      let late : too_soon now config version d r last w ≡ false = ground (arith, longer, baked) in
      rw (like, late)

  -- A settled deployment does not hold the loop up.
  first_check-settled :
      (t : ℤ) (d : String) (reports : List DeploymentStatusesReport) (w : W)
      → t ≤ℤ (now w).0
      → IsSettled t config version d reports
      → first_check now config version d reports w ≡ (clear, (now w).1)
  unfolding check_deployment
  first_check-settled t d reports w le s =
      rw (s.found, check_deployment, s.newest)
        (check_last-settled t d s.report s.last w le s.same_version s.is_healthy s.baked)

  check_all_later :
      (d : String) (rest : List String) (reports : List DeploymentStatusesReport) (w : W)
      → first_check now config version d reports w ≡ (clear, (now w).1)
      → check_all now config version (d ∷ rest) reports w
        ≡ check_all now config version rest reports (now w).1
  unfolding check_all
  check_all_later d rest reports w e =
      rw (ap (λ x. x.0) e, check_all) (ap (λ x. check_all now config version rest reports x.1) e)

  check_all-settled :
      (t : ℤ) (ds : List String) (reports : List DeploymentStatusesReport) (w : W)
      → t ≤ℤ (now w).0
      → All (λ d. IsSettled t config version d reports) ds
      → ((check_all now config version ds reports w).0 ≡ clear)
        × (t ≤ℤ (now (check_all now config version ds reports w).1).0)
  check_all-settled t [] reports w le s = (unfold check_all in refl, unfold check_all in le)
  check_all-settled t (d ∷ rest) reports w le (s, ss) =
      rw (check_all_later d rest reports w (first_check-settled t d reports w le s))
        (check_all-settled t rest reports (now w).1 (omega (arith, le, mono w)) ss)

-- A list split at a version that has baked, and split at the first that has: the second is no later.
first-within :
    (bad : String → Bool) (newer older newer' older' : List String) (v v' : String)
    → newer ++ v ∷ older ≡ newer' ++ v' ∷ older'
    → bad v ≡ true
    → All (λ u. bad u ≡ false) newer'
    → contains (newer ++ v ∷ []) v' ≡ true
unfolding contains
first-within bad [] older [] older' v v' e good early =
    ground (arith, (eq_iff v v').1 (head-eq_of_cons-eq e))
first-within bad [] older (x ∷ newer') older' v v' e good early =
    absurd (false≢true (sym early.0 ∙ ap bad (sym (head-eq_of_cons-eq e)) ∙ good))
first-within bad (x ∷ newer) older [] older' v v' e good early =
    ground (arith, (eq_iff x v').1 (head-eq_of_cons-eq e))
first-within bad (x ∷ newer) older (y ∷ newer') older' v v' e good early =
    let rest =
      first-within bad newer older newer' older' v v' (tail-eq_of_cons-eq e) good early.1 in
    ground (arith, rest)

All-middle :
    (P : String → Type 0) (xs : List String) (y : String) (ys : List String)
    → All P (xs ++ y ∷ ys)
    → P y
All-middle P [] y ys h = h.0
All-middle P (x ∷ xs) y ys h = All-middle P xs y ys h.1

module _ {W : Type 0} (now : W → ℤ × W) (mono : (w : W) → (now w).0 ≤ℤ (now (now w).1).0) where
  -- What `NextVersion` returns where a candidate has baked: that one, or one that is newer.
  next_version-within :
      (default_tag : String) (p : Propagation) (first : String) (others newer older : List String)
      (v : String) (t : ℤ) (w : W)
      → t ≤ℤ (now w).0
      → p.status.deploy_conditions.deploy_after.deployments ≡ first ∷ others
      → add_reports first [] p.status.deployment_statuses_reports ≡ newer ++ v ∷ older
      → All (λ u. u ≢ "") (newer ++ v ∷ older)
      → is_baked p.status.deploy_conditions.deploy_after t v p.status.deployment_statuses_reports
        ≡ true
      → ((next_version now default_tag p w).0 ≢ "")
        × (contains (newer ++ v ∷ []) (next_version now default_tag p w).0 ≡ true)
  next_version-within default_tag p first others newer older v t w le e split named baked =
      let after = p.status.deploy_conditions.deploy_after in
      let reports = p.status.deployment_statuses_reports in
      let bad : String → Bool = λ u. is_baked after (now w).0 u reports in
      let still : bad v ≡ true = elim (Bool-cases (bad v)) [
        | inl h ↦ h
        | inr h ↦
            absurd (false≢true (sym (is_baked_before after t (now w).0 v reports le h) ∙ baked))
      ] in
      elim (next_version-Choice now mono default_tag p first others w e) [
        | inr (_, early) ↦ absurd (
            false≢true (
              sym (
                All-middle (λ u. bad u ≡ false) newer v older
                  (subst (All (λ u. bad u ≡ false)) (sym (add_reports-newest first reports) ∙ split)
                    early))
              ∙ still))
        | inl (newer', older', split', early, _) ↦
            let v' = (next_version now default_tag p w).0 in
            let same : newer ++ v ∷ older ≡ newer' ++ v' ∷ older' =
              sym split ∙ add_reports-newest first reports ∙ split' in
            (
              All-middle (λ u. u ≢ "") newer' v' older' (subst (All (λ u. u ≢ "")) same named),
              first-within bad newer older newer' older' v v' same still early,
            )
      ]

  to_decision_named :
      (config : Config) (version default_tag : String) (p : Propagation) (w : W) (next : String)
      → next ≢ ""
      → to_decision now config version default_tag p w clear next ≡ go next
  to_decision_named config version default_tag p w next named = elim (Bool-cases (next == "")) [
    | inl h ↦ absurd (named ((eq_iff next "").0 h))
    | inr h ↦ ap (λ b. if b then no_candidate else go next) h
  ]

  -- The clock does not go back. Every deployment that has to be at the same version as this one runs
  -- it, healthy, for its bake time at the reading with which the decision starts. Among the versions
  -- that the first deployment to wait for has reported, none of them empty, `v` has baked by then.
  -- Then the reconciler decides to go on, to `v` or to one that stands before it in that list.
  pub decide-go :
      (config : Config) (version default_tag : String) (p : Propagation) (w : W) (first : String)
      (others newer older : List String) (v : String)
      → p.status.deploy_conditions.deploy_after.deployments ≡ first ∷ others
      → All
          (λ d. IsSettled (now w).0 config version d p.status.deployment_statuses_reports)
          p.status.deploy_conditions.deploy_with
      → add_reports first [] p.status.deployment_statuses_reports ≡ newer ++ v ∷ older
      → All (λ u. u ≢ "") (newer ++ v ∷ older)
      → is_baked p.status.deploy_conditions.deploy_after
          (now w).0
          v
          p.status.deployment_statuses_reports
        ≡ true
      → (next : String) × ((decide now config version default_tag p w).0 ≡ go next)
        × (contains (newer ++ v ∷ []) next ≡ true)
  decide-go config version default_tag p w first others newer older v e settled split named baked =
      let (cleared, le) =
        check_all-settled now mono config version (now w).0 p.status.deploy_conditions.deploy_with
          p.status.deployment_statuses_reports w (omega arith) settled in
      let w' = (verdict now config version default_tag p w).1 in
      let next = (next_version now default_tag p w').0 in
      let (full, within) =
        next_version-within default_tag p first others newer older v (now w).0 w' le e split named
          baked in
      (
        next,
        decide_step now config version default_tag p w clear cleared
            ∙ to_decision_named config version default_tag p w next full,
        within,
      )
