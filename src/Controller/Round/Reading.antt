-- ===== src/Controller/Round/Reading.antt =====
-- The parts of a round that only read: the decision, and the loop that fetches statuses.
use propagation_controller.Base.{
  ◌≡◌, refl, ℤ, String, not, ◌||◌, Option, none, some, List, [], ◌∷◌, ◌==◌, inl, inr, Bool-cases,
  ◌⊎◌,
}
use propagation_controller.Api.{
  DeployAfter, DeploymentStatus, DeploymentStatusesReport, Propagation, healthy,
}
use propagation_controller.Api.Report.{find_deployment_status_report, last_status}
use propagation_controller.Api.Next.{bakes, first_baked, next_after, next_version, add_reports}
use propagation_controller.Api.Next.Baked.{waits_for, is_early, bakes_skip, bakes_early, bakes_next}
use propagation_controller.Config.{Config}
use propagation_controller.Controller.Decide.{
  Verdict, clear, hold, crash, check_last, check_deployment, check_all, decide,
}

-- A relation that contains the readings of the clock.
pub record HasReading {W : Type 0} (now : W → ℤ × W) (R : W → W → Type 0) : Type 0 where
  pub stays : (w : W) → R w w
  pub composes : (u v w : W) → R u v → R v w → R u w
  pub reads : (w : W) → R w (now w).1

Verdict-cases : (v : Verdict) → (v ≡ clear) ⊎ (v ≡ hold) ⊎ (v ≡ crash)
Verdict-cases clear = inl refl
Verdict-cases hold = inr (inl refl)
Verdict-cases crash = inr (inr refl)

module _ {W : Type 0} (now : W → ℤ × W) (R : W → W → Type 0) (law : HasReading now R) where
  bakes-reads :
      (after : DeployAfter) (v : String) (reports : List DeploymentStatusesReport) (w : W)
      → R w (bakes now after v reports w).1
  bakes-reads after v [] w = unfold bakes in law.stays w
  bakes-reads after v (r ∷ reports) w =
      let skip = bakes-reads after v reports w in
      let next = law.composes _ _ _ (law.reads w) (bakes-reads after v reports (now w).1) in
      elim (Bool-cases (waits_for after r)) [
        | inr e ↦ rw (bakes_skip after v r reports now w e) skip
        | inl e ↦ elim (Bool-cases (is_early after (now w).0 v r)) [
          | inl early ↦ rw (bakes_early after v r reports now w e early) (law.reads w)
          | inr late ↦ rw (bakes_next after v r reports now w e late) next
        ]
      ]

  first_baked-reads :
      (after : DeployAfter) (reports : List DeploymentStatusesReport) (versions : List String)
      (w : W)
      → R w (first_baked now after reports versions w).1
  unfolding first_baked
  first_baked-reads after reports [] w = law.stays w
  first_baked-reads after reports (v ∷ versions) w =
      let w' = (bakes now after v reports w).1 in
      let here = bakes-reads after v reports w in
      let rest = law.composes w w' _ here (first_baked-reads after reports versions w') in
      elim (Bool-cases (bakes now after v reports w).0) [ inl e ↦ rw e here | inr e ↦ rw e rest ]

  next_after-reads :
      (default_tag : String) (after : DeployAfter) (ds : List String)
      (reports : List DeploymentStatusesReport) (w : W)
      → R w (next_after now default_tag after ds reports w).1
  unfolding next_after
  next_after-reads default_tag after [] reports w = law.stays w
  next_after-reads default_tag after (first ∷ rest) reports w =
      first_baked-reads after reports (add_reports first [] reports) w

  next_version-reads :
      (default_tag : String) (p : Propagation) (w : W) → R w (next_version now default_tag p w).1
  next_version-reads default_tag p w =
      unfold next_version in
      next_after-reads default_tag p.status.deploy_conditions.deploy_after
        p.status.deploy_conditions.deploy_after.deployments p.status.deployment_statuses_reports w

  module _ (config : Config) (version : String) where
    check_last-reads :
        (d : String) (r : DeploymentStatusesReport) (o : Option DeploymentStatus) (w : W)
        → R w (check_last now config version d r o w).1
    unfolding check_last
    check_last-reads d r none w = law.stays w
    check_last-reads d r (some last) w =
        elim (Bool-cases (not (last.version == version) || not (last.state == healthy))) [
          | inl e ↦ rw e (law.stays w)
          | inr e ↦ rw e (law.reads w)
        ]

    check_deployment-reads :
        (d : String) (o : Option DeploymentStatusesReport) (w : W)
        → R w (check_deployment now config version d o w).1
    unfolding check_deployment
    check_deployment-reads d none w = law.stays w
    check_deployment-reads d (some r) w = check_last-reads d r (last_status r) w

    check_all-reads :
        (ds : List String) (reports : List DeploymentStatusesReport) (w : W)
        → R w (check_all now config version ds reports w).1
    unfolding check_all
    check_all-reads [] reports w = law.stays w
    check_all-reads (d ∷ rest) reports w =
        let o = find_deployment_status_report reports d in
        let w' = (check_deployment now config version d o w).1 in
        let here = check_deployment-reads d o w in
        let later = law.composes w w' _ here (check_all-reads rest reports w') in
        elim (Verdict-cases (check_deployment now config version d o w).0) [
          | inl e ↦ rw (e, check_all) later
          | inr (inl e) ↦ rw (e, check_all) here
          | inr (inr e) ↦ rw (e, check_all) here
        ]

    pub decide-reads :
        (default_tag : String) (p : Propagation) (w : W)
        → R w (decide now config version default_tag p w).1
    unfolding decide
    decide-reads default_tag p w =
        let ds = p.status.deploy_conditions.deploy_with in
        let reports = p.status.deployment_statuses_reports in
        let w' = (check_all now config version ds reports w).1 in
        let here = check_all-reads ds reports w in
        let later = law.composes w w' _ here (next_version-reads default_tag p w') in
        elim (Verdict-cases (check_all now config version ds reports w).0) [
          | inl e ↦ rw (e, decide) later
          | inr (inl e) ↦ rw (e, decide) here
          | inr (inr e) ↦ rw (e, decide) here
        ]
