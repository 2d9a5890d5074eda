-- ===== src/Controller/Gate.antt =====
-- What the reconciler has checked when it goes on to a version.
use propagation_controller.Base.{
  ◌≡◌, ◌≢◌, refl, sym, ap, ◌∙◌, ℤ, ltb_ℤ, String, Bool, true, false, not, ◌||◌, Option, none, some,
  List, [], ◌∷◌, All, ◌==◌, if◌then◌else◌, inl, inr, Bool-cases, eq_iff, arith, false≢true,
}
use propagation_controller.Api.{DeploymentStatus, DeploymentStatusesReport, Propagation, healthy}
use propagation_controller.Api.Report.{
  find_deployment_status_report, last_status, version_healthy_duration,
}
use propagation_controller.Api.Next.{next_version}
use propagation_controller.Config.{Config, deployment_bake_time}
use propagation_controller.Controller.Decide.{
  Verdict, clear, hold, crash, Decision, wait, no_candidate, go, broken, check_last,
  check_deployment, check_all, decide,
}

-- The deployment runs the version, healthy, and has done so for its wave's bake time at some reading
-- of the clock.
pub record IsBaked {W : Type 0} (now : W → ℤ × W) (config : Config) (version deployment : String)
    (reports : List DeploymentStatusesReport) : Type 0 where
  pub report : DeploymentStatusesReport
  pub last : DeploymentStatus
  pub world : W
  pub found : find_deployment_status_report reports deployment ≡ some report
  pub newest : last_status report ≡ some last
  pub same_version : last.version ≡ version
  pub is_healthy : last.state ≡ healthy
  pub baked :
      ltb_ℤ
        (version_healthy_duration (now world).0 report version)
        (deployment_bake_time config deployment)
      ≡ false

hold-ne-clear : hold ≡ clear → ⊥
hold-ne-clear e = cc

crash-ne-clear : crash ≡ clear → ⊥
crash-ne-clear e = cc

no_candidate-ne-go : {v : String} → no_candidate ≡ go v → ⊥
no_candidate-ne-go e = cc

go_injective : {v v' : String} → go v ≡ go v' → v ≡ v'
go_injective e = cc

module _ {W : Type 0} (now : W → ℤ × W) (config : Config) (version deployment : String) where
  module _ (report : DeploymentStatusesReport) (last : DeploymentStatus) (w : W) where
    abbrev pub unlike : Bool
    unlike = not (last.version == version) || not (last.state == healthy)

    abbrev pub too_soon : Bool
    too_soon =
        ltb_ℤ (version_healthy_duration (now w).0 report version)
          (deployment_bake_time config deployment)

    pub check_unlike :
        unlike ≡ true → (check_last now config version deployment report (some last) w).0 ≡ hold
    unfolding check_last
    check_unlike e = rw e

    pub check_like :
        unlike ≡ false
        → (check_last now config version deployment report (some last) w).0
          ≡ (if too_soon then hold else clear)
    unfolding check_last
    check_like e = rw e

    check_last-some :
        (check_last now config version deployment report (some last) w).0 ≡ clear
        → (unlike ≡ false) × (too_soon ≡ false)
    check_last-some e = elim (Bool-cases unlike) [
      | inl bad ↦ absurd (hold-ne-clear (sym (check_unlike bad) ∙ e))
      | inr good ↦ elim (Bool-cases too_soon) [
        | inl soon ↦
            absurd
              (hold-ne-clear (sym (check_like good ∙ ap (λ b. if b then hold else clear) soon) ∙ e))
        | inr late ↦ (good, late)
      ]
    ]

  check_last-clear :
      (reports : List DeploymentStatusesReport) (report : DeploymentStatusesReport) (w : W)
      → find_deployment_status_report reports deployment ≡ some report
      → (o : Option DeploymentStatus) → last_status report ≡ o
      → (check_last now config version deployment report o w).0 ≡ clear
      → IsBaked now config version deployment reports
  check_last-clear reports report w found none newest e =
      absurd (crash-ne-clear (unfold check_last in e))
  check_last-clear reports report w found (some last) newest e =
      let (good, late) = check_last-some report last w e in
      record {
        report = report;
        last = last;
        world = w;
        found = found;
        newest = newest;
        same_version = (eq_iff last.version version).0 (ground (arith, good));
        is_healthy = (eq_iff last.state healthy).0 (ground (arith, good));
        baked = late;
      }

  check_deployment-clear :
      (reports : List DeploymentStatusesReport) (w : W) (o : Option DeploymentStatusesReport)
      → find_deployment_status_report reports deployment ≡ o
      → (check_deployment now config version deployment o w).0 ≡ clear
      → IsBaked now config version deployment reports
  check_deployment-clear reports w none found e =
      absurd (hold-ne-clear (unfold check_deployment in e))
  check_deployment-clear reports w (some report) found e =
      check_last-clear reports report w found (last_status report) refl
        (unfold check_deployment in e)

module _ {W : Type 0} (now : W → ℤ × W) (config : Config) (version : String) where
  abbrev pub first_check : String → List DeploymentStatusesReport → W → Verdict × W
  first_check d reports w =
      check_deployment now config version d (find_deployment_status_report reports d) w

  -- The verdict behind a first one, and that of the rest.
  abbrev pub then_verdict : Verdict → Verdict → Verdict
  then_verdict clear v = v
  then_verdict hold v = hold
  then_verdict crash v = crash

  pub check_all_step :
      (d : String) (rest : List String) (reports : List DeploymentStatusesReport) (w : W)
      (v : Verdict)
      → (first_check d reports w).0 ≡ v
      → (check_all now config version (d ∷ rest) reports w).0
        ≡ then_verdict v (check_all now config version rest reports (first_check d reports w).1).0
  unfolding check_all
  check_all_step d rest reports w clear e = rw (e, check_all)
  check_all_step d rest reports w hold e = rw (e, check_all)
  check_all_step d rest reports w crash e = rw (e, check_all)

  then_verdict-clear : (v x : Verdict) → then_verdict v x ≡ clear → (v ≡ clear) × (x ≡ clear)
  then_verdict-clear clear x e = (refl, e)
  then_verdict-clear hold x e = absurd (hold-ne-clear e)
  then_verdict-clear crash x e = absurd (crash-ne-clear e)

  -- The loop over `DeployWith` runs to its end only where every deployment has baked.
  check_all-clear :
      (ds : List String) (reports : List DeploymentStatusesReport) (w : W)
      → (check_all now config version ds reports w).0 ≡ clear
      → All (λ d. IsBaked now config version d reports) ds
  check_all-clear [] reports w e = tt
  check_all-clear (d ∷ rest) reports w e =
      let (here, there) =
        then_verdict-clear (first_check d reports w).0
          (check_all now config version rest reports (first_check d reports w).1).0
          (sym (check_all_step d rest reports w (first_check d reports w).0 refl) ∙ e) in
      (
        check_deployment-clear now config version d reports w
            (find_deployment_status_report reports d) refl here,
        check_all-clear rest reports (first_check d reports w).1 there,
      )

  module _ (default_tag : String) (p : Propagation) (w : W) where
    abbrev pub verdict : Verdict × W
    verdict =
        check_all now config version p.status.deploy_conditions.deploy_with
          p.status.deployment_statuses_reports w

    abbrev pub to_decision : Verdict → String → Decision
    to_decision crash next = broken
    to_decision hold next = wait
    to_decision clear next = if next == "" then no_candidate else go next

    to_decision-go :
        (x : Verdict) (next v : String)
        → to_decision x next ≡ go v
        → (x ≡ clear) × (v ≡ next) × (v ≢ "")
    to_decision-go crash next v e = absurd (ground (arith, e))
    to_decision-go hold next v e = absurd (ground (arith, e))
    to_decision-go clear next v e = elim (Bool-cases (next == "")) [
      | inl empty ↦
          absurd
            (no_candidate-ne-go (sym (ap (λ b. if b then no_candidate else go next) empty) ∙ e))
      | inr full ↦
          let same : next ≡ v =
            go_injective (sym (ap (λ b. if b then no_candidate else go next) full) ∙ e) in
          (refl, sym same, λ is_empty. false≢true (sym full ∙ (eq_iff next "").1 (same ∙ is_empty)))
    ]

    pub decide_step :
        (v : Verdict)
        → verdict.0 ≡ v
        → (decide now config version default_tag p w).0
          ≡ to_decision v (next_version now default_tag p verdict.1).0
    unfolding decide
    decide_step clear e = rw (e, decide)
    decide_step hold e = rw (e, decide)
    decide_step crash e = rw (e, decide)

    -- What holds when the decision is to go on to the version `v`. `verdict.1` is the state behind the
    -- loop.
    pub record IsAllowed (v : String) : Type 0 where
      pub chosen : v ≡ (next_version now default_tag p verdict.1).0
      pub named : v ≢ ""
      pub together :
          All
            (λ d. IsBaked now config version d p.status.deployment_statuses_reports)
            p.status.deploy_conditions.deploy_with

    -- If the reconciler decides to go on to a version, every deployment that has to be at the same
    -- version as this one is found among the reports, its newest status has this deployment's
    -- version and is healthy, and it has been so for at least the bake time of its wave at some
    -- reading of the clock; and the version is not empty and is what `NextVersion` returns behind
    -- these checks.
    pub decide-IsAllowed :
        (v : String) → (decide now config version default_tag p w).0 ≡ go v → IsAllowed v
    decide-IsAllowed v e =
        let (x, chosen, named) =
          to_decision-go verdict.0 (next_version now default_tag p verdict.1).0 v
            (sym (decide_step verdict.0 refl) ∙ e) in
        record {
          chosen = chosen;
          named = named;
          together =
              check_all-clear p.status.deploy_conditions.deploy_with
                p.status.deployment_statuses_reports w x;
        }
