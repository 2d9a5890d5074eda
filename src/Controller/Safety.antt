-- ===== src/Controller/Safety.antt =====
-- The decision behind a round of fetching never dereferences a nil status.
use propagation_controller.Base.{
  ◌≡◌, ◌≢◌, refl, sym, ap, ◌∙◌, ℤ, String, Bool, true, false, Option, none, some, List, [], ◌∷◌,
  All, ◌==◌, if◌then◌else◌, inl, inr, Bool-cases,
}
use propagation_controller.Api.{DeploymentStatus, DeploymentStatusesReport, Propagation}
use propagation_controller.Api.Report.{find_deployment_status_report}
use propagation_controller.Api.Next.{next_version}
use propagation_controller.Config.{Config}
use propagation_controller.Controller.Decide.{
  Verdict, clear, hold, crash, wait, no_candidate, go, broken, check_last, check_deployment,
  check_all, decide,
}
use propagation_controller.Controller.Gate.{
  unlike, too_soon, check_unlike, check_like, first_check, then_verdict, check_all_step,
  to_decision, verdict, decide_step,
}
use propagation_controller.Controller.Reports.{HasStatus}
use propagation_controller.Controller.Reports.Find.{find-All}

hold-ne-crash : hold ≡ crash → ⊥
hold-ne-crash e = cc

verdict-ne-crash : (b : Bool) → (if b then hold else clear) ≡ crash → ⊥
verdict-ne-crash true e = cc
verdict-ne-crash false e = cc

module _ {W : Type 0} (now : W → ℤ × W) (config : Config) (version : String) where
  check_last-ne-crash :
      (d : String) (r : DeploymentStatusesReport) (last : DeploymentStatus) (w : W)
      → (check_last now config version d r (some last) w).0 ≢ crash
  check_last-ne-crash d r last w e = elim (Bool-cases (unlike now config version d r last w)) [
    | inl bad ↦ hold-ne-crash (sym (check_unlike now config version d r last w bad) ∙ e)
    | inr good ↦
        verdict-ne-crash (too_soon now config version d r last w)
          (sym (check_like now config version d r last w good) ∙ e)
  ]

  check_deployment-ne-crash :
      (d : String) (w : W) (o : Option DeploymentStatusesReport)
      → ((r : DeploymentStatusesReport) → o ≡ some r → HasStatus r)
      → (check_deployment now config version d o w).0 ≢ crash
  unfolding check_deployment
  check_deployment-ne-crash d w none v e = hold-ne-crash e
  check_deployment-ne-crash d w (some r) v e =
      let (last, f) = v r refl in
      check_last-ne-crash d r last w
        (sym (ap (λ o. (check_last now config version d r o w).0) f) ∙ e)

  then_verdict-ne-crash :
      (v x : Verdict) → v ≢ crash → x ≢ crash → then_verdict now config version v x ≢ crash
  then_verdict-ne-crash clear x a b = b
  then_verdict-ne-crash hold x a b = a
  then_verdict-ne-crash crash x a b = a

  check_all-ne-crash :
      (ds : List String) (reports : List DeploymentStatusesReport) (w : W)
      → All HasStatus reports
      → (check_all now config version ds reports w).0 ≢ crash
  unfolding check_all
  check_all-ne-crash [] reports w v e = absurd (clear-ne-crash e)
    where
      clear-ne-crash : clear ≡ crash → ⊥
      clear-ne-crash f = cc
  check_all-ne-crash (d ∷ rest) reports w v e =
      let later =
        check_all-ne-crash rest reports (first_check now config version d reports w).1 v in
      then_verdict-ne-crash (first_check now config version d reports w).0 _
        (check_deployment-ne-crash d w (find_deployment_status_report reports d)
          (λ r found. find-All HasStatus reports d r v found))
        later (sym (check_all_step now config version d rest reports w _ refl) ∙ e)

  to_decision-ne-broken :
      (default_tag : String) (p : Propagation) (w : W) (x : Verdict) (next : String)
      → x ≢ crash
      → to_decision now config version default_tag p w x next ≢ broken
  to_decision-ne-broken default_tag p w crash next v e = absurd (v refl)
  to_decision-ne-broken default_tag p w hold next v e = wait-ne-broken e
    where
      wait-ne-broken : wait ≡ broken → ⊥
      wait-ne-broken f = cc
  to_decision-ne-broken default_tag p w clear next v e = by_name (next == "") e
    where
      by_name : (b : Bool) → (if b then no_candidate else go next) ≡ broken → ⊥
      by_name true f = cc
      by_name false f = cc

  -- If each of the object's reports has a newest status, the decision dereferences no nil status.
  pub decide_with_status :
      (default_tag : String) (p : Propagation) (w : W)
      → All HasStatus p.status.deployment_statuses_reports
      → (decide now config version default_tag p w).0 ≢ broken
  decide_with_status default_tag p w v broke =
      to_decision-ne-broken default_tag p w (verdict now config version default_tag p w).0
        (next_version now default_tag p (verdict now config version default_tag p w).1).0
        (check_all-ne-crash p.status.deploy_conditions.deploy_with
          p.status.deployment_statuses_reports w v)
        (sym (decide_step now config version default_tag p w _ refl) ∙ broke)
