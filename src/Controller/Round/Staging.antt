-- ===== src/Controller/Round/Staging.antt =====
-- What a decision that goes on says of the waves of the configuration.
use propagation_controller.Base.{
  ◌≡◌, refl, sym, ap, ◌∙◌, ℤ, ◌≤ℤ◌, String, true, none, some, List, [], ◌∷◌, map, All, ok, inl, inr,
  contains, contains-append, arith, false≢true, ok_injective, >>=-eq-ok, ◌==◌, Bool-cases, eq_iff,
}
use propagation_controller.Api.{
  DeploymentStatusesReport, DeployAfter, DeployConditions, Propagation, PropagationSpec,
}
use propagation_controller.Api.Report.{find_deployment_status_report, version_healthy_duration}
use propagation_controller.Api.Next.{next_version}
use propagation_controller.Api.Next.Baked.{is_baked}
use propagation_controller.Api.Next.Choice.{next_version-Choice, is_baked-All}
use propagation_controller.Config.{
  Config, deploy_after_from_config, deploy_with_from_config, deploy_conditions_from_config,
}
use propagation_controller.Controller.{Cluster, Objects, Backend}
use propagation_controller.Controller.Reconcile.{required_statuses, set_condition}
use propagation_controller.Controller.Reports.{fetch_all-none}
use propagation_controller.Controller.Reports.Find.{find-All, find_name}
use propagation_controller.Controller.Fetch.{Fetched}
use propagation_controller.Controller.Gate.{verdict}
use propagation_controller.Controller.Round.{
  KeepsObject, stored_report, WasAllowed, fetched_from, fetched_condition, fresh,
}

-- The part of the conditions that names what comes before.
deploy_conditions-after :
    (p : Propagation) (c : Config) (x : DeployConditions)
    → deploy_conditions_from_config p c ≡ ok x
    → deploy_after_from_config p c ≡ ok x.deploy_after
unfolding deploy_conditions_from_config
deploy_conditions-after p c x e =
    let (after, f, g) = >>=-eq-ok (deploy_after_from_config p c) _ e in
    let (with', h, k) = >>=-eq-ok (deploy_with_from_config p c) _ g in
    f ∙ ap (λ (x : DeployConditions). ok x.deploy_after) (ok_injective k)

-- What holds of each text that a list contains holds of all of it.
contains-All :
    (P : String → Type 0) (ds : List String)
    → ((d : String) → contains ds d ≡ true → P d)
    → All P ds
unfolding contains
contains-All P [] h = tt
contains-All P (d ∷ ds) h =
    (h d (ground (arith, eq_iff d d)), contains-All P ds λ e f. h e (ground (arith, f)))

contains-cons :
    (xs : List String) (d : String)
    → contains xs d ≡ true
    → (first : String) × (others : List String) × (xs ≡ first ∷ others)
contains-cons [] d e = absurd (false≢true (unfold contains in e))
contains-cons (x ∷ xs) d e = (x, xs, refl)

-- A deployment that a report is for is found.
find_listed :
    (rs : List DeploymentStatusesReport) (d : String)
    → contains (map (λ r. r.deployment_name) rs) d ≡ true
    → (r : DeploymentStatusesReport) × (find_deployment_status_report rs d ≡ some r)
unfolding contains find_deployment_status_report
find_listed [] d e = absurd (false≢true e)
find_listed (r ∷ rs) d e =
    let rest = find_listed rs d in
    elim (Bool-cases (r.deployment_name == d)) [
      | inl here ↦ (r, rw here refl)
      | inr there ↦ let (s, f) = rest (ground (arith, e, there)) in (s, rw there f)
    ]

All-map :
    {A B : Type 0} (P : B → Type 0) (f : A → B) (xs : List A)
    → All P (map f xs)
    → All (λ x. P (f x)) xs
All-map P f [] v = tt
All-map P f (x ∷ xs) (p, v) = (p, All-map P f xs v)

module _ {W C Object Node : Type 0} (default_tag : String) (cluster : Cluster W)
    (objects : Objects W Object Node) (backend : Backend W C) (store_time : ℤ → ℤ)
    (keeps : KeepsObject store_time cluster) where
  -- In a round from `start` on, whose decision came to the version, every deployment of the wave in
  -- front has a report that was fetched from `x` on, in which the time counted for the version is at
  -- least the bake time of that wave, at an instant that the clock showed behind the decision.
  pub record IsStaged (start : C × W) (spec : PropagationSpec) (v : String) (x : C × W)
      : Type 0 where
    pub config : Config
    pub configured : (backend.get_config start.0 start.1).0 ≡ ok config
    pub object : Propagation
    pub same_spec : object.spec ≡ spec
    pub conditions : DeployAfter
    pub derived : deploy_after_from_config object config ≡ ok conditions
    pub complete : (fetched_from default_tag cluster objects backend object x).error ≡ none
    pub behind : W
    pub staged :
        All
          (λ d.
            (r : DeploymentStatusesReport) × (find_deployment_status_report
                (fetched_from default_tag cluster objects backend object x).reports
                d
              ≡ some r)
            × (conditions.bake_time
                ≤ℤ version_healthy_duration (cluster.now behind).0 (stored_report store_time r) v))
          conditions.deployments

  module _ (mono : (w : W) → (cluster.now w).0 ≤ℤ (cluster.now (cluster.now w).1).0) (start : C × W)
      (spec : PropagationSpec) (v : String) (x : C × W)
      (was : WasAllowed default_tag cluster objects backend start spec v x) where
    abbrev waits : DeployAfter
    waits = was.object.status.deploy_conditions.deploy_after

    abbrev fetched : Fetched W C
    fetched = fetched_from default_tag cluster objects backend was.object x

    -- Every deployment to wait for is among those whose statuses were fetched.
    reported :
        (d : String)
        → contains waits.deployments d ≡ true
        → (r : DeploymentStatusesReport) × (find_deployment_status_report fetched.reports d
            ≡ some r)
    unfolding required_statuses
    reported d e =
        let with_them = was.object.status.deploy_conditions.deploy_with in
        find_listed fetched.reports d (
          ap (λ ds. contains ds d) (fetch_all-none cluster backend _ _ x.0 x.1 was.complete).0
          ∙ contains-append with_them waits.deployments d
          ∙ ground (arith, e))

    stored_waits : was.stored.status.deploy_conditions.deploy_after ≡ waits
    unfolding set_condition
    stored_waits =
        ap (λ (c : DeployConditions). c.deploy_after) (keeps.conditions _ _ _ was.updated)

    stored_reports :
        was.stored.status.deployment_statuses_reports
        ≡ map (stored_report store_time) fetched.reports
    unfolding set_condition
    stored_reports = keeps.reports _ _ _ was.updated

    -- The states behind the checks of the deployments beside, and behind the decision.
    abbrev checked : W
    checked =
        (verdict cluster.now was.config was.version default_tag was.stored
          (cluster.update_status (fresh default_tag cluster objects backend was.object fetched)
            (fetched_condition default_tag cluster objects backend was.object fetched).1).1).1

    abbrev decided : W
    decided = (next_version cluster.now default_tag was.stored checked).1

    abbrev reports_stored : List DeploymentStatusesReport
    reports_stored = map (stored_report store_time) fetched.reports

    version_is_baked :
        (first : String) (others : List String)
        → waits.deployments ≡ first ∷ others
        → is_baked waits (cluster.now decided).0 v reports_stored ≡ true
    version_is_baked first others e =
        elim (next_version-Choice cluster.now mono default_tag was.stored first others checked
          (ap (λ (a : DeployAfter). a.deployments) stored_waits ∙ e)) [
            | inr (empty, _) ↦ absurd (was.allowed.named (was.allowed.chosen ∙ empty))
            | inl (newer, older, split, early, baked) ↦
                (λ i.
                  is_baked (sym stored_waits i) (cluster.now decided).0 (was.allowed.chosen i)
                    (sym stored_reports i))
                ∙ baked
          ]

    pub WasAllowed-IsStaged : IsStaged start spec v x
    WasAllowed-IsStaged = record {
      config = was.config;
      configured = was.configured;
      object = was.object;
      same_spec = was.same_spec;
      conditions = waits;
      derived = deploy_conditions-after was.object was.config _ was.derived;
      complete = was.complete;
      behind = decided;
      staged = contains-All _ waits.deployments λ d e.
          let (r, found) = reported d e in
          let (first, others, f) = contains-cons waits.deployments d e in
          let long =
            find-All _ fetched.reports d r
              (All-map _ (stored_report store_time) fetched.reports (
                is_baked-All waits (cluster.now decided).0 v reports_stored
                  (version_is_baked first others f)))
              found in
          (
            r,
            found,
            long (ap (contains waits.deployments) (find_name fetched.reports d r found) ∙ e),
          );
    }
