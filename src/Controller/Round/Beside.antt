-- ===== src/Controller/Round/Beside.antt =====
-- What a decision that goes on says of the deployments beside, which have to be at one version.
use mathlib.Core.List.{reverse, reverse-cons, reverse-reverse, map-append}
use mathlib.Core.Path.{subst}
use propagation_controller.Base.{
  ◌≡◌, refl, sym, ap, ◌∙◌, ℤ, String, false, none, some, List, [], ◌∷◌, ◌++◌, map, All, All-imp, ok,
  inl, inr, ◌==◌, Bool-cases, none-ne-some, some_injective, ok_injective, >>=-eq-ok, arith, ltb_ℤ,
}
use propagation_controller.Api.{
  DeploymentStatus, DeploymentStatusesReport, DeployConditions, Propagation, PropagationSpec,
  healthy,
}
use propagation_controller.Api.Report.{
  find_deployment_status_report, last_status, version_healthy_duration,
}
use propagation_controller.Api.Report.History.Newest.{newest_first, last_status-append}
use propagation_controller.Api.Report.History.Invariants.{newest, last_status-newest}
use propagation_controller.Config.{
  Config, deployment_bake_time, deploy_with_from_config, deploy_after_from_config,
  deploy_conditions_from_config,
}
use propagation_controller.Controller.{Cluster, Objects, Backend, get_version}
use propagation_controller.Controller.Fetch.{Fetched}
use propagation_controller.Controller.Gate.{IsBaked}
use propagation_controller.Controller.Reconcile.{set_condition}
use propagation_controller.Controller.Reports.Find.{find-All, find_name}
use propagation_controller.Controller.Reports.Polled.{IsPolled, fetch_all-IsPolled}
use propagation_controller.Controller.Round.{
  KeepsObject, stored_status, stored_report, WasAllowed, fetched_from,
}

-- The part of the conditions that names what is beside.
deploy_conditions-with :
    (p : Propagation) (c : Config) (x : DeployConditions)
    → deploy_conditions_from_config p c ≡ ok x
    → deploy_with_from_config p c ≡ ok x.deploy_with
unfolding deploy_conditions_from_config
deploy_conditions-with p c x e =
    let (after, f, g) = >>=-eq-ok (deploy_after_from_config p c) _ e in
    let (with', h, k) = >>=-eq-ok (deploy_with_from_config p c) _ g in
    h ∙ ap (λ (x : DeployConditions). ok x.deploy_with) (ok_injective k)

-- A report with a newest status ends in it.
last_status-split :
    (r : DeploymentStatusesReport) (l : DeploymentStatus)
    → last_status r ≡ some l
    → (ys : List DeploymentStatus) × (r.statuses ≡ ys ++ l ∷ [])
last_status-split r l e =
    by_newest (newest_first r) (sym (reverse-reverse r.statuses)) (sym (last_status-newest r) ∙ e)
  where
    by_newest :
        (h : List DeploymentStatus)
        → r.statuses ≡ reverse h
        → newest h ≡ some l
        → (ys : List DeploymentStatus) × (r.statuses ≡ ys ++ l ∷ [])
    by_newest [] f g = absurd (none-ne-some g)
    by_newest (s ∷ rest) f g = (
      reverse rest,
      f ∙ reverse-cons s rest ∙ ap (λ s. reverse rest ++ s ∷ []) (some_injective g),
    )

-- Storing a report keeps which status is the newest.
pub last_status-stored :
    (store_time : ℤ → ℤ) (r : DeploymentStatusesReport) (l : DeploymentStatus)
    → last_status r ≡ some l
    → last_status (stored_report store_time r) ≡ some (stored_status store_time l)
last_status-stored store_time r l e =
    let (ys, f) = last_status-split r l e in
    last_status-append (stored_report store_time r) (map (stored_status store_time) ys)
      (stored_status store_time l)
      (ap (map (stored_status store_time)) f ∙ map-append (stored_status store_time) ys (l ∷ []))

-- A stored report that is found was found before.
find-stored :
    (store_time : ℤ → ℤ) (rs : List DeploymentStatusesReport) (d : String)
    (r' : DeploymentStatusesReport)
    → find_deployment_status_report (map (stored_report store_time) rs) d ≡ some r'
    → (r : DeploymentStatusesReport) × (find_deployment_status_report rs d ≡ some r)
      × (stored_report store_time r ≡ r')
unfolding find_deployment_status_report
find-stored store_time [] d r' e = absurd (none-ne-some e)
find-stored store_time (r ∷ rs) d r' e =
    let rest = find-stored store_time rs d r' in
    elim (Bool-cases (r.deployment_name == d)) [
      | inl here ↦ (r, rw here refl, ground (arith, e, here))
      | inr there ↦ let (s, f, g) = rest (ground (arith, e, there)) in (s, rw there f, g)
    ]

module _ {W C Object Node : Type 0} (default_tag : String) (cluster : Cluster W)
    (objects : Objects W Object Node) (backend : Backend W C) (store_time : ℤ → ℤ)
    (keeps : KeepsObject store_time cluster) (Q : C × W → Type 0)
    (reads : (c : C) (w : W) → Q (c, w) → Q (c, (cluster.now w).1))
    (gets : (d : String) (c : C) (w : W)
      → Q (c, w)
      → Q ((backend.get_status d c w).1, (backend.get_status d c w).2)) where
  -- At a client and a state of the kind the deployment reported the version as healthy, and in
  -- its report among those that were fetched the time counted for it is at least its bake time.
  pub record IsSettled (config : Config) (version : String)
      (reports : List DeploymentStatusesReport) (d : String) : Type 0 where
    pub client : C
    pub world : W
    pub kind : Q (client, world)
    pub status : DeploymentStatus
    pub returned : (backend.get_status d client world).0 ≡ ok status
    pub same_version : status.version ≡ version
    pub is_healthy : status.state ≡ healthy
    pub report : DeploymentStatusesReport
    pub found : find_deployment_status_report reports d ≡ some report
    pub behind : W
    pub baked :
        ltb_ℤ
          (version_healthy_duration
            (cluster.now behind).0
            (stored_report store_time report)
            version)
          (deployment_bake_time config d)
        ≡ false

  -- All deployments beside, by the configuration, were at the version that the round read as its own.
  pub record IsTogether (start : C × W) (spec : PropagationSpec) (x : C × W) : Type 0 where
    pub config : Config
    pub configured : (backend.get_config start.0 start.1).0 ≡ ok config
    pub object : Propagation
    pub same_spec : object.spec ≡ spec
    pub beside : List String
    pub derived : deploy_with_from_config object config ≡ ok beside
    pub version : String
    pub reader : Propagation
    pub reading : W
    pub same_reader : reader.spec ≡ spec
    pub read : (get_version objects reader reading).0 ≡ ok version
    pub settled :
        All
          (IsSettled config version
            (fetched_from default_tag cluster objects backend object x).reports)
          beside

  abbrev Polled : DeploymentStatusesReport → Type 0
  Polled = IsPolled cluster backend Q reads gets

  -- A report that the decision accepts was polled with the version.
  IsBaked-IsSettled :
      (config : Config) (version : String) (reports stored : List DeploymentStatusesReport)
      (d : String)
      → All Polled reports
      → stored ≡ map (stored_report store_time) reports
      → IsBaked cluster.now config version d stored
      → IsSettled config version reports d
  IsBaked-IsSettled config version reports stored d polled same b =
      let (r, found, e) =
        find-stored store_time reports d b.report
          (ap (λ rs. find_deployment_status_report rs d) (sym same) ∙ b.found) in
      let poll = find-All Polled reports d r polled found in
      let (l, newest_is, (like_version, like_state)) = poll.is_newest in
      let last : stored_status store_time l ≡ b.last =
        some_injective
          (sym (last_status-stored store_time r l newest_is) ∙ ap last_status e ∙ b.newest) in
      record {
        client = poll.client;
        world = poll.world;
        kind = poll.kind;
        status = poll.status;
        returned =
            subst (λ d. (backend.get_status d poll.client poll.world).0 ≡ ok poll.status)
              (find_name reports d r found) poll.returned;
        same_version =
            sym like_version ∙ ap (λ (l : DeploymentStatus). l.version) last ∙ b.same_version;
        is_healthy = sym like_state ∙ ap (λ (l : DeploymentStatus). l.state) last ∙ b.is_healthy;
        report = r;
        found = found;
        behind = b.world;
        baked =
            subst
              (λ r.
                ltb_ℤ (version_healthy_duration (cluster.now b.world).0 r version)
                  (deployment_bake_time config d)
                ≡ false)
              (sym e) b.baked;
      }

  module _ (start : C × W) (spec : PropagationSpec) (v : String) (x : C × W)
      (was : WasAllowed default_tag cluster objects backend start spec v x) (kind : Q x) where
    abbrev fetched : Fetched W C
    fetched = fetched_from default_tag cluster objects backend was.object x

    stored_beside :
        was.stored.status.deploy_conditions.deploy_with
        ≡ was.object.status.deploy_conditions.deploy_with
    unfolding set_condition
    stored_beside =
        ap (λ (c : DeployConditions). c.deploy_with) (keeps.conditions _ _ _ was.updated)

    kept_reports :
        was.stored.status.deployment_statuses_reports
        ≡ map (stored_report store_time) fetched.reports
    unfolding set_condition
    kept_reports = keeps.reports _ _ _ was.updated

    pub WasAllowed-IsTogether : IsTogether start spec x
    WasAllowed-IsTogether = record {
      config = was.config;
      configured = was.configured;
      object = was.object;
      same_spec = was.same_spec;
      beside = was.object.status.deploy_conditions.deploy_with;
      derived = deploy_conditions-with was.object was.config _ was.derived;
      version = was.version;
      reader = was.reader;
      reading = was.reading;
      same_reader = was.same_reader;
      read = was.read;
      settled = subst (All (IsSettled was.config was.version fetched.reports)) stored_beside (
          All-imp
            (λ d b.
              IsBaked-IsSettled was.config was.version fetched.reports
                was.stored.status.deployment_statuses_reports d
                (fetch_all-IsPolled cluster backend Q reads gets _ _ none x.0 x.1 kind was.complete)
                kept_reports b)
            was.stored.status.deploy_conditions.deploy_with was.allowed.together);
    }
