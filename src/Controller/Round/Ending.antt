-- ===== src/Controller/Round/Ending.antt =====
-- A round from the fetching of the statuses on.
use Prim.Native.String.{◌++◌ as append}
use propagation_controller.Base.{
  ℤ, sym, ap, ok, ◌≡◌, refl, ◌∙◌, String, Option, none, List, [], ◌∷◌, inl, inr, Result-cases,
  Option-cases, Error,
}
use propagation_controller.Api.{DeploymentStatusesReport, Condition, Propagation, PropagationSpec}
use propagation_controller.Config.{
  Config, deploy_conditions_from_config, deploy_after_from_config, deploy_with_from_config,
}
use propagation_controller.Controller.{Cluster, Objects, Backend, Outcome}
use propagation_controller.Controller.Decide.{Decision, wait, no_candidate, go, broken, decide}
use propagation_controller.Controller.Fetch.{Fetched, fetch_one, fetch_all}
use propagation_controller.Controller.Gate.{IsAllowed, decide-IsAllowed}
use propagation_controller.Controller.Reconcile.{
  with_status, set_condition, set_ready_condition_false, act, finish, required_statuses,
  store_reports, fetch_reports, condition,
}
use propagation_controller.Controller.Round.{
  KeepsObject, IsOwnVersion, WasAllowed, IsDecided, IsEffect, fetched_from, fetched_condition,
  fresh,
}
use propagation_controller.Controller.Round.Reading.{HasReading, decide-reads}

-- The configuration's conditions for an object depend on its specification alone.
deploy_conditions-spec :
    (p p' : Propagation) (c : Config)
    → p'.spec ≡ p.spec
    → deploy_conditions_from_config p' c ≡ deploy_conditions_from_config p c
unfolding deploy_conditions_from_config deploy_after_from_config deploy_with_from_config
deploy_conditions-spec p p' c same =
    ap (λ s. deploy_conditions_from_config (record p { spec = s }) c) same

-- The object has the specification, and the conditions that the configuration has for it.
abbrev pub IsFor : PropagationSpec → Config → Propagation → Type 0
IsFor spec config p =
    (p.spec ≡ spec) × (deploy_conditions_from_config p config ≡ ok p.status.deploy_conditions)

pub IsFor-updated :
    {W : Type 0} {store_time : ℤ → ℤ} (cluster : Cluster W) (keeps : KeepsObject store_time cluster)
    (spec : PropagationSpec) (config : Config) (p p' : Propagation) (w : W)
    → (cluster.update_status p w).0 ≡ ok p'
    → IsFor spec config p
    → IsFor spec config p'
IsFor-updated cluster keeps spec config p p' w e (same, derived) = (
  keeps.spec p p' w e ∙ same,
  deploy_conditions-spec p p' config (keeps.spec p p' w e)
      ∙ derived
      ∙ ap ok (sym (keeps.conditions p p' w e)),
)

module _ {W C Object Node : Type 0} (default_tag : String) (cluster : Cluster W)
    (objects : Objects W Object Node) (backend : Backend W C) (store_time : ℤ → ℤ)
    (keeps : KeepsObject store_time cluster) (spec : PropagationSpec) (start : C × W)
    (R : C × W → C × W → Type 0)
    (law : IsEffect default_tag cluster objects backend spec start R) where
  -- The round has come to the client and the state, with the configuration that it fetched first.
  abbrev pub Going : Config → C → W → Type 0
  Going config c w = R start (c, w) × ((backend.get_config start.0 start.1).0 ≡ ok config)

  pub Going-on :
      (config : Config) (c c' : C) (w w' : W)
      → Going config c w
      → R (c, w) (c', w')
      → Going config c' w'
  Going-on config c c' w w' (reached, configured) r = (law.composes _ _ _ reached r, configured)

  -- From the client and the state to those behind a call.
  abbrev pub Effect : C → W → Outcome × C × W → Type 0
  Effect c w x = R (c, w) (x.1, x.2)

  pub has_reading : (c : C) → HasReading cluster.now (λ w w'. R (c, w) (c, w'))
  has_reading c = record {
    stays = λ w. law.stays (c, w);
    composes = λ u v w r s. law.composes (c, u) (c, v) (c, w) r s;
    reads = λ w. law.reads c w;
  }

  pub set_condition-Effect :
      (p : Propagation) (x : Condition) (c : C) (w : W)
      → R (c, w) (c, (set_condition default_tag cluster objects backend p x w).1)
  unfolding set_condition
  set_condition-Effect p x c w = law.sets_condition x p.status.conditions c w

  -- A condition is set, and then some object is stored.
  pub marked-Effect :
      (p : Propagation) (x : Condition) (q : Propagation) (c : C) (w : W)
      → let w' = (set_condition default_tag cluster objects backend p x w).1 in
        R (c, w) (c, (cluster.update_status q w').1)
  marked-Effect p x q c w = law.composes _ _ _ (set_condition-Effect p x c w) (law.updates q c _)

  pub set_ready_condition_false-Effect :
      (p : Propagation) (e : Error) (reason : String) (c : C) (w : W)
      → R (c, w) (c, (set_ready_condition_false default_tag cluster objects backend p e reason w).1)
  unfolding set_ready_condition_false
  set_ready_condition_false-Effect p e reason c w =
      law.composes _ _ _ (set_condition-Effect p _ c w) (law.updates _ c _)

  act-Effect :
      (p : Propagation) (d : Decision) (c : C) (w : W)
      → p.spec ≡ spec
      → ((v : String)
          → d ≡ go v
          → IsDecided default_tag cluster objects backend R start spec v (c, w))
      → Effect c w (act default_tag cluster objects backend p d c w)
  unfolding act
  act-Effect p wait c w same allowed = law.stays (c, w)
  act-Effect p no_candidate c w same allowed = law.stays (c, w)
  act-Effect p broken c w same allowed = law.stays (c, w)
  act-Effect p (go v) c w same allowed =
      let called = law.propagates v c w (allowed v refl) in
      elim (Result-cases (backend.propagate p.spec.deployment.name v c w).0) [
        | inl (_, e) ↦ rw (e, act) (rw same called)
        | inr (_, e) ↦ rw (e, act) (rw same called)
      ]

  finish-Effect :
      (config : Config) (version : String) (p : Propagation) (c : C) (w : W) (x : C × W)
      → p.spec ≡ spec
      → R start x
      → R x (c, w)
      → ((v : String)
          → IsAllowed cluster.now config version default_tag p w v
          → WasAllowed default_tag cluster objects backend start spec v x)
      → Effect c w (finish default_tag cluster objects backend config version p c w)
  unfolding finish
  finish-Effect config version p c w x same reached on allow =
      let w' = (decide cluster.now config version default_tag p w).1 in
      let reads =
        decide-reads cluster.now (λ w w'. R (c, w) (c, w')) (has_reading c) config version
          default_tag p w in
      law.composes _ (c, w') _ reads
        (act-Effect p (decide cluster.now config version default_tag p w).0 c w' same λ v e.
          record {
            fetching = x;
            reached = reached;
            from_there = law.composes _ _ _ on reads;
            was_allowed = allow v (decide-IsAllowed cluster.now config version default_tag p w v e);
          })

  fetch_one-Effect :
      (d : String) (old : List DeploymentStatusesReport) (error : Option Error) (c : C) (w : W)
      → let x = fetch_one cluster backend d old error c w in R (c, w) (x.3, x.4)
  unfolding fetch_one
  fetch_one-Effect d old error c w =
      let called = law.gets_status d c w in
      elim (Result-cases (backend.get_status d c w).0) [
        | inl (s, e) ↦ rw (e, fetch_one) (law.composes _ _ _ called (law.reads _ _))
        | inr (x, e) ↦ rw (e, fetch_one) called
      ]

  fetch_all-Effect :
      (ds : List String) (old : List DeploymentStatusesReport) (error : Option Error) (c : C)
      (w : W)
      → let f = fetch_all cluster backend ds old error c w in R (c, w) (f.client, f.world)
  unfolding fetch_all
  fetch_all-Effect [] old error c w = law.stays (c, w)
  fetch_all-Effect (d ∷ rest) old error c w =
      let (_, old', error', c', w') = fetch_one cluster backend d old error c w in
      law.composes _ (c', w') _ (fetch_one-Effect d old error c w)
        (fetch_all-Effect rest old' error' c' w')

  fresh-IsFor :
      (config : Config) (p : Propagation) (f : Fetched W C)
      → IsFor spec config p
      → IsFor spec config (fresh default_tag cluster objects backend p f)
  unfolding set_condition deploy_conditions_from_config deploy_after_from_config
      deploy_with_from_config
  fresh-IsFor config p f v = v

  store_reports-Effect :
      (config : Config) (version : String) (p : Propagation) (c : C) (w : W)
      → IsFor spec config p
      → IsOwnVersion default_tag cluster objects backend spec version
      → Going config c w
      → let f = fetched_from default_tag cluster objects backend p (c, w) in
        Effect f.client f.world
          (store_reports default_tag cluster objects backend config version p f)
  unfolding store_reports
  store_reports-Effect config version p c w same (reader, reading, same_reader, read)
        (reached, configured) =
      let f = fetched_from default_tag cluster objects backend p (c, w) in
      let new = fresh default_tag cluster objects backend p f in
      let stored = (fetched_condition default_tag cluster objects backend p f).1 in
      elim (Option-cases f.error) [
        | inr (x, e) ↦
            let stale = with_status p (record p.status { deployment_statuses_reports = f.old }) in
            let failed =
              condition p "StatusesFetched" "False" "StatusesFetchFailed"
                (append "Error fetching statuses: " x) in
            let (p', _) = set_condition default_tag cluster objects backend stale failed f.world in
            rw (e, store_reports) (marked-Effect stale failed p' f.client f.world)
        | inl e ↦
            let done =
              marked-Effect p
                (condition p "StatusesFetched" "True" "StatusesFetchSuccess" "Statuses fetched") new
                f.client f.world in
            let updated = cluster.update_status new stored in
            let fetched =
              fetch_all-Effect (required_statuses default_tag cluster objects backend p)
                p.status.deployment_statuses_reports none c w in
            elim (Result-cases updated.0) [
              | inr (x, g) ↦ rw (e, g, store_reports) done
              | inl (p', g) ↦
                  rw (e, g, store_reports)
                    (law.composes _ _ _ done (
                      finish-Effect config version p' f.client updated.1 (c, w)
                        (keeps.spec new p' stored g ∙ (fresh-IsFor config p f same).0) reached
                        (law.composes _ _ _ fetched done)
                        λ v allowed. record {
                          config = config;
                          version = version;
                          object = p;
                          stored = p';
                          configured = configured;
                          same_spec = same.0;
                          derived = same.1;
                          reader = reader;
                          reading = reading;
                          same_reader = same_reader;
                          read = read;
                          complete = e;
                          updated = g;
                          allowed = allowed;
                        }))
            ]
      ]

  pub fetch_reports-Effect :
      (config : Config) (version : String) (p : Propagation) (c : C) (w : W)
      → IsFor spec config p
      → IsOwnVersion default_tag cluster objects backend spec version
      → Going config c w
      → Effect c w (fetch_reports default_tag cluster objects backend config version p c w)
  unfolding fetch_reports
  fetch_reports-Effect config version p c w same own going =
      law.composes _ _ _ (fetch_all-Effect _ _ none c w)
        (store_reports-Effect config version p c w same own going)
