-- ===== src/Controller/Panic.antt =====
-- A round does not panic: the nil that `LastStatus` may return is not dereferenced.
use mathlib.Core.Path.{subst}
use propagation_controller.Base.{
  not, ◌||◌, ◌==◌, Bool-cases, ◌≡◌, ◌≢◌, refl, sym, ℤ, String, none, List, [], ◌∷◌, map, All, Error,
  inl, inr, Result-cases, Option-cases,
}
use propagation_controller.Api.{
  DeploymentStatus, healthy, ready_condition, DeploymentStatusesReport, Propagation,
}
use propagation_controller.Config.{Config, deploy_conditions_from_config}
use propagation_controller.Clients.Clientset.{NamespacedName}
use propagation_controller.Controller.{
  get_version, Cluster, Objects, Backend, done, requeue_after, failed, panic,
}
use propagation_controller.Controller.Decide.{Decision, wait, no_candidate, go, broken, decide}
use propagation_controller.Controller.Fetch.{Fetched, fetch_all}
use propagation_controller.Controller.Reconcile.{
  set_condition, act, finish, required_statuses, store_reports, wait_time, zero_time, with_status,
  condition, is_ready, set_ready_condition_false, fetch_reports, publish_own, mark_ready,
  with_version, with_config, with_client, reconcile,
}
use propagation_controller.Controller.Reports.{HasStatus, fetch_all-none}
use propagation_controller.Controller.Safety.{decide_with_status}
use propagation_controller.Controller.Round.{
  KeepsObject, stored_status, stored_report, fetched_condition, fresh,
}
use propagation_controller.Controller.Round.Beside.{last_status-stored}

done-ne-panic : done ≢ panic
done-ne-panic f = cc

failed-ne-panic : (e : Error) → failed e ≢ panic
failed-ne-panic e f = cc

requeue_after-ne-panic : (t : ℤ) → requeue_after t ≢ panic
requeue_after-ne-panic t f = cc

stored-HasStatus :
    (store_time : ℤ → ℤ) (rs : List DeploymentStatusesReport)
    → All HasStatus rs
    → All HasStatus (map (stored_report store_time) rs)
stored-HasStatus store_time [] v = tt
stored-HasStatus store_time (r ∷ rs) ((l, e), v) = (
  (stored_status store_time l, last_status-stored store_time r l e),
  stored-HasStatus store_time rs v,
)

module _ {W C Object Node : Type 0} (default_tag : String) (cluster : Cluster W)
    (objects : Objects W Object Node) (backend : Backend W C) where
  act-ne-panic :
      (p : Propagation) (d : Decision) (c : C) (w : W)
      → d ≢ broken
      → (act default_tag cluster objects backend p d c w).0 ≢ panic
  unfolding act
  act-ne-panic p wait c w v e = requeue_after-ne-panic (wait_time p) e
  act-ne-panic p no_candidate c w v e = requeue_after-ne-panic (wait_time p) e
  act-ne-panic p broken c w v e = v refl
  act-ne-panic p (go version) c w v e = propagated e
    where
      propagated : (act default_tag cluster objects backend p (go version) c w).0 ≢ panic
      propagated = elim (Result-cases (backend.propagate p.spec.deployment.name version c w).0) [
        | inl (_, f) ↦ rw (f, act) (requeue_after-ne-panic (wait_time p))
        | inr (x, f) ↦ rw (f, act) (failed-ne-panic x)
      ]

  finish-ne-panic :
      (config : Config) (version : String) (p : Propagation) (c : C) (w : W)
      → All HasStatus p.status.deployment_statuses_reports
      → (finish default_tag cluster objects backend config version p c w).0 ≢ panic
  unfolding finish
  finish-ne-panic config version p c w v =
      let (decision, w') = decide cluster.now config version default_tag p w in
      act-ne-panic p decision c w' (decide_with_status cluster.now config version default_tag p w v)

  module _ (store_time : ℤ → ℤ) (keeps : KeepsObject store_time cluster) (config : Config)
      (version : String) (p : Propagation) where
    pub store_reports-ne-panic :
        (f : Fetched W C)
        → (f.error ≡ none → All HasStatus f.reports)
        → (store_reports default_tag cluster objects backend config version p f).0 ≢ panic
    unfolding store_reports set_condition
    store_reports-ne-panic f v = elim (Option-cases f.error) [
      | inr (x, e) ↦ rw (e, store_reports) (failed-ne-panic x)
      | inl e ↦
          let (_, w) = fetched_condition default_tag cluster objects backend p f in
          let sent = fresh default_tag cluster objects backend p f in
          elim (Result-cases (cluster.update_status sent w).0) [
            | inr (x, g) ↦ rw (e, g, store_reports) (failed-ne-panic x)
            | inl (p', g) ↦
                rw (e, g, store_reports)
                  (finish-ne-panic config version p' f.client (cluster.update_status sent w).1 (
                    subst (All HasStatus) (sym (keeps.reports sent p' w g))
                      (stored-HasStatus store_time f.reports (v e))))
          ]
    ]

  module _ (store_time : ℤ → ℤ) (keeps : KeepsObject store_time cluster) where
    fetch_reports-ne-panic :
        (config : Config) (version : String) (p : Propagation) (c : C) (w : W)
        → (fetch_reports default_tag cluster objects backend config version p c w).0 ≢ panic
    unfolding fetch_reports
    fetch_reports-ne-panic config version p c w =
        let ds = required_statuses default_tag cluster objects backend p in
        let old = p.status.deployment_statuses_reports in
        store_reports-ne-panic store_time keeps config version p
          (fetch_all cluster backend ds old none c w)
          λ e. (fetch_all-none cluster backend ds old c w e).1

    publish_own-ne-panic :
        (config : Config) (version : String) (p : Propagation) (c : C) (w : W)
        → (publish_own default_tag cluster objects backend config version p c w).0 ≢ panic
    unfolding publish_own
    publish_own-ne-panic config version p c w =
        let own : DeploymentStatus = record {
          version = version;
          start = zero_time;
          state = healthy;
        } in
        let changed = with_status p (record p.status { deployment_status = own }) in
        let call = backend.publish_status p.spec.deployment.name own c w in
        elim (Bool-cases (
          not (p.status.deployment_status.version == version)
          || not (p.status.deployment_status.state == healthy))) [
            | inr e ↦ rw e (fetch_reports-ne-panic config version p c w)
            | inl e ↦ elim (Result-cases call.0) [
              | inr (x, f) ↦ rw (e, f, publish_own) (failed-ne-panic x)
              | inl (_, f) ↦ elim (Result-cases (cluster.update_status changed call.2).0) [
                | inr (x, g) ↦ rw (e, f, g, publish_own) done-ne-panic
                | inl (p', g) ↦
                    rw (e, f, g, publish_own) (fetch_reports-ne-panic config version p' call.1 _)
              ]
            ]
          ]

    mark_ready-ne-panic :
        (config : Config) (version : String) (p : Propagation) (c : C) (w : W)
        → (mark_ready default_tag cluster objects backend config version p c w).0 ≢ panic
    unfolding mark_ready
    mark_ready-ne-panic config version p c w =
        let ready = condition p ready_condition "True" "Ready" "Propagation ready" in
        let (q, w') = set_condition default_tag cluster objects backend p ready w in
        elim (Bool-cases (
          is_ready default_tag cluster objects backend
            (cluster.find_status_condition p.status.conditions ready_condition))) [
              | inl e ↦ rw e (publish_own-ne-panic config version p c w)
              | inr e ↦ elim (Result-cases (cluster.update_status q w').0) [
                | inr (x, f) ↦ rw (e, f, mark_ready) (failed-ne-panic x)
                | inl (p', f) ↦ rw (e, f, mark_ready) (publish_own-ne-panic config version p' c _)
              ]
            ]

    with_version-ne-panic :
        (config : Config) (p : Propagation) (c : C) (w : W)
        → (with_version default_tag cluster objects backend config p c w).0 ≢ panic
    unfolding with_version set_ready_condition_false
    with_version-ne-panic config p c w = elim (Result-cases (get_version objects p w).0) [
      | inr (x, e) ↦ rw (e, with_version) (failed-ne-panic x)
      | inl (v, e) ↦ rw (e, with_version) (mark_ready-ne-panic config v p c _)
    ]

    with_config-ne-panic :
        (config : Config) (p : Propagation) (c : C) (w : W)
        → (with_config default_tag cluster objects backend config p c w).0 ≢ panic
    unfolding with_config set_ready_condition_false
    with_config-ne-panic config p c w =
        elim (Result-cases (deploy_conditions_from_config p config)) [
          | inr (x, e) ↦ rw (e, with_config) (failed-ne-panic x)
          | inl (conditions, e) ↦
              let changed = with_status p (record p.status { deploy_conditions = conditions }) in
              elim (Result-cases (cluster.update_status changed w).0) [
                | inr (x, f) ↦ rw (e, f, with_config) (failed-ne-panic x)
                | inl (p', f) ↦ rw (e, f, with_config) (with_version-ne-panic config p' c _)
              ]
        ]

    with_client-ne-panic :
        (p : Propagation) (c : C) (w : W)
        → (with_client default_tag cluster objects backend p c w).0 ≢ panic
    unfolding with_client set_ready_condition_false
    with_client-ne-panic p c w = elim (Result-cases (backend.get_config c w).0) [
      | inr (x, e) ↦ rw (e, with_client) (failed-ne-panic x)
      | inl (config, e) ↦ rw (e, with_client) (with_config-ne-panic config p _ _)
    ]

    -- `Reconcile` does not end in the panic of a nil dereference, whatever object, configuration,
    -- version and statuses it gets and whichever calls fail: where it reads the last status of a
    -- report, there is one. The answer to an update of a status keeps the reports that were sent, but
    -- for what storing does to an instant. The goroutines that fetch the statuses run one after
    -- another here.
    pub reconcile-ne-panic :
        (key : NamespacedName) (w : W)
        → (reconcile default_tag cluster objects backend key w).0 ≢ panic
    unfolding reconcile set_ready_condition_false
    reconcile-ne-panic key w =
        let got = cluster.get_propagation key w in
        elim (Result-cases got.0) [
          | inr (x, e) ↦ rw (e, reconcile) (failed-ne-panic x)
          | inl (p, e) ↦ elim (Result-cases (backend.open_client p got.1).0) [
            | inr (x, f) ↦ rw (e, f, reconcile) (failed-ne-panic x)
            | inl (c, f) ↦ rw (e, f, reconcile) (with_client-ne-panic p c _)
          ]
        ]
