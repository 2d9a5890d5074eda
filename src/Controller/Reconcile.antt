-- ===== src/Controller/Reconcile.antt =====
-- `Reconcile` from its first call to its last, a function for each part up to the next early return.
use propagation_controller.Base.{
  ℤ, pos, negsuc, leb, String, Bool, false, not, ◌||◌, Option, none, some, List, ◌++◌, ok, err,
  Error, ◌==◌, if◌then◌else◌,
}
use Prim.Native.String.{◌++◌ as append}
use propagation_controller.Api.{
  DeploymentStatus, Condition, Propagation, PropagationStatus, healthy, ready_condition,
}
use propagation_controller.Config.{Config, deploy_conditions_from_config}
use propagation_controller.Clients.Clientset.{NamespacedName}
use propagation_controller.Controller.{
  Cluster, Objects, Backend, Outcome, done, requeue_after, failed, panic, get_version,
}
use propagation_controller.Controller.Fetch.{Fetched, fetch_all}
use propagation_controller.Controller.Decide.{Decision, wait, no_candidate, go, broken, decide}

-- The instants count from the zero value of `time.Time`.
abbrev pub zero_time : ℤ
zero_time = pos 0

-- `time.Minute`
abbrev pub minute : ℤ
minute = pos 60000000000

abbrev pub with_status : Propagation → PropagationStatus → Propagation
with_status p s = record p { status = s }

abbrev pub condition : Propagation → String → String → String → String → Condition
condition p type status reason message = record {
  type = type;
  status = status;
  observed_generation = p.generation;
  last_transition_time = zero_time;
  reason = reason;
  message = message;
}

abbrev is_zero : ℤ → Bool
is_zero (pos n) = leb n 0
is_zero (negsuc n) = false

unfoldable pub wait_time : Propagation → ℤ
wait_time p = if is_zero p.spec.poll_interval then minute else p.spec.poll_interval

module _ {W C Object Node : Type 0} (default_tag : String) (cluster : Cluster W)
    (objects : Objects W Object Node) (backend : Backend W C) where
  -- `meta.SetStatusCondition` on the object's conditions.
  unfoldable pub set_condition : Propagation → Condition → W → Propagation × W
  set_condition p c w =
      let (conditions, w') = cluster.set_status_condition c p.status.conditions w in
      (with_status p (record p.status { conditions = conditions }), w')

  -- `SetReadyConditionFalse`; the result of the update is dropped.
  unfoldable pub set_ready_condition_false : Propagation → Error → String → W → Outcome × W
  unfolding set_condition
  set_ready_condition_false p e reason w =
      let (p', w') = set_condition p (condition p ready_condition "False" reason e) w in
      let (_, w'') = cluster.update_status p' w' in (failed e, w'')

  -- From the decision on.
  unfoldable pub act : Propagation → Decision → C → W → Outcome × C × W
  unfolding wait_time
  act p wait c w = (requeue_after (wait_time p), c, w)
  act p no_candidate c w = (requeue_after (wait_time p), c, w)
  act p broken c w = (panic, c, w)
  act p (go version) c w =
      let (r, c', w') = backend.propagate p.spec.deployment.name version c w in
      elim r [ err e ↦ (failed e, c', w') | ok _ ↦ (requeue_after (wait_time p), c', w') ]

  -- The end, behind the update of the reports.
  unfoldable pub finish : Config → String → Propagation → C → W → Outcome × C × W
  unfolding act
  finish config version p c w =
      let (decision, w') = decide cluster.now config version default_tag p w in act p decision c w'

  unfoldable pub required_statuses : Propagation → List String
  required_statuses p =
      p.status.deploy_conditions.deploy_with ++ p.status.deploy_conditions.deploy_after.deployments

  -- The reports: fetched, and written with the condition `StatusesFetched`.
  unfoldable pub store_reports : Config → String → Propagation → Fetched W C → Outcome × C × W
  unfolding set_condition
  store_reports config version p f = elim f.error [
    | some e ↦
        let stale = with_status p (record p.status { deployment_statuses_reports = f.old }) in
        let (p', w') =
          set_condition stale
            (condition p "StatusesFetched" "False" "StatusesFetchFailed"
              (append "Error fetching statuses: " e))
            f.world in
        let (_, w'') = cluster.update_status p' w' in (failed e, f.client, w'')
    | none ↦
        let (p', w') =
          set_condition p
            (condition p "StatusesFetched" "True" "StatusesFetchSuccess" "Statuses fetched")
            f.world in
        let fresh = with_status p' (record p'.status { deployment_statuses_reports = f.reports }) in
        let (updated, w'') = cluster.update_status fresh w' in
        elim updated [
          | err e ↦ (failed e, f.client, w'')
          | ok p'' ↦ finish config version p'' f.client w''
        ]
  ]

  unfoldable pub fetch_reports : Config → String → Propagation → C → W → Outcome × C × W
  unfolding required_statuses
  fetch_reports config version p c w = store_reports config version p (
      fetch_all cluster backend (required_statuses p) p.status.deployment_statuses_reports none c w)

  -- The deployment's own status, published where it has changed. Where the object cannot be updated
  -- after that, the source returns no error.
  unfoldable pub publish_own : Config → String → Propagation → C → W → Outcome × C × W
  publish_own config version p c w =
      if not (p.status.deployment_status.version == version)
        || not (p.status.deployment_status.state == healthy)
      then (let own : DeploymentStatus = record {
        version = version;
        start = zero_time;
        state = healthy;
      } in
          let changed = with_status p (record p.status { deployment_status = own }) in
          let (r, c', w') = backend.publish_status p.spec.deployment.name own c w in
          elim r [
            | err e ↦ (failed e, c', w')
            | ok _ ↦
                let (updated, w'') = cluster.update_status changed w' in
                elim updated [
                  | err e ↦ (done, c', w'')
                  | ok p' ↦ fetch_reports config version p' c' w''
                ]
          ])
      else fetch_reports config version p c w

  abbrev pub is_ready : Option Condition → Bool
  is_ready none = false
  is_ready (some c) = c.status == "True"

  -- The condition `Ready`, set where it is not true already.
  unfoldable pub mark_ready : Config → String → Propagation → C → W → Outcome × C × W
  unfolding set_condition
  mark_ready config version p c w =
      if is_ready (cluster.find_status_condition p.status.conditions ready_condition)
      then publish_own config version p c w
      else (let (p', w') =
            set_condition p (condition p ready_condition "True" "Ready" "Propagation ready") w in
          let (updated, w'') = cluster.update_status p' w' in
          elim updated [
            | err e ↦ (failed e, c, w'')
            | ok p'' ↦ publish_own config version p'' c w''
          ])

  abbrev pub keep_client : C → Outcome × W → Outcome × C × W
  keep_client c r = (r.0, c, r.1)

  unfoldable pub with_version : Config → Propagation → C → W → Outcome × C × W
  with_version config p c w =
      let (version, w') = get_version objects p w in
      elim version [
        | err e ↦ keep_client c (set_ready_condition_false p e "VersionMissing" w')
        | ok v ↦ mark_ready config v p c w'
      ]

  unfoldable pub with_config : Config → Propagation → C → W → Outcome × C × W
  with_config config p c w = elim (deploy_conditions_from_config p config) [
    | err e ↦ keep_client c (set_ready_condition_false p e "ConfigInitFailed" w)
    | ok conditions ↦
        let changed = with_status p (record p.status { deploy_conditions = conditions }) in
        let (updated, w') = cluster.update_status changed w in
        elim updated [ err e ↦ (failed e, c, w') | ok p' ↦ with_version config p' c w' ]
  ]

  unfoldable pub with_client : Propagation → C → W → Outcome × C × W
  with_client p c w =
      let (config, c', w') = backend.get_config c w in
      elim config [
        | err e ↦ keep_client c' (set_ready_condition_false p e "ConfigInitFailed" w')
        | ok config' ↦ with_config config' p c' w'
      ]

  -- `(*PropagationReconciler).Reconcile`
  unfoldable pub reconcile : NamespacedName → W → Outcome × W
  reconcile key w =
      let (got, w') = cluster.get_propagation key w in
      elim got [
        | err e ↦ (failed e, w')
        | ok p ↦
            let (opened, w'') = backend.open_client p w' in
            elim opened [
              | err e ↦ set_ready_condition_false p e "BackendInitFailed" w''
              | ok c ↦ let (outcome, _, w''') = with_client p c w'' in (outcome, w''')
            ]
      ]
