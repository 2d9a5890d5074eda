-- ===== src/Controller/Round/Whole.antt =====
-- A whole round, from its first call.
use propagation_controller.Base.{
  ℤ, ok, ◌≡◌, String, not, ◌||◌, inl, inr, Bool-cases, Result-cases, ◌==◌,
}
use propagation_controller.Api.{Propagation, PropagationSpec, healthy, ready_condition}
use propagation_controller.Config.{
  Config, deploy_conditions_from_config, deploy_after_from_config, deploy_with_from_config,
}
use propagation_controller.Controller.{Cluster, Objects, Backend, Outcome, get_version}
use propagation_controller.Controller.Reconcile.{
  with_status, condition, is_ready, set_condition, publish_own, mark_ready, with_version,
  with_config, with_client,
}
use propagation_controller.Controller.Round.{KeepsObject, IsOwnVersion, own_status, IsEffect}
use propagation_controller.Controller.Round.Ending.{
  IsFor, IsFor-updated, Going, Going-on, marked-Effect, set_ready_condition_false-Effect,
  fetch_reports-Effect,
}

module _ {W C Object Node : Type 0} (default_tag : String) (cluster : Cluster W)
    (objects : Objects W Object Node) (backend : Backend W C) (store_time : ℤ → ℤ)
    (keeps : KeepsObject store_time cluster) (spec : PropagationSpec) (start : C × W)
    (R : C × W → C × W → Type 0)
    (law : IsEffect default_tag cluster objects backend spec start R) where
  abbrev Under : Config → C → W → Type 0
  Under = Going default_tag cluster objects backend store_time keeps spec start R law

  abbrev Own : String → Type 0
  Own = IsOwnVersion default_tag cluster objects backend spec

  abbrev go_on :
      {config : Config} {c c' : C} {w w' : W}
      → Under config c w
      → R (c, w) (c', w')
      → Under config c' w'
  go_on going r =
      Going-on default_tag cluster objects backend store_time keeps spec start R law _ _ _ _ _ going
        r

  abbrev Effects : C → W → Outcome × C × W → Type 0
  Effects c w x = R (c, w) (x.1, x.2)

  updated :
      (config : Config) (p p' : Propagation) (w : W)
      → (cluster.update_status p w).0 ≡ ok p'
      → IsFor spec config p
      → IsFor spec config p'
  updated config p p' w e v = IsFor-updated cluster keeps spec config p p' w e v

  publish_status-Effect :
      (p : Propagation) (version : String) (c : C) (w : W)
      → p.spec ≡ spec
      → Own version
      → let x = backend.publish_status p.spec.deployment.name (own_status version) c w in
        R (c, w) (x.1, x.2)
  publish_status-Effect p version c w same mine = rw same (law.publishes version c w mine)

  publish_own-Effect :
      (config : Config) (version : String) (p : Propagation) (c : C) (w : W)
      → IsFor spec config p
      → Own version
      → Under config c w
      → Effects c w (publish_own default_tag cluster objects backend config version p c w)
  unfolding publish_own
  publish_own-Effect config version p c w same mine going =
      let fetch =
        fetch_reports-Effect default_tag cluster objects backend store_time keeps spec start R law
          config version in
      let changed = with_status p (record p.status { deployment_status = own_status version }) in
      let call = backend.publish_status p.spec.deployment.name (own_status version) c w in
      let same' : IsFor spec config changed =
        unfold deploy_conditions_from_config deploy_after_from_config deploy_with_from_config in
        same in
      let called = publish_status-Effect p version c w same.0 mine in
      elim (Bool-cases (
        not (p.status.deployment_status.version == version)
        || not (p.status.deployment_status.state == healthy))) [
          | inr e ↦ rw e (fetch p c w same mine going)
          | inl e ↦ elim (Result-cases call.0) [
            | inr (x, f) ↦ rw (e, f, publish_own) called
            | inl (_, f) ↦ elim (Result-cases (cluster.update_status changed call.2).0) [
              | inr (x, g) ↦
                  rw (e, f, g, publish_own)
                    (law.composes _ _ _ called (law.updates changed call.1 call.2))
              | inl (p', g) ↦
                  rw (e, f, g, publish_own)
                    (let both = law.composes _ _ _ called (law.updates changed call.1 call.2) in
                      law.composes _ _ _ both (
                        fetch p' call.1 _ (updated config changed p' call.2 g same') mine
                          (go_on going both)))
            ]
          ]
        ]

  get_version-Effect : (p : Propagation) (c : C) (w : W) → R (c, w) (c, (get_version objects p w).1)
  unfolding get_version
  get_version-Effect p c w = elim (Bool-cases (p.spec.deployment.version.name == "")) [
    | inl e ↦ rw e (law.stays (c, w))
    | inr e ↦ elim (Bool-cases (p.spec.deployment.version.field_path == "")) [
      | inl f ↦ rw (e, f) (law.stays (c, w))
      | inr f ↦ rw (e, f) (law.gets_object _ _ _ c w)
    ]
  ]

  mark_ready-Effect :
      (config : Config) (version : String) (p : Propagation) (c : C) (w : W)
      → IsFor spec config p
      → Own version
      → Under config c w
      → Effects c w (mark_ready default_tag cluster objects backend config version p c w)
  unfolding mark_ready
  mark_ready-Effect config version p c w same mine going =
      let ready = condition p ready_condition "True" "Ready" "Propagation ready" in
      let q = (set_condition default_tag cluster objects backend p ready w).0 in
      let w' = (set_condition default_tag cluster objects backend p ready w).1 in
      let marked =
        marked-Effect default_tag cluster objects backend store_time keeps spec start R law p ready
          q c w in
      let same' : IsFor spec config q =
        unfold set_condition deploy_conditions_from_config deploy_after_from_config
          deploy_with_from_config in
        same in
      elim (Bool-cases (
        is_ready default_tag cluster objects backend
          (cluster.find_status_condition p.status.conditions ready_condition))) [
            | inl e ↦ rw e (publish_own-Effect config version p c w same mine going)
            | inr e ↦ elim (Result-cases (cluster.update_status q w').0) [
              | inr (x, f) ↦ rw (e, f, mark_ready) marked
              | inl (p', f) ↦
                  rw (e, f, mark_ready)
                    (law.composes _ _ _ marked (
                      publish_own-Effect config version p' c _ (updated config q p' w' f same') mine
                        (go_on going marked)))
            ]
          ]

  with_version-Effect :
      (config : Config) (p : Propagation) (c : C) (w : W)
      → IsFor spec config p
      → Under config c w
      → Effects c w (with_version default_tag cluster objects backend config p c w)
  unfolding with_version
  with_version-Effect config p c w same going =
      let (version, w') = get_version objects p w in
      let found = get_version-Effect p c w in
      elim (Result-cases version) [
        | inr (x, e) ↦
            rw (e, with_version)
              (law.composes _ _ _ found (
                set_ready_condition_false-Effect default_tag cluster objects backend store_time
                  keeps spec start R law p x "VersionMissing" c w'))
        | inl (v, e) ↦
            rw (e, with_version)
              (law.composes _ _ _ found
                (mark_ready-Effect config v p c w' same (p, w, same.0, e) (go_on going found)))
      ]

  with_config-Effect :
      (config : Config) (p : Propagation) (c : C) (w : W)
      → p.spec ≡ spec
      → Under config c w
      → Effects c w (with_config default_tag cluster objects backend config p c w)
  unfolding with_config
  with_config-Effect config p c w same going =
      elim (Result-cases (deploy_conditions_from_config p config)) [
        | inr (x, e) ↦
            rw (e, with_config)
              (set_ready_condition_false-Effect default_tag cluster objects backend store_time keeps
                spec start R law p x "ConfigInitFailed" c w)
        | inl (conditions, e) ↦
            let changed = with_status p (record p.status { deploy_conditions = conditions }) in
            let same' : IsFor spec config changed = (
              same,
              unfold deploy_conditions_from_config deploy_after_from_config
                    deploy_with_from_config in
                  e,
            ) in
            elim (Result-cases (cluster.update_status changed w).0) [
              | inr (x, f) ↦ rw (e, f, with_config) (law.updates changed c w)
              | inl (p', f) ↦
                  rw (e, f, with_config)
                    (law.composes _ _ _ (law.updates changed c w) (
                      with_version-Effect config p' c _ (updated config changed p' w f same')
                        (go_on going (law.updates changed c w))))
            ]
      ]

  -- A round from the configuration on has the effect of the calls that it makes.
  pub with_client-Effect :
      (p : Propagation)
      → p.spec ≡ spec
      → Effects start.0 start.1 (with_client default_tag cluster objects backend p start.0 start.1)
  unfolding with_client
  with_client-Effect p same =
      let (config, c', w') = backend.get_config start.0 start.1 in
      let called = law.gets_config start.0 start.1 in
      elim (Result-cases config) [
        | inr (x, e) ↦
            rw (e, with_client)
              (law.composes _ _ _ called (
                set_ready_condition_false-Effect default_tag cluster objects backend store_time
                  keeps spec start R law p x "ConfigInitFailed" c' w'))
        | inl (config', e) ↦
            rw (e, with_client)
              (law.composes _ _ _ called (with_config-Effect config' p c' w' same (called, e)))
      ]
