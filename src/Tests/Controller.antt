-- ===== src/Tests/Controller.antt =====
-- A round of the reconciler for `prod-1`, which comes after `staging-1` and waits with `prod-2`.
use propagation_controller.Base.{
  false, true, ℕ, ◌+◌, ◌≡◌, ◌≢◌, ◌≤ℤ◌, arith, eq_iff, false≢true, refl, ℤ, pos, sub_time, String,
  none, List, [], ◌∷◌, map, All, ok, err, contains,
}
use propagation_controller.Api.{
  DeploymentStatus, DeploymentStatusesReport, Propagation, healthy, DeployConditions,
}
use propagation_controller.Api.Report.{
  healthy_until, version_healthy_duration, find_deployment_status_report, last_status,
}
use propagation_controller.Api.Next.{bakes, first_baked, add_reports, next_version}
use propagation_controller.Config.{Config, deployment_bake_time}
use propagation_controller.Controller.{Cluster, Backend, Objects, requeue_after}
use propagation_controller.Controller.Decide.{go, check_deployment, check_all, decide}
use propagation_controller.Controller.Fetch.{fetch_one, fetch_all}
use propagation_controller.Controller.Gate.{IsAllowed, decide-IsAllowed}
use propagation_controller.Controller.Reports.{HasStatus, fetch_all-none}
use propagation_controller.Controller.Reconcile.{minute, wait_time, act, finish}
use propagation_controller.Controller.Progress.{IsSettled, decide-go}
use propagation_controller.Api.Next.Baked.{is_baked}
use propagation_controller.Tests.Config.{propagation_of}

abbrev pub healthy_at : String → ℕ → DeploymentStatus
healthy_at version start = record { version = version; start = pos start; state = healthy }

abbrev pub report_of : String → DeploymentStatus → DeploymentStatusesReport
report_of name status = record { deployment_name = name; statuses = status ∷ [] }

abbrev waiting : DeployConditions
waiting = record {
  deploy_after = record { deployments = "staging-1" ∷ []; bake_time = pos 30 };
  deploy_with = "prod-2" ∷ [];
}

abbrev with_reports : List DeploymentStatusesReport → Propagation
with_reports reports = record (propagation_of "prod-1") {
  status = record (propagation_of "prod-1").status {
    deployment_statuses_reports = reports;
    deploy_conditions = waiting;
  };
}

abbrev pub prod_1 : Propagation
prod_1 =
    with_reports
      (report_of "prod-2" (healthy_at "v1" 5) ∷ report_of "staging-1" (healthy_at "v2" 10) ∷ [])

abbrev pub config : Config
config = record {
  environments =
      record {
        name = "production";
        waves = record { bake_time = pos 90; deployments = "prod-1" ∷ "prod-2" ∷ [] } ∷ [];
        release_cadence = record { schedule = ""; wait_time = pos 0 };
      }
      ∷ [];
}

-- A clock that goes on by one nanosecond at each reading.
abbrev now : ℕ → ℤ × ℕ
now n = (pos n, n + 1)

prod_1_goes : (decide now config "v1" "latest" prod_1 200).0 ≡ go "v2"
unfolding decide check_all check_deployment find_deployment_status_report last_status
    version_healthy_duration healthy_until sub_time deployment_bake_time contains next_version
    first_baked bakes add_reports
prod_1_goes = refl

decide-IsAllowed_example : IsAllowed now config "v1" "latest" prod_1 200 "v2"
decide-IsAllowed_example = decide-IsAllowed now config "v1" "latest" prod_1 200 "v2" prod_1_goes

-- `prod-2` has run `v1` for 195 nanoseconds, and its wave bakes for 90.
prod_2-IsSettled :
    IsSettled (pos 200) config "v1" "prod-2" prod_1.status.deployment_statuses_reports
prod_2-IsSettled = record {
  report = report_of "prod-2" (healthy_at "v1" 5);
  last = healthy_at "v1" 5;
  found = unfold find_deployment_status_report in refl;
  newest = unfold last_status in refl;
  same_version = refl;
  is_healthy = refl;
  baked =
      unfold version_healthy_duration healthy_until sub_time deployment_bake_time contains in
      omega arith;
}

later : (n : ℕ) → (now n).0 ≤ℤ (now (now n).1).0
later n = omega arith

v2-named : ◌≢◌ {A = String} "v2" ""
v2-named e = absurd (false≢true ((eq_iff "v2" "").1 e))

decide-go_example :
    (next : String) × ((decide now config "v1" "latest" prod_1 200).0 ≡ go next)
    × (contains ("v2" ∷ []) next ≡ true)
decide-go_example =
    decide-go now later config "v1" "latest" prod_1 200 "staging-1" [] [] [] "v2" refl
      (prod_2-IsSettled, tt) (unfold add_reports contains in refl) (v2-named, tt)
      (unfold is_baked version_healthy_duration healthy_until sub_time contains in refl)

abbrev pub cluster : Cluster ℕ
cluster = record {
  get_propagation = λ key w. (err "not found", w);
  update_status = λ p w. (ok p, w);
  set_status_condition = λ c conditions w. (c ∷ conditions, w);
  find_status_condition = λ conditions type. none;
  now = now;
}

abbrev pub backend : Backend ℕ (Unit {0})
backend = record {
  open_client = λ p w. (ok tt, w);
  get_config = λ c w. (ok config, c, w);
  publish_status = λ deployment status c w. (ok tt, c, w);
  get_status = λ deployment c w. (ok (healthy_at "v1" 0), c, w);
  propagate = λ deployment version c w. (ok tt, c, w);
}

abbrev fetched : List DeploymentStatusesReport
fetched = (fetch_all cluster backend ("prod-2" ∷ "staging-1" ∷ []) [] none tt 7).reports

fetch_all-none_example :
    (map (λ r. r.deployment_name) fetched ≡ "prod-2" ∷ "staging-1" ∷ []) × All HasStatus fetched
unfolding fetch_all fetch_one
fetch_all-none_example = fetch_all-none cluster backend ("prod-2" ∷ "staging-1" ∷ []) [] tt 7 refl

abbrev pub objects : Objects ℕ String String
objects = record {
  get_object = λ api_version kind key w. (ok "v1", w);
  from_map = λ object. ok object;
  look_up = λ path node. ok node;
  is_nil_or_empty = λ node. false;
  is_string_value = λ node. true;
  value = λ node. node;
}

-- The round of `prod_1_goes` propagates and asks for another one in a minute.
prod_1_propagates :
    (finish "latest" cluster objects backend config "v1" prod_1 tt 200).0 ≡ requeue_after minute
unfolding finish act decide check_all check_deployment find_deployment_status_report last_status
    version_healthy_duration healthy_until sub_time deployment_bake_time contains next_version
    first_baked bakes add_reports wait_time
prod_1_propagates = refl
