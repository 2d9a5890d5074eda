-- ===== src/Tests/System.antt =====
-- A round for `prod-1` over the registry of `Tests.Clients`: staging has run the version `v2` for longer
-- than its bake time, `prod-2` is at the version of `prod-1`, and the round deploys `v2`.
use mathlib.Core.Path.{subst}
use propagation_controller.Base.{
  ◌≢◌, List, contains, sub_time, ◌≡◌, refl, String, false, true, pos, List, [], ◌∷◌, Option, none,
  some, Result, ok, ok_injective,
}
use propagation_controller.Api.{DeploymentStatusesReport, Propagation}
use propagation_controller.Clients.{
  same_bytes, Bytes, PropagationBackendClient, lookup, same_metadata, new_propagation_client, fetch,
  publish, publish_artifact, publish_status, fetch_artifact, get_status, get_config, propagate,
}
use propagation_controller.Clients.Registry.{IsRegistry}
use propagation_controller.Config.{
  Config, Environment, Wave, deploy_after_from_config, deploy_with_from_config,
  deploy_conditions_from_config, deployment_bake_time,
}
use propagation_controller.Clients.Steps.{status_of, config_place}
use propagation_controller.Clients.Transfer.{manifest_of, deploy_of}
use propagation_controller.Clients.Clientset.{NamespacedName, find_client, propagation}
use propagation_controller.Controller.Panic.{reconcile-ne-panic}
use propagation_controller.Controller.{panic, Cluster, Objects, get_version}
use propagation_controller.Controller.System.{
  system_cluster, system_objects, system_backend, System, reconcile_system,
}
use propagation_controller.Controller.System.Opening.{IsHonest}
use propagation_controller.Controller.Reconcile.{
  finish, store_reports, fetch_reports, publish_own, mark_ready, with_version, with_config,
  with_client, reconcile,
}
use propagation_controller.Controller.Fetch.{report_for, write_through, fetch_all}
use propagation_controller.Controller.Decide.{check_all, check_deployment, decide}
use propagation_controller.Api.Report.{
  find_deployment_status_report, healthy_until, version_healthy_duration, append_status,
  last_status,
}
use propagation_controller.Api.Next.{add_reports, bakes, first_baked, next_version}
use propagation_controller.Tests.Clients.{
  World, registry_with-IsRegistry, content, decode, get_secret,
}
use propagation_controller.Tests.Config.{propagation_of}
use propagation_controller.Tests.Speaking.{speaking, speak, is_spoken, is_zero}
use propagation_controller.Tests.Controller.{healthy_at}
use propagation_controller.Tests.Keeps.{stores-KeepsObject}

abbrev wave : String → Wave
wave deployment = record { bake_time = pos 100; deployments = deployment ∷ [] }

abbrev environment : String → List Wave → Environment
environment name waves = record {
  name = name;
  waves = waves;
  release_cadence = record { schedule = ""; wait_time = pos 0 };
}

abbrev pub two_environments : Config
two_environments = record {
  environments =
      environment "staging" (wave "staging-1" ∷ [])
      ∷ environment "production" (wave "prod-1" ∷ wave "prod-2" ∷ [])
      ∷ [];
}

abbrev pub parsing : PropagationBackendClient World String
parsing = speaking two_environments

abbrev pub make : String → Option Bytes → Result (PropagationBackendClient World String)
make base_url secret_data = ok parsing

pub make-IsHonest : (cluster : Cluster World) → IsHonest content cluster make
make-IsHonest cluster = record {
  registry = λ key w p secret b _ e.
      subst (λ b. IsRegistry b content) (ok_injective e)
        (registry_with-IsRegistry speak (λ a. ok two_environments));
}

abbrev report : String → String → DeploymentStatusesReport
report name version = record { deployment_name = name; statuses = healthy_at version 0 ∷ [] }

-- The object for `prod-1`, whose version is in a field of another object. It has reports of earlier
-- rounds.
abbrev pub prod_1 : Propagation
prod_1 = record (propagation_of "prod-1") {
  spec = record (propagation_of "prod-1").spec {
    deployment = record {
      name = "prod-1";
      version = record {
        kind = "App";
        name = "app";
        api_version = "v1";
        field_path = "status.version";
      };
    };
  };
  status = record (propagation_of "prod-1").status {
    deployment_statuses_reports = report "prod-2" "v1" ∷ report "staging-1" "v2" ∷ [];
  };
}

abbrev pub cluster : Cluster World
cluster = record {
  get_propagation = λ key w. (ok prod_1, w);
  update_status = λ p w. (ok p, w);
  set_status_condition = λ c conditions w. (c ∷ conditions, w);
  find_status_condition = λ conditions type. none;
  now = λ w. (pos 200, w);
}

abbrev pub objects : Objects World String String
objects = record {
  get_object = λ api_version kind key w. (ok "v1", w);
  from_map = λ object. ok object;
  look_up = λ path node. ok node;
  is_nil_or_empty = λ node. false;
  is_string_value = λ node. true;
  value = λ node. node;
}

abbrev key : NamespacedName
key = record { namespace = "default"; name = "prod-1" }

-- No client has been made yet.
abbrev pub system : System World String
system = record {
  clientset = record { clients = [] };
  world =
      (manifest_of "prod-1" "v2", "image two")
      ∷ (status_of "staging-1", "v2")
      ∷ (status_of "prod-2", "v1")
      ∷ (config_place, "configuration")
      ∷ [];
}

abbrev after : System World String
after = (reconcile_system "latest" get_secret make cluster objects key system).1

reconcile-ne-panic_example :
    (reconcile "latest"
      (system_cluster {A = String} cluster)
      (system_objects objects)
      (system_backend "latest" get_secret make)
      key
      system).0
    ≢ panic
reconcile-ne-panic_example =
    reconcile-ne-panic "latest" (system_cluster {A = String} cluster) (system_objects objects)
      (system_backend "latest" get_secret make) (λ t. t)
      (stores-KeepsObject (system_cluster {A = String} cluster) (λ p w. refl)) key system

abbrev deployed : Option String
deployed = lookup (deploy_of "prod-1") after.world

round_deploys : deployed ≡ some "image two"
unfolding reconcile_system finish store_reports fetch_reports publish_own mark_ready with_version
    with_config with_client reconcile report_for fetch_all check_all decide get_version
    same_metadata lookup new_propagation_client fetch publish publish_artifact publish_status
    fetch_artifact get_status get_config propagate find_client propagation deploy_after_from_config
    deploy_with_from_config deploy_conditions_from_config find_deployment_status_report
    healthy_until version_healthy_duration append_status add_reports bakes first_baked next_version
    contains sub_time check_deployment deployment_bake_time last_status write_through speak
    is_spoken is_zero decode same_bytes
round_deploys = refl
