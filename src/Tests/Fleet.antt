-- ===== src/Tests/Fleet.antt =====
-- A fleet over the registry of `Tests.System`: the controller of `prod-1` takes a round, a
-- configuration is published, and the controller starts again.
use propagation_controller.Base.{some, ◌≡◌, refl, String, ok}
use propagation_controller.Api.{Propagation}
use propagation_controller.Clients.Clientset.{new_propagation_clientset}
use propagation_controller.Clients.Transfer.{deploy_of}
use propagation_controller.Controller.Fleet.{Site, Fleet, round_at, restart_at}
use propagation_controller.Controller.Fleet.Installed.{Installed}
use propagation_controller.Base.{contains, sub_time}
use propagation_controller.Clients.{
  same_bytes, lookup, same_metadata, new_propagation_client, fetch, publish, publish_artifact,
  publish_status, fetch_artifact, get_status, get_config, propagate,
}
use propagation_controller.Config.{
  deploy_after_from_config, deploy_with_from_config, deploy_conditions_from_config,
  deployment_bake_time,
}
use propagation_controller.Clients.Clientset.{find_client, propagation}
use propagation_controller.Controller.{get_version}
use propagation_controller.Controller.System.{reconcile_system}
use propagation_controller.Controller.Reconcile.{
  finish, store_reports, fetch_reports, publish_own, mark_ready, with_version, with_config,
  with_client, reconcile,
}
use propagation_controller.Controller.Fetch.{report_for, write_through, fetch_all}
use propagation_controller.Controller.Decide.{check_all, check_deployment, decide}
use propagation_controller.Api.Report.{
  find_deployment_status_report, healthy_until, version_healthy_duration, append_status,
  last_status,
}
use propagation_controller.Api.Next.{add_reports, bakes, first_baked, next_version}
use propagation_controller.Tests.Speaking.{speak, is_spoken, is_zero}
use propagation_controller.Kpctl.{yaml_to_json, publish_files, find_configs}
use propagation_controller.Clients.{publish_config}
use propagation_controller.Kpctl.{publish_configs}
use propagation_controller.Tests.Clients.{World, decode, content, get_secret}
use propagation_controller.Tests.System.{make, prod_1, cluster, objects, system}
use propagation_controller.Tests.Kpctl.{formats, files, new_backend}

abbrev object_for : String → Propagation
object_for d = record prod_1 {
  name = d;
  spec = record prod_1.spec { deployment = record prod_1.spec.deployment { name = d } };
}

abbrev site : String → Site World String String String
site d = record {
  key = record { namespace = "default"; name = d };
  cluster = record cluster { get_propagation = λ key w. (ok (object_for d), w) };
  objects = objects;
  get_secret = get_secret;
  new_backend = make;
}

abbrev at_first : Fleet World String
at_first = record { clientsets = λ d. new_propagation_clientset; world = system.world }

abbrev behind_round : Fleet World String
behind_round = round_at "latest" content site "prod-1" at_first

abbrev behind_kpctl : Fleet World String
behind_kpctl = record behind_round {
  world = (publish_configs files formats new_backend behind_round.world).1;
}

abbrev at_last : Fleet World String
at_last = restart_at "prod-1" behind_kpctl

-- The round has deployed, and what it deployed is still there.
fleet_deploys : lookup (deploy_of "prod-1") at_last.world ≡ some "image two"
unfolding reconcile_system finish store_reports fetch_reports publish_own mark_ready with_version
    with_config with_client reconcile report_for fetch_all check_all decide get_version
    same_metadata lookup new_propagation_client fetch publish publish_artifact publish_status
    fetch_artifact get_status get_config propagate find_client propagation deploy_after_from_config
    deploy_with_from_config deploy_conditions_from_config find_deployment_status_report
    healthy_until version_healthy_duration append_status add_reports bakes first_baked next_version
    contains sub_time check_deployment deployment_bake_time last_status write_through speak
    is_spoken is_zero decode same_bytes publish_configs publish_files find_configs publish_config
    yaml_to_json new_propagation_clientset
fleet_deploys = refl
