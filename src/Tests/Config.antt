-- ===== src/Tests/Config.antt =====
-- The conditions of the deployments of a configuration with two environments.
use mathlib.Core.WellFounded.{WellFounded}
use propagation_controller.Base.{
  ℕ, ◌<◌, ◌≡◌, refl, pos, String, true, false, none, List, [], ◌∷◌, ok, err, contains, ◌⊎◌,
}
use propagation_controller.Api.{Propagation, DeployConditions}
use propagation_controller.Config.{
  Config, Environment, Wave, zero_wave, missing_config, deployment_bake_time,
  deploy_after_from_config, deploy_with_from_config, deploy_conditions_from_config,
}
use propagation_controller.Config.Waves.{all_waves, is_listed, last_or, to_after}
use propagation_controller.Config.Sequence.{Awaits, Awaits-WellFounded, position, Awaits-position}
use propagation_controller.Config.Together.{
  with_spec, deploy_with_from_config_lem, deploy_conditions_from_config_lem,
}
use propagation_controller.Config.Total.{deploy_conditions_from_config-total}
use propagation_controller.Config.Bake.{deployment_bake_time_lem}

abbrev wave : ℕ → List String → Wave
wave bake_time deployments = record { bake_time = pos bake_time; deployments = deployments }

abbrev environment : String → List Wave → Environment
environment name waves = record {
  name = name;
  waves = waves;
  release_cadence = record { schedule = ""; wait_time = pos 0 };
}

abbrev staging : Environment
staging = environment "staging" (wave 30 ("staging-1" ∷ []) ∷ [])

abbrev production : Environment
production =
    environment "production" (wave 60 ("prod-1" ∷ []) ∷ wave 90 ("prod-2" ∷ "prod-3" ∷ []) ∷ [])

abbrev config : Config
config = record { environments = staging ∷ production ∷ [] }

abbrev pub propagation_of : String → Propagation
propagation_of name = record {
  name = name;
  namespace = "default";
  generation = pos 1;
  spec = record {
    poll_interval = pos 0;
    backend = record { base_url = "oci://registry/app"; secret_ref = none };
    deployment = record {
      name = name;
      version = record { kind = ""; name = ""; api_version = ""; field_path = "" };
    };
  };
  status = record {
    deployment_status = record { version = ""; start = pos 0; state = "" };
    conditions = [];
    deployment_statuses_reports = [];
    deploy_conditions = record {
      deploy_after = record { deployments = []; bake_time = pos 0 };
      deploy_with = [];
    };
  };
}

-- `prod-1` comes after staging, in another environment, and waits with its own later wave.
prod_1 :
    deploy_conditions_from_config (propagation_of "prod-1") config
    ≡ ok (record {
      deploy_after = record { deployments = "staging-1" ∷ []; bake_time = pos 30 };
      deploy_with = "prod-2" ∷ "prod-3" ∷ [];
    })
unfolding deploy_conditions_from_config deploy_after_from_config deploy_with_from_config contains
prod_1 = refl

deploy_conditions_from_config_lem_example :
    deploy_conditions_from_config (propagation_of "prod-1") config
    ≡ ok (record {
      deploy_after = to_after (last_or zero_wave (wave 30 ("staging-1" ∷ []) ∷ []));
      deploy_with = with_spec [] (wave 90 ("prod-2" ∷ "prod-3" ∷ []) ∷ []);
    })
unfolding contains all_waves
deploy_conditions_from_config_lem_example =
    deploy_conditions_from_config_lem (propagation_of "prod-1") config (staging ∷ []) production []
      [] (wave 60 ("prod-1" ∷ [])) (wave 90 ("prod-2" ∷ "prod-3" ∷ []) ∷ []) refl refl
      ((refl, tt), tt) tt refl

deploy_with_from_config_lem_example :
    deploy_with_from_config (propagation_of "prod-2") config
    ≡ ok (with_spec (wave 60 ("prod-1" ∷ []) ∷ []) [])
unfolding contains
deploy_with_from_config_lem_example =
    deploy_with_from_config_lem (propagation_of "prod-2") config (staging ∷ []) production []
      (wave 60 ("prod-1" ∷ []) ∷ []) (wave 90 ("prod-2" ∷ "prod-3" ∷ [])) [] refl refl
      ((refl, tt), tt) (refl, tt) refl

prod_1-Awaits : Awaits config "prod-1" "staging-1"
unfolding deploy_after_from_config contains
prod_1-Awaits = record {
  propagation = propagation_of "prod-1";
  conditions = record { deployments = "staging-1" ∷ []; bake_time = pos 30 };
  named = refl;
  derived = refl;
  listed = refl;
}

Awaits-position_example : position config "staging-1" < position config "prod-1"
Awaits-position_example = Awaits-position config "prod-1" "staging-1" prod_1-Awaits

deploy_conditions_from_config-total_example :
    ((is_listed "prod-9" (all_waves config.environments) ≡ true)
      × ((d : DeployConditions) × (deploy_conditions_from_config (propagation_of "prod-9") config
            ≡ ok d)))
    ⊎ ((is_listed "prod-9" (all_waves config.environments) ≡ false)
        × (deploy_conditions_from_config (propagation_of "prod-9") config
            ≡ err (missing_config "prod-9")))
deploy_conditions_from_config-total_example =
    deploy_conditions_from_config-total (propagation_of "prod-9") config

deployment_bake_time_lem_example : deployment_bake_time config "prod-3" ≡ pos 90
unfolding contains all_waves
deployment_bake_time_lem_example =
    deployment_bake_time_lem config "prod-3"
      (wave 30 ("staging-1" ∷ []) ∷ wave 60 ("prod-1" ∷ []) ∷ [])
      (wave 90 ("prod-2" ∷ "prod-3" ∷ [])) [] refl (refl, (refl, tt)) refl

Awaits-WellFounded_example : WellFounded (λ d name. Awaits config name d)
Awaits-WellFounded_example = Awaits-WellFounded config
