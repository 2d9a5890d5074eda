-- ===== src/Config.antt =====
-- pkg/repo/config/config.go, and the functions of internal/controller/propagation_controller.go that
-- derive the conditions of a deployment from the configuration. A loop that returns from inside is a
-- function into `Option` or `Found`.
pub mod Waves
pub mod Bake
pub mod Sequence
pub mod Together
pub mod Total
use mathlib.Core.Option
use Prim.Native.String.{◌++◌ as append}
use propagation_controller.Base.{
  ℕ, zero, suc, ℤ, pos, String, Bool, true, false, Option, none, some, List, [], ◌∷◌, ◌++◌, Result,
  ok, err, contains, if◌then◌else◌,
}
use propagation_controller.Base.Fallible.{◌>>=◌}
use propagation_controller.Api.{Propagation, DeployAfter, DeployConditions}

pub record ReleaseCadence : Type 0 where
  pub schedule : String
  pub wait_time : ℤ

pub record Wave : Type 0 where
  pub bake_time : ℤ
  pub deployments : List String

pub record Environment : Type 0 where
  pub name : String
  pub waves : List Wave
  pub release_cadence : ReleaseCadence

pub record Config : Type 0 where
  pub environments : List Environment

pub record PropagationConfig : Type 0 where
  pub backend : String
  pub config : Config

-- The inner loop of `DeploymentBakeTime`, over the waves of an environment.
unfoldable pub bake_time_in_waves : String → List Wave → Option ℤ
bake_time_in_waves deployment [] = none
bake_time_in_waves deployment (wave ∷ waves) =
    if contains wave.deployments deployment
    then some wave.bake_time
    else bake_time_in_waves deployment waves

unfoldable pub bake_time_in_environments : String → List Environment → ℤ
bake_time_in_environments deployment [] = pos 0
bake_time_in_environments deployment (env ∷ envs) =
    Option.get_or (bake_time_in_waves deployment env.waves)
      (bake_time_in_environments deployment envs)

-- `(*Config).DeploymentBakeTime`
unfoldable pub deployment_bake_time : Config → String → ℤ
unfolding bake_time_in_waves bake_time_in_environments
deployment_bake_time c deployment = bake_time_in_environments deployment c.environments

-- The zero value of `Wave`, which `lastWave` has before the first wave.
abbrev pub zero_wave : Wave
zero_wave = record { bake_time = pos 0; deployments = [] }

-- How the loop of `deployAfterFromConfig` over the waves of an environment ends: by its `return`, or
-- with the value of `lastWave`.
pub data Found : Type 0 where
  found : DeployAfter → Found
  go_on : Wave → Found

-- The innermost loop, over `wave.Deployments`, is a search for the name.
unfoldable pub after_in_waves : String → Wave → List Wave → Found
after_in_waves name last_wave [] = go_on last_wave
after_in_waves name last_wave (wave ∷ waves) =
    if contains wave.deployments name
    then found (record { deployments = last_wave.deployments; bake_time = last_wave.bake_time })
    else after_in_waves name wave waves

unfoldable pub after_in_environments : String → Wave → List Environment → Option DeployAfter
after_in_environments name last_wave [] = none
after_in_environments name last_wave (env ∷ envs) = elim (after_in_waves name last_wave env.waves) [
  | found after ↦ some after
  | go_on last ↦ after_in_environments name last envs
]

-- The error of both functions below.
abbrev pub missing_config : String → String
missing_config name = append "failed to find the config for '" (append name "' deployment")

abbrev pub or_missing {ℓ} : {A : Type ℓ} → Option A → String → Result A
or_missing none name = err (missing_config name)
or_missing (some a) name = ok a

unfoldable pub deploy_after_from_config : Propagation → Config → Result DeployAfter
unfolding after_in_waves after_in_environments
deploy_after_from_config propagation c =
    let name = propagation.spec.deployment.name in
    or_missing (after_in_environments name zero_wave c.environments) name

-- The loop that appends the deployments of `env.Waves[waveIdx+1:]`.
unfoldable pub all_deployments : List String → List Wave → List String
all_deployments deployments [] = deployments
all_deployments deployments (wave ∷ waves) = all_deployments (deployments ++ wave.deployments) waves

-- The list that `deployWithFromConfig` returns at the wave of index `wave_idx`.
unfoldable pub with_at : ℕ → List Wave → List String
unfolding all_deployments
with_at zero later = all_deployments [] later
with_at (suc wave_idx) later = []

unfoldable pub with_in_waves : String → ℕ → List Wave → Option (List String)
unfolding with_at
with_in_waves name wave_idx [] = none
with_in_waves name wave_idx (wave ∷ waves) =
    if contains wave.deployments name
    then some (with_at wave_idx waves)
    else with_in_waves name (suc wave_idx) waves

unfoldable pub with_in_environments : String → List Environment → Option (List String)
with_in_environments name [] = none
with_in_environments name (env ∷ envs) =
    let next = with_in_environments name envs in
    elim (with_in_waves name 0 env.waves) [ some deployments ↦ some deployments | none ↦ next ]

unfoldable pub deploy_with_from_config : Propagation → Config → Result (List String)
unfolding with_in_waves with_in_environments
deploy_with_from_config propagation c =
    let name = propagation.spec.deployment.name in
    or_missing (with_in_environments name c.environments) name

unfoldable pub deploy_conditions_from_config : Propagation → Config → Result DeployConditions
deploy_conditions_from_config propagation c = do
  deploy_after ← deploy_after_from_config propagation c
  deploy_with ← deploy_with_from_config propagation c
  ok (record { deploy_after = deploy_after; deploy_with = deploy_with })
