-- ===== src/Config/Together.antt =====
-- `deployWithFromConfig`, and both conditions of a deployment together.
use mathlib.Core.List.{append_assoc, append-nil}
use propagation_controller.Base.{
  ◌≡◌, refl, sym, ap, ◌∙◌, ℕ, suc, String, true, none, some, List, [], ◌∷◌, ◌++◌, All, ok, contains,
}
use propagation_controller.Api.{Propagation}
use propagation_controller.Config.{
  Config, Wave, Environment, zero_wave, or_missing, all_deployments, with_in_waves,
  with_in_environments, deploy_with_from_config, deploy_conditions_from_config,
}
use propagation_controller.Config.Waves.{
  all_waves, all_waves-append, Unlisted, Unlisted-append, last_or, to_after,
}
use propagation_controller.Config.Sequence.{deploy_after_from_config_lem}

-- The deployments of some waves, in order.
unfoldable pub deployments_of : List Wave → List String
deployments_of [] = []
deployments_of (w ∷ ws) = w.deployments ++ deployments_of ws

-- Only a deployment of the first wave of an environment waits, and for all later waves.
abbrev pub with_spec : List Wave → List Wave → List String
with_spec [] later = deployments_of later
with_spec (_ ∷ _) later = []

all_deployments_lem :
    (acc : List String) (ws : List Wave) → all_deployments acc ws ≡ acc ++ deployments_of ws
unfolding all_deployments deployments_of
all_deployments_lem acc [] = sym (append-nil acc)
all_deployments_lem acc (w ∷ ws) =
    all_deployments_lem (acc ++ w.deployments) ws
    ∙ append_assoc acc w.deployments (deployments_of ws)

with_in_waves-later :
    (name : String) (i : ℕ) (earlier : List Wave) (w : Wave) (later : List Wave)
    → Unlisted name earlier
    → contains w.deployments name ≡ true
    → with_in_waves name (suc i) (earlier ++ w ∷ later) ≡ some []
unfolding with_in_waves
with_in_waves-later name i [] w later h e = rw e
with_in_waves-later name i (x ∷ earlier) w later h e =
    rw h.0 (with_in_waves-later name (suc i) earlier w later h.1 e)

with_in_waves-split :
    (name : String) (earlier : List Wave) (w : Wave) (later : List Wave)
    → Unlisted name earlier
    → contains w.deployments name ≡ true
    → with_in_waves name 0 (earlier ++ w ∷ later) ≡ some (with_spec earlier later)
unfolding with_in_waves
with_in_waves-split name [] w later h e = rw e (ap some (all_deployments_lem [] later))
with_in_waves-split name (x ∷ earlier) w later h e =
    rw h.0 (with_in_waves-later name 0 earlier w later h.1 e)

with_in_waves-none :
    (name : String) (i : ℕ) (ws : List Wave) → Unlisted name ws → with_in_waves name i ws ≡ none
unfolding with_in_waves
with_in_waves-none name i [] h = refl
with_in_waves-none name i (w ∷ ws) h = rw h.0 (with_in_waves-none name (suc i) ws h.1)

-- No environment lists the deployment.
abbrev pub UnlistedIn : String → List Environment → Type 0
UnlistedIn name = All (λ env. Unlisted name env.waves)

with_in_environments-split :
    (name : String) (before : List Environment) (env : Environment) (after : List Environment)
    (d : List String)
    → UnlistedIn name before
    → with_in_waves name 0 env.waves ≡ some d
    → with_in_environments name (before ++ env ∷ after) ≡ some d
unfolding with_in_environments
with_in_environments-split name [] env after d h e = rw (e, with_in_environments)
with_in_environments-split name (x ∷ before) env after d h e =
    rw (with_in_waves-none name 0 x.waves h.0, with_in_environments)
      (with_in_environments-split name before env after d h.1 e)

with_in_environments-none :
    (name : String) (envs : List Environment)
    → UnlistedIn name envs
    → with_in_environments name envs ≡ none
unfolding with_in_environments
with_in_environments-none name [] h = refl
with_in_environments-none name (x ∷ envs) h =
    rw (with_in_waves-none name 0 x.waves h.0, with_in_environments)
      (with_in_environments-none name envs h.1)

-- Let `env` be the first environment with a wave that lists the deployment, and `w` the first such
-- wave in it. If `w` is the first wave of `env`, the deployment waits for the deployments of all
-- later waves of `env`, in their order. Otherwise it waits for none.
pub deploy_with_from_config_lem :
    (p : Propagation) (c : Config) (before : List Environment) (env : Environment)
    (after : List Environment) (earlier : List Wave) (w : Wave) (later : List Wave)
    → c.environments ≡ before ++ env ∷ after
    → env.waves ≡ earlier ++ w ∷ later
    → UnlistedIn p.spec.deployment.name before
    → Unlisted p.spec.deployment.name earlier
    → contains w.deployments p.spec.deployment.name ≡ true
    → deploy_with_from_config p c ≡ ok (with_spec earlier later)
unfolding deploy_with_from_config
deploy_with_from_config_lem p c before env after earlier w later envs waves absent absent' e =
    let name = p.spec.deployment.name in
    let here : with_in_waves name 0 env.waves ≡ some (with_spec earlier later) =
      ap (with_in_waves name 0) waves ∙ with_in_waves-split name earlier w later absent' e in
    ap (λ o. or_missing o name)
      (ap (with_in_environments name) envs
        ∙ with_in_environments-split name before env after (with_spec earlier later) absent here)

Unlisted-all_waves :
    (name : String) (envs : List Environment)
    → UnlistedIn name envs
    → Unlisted name (all_waves envs)
unfolding all_waves
Unlisted-all_waves name [] h = tt
Unlisted-all_waves name (x ∷ envs) h =
    Unlisted-append name x.waves (all_waves envs) h.0 (Unlisted-all_waves name envs h.1)

one_row :
    (before : List Environment) (env : Environment) (after : List Environment) (earlier : List Wave)
    (w : Wave) (later : List Wave) (c : Config)
    → c.environments ≡ before ++ env ∷ after
    → env.waves ≡ earlier ++ w ∷ later
    → all_waves c.environments ≡ (all_waves before ++ earlier) ++ w ∷ (later ++ all_waves after)
unfolding all_waves
one_row before env after earlier w later c envs waves =
    ap all_waves envs
    ∙ all_waves-append before (env ∷ after)
    ∙ ap (λ ws. all_waves before ++ ws) here
    ∙ sym (append_assoc (all_waves before) earlier (w ∷ (later ++ all_waves after)))
  where
    here : all_waves (env ∷ after) ≡ earlier ++ w ∷ (later ++ all_waves after)
    here =
        ap (λ ws. ws ++ all_waves after) waves ∙ append_assoc earlier (w ∷ later) (all_waves after)

-- Both conditions, under the same hypotheses: to be deployed before are the deployments of the wave
-- in front of `w`, in the same environment or in an earlier one.
pub deploy_conditions_from_config_lem :
    (p : Propagation) (c : Config) (before : List Environment) (env : Environment)
    (after : List Environment) (earlier : List Wave) (w : Wave) (later : List Wave)
    → c.environments ≡ before ++ env ∷ after
    → env.waves ≡ earlier ++ w ∷ later
    → UnlistedIn p.spec.deployment.name before
    → Unlisted p.spec.deployment.name earlier
    → contains w.deployments p.spec.deployment.name ≡ true
    → deploy_conditions_from_config p c
      ≡ ok (record {
        deploy_after = to_after (last_or zero_wave (all_waves before ++ earlier));
        deploy_with = with_spec earlier later;
      })
unfolding deploy_conditions_from_config
deploy_conditions_from_config_lem p c before env after earlier w later envs waves absent absent' e =
    let name = p.spec.deployment.name in
    rw (
      deploy_after_from_config_lem p c (all_waves before ++ earlier) w (later ++ all_waves after)
          (one_row before env after earlier w later c envs waves)
          (Unlisted-append name (all_waves before) earlier (Unlisted-all_waves name before absent)
            absent')
          e,
      deploy_with_from_config_lem p c before env after earlier w later envs waves absent absent' e,
    )
