-- ===== src/Config/Total.antt =====
-- When the conditions of a deployment can be derived at all.
use propagation_controller.Base.{
  ◌≡◌, ◌⊎◌, refl, ap, ◌∙◌, ℕ, suc, String, none, some, List, [], ◌∷◌, ◌++◌, true, false, arith,
  contains, inl, inr, Bool-cases, ◌||◌, false≢true, ok, err,
}
use propagation_controller.Api.{Propagation, DeployConditions}
use propagation_controller.Config.{
  Config, Wave, Environment, zero_wave, missing_config, or_missing, with_at, with_in_waves,
  with_in_environments, deploy_after_from_config, deploy_with_from_config,
  deploy_conditions_from_config,
}
use propagation_controller.Config.Waves.{
  all_waves, is_listed, previous, to_after, previous-some, after_option,
}
use propagation_controller.Config.Sequence.{deploy_after-previous, deploy_after_missing}

is_listed-append :
    (name : String) (xs ys : List Wave)
    → is_listed name (xs ++ ys) ≡ (is_listed name xs || is_listed name ys)
unfolding is_listed
is_listed-append name [] ys = refl
is_listed-append name (w ∷ xs) ys = ground (arith, is_listed-append name xs ys)

with_in_waves-some :
    (name : String) (i : ℕ) (ws : List Wave)
    → is_listed name ws ≡ true
    → (d : List String) × (with_in_waves name i ws ≡ some d)
unfolding with_in_waves is_listed
with_in_waves-some name i [] h = absurd (false≢true h)
with_in_waves-some name i (w ∷ ws) h = elim (Bool-cases (contains w.deployments name)) [
  | inl e ↦ (with_at i ws, rw e)
  | inr e ↦ let (d, q) = with_in_waves-some name (suc i) ws (ground arith) in (d, rw e q)
]

with_in_waves-unlisted :
    (name : String) (i : ℕ) (ws : List Wave)
    → is_listed name ws ≡ false
    → with_in_waves name i ws ≡ none
unfolding with_in_waves is_listed
with_in_waves-unlisted name i [] h = refl
with_in_waves-unlisted name i (w ∷ ws) h = ground (arith, with_in_waves-unlisted name (suc i) ws)

with_in_environments-some :
    (name : String) (envs : List Environment)
    → is_listed name (all_waves envs) ≡ true
    → (d : List String) × (with_in_environments name envs ≡ some d)
unfolding all_waves with_in_environments is_listed
with_in_environments-some name [] h = absurd (false≢true h)
with_in_environments-some name (env ∷ envs) h = elim (Bool-cases (is_listed name env.waves)) [
  | inl e ↦ let (d, q) = with_in_waves-some name 0 env.waves e in (d, rw (q, with_in_environments))
  | inr e ↦
      let (d, q) =
        with_in_environments-some name envs
          (ground (arith, is_listed-append name env.waves (all_waves envs))) in
      (
        d,
        unfold with_in_environments in
            rw (with_in_waves-unlisted name 0 env.waves e, with_in_environments) q,
      )
]

-- The conditions can be derived exactly when some wave of the configuration lists the deployment,
-- and the error names the deployment otherwise.
pub deploy_conditions_from_config-total :
    (p : Propagation) (c : Config)
    → ((is_listed p.spec.deployment.name (all_waves c.environments) ≡ true)
        × ((d : DeployConditions) × (deploy_conditions_from_config p c ≡ ok d)))
      ⊎ ((is_listed p.spec.deployment.name (all_waves c.environments) ≡ false)
          × (deploy_conditions_from_config p c ≡ err (missing_config p.spec.deployment.name)))
deploy_conditions_from_config-total p c =
    elim (Bool-cases (is_listed name (all_waves c.environments))) [
      | inl e ↦ inl (
        e,
        total (previous-some name zero_wave (all_waves c.environments) e)
            (with_in_environments-some name c.environments e),
      )
      | inr e ↦ inr (e, unfold deploy_conditions_from_config in rw (deploy_after_missing p c e))
    ]
  where
    name : String
    name = p.spec.deployment.name

    total :
        (w : Wave) × (previous name zero_wave (all_waves c.environments) ≡ some w)
        → (l : List String) × (with_in_environments name c.environments ≡ some l)
        → (d : DeployConditions) × (deploy_conditions_from_config p c ≡ ok d)
    total (w, q) (l, r) =
        let after : deploy_after_from_config p c ≡ ok (to_after w) =
          deploy_after-previous p c ∙ ap (λ o. or_missing (after_option o) name) q in
        let together : deploy_with_from_config p c ≡ ok l =
          unfold deploy_with_from_config in ap (λ o. or_missing o name) r in
        (
          record { deploy_after = to_after w; deploy_with = l },
          unfold deploy_conditions_from_config in rw (after, together),
        )
