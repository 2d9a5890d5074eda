-- ===== src/Config/Sequence.antt =====
-- `deployAfterFromConfig`: which wave a deployment comes after. What `deployWithFromConfig` adds, the
-- deployments that have to be at one version, is no order and is not meant here.
use mathlib.Core.Path.{subst}
use mathlib.Core.WellFounded.{Acc, WellFounded}
use propagation_controller.Base.{
  ◌≡◌, refl, sym, ap, ◌∙◌, ℕ, zero, suc, ◌<◌, String, true, false, Option, none, some, List, ◌∷◌,
  ◌++◌, ok, err, contains, arith, inl, inr, false≢true,
}
use propagation_controller.Api.{Propagation, DeployAfter}
use propagation_controller.Config.{
  Config, Wave, zero_wave, missing_config, or_missing, deploy_after_from_config,
}
use propagation_controller.Config.Waves.{
  all_waves, Unlisted, is_listed, last_or, to_after, previous, after_option,
  after_in_environments-previous, previous-split, previous-none, first_index, previous-first_index,
}

pub deploy_after-previous :
    (p : Propagation) (c : Config)
    → deploy_after_from_config p c
      ≡ or_missing
          (after_option (previous p.spec.deployment.name zero_wave (all_waves c.environments)))
          p.spec.deployment.name
unfolding deploy_after_from_config
deploy_after-previous p c =
    ap (λ o. or_missing o p.spec.deployment.name)
      (after_in_environments-previous p.spec.deployment.name zero_wave c.environments)

-- Let `w` be the first wave of the configuration, across its environments, that lists the
-- deployment. What has to be deployed before it, and the bake time, are those of the wave in front
-- of `w`; nothing, and the bake time 0, where `w` is the first wave of all.
pub deploy_after_from_config_lem :
    (p : Propagation) (c : Config) (before : List Wave) (w : Wave) (after : List Wave)
    → all_waves c.environments ≡ before ++ w ∷ after
    → Unlisted p.spec.deployment.name before
    → contains w.deployments p.spec.deployment.name ≡ true
    → deploy_after_from_config p c ≡ ok (to_after (last_or zero_wave before))
deploy_after_from_config_lem p c before w after split absent e =
    let name = p.spec.deployment.name in
    deploy_after-previous p c
    ∙ ap (λ o. or_missing (after_option o) name)
        (ap (previous name zero_wave) split ∙ previous-split name zero_wave before w after absent e)

pub deploy_after_missing :
    (p : Propagation) (c : Config)
    → is_listed p.spec.deployment.name (all_waves c.environments) ≡ false
    → deploy_after_from_config p c ≡ err (missing_config p.spec.deployment.name)
deploy_after_missing p c e =
    let name = p.spec.deployment.name in
    deploy_after-previous p c
    ∙ ap (λ o. or_missing (after_option o) name)
        (previous-none name zero_wave (all_waves c.environments) e)

-- `deployAfterFromConfig` puts `d` before the deployment `name`.
pub record Awaits (c : Config) (name d : String) : Type 0 where
  pub propagation : Propagation
  pub conditions : DeployAfter
  pub named : propagation.spec.deployment.name ≡ name
  pub derived : deploy_after_from_config propagation c ≡ ok conditions
  pub listed : contains conditions.deployments d ≡ true

abbrev pub position : Config → String → ℕ
position c name = first_index name (all_waves c.environments)

or_missing-ok :
    (o : Option Wave) (name : String) (a : DeployAfter)
    → or_missing (after_option o) name ≡ ok a
    → (w : Wave) × (o ≡ some w) × (a ≡ to_after w)
or_missing-ok none name a e = absurd (ground arith)
or_missing-ok (some w) name a e = (w, refl, ground arith)

-- What `deployAfterFromConfig` puts before a deployment is listed earlier: the first wave of the
-- configuration, across its environments, that lists it stands in front of the first one that lists
-- the deployment. The deployments of `deployWithFromConfig` are not meant.
pub Awaits-position :
    (c : Config) (name d : String) → Awaits c name d → position c d < position c name
unfolding contains
Awaits-position c name d a =
    let waves = all_waves c.environments in
    let (w, found, same) =
      or_missing-ok (previous a.propagation.spec.deployment.name zero_wave waves) _ a.conditions
        (sym (deploy_after-previous a.propagation c) ∙ a.derived) in
    let listed : contains w.deployments d ≡ true =
      ap (λ x. contains x.deployments d) (sym same) ∙ a.listed in
    elim (previous-first_index _ d zero_wave w waves found listed) [
      | inl z ↦ absurd (false≢true (sym (ap (λ x. contains x.deployments d) z) ∙ listed))
      | inr less ↦ subst (λ n. position c d < position c n) a.named less
    ]

Awaits-Acc :
    (c : Config) (k : ℕ) (name : String)
    → position c name < k
    → Acc (λ d name. Awaits c name d) name
Awaits-Acc c zero name h = absurd (omega arith)
Awaits-Acc c (suc k) name h =
    Acc.intro name λ d a. Awaits-Acc c k d (omega (arith, Awaits-position c name d a))

-- For every configuration the order of `deployAfterFromConfig` is well-founded: going from a
-- deployment to one that has to be deployed before it, and on from there, ends, whichever is chosen
-- at each step. The deployments of `deployWithFromConfig` are not meant.
pub Awaits-WellFounded : (c : Config) → WellFounded (λ d name. Awaits c name d)
Awaits-WellFounded c = record {
  apply = λ name. Awaits-Acc c (suc (position c name)) name (omega arith);
}
