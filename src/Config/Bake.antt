-- ===== src/Config/Bake.antt =====
-- `DeploymentBakeTime` in terms of the first wave that lists the deployment.
use mathlib.Core.Option
use propagation_controller.Base.{
  sym, if◌then◌else◌, ◌≡◌, refl, ap, ◌∙◌, ℤ, pos, String, List, [], ◌∷◌, ◌++◌, true, false, arith,
  contains,
}
use propagation_controller.Config.{
  Config, Wave, Environment, bake_time_in_waves, bake_time_in_environments, deployment_bake_time,
}
use propagation_controller.Config.Waves.{all_waves, Unlisted, is_listed}

-- The search over one row of waves, with `z` where it finds nothing.
bake_time_or : String → ℤ → List Wave → ℤ
bake_time_or d z [] = z
bake_time_or d z (w ∷ ws) = if contains w.deployments d then w.bake_time else bake_time_or d z ws

bake_time_or-append :
    (d : String) (z : ℤ) (xs ys : List Wave)
    → bake_time_or d z (xs ++ ys) ≡ bake_time_or d (bake_time_or d z ys) xs
unfolding bake_time_or
bake_time_or-append d z [] ys = refl
bake_time_or-append d z (w ∷ xs) ys = rw (bake_time_or-append d z xs ys)

bake_time_in_waves-or :
    (d : String) (z : ℤ) (ws : List Wave)
    → Option.get_or (bake_time_in_waves d ws) z ≡ bake_time_or d z ws
unfolding bake_time_or bake_time_in_waves
bake_time_in_waves-or d z [] = refl
bake_time_in_waves-or d z (w ∷ ws) = ground (arith, bake_time_in_waves-or d z ws)

bake_time_in_environments-or :
    (d : String) (envs : List Environment)
    → bake_time_in_environments d envs ≡ bake_time_or d (pos 0) (all_waves envs)
unfolding bake_time_in_environments all_waves
bake_time_in_environments-or d [] = unfold bake_time_or in refl
bake_time_in_environments-or d (env ∷ envs) =
    ap (Option.get_or (bake_time_in_waves d env.waves)) (bake_time_in_environments-or d envs)
    ∙ bake_time_in_waves-or d (bake_time_or d (pos 0) (all_waves envs)) env.waves
    ∙ sym (bake_time_or-append d (pos 0) env.waves (all_waves envs))

bake_time_or-split :
    (d : String) (z : ℤ) (before : List Wave) (w : Wave) (after : List Wave)
    → Unlisted d before
    → contains w.deployments d ≡ true
    → bake_time_or d z (before ++ w ∷ after) ≡ w.bake_time
unfolding bake_time_or
bake_time_or-split d z [] w after h e = rw (e, bake_time_or)
bake_time_or-split d z (x ∷ before) w after h e =
    rw (h.0, bake_time_or) (bake_time_or-split d z before w after h.1 e)

bake_time_or-none :
    (d : String) (z : ℤ) (ws : List Wave) → is_listed d ws ≡ false → bake_time_or d z ws ≡ z
unfolding bake_time_or is_listed
bake_time_or-none d z [] h = refl
bake_time_or-none d z (w ∷ ws) h = ground (arith, bake_time_or-none d z ws)

-- The bake time of a deployment is that of the first wave, across the environments, that lists it.
pub deployment_bake_time_lem :
    (c : Config) (d : String) (before : List Wave) (w : Wave) (after : List Wave)
    → all_waves c.environments ≡ before ++ w ∷ after
    → Unlisted d before
    → contains w.deployments d ≡ true
    → deployment_bake_time c d ≡ w.bake_time
unfolding deployment_bake_time
deployment_bake_time_lem c d before w after split absent e =
    bake_time_in_environments-or d c.environments
    ∙ ap (bake_time_or d (pos 0)) split
    ∙ bake_time_or-split d (pos 0) before w after absent e

-- It is 0 where no wave lists it.
pub deployment_bake_time-none :
    (c : Config) (d : String)
    → is_listed d (all_waves c.environments) ≡ false
    → deployment_bake_time c d ≡ pos 0
unfolding deployment_bake_time
deployment_bake_time-none c d e =
    bake_time_in_environments-or d c.environments
    ∙ bake_time_or-none d (pos 0) (all_waves c.environments) e
