-- ===== src/Api/Next/Baked.antt =====
-- Whether a version has baked at an instant, and what the loop over the reports says of it when the
-- clock does not go back.
use propagation_controller.Base.{
  ◌≡◌, refl, sym, ap, ◌∙◌, ℤ, ◌≤ℤ◌, ltb_ℤ, String, Bool, true, false, false≢true, not, ◌&&◌, ◌||◌,
  List, [], ◌∷◌, contains, arith, inl, inr, Bool-cases,
}
use propagation_controller.Api.{DeploymentStatusesReport, DeployAfter}
use propagation_controller.Api.Report.{version_healthy_duration}
use propagation_controller.Api.Report.Duration.{version_healthy_duration_mono}
use propagation_controller.Api.Next.{bakes}

-- At instant `t` every report of a deployment to wait for has been healthy at `v` for long enough.
unfoldable pub is_baked : DeployAfter → ℤ → String → List DeploymentStatusesReport → Bool
is_baked after t v [] = true
is_baked after t v (r ∷ reports) =
    (not (contains after.deployments r.deployment_name)
      || not (ltb_ℤ (version_healthy_duration t r v) after.bake_time))
    && is_baked after t v reports

-- The report's deployment is waited for.
abbrev pub waits_for : DeployAfter → DeploymentStatusesReport → Bool
waits_for after r = contains after.deployments r.deployment_name

-- It has not been healthy for long enough at instant `t`.
abbrev pub is_early : DeployAfter → ℤ → String → DeploymentStatusesReport → Bool
is_early after t v r = ltb_ℤ (version_healthy_duration t r v) after.bake_time

is_baked_mono :
    (after : DeployAfter) (t t' : ℤ) (v : String) (reports : List DeploymentStatusesReport)
    → t ≤ℤ t'
    → is_baked after t v reports ≡ true
    → is_baked after t' v reports ≡ true
unfolding is_baked
is_baked_mono after t t' v [] le h = refl
is_baked_mono after t t' v (r ∷ reports) le h =
    ground (arith, version_healthy_duration_mono t t' r v le, is_baked_mono after t t' v reports le)

pub is_baked_before :
    (after : DeployAfter) (t t' : ℤ) (v : String) (reports : List DeploymentStatusesReport)
    → t ≤ℤ t'
    → is_baked after t' v reports ≡ false
    → is_baked after t v reports ≡ false
is_baked_before after t t' v reports le h = elim (Bool-cases (is_baked after t v reports)) [
  | inl e ↦ absurd (false≢true (sym h ∙ is_baked_mono after t t' v reports le e))
  | inr e ↦ e
]

module _ (after : DeployAfter) (v : String) (r : DeploymentStatusesReport)
    (reports : List DeploymentStatusesReport) where
  is_baked_skip :
      (t : ℤ)
      → waits_for after r ≡ false
      → is_baked after t v (r ∷ reports) ≡ is_baked after t v reports
  unfolding is_baked
  is_baked_skip t e = rw e

  is_baked_early :
      (t : ℤ)
      → waits_for after r ≡ true
      → is_early after t v r ≡ true
      → is_baked after t v (r ∷ reports) ≡ false
  unfolding is_baked
  is_baked_early t e early = rw (e, early)

  is_baked_next :
      (t : ℤ)
      → waits_for after r ≡ true
      → is_early after t v r ≡ false
      → is_baked after t v (r ∷ reports) ≡ is_baked after t v reports
  unfolding is_baked
  is_baked_next t e late = rw (e, late)

  module _ {S : Type 0} (now : S → ℤ × S) (s : S) where
    pub bakes_skip :
        waits_for after r ≡ false → bakes now after v (r ∷ reports) s ≡ bakes now after v reports s
    unfolding bakes
    bakes_skip e = rw e

    pub bakes_early :
        waits_for after r ≡ true
        → is_early after (now s).0 v r ≡ true
        → bakes now after v (r ∷ reports) s ≡ (false, (now s).1)
    unfolding bakes
    bakes_early e early = rw (e, early)

    pub bakes_next :
        waits_for after r ≡ true
        → is_early after (now s).0 v r ≡ false
        → bakes now after v (r ∷ reports) s ≡ bakes now after v reports (now s).1
    unfolding bakes
    bakes_next e late = rw (e, late)

late_mono :
    (after : DeployAfter) (t t' : ℤ) (v : String) (r : DeploymentStatusesReport)
    → t ≤ℤ t'
    → is_early after t v r ≡ false
    → is_early after t' v r ≡ false
late_mono after t t' v r le h = ground (arith, version_healthy_duration_mono t t' r v le)

module _ {S : Type 0} (now : S → ℤ × S) (mono : (s : S) → (now s).0 ≤ℤ (now (now s).1).0) where
  pub bakes_later :
      (after : DeployAfter) (v : String) (reports : List DeploymentStatusesReport) (s : S)
      → (now s).0 ≤ℤ (now (bakes now after v reports s).1).0
  unfolding bakes
  bakes_later after v [] s = omega arith
  bakes_later after v (r ∷ reports) s =
      ground (arith, mono s, bakes_later after v reports s, bakes_later after v reports (now s).1)

  later_reading :
      (after : DeployAfter) (v : String) (reports : List DeploymentStatusesReport) (s : S)
      → (now s).0 ≤ℤ (now (bakes now after v reports (now s).1).1).0
  later_reading after v reports s = omega (arith, mono s, bakes_later after v reports (now s).1)

  pub bakes-true :
      (after : DeployAfter) (v : String) (reports : List DeploymentStatusesReport) (s : S)
      → (bakes now after v reports s).0 ≡ true
      → is_baked after (now (bakes now after v reports s).1).0 v reports ≡ true
  bakes-true after v [] s h = unfold is_baked in refl
  bakes-true after v (r ∷ reports) s h = elim (Bool-cases (waits_for after r)) [
    | inr e ↦
        rw (bakes_skip after v r reports now s e, is_baked_skip after v r reports _ e)
          (bakes-true after v reports s
            (ap (λ x. x.0) (sym (bakes_skip after v r reports now s e)) ∙ h))
    | inl e ↦ elim (Bool-cases (is_early after (now s).0 v r)) [
      | inl early ↦
          absurd
            (false≢true (ap (λ x. x.0) (sym (bakes_early after v r reports now s e early)) ∙ h))
      | inr late ↦
          let step = bakes_next after v r reports now s e late in
          let later = late_mono after (now s).0 _ v r (later_reading after v reports s) late in
          rw step (
            is_baked_next after v r reports _ e later
            ∙ bakes-true after v reports (now s).1 (ap (λ x. x.0) (sym step) ∙ h))
    ]
  ]

  pub bakes-false :
      (after : DeployAfter) (v : String) (reports : List DeploymentStatusesReport) (s : S)
      → (bakes now after v reports s).0 ≡ false
      → is_baked after (now s).0 v reports ≡ false
  bakes-false after v [] s h = absurd (false≢true (sym h ∙ unfold bakes in refl))
  bakes-false after v (r ∷ reports) s h = elim (Bool-cases (waits_for after r)) [
    | inr e ↦
        is_baked_skip after v r reports (now s).0 e
        ∙ bakes-false after v reports s
            (ap (λ x. x.0) (sym (bakes_skip after v r reports now s e)) ∙ h)
    | inl e ↦ elim (Bool-cases (is_early after (now s).0 v r)) [
      | inl early ↦ is_baked_early after v r reports (now s).0 e early
      | inr late ↦
          let step = bakes_next after v r reports now s e late in
          let rest = bakes-false after v reports (now s).1 (ap (λ x. x.0) (sym step) ∙ h) in
          is_baked_next after v r reports (now s).0 e late
          ∙ is_baked_before after _ _ v reports (mono s) rest
    ]
  ]
