-- ===== src/Api/Next/Choice.antt =====
-- Which version `NextVersion` chooses, for a clock that does not go back.
use mathlib.Core.Path.{subst}
use propagation_controller.Base.{
  ◌≡◌, refl, ◌≢◌, sym, ap, ℤ, pos, ◌≤ℤ◌, String, true, false, List, [], ◌∷◌, ◌++◌, All, contains,
  arith, inl, inr, Bool-cases, ◌⊎◌,
}
use propagation_controller.Api.{DeploymentStatusesReport, DeployAfter, Propagation}
use propagation_controller.Api.Report.{version_healthy_duration}
use propagation_controller.Api.Report.Duration.{
  version_healthy_duration-pos, versions_of, IsHealthyAt,
}
use propagation_controller.Api.Next.{bakes, first_baked, next_after, next_version, add_reports}
use propagation_controller.Api.Next.Newest.{newest_versions, add_reports-newest}
use propagation_controller.Api.Next.Baked.{
  is_baked, is_baked_before, bakes_later, bakes-true, bakes-false,
}

-- `v` was chosen from `versions` by checks that ran from instant `t` to instant `t'`: it has baked
-- at `t'` and no version before it had at `t`. Or nothing was chosen, and none had baked at `t`.
abbrev pub Choice :
    DeployAfter → List DeploymentStatusesReport → List String → ℤ → ℤ → String → Type 0
Choice after reports versions t t' v =
    ((newer : List String) × (older : List String) × (versions ≡ newer ++ v ∷ older)
      × All (λ w. is_baked after t w reports ≡ false) newer
      × (is_baked after t' v reports ≡ true))
    ⊎ ((v ≡ "") × All (λ w. is_baked after t w reports ≡ false) versions)

All-before :
    (after : DeployAfter) (reports : List DeploymentStatusesReport) (t t' : ℤ) (l : List String)
    → t ≤ℤ t'
    → All (λ w. is_baked after t' w reports ≡ false) l
    → All (λ w. is_baked after t w reports ≡ false) l
All-before after reports t t' [] le h = tt
All-before after reports t t' (w ∷ l) le h =
    (is_baked_before after t t' w reports le h.0, All-before after reports t t' l le h.1)

Choice-older :
    (after : DeployAfter) (reports : List DeploymentStatusesReport) (versions : List String)
    (t₀ t t' : ℤ) (w v : String)
    → t₀ ≤ℤ t
    → is_baked after t₀ w reports ≡ false
    → Choice after reports versions t t' v
    → Choice after reports (w ∷ versions) t₀ t' v
Choice-older after reports versions t₀ t t' w v le failed (inl (newer, older, e, early, baked)) =
    inl (
      w ∷ newer,
      older,
      ap (◌∷◌ w) e,
      (failed, All-before after reports t₀ t newer le early),
      baked,
    )
Choice-older after reports versions t₀ t t' w v le failed (inr (e, early)) =
    inr (e, (failed, All-before after reports t₀ t versions le early))

module _ {S : Type 0} (now : S → ℤ × S) (after : DeployAfter)
    (reports : List DeploymentStatusesReport) (v : String) (versions : List String) (s : S) where
  first_baked_here :
      (bakes now after v reports s).0 ≡ true
      → first_baked now after reports (v ∷ versions) s ≡ (v, (bakes now after v reports s).1)
  unfolding first_baked
  first_baked_here e = rw e

  first_baked_later :
      (bakes now after v reports s).0 ≡ false
      → first_baked now after reports (v ∷ versions) s
        ≡ first_baked now after reports versions (bakes now after v reports s).1
  unfolding first_baked
  first_baked_later e = rw e

module _ {S : Type 0} (now : S → ℤ × S) (mono : (s : S) → (now s).0 ≤ℤ (now (now s).1).0) where
  first_baked-Choice :
      (after : DeployAfter) (reports : List DeploymentStatusesReport) (versions : List String)
      (s : S)
      → let (v, s') = first_baked now after reports versions s in
        Choice after reports versions (now s).0 (now s').0 v
  first_baked-Choice after reports [] s = inr (unfold first_baked in refl, tt)
  first_baked-Choice after reports (v ∷ versions) s =
      elim (Bool-cases (bakes now after v reports s).0) [
        | inl e ↦
            rw (first_baked_here now after reports v versions s e)
              (inl ([], versions, refl, tt, bakes-true now mono after v reports s e))
        | inr e ↦ rw (first_baked_later now after reports v versions s e) (
            Choice-older after reports versions (now s).0 (now (bakes now after v reports s).1).0 _
              v _ (bakes_later now mono after v reports s)
              (bakes-false now mono after v reports s e)
              (first_baked-Choice after reports versions (bakes now after v reports s).1))
      ]

  -- With deployments to wait for and a clock that does not go back, `NextVersion` goes through the
  -- versions that the reports of the first of them hold, each once, in the order in which they are
  -- met when each report is read from its newest status to its oldest. It returns one that has baked
  -- by the end of the call, and none before it in that order had baked at the start of the call. It
  -- returns the empty string when none had.
  pub next_version-Choice :
      (default_tag : String) (p : Propagation) (first : String) (others : List String) (s : S)
      → p.status.deploy_conditions.deploy_after.deployments ≡ first ∷ others
      → let reports = p.status.deployment_statuses_reports in
        let (v, s') = next_version now default_tag p s in
        Choice p.status.deploy_conditions.deploy_after reports
          (newest_versions first reports)
          (now s).0
          (now s').0
          v
  unfolding next_version
  next_version-Choice default_tag p first others s e =
      let after = p.status.deploy_conditions.deploy_after in
      let reports = p.status.deployment_statuses_reports in
      subst
        (λ d.
          let (v, s') = next_after now default_tag after d reports s in
          Choice after reports (newest_versions first reports) (now s).0 (now s').0 v)
        (sym e)
        (subst
          (λ l.
            let (v, s') = first_baked now after reports (add_reports first [] reports) s in
            Choice after reports l (now s).0 (now s').0 v)
          (add_reports-newest first reports)
          (first_baked-Choice after reports (add_reports first [] reports) s))

pub is_baked-All :
    (after : DeployAfter) (t : ℤ) (v : String) (reports : List DeploymentStatusesReport)
    → is_baked after t v reports ≡ true
    → All
        (λ r.
          contains after.deployments r.deployment_name ≡ true
          → after.bake_time ≤ℤ version_healthy_duration t r v)
        reports
unfolding is_baked
is_baked-All after t v [] h = tt
is_baked-All after t v (r ∷ reports) h =
    (λ e. ground arith, is_baked-All after t v reports (ground arith))

healthy-All :
    (after : DeployAfter) (t : ℤ) (v : String) (reports : List DeploymentStatusesReport)
    → pos 1 ≤ℤ after.bake_time
    → All
        (λ r.
          contains after.deployments r.deployment_name ≡ true
          → after.bake_time ≤ℤ version_healthy_duration t r v)
        reports
    → All
        (λ r.
          contains after.deployments r.deployment_name ≡ true
          → (contains (versions_of r.statuses) v ≡ true) × All (IsHealthyAt v) r.statuses)
        reports
healthy-All after t v [] long h = tt
healthy-All after t v (r ∷ reports) long h = (
  λ e.
      let enough : after.bake_time ≤ℤ version_healthy_duration t r v = h.0 e in
      version_healthy_duration-pos t r v (λ z. absurd (ground arith)),
  healthy-All after t v reports long h.1,
)

module _ {S : Type 0} (now : S → ℤ × S) (mono : (s : S) → (now s).0 ≤ℤ (now (now s).1).0) where
  -- With deployments to wait for, a positive bake time and a clock that does not go back, a version that `NextVersion` returns is
  -- in every report of a deployment to wait for, and no status of it there is anything but healthy.
  pub next_version-IsHealthyAt :
      (default_tag : String) (p : Propagation) (first : String) (others : List String) (s : S)
      → p.status.deploy_conditions.deploy_after.deployments ≡ first ∷ others
      → pos 1 ≤ℤ p.status.deploy_conditions.deploy_after.bake_time
      → (next_version now default_tag p s).0 ≢ ""
      → All
          (λ r.
            contains p.status.deploy_conditions.deploy_after.deployments r.deployment_name ≡ true
            → (contains (versions_of r.statuses) (next_version now default_tag p s).0 ≡ true)
              × All (IsHealthyAt (next_version now default_tag p s).0) r.statuses)
          p.status.deployment_statuses_reports
  next_version-IsHealthyAt default_tag p first others s e long chosen =
      elim (next_version-Choice now mono default_tag p first others s e) [
        | inr (empty, _) ↦ absurd (chosen empty)
        | inl (newer, older, split, early, baked) ↦
            let after = p.status.deploy_conditions.deploy_after in
            let v = (next_version now default_tag p s).0 in
            let t' = (now (next_version now default_tag p s).1).0 in
            let reports = p.status.deployment_statuses_reports in
            healthy-All after t' v reports long (is_baked-All after t' v reports baked)
      ]
