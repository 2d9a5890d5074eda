-- ===== src/Api/Report/Duration.antt =====
-- `VersionHealthyDuration`: what its two loops compute, and what a positive answer says.
use mathlib.Core.Path.{subst}
use propagation_controller.Base.{
  ◌≡◌, refl, ◌≢◌, sym, ◌∙◌, ℤ, pos, ◌≤ℤ◌, sub_time, sub_time_mono, String, true, false, Option,
  none, some, List, [], ◌∷◌, ◌++◌, map, All, contains, arith, ◌==◌, eq_iff, inl, inr, Bool-cases,
}
use propagation_controller.Api.{DeploymentStatus, DeploymentStatusesReport, healthy}
use propagation_controller.Api.Report.{healthy_until, span, healthy_since, version_healthy_duration}

-- Every status of the version is healthy.
abbrev pub IsHealthyAt : String → DeploymentStatus → Type 0
IsHealthyAt version s = s.version ≡ version → s.state ≡ healthy

-- The start of the last status that is not healthy, if there is one.
unfoldable pub last_sick : List DeploymentStatus → Option ℤ
last_sick [] = none
last_sick (s ∷ rest) = elim (last_sick rest) [
  | some t ↦ some t
  | none ↦ elim (s.state == healthy) [ true ↦ none | false ↦ some s.start ]
]

abbrev pub or_now : Option ℤ → ℤ → ℤ
or_now none now = now
or_now (some t) now = t

healthy_until-last_sick :
    (version : String) (until : ℤ) (l : List DeploymentStatus)
    → All (IsHealthyAt version) l
    → healthy_until version until l ≡ some (or_now (last_sick l) until)
unfolding healthy_until last_sick
healthy_until-last_sick version until [] h = refl
healthy_until-last_sick version until (s ∷ rest) h = ground (
  arith,
  h.0,
  eq_iff s.version version,
  eq_iff s.state healthy,
  healthy_until-last_sick version until rest h.1,
  healthy_until-last_sick version s.start rest h.1,
)

healthy_until-All :
    (version : String) (until t : ℤ) (l : List DeploymentStatus)
    → healthy_until version until l ≡ some t
    → All (IsHealthyAt version) l
unfolding healthy_until
healthy_until-All version until t [] e = tt
healthy_until-All version until t (s ∷ rest) e = elim (Bool-cases (s.state == healthy)) [
  | inl well ↦
      (λ _. (eq_iff s.state healthy).0 well, healthy_until-All version until t rest (ground arith))
  | inr sick ↦ (
    λ same. absurd (ground (arith, eq_iff s.version version)),
    healthy_until-All version s.start t rest (ground arith),
  )
]

healthy_since_lem :
    (now : ℤ) (version : String) (before : List DeploymentStatus) (first : DeploymentStatus)
    (after : List DeploymentStatus)
    → All (λ s. s.version ≢ version) before
    → first.version ≡ version
    → All (IsHealthyAt version) (first ∷ after)
    → healthy_since now version (before ++ first ∷ after)
      ≡ sub_time (or_now (last_sick (first ∷ after)) now) first.start
unfolding healthy_since
healthy_since_lem now version [] first after absent e well =
    let here : All (IsHealthyAt first.version) (first ∷ after) =
      subst (λ v. All (IsHealthyAt v) (first ∷ after)) (sym e) well in
    ground (
      arith,
      eq_iff first.version version,
      healthy_until-last_sick first.version now (first ∷ after) here,
    )
healthy_since_lem now version (s ∷ before) first after absent e well = ground (
  arith,
  absent.0,
  eq_iff s.version version,
  healthy_since_lem now version before first after absent.1 e well,
)

-- Let `first` be the first status of the version in the report, and let every status of the version
-- be healthy. Then the duration runs from the start of `first` to the start of the last status
-- behind `first` that is not healthy (it is of another version), and to the clock's reading where
-- there is none behind it. What stands in front of `first` does not count.
pub version_healthy_duration_lem :
    (now : ℤ) (r : DeploymentStatusesReport) (version : String) (before : List DeploymentStatus)
    (first : DeploymentStatus) (after : List DeploymentStatus)
    → r.statuses ≡ before ++ first ∷ after
    → All (λ s. s.version ≢ version) before
    → first.version ≡ version
    → All (IsHealthyAt version) (first ∷ after)
    → version_healthy_duration now r version
      ≡ sub_time (or_now (last_sick (first ∷ after)) now) first.start
unfolding version_healthy_duration
version_healthy_duration_lem now r version before first after split absent e well =
    rw split (healthy_since_lem now version before first after absent e well)

abbrev pub versions_of : List DeploymentStatus → List String
versions_of = map (λ s. s.version)

healthy_since_other :
    (now : ℤ) (version : String) (s : DeploymentStatus) (rest : List DeploymentStatus)
    → (s.version == version) ≡ false
    → healthy_since now version (s ∷ rest) ≡ healthy_since now version rest
unfolding healthy_since
healthy_since_other now version s rest e = rw e

healthy_since_here :
    (now : ℤ) (version : String) (s : DeploymentStatus) (rest : List DeploymentStatus)
    → (s.version == version) ≡ true
    → healthy_since now version (s ∷ rest) ≡ span s.start (healthy_until s.version now (s ∷ rest))
unfolding healthy_since
healthy_since_here now version s rest e = rw e

span-pos : (start : ℤ) (o : Option ℤ) → span start o ≢ pos 0 → (t : ℤ) × (o ≡ some t)
unfolding span
span-pos start none h = absurd (h refl)
span-pos start (some t) h = (t, refl)

healthy_since-pos :
    (now : ℤ) (version : String) (l : List DeploymentStatus)
    → healthy_since now version l ≢ pos 0
    → (contains (versions_of l) version ≡ true) × All (IsHealthyAt version) l
unfolding contains
healthy_since-pos now version [] h = absurd (h (unfold healthy_since in refl))
healthy_since-pos now version (s ∷ rest) h = elim (Bool-cases (s.version == version)) [
  | inl same ↦
      let (t, e) =
        span-pos s.start (healthy_until s.version now (s ∷ rest))
          (λ z. h (healthy_since_here now version s rest same ∙ z)) in
      (
        rw same refl,
        subst (λ v. All (IsHealthyAt v) (s ∷ rest)) ((eq_iff s.version version).0 same)
            (healthy_until-All s.version now t (s ∷ rest) e),
      )
  | inr other ↦
      let (there, well) =
        healthy_since-pos now version rest
          (λ z. h (healthy_since_other now version s rest other ∙ z)) in
      (rw (other, there) refl, ((λ e. absurd (ground (arith, eq_iff s.version version))), well))
]

-- A duration other than 0 is a promise: the version is in the report, and no status of it there is
-- anything but healthy.
pub version_healthy_duration-pos :
    (now : ℤ) (r : DeploymentStatusesReport) (version : String)
    → version_healthy_duration now r version ≢ pos 0
    → (contains (versions_of r.statuses) version ≡ true) × All (IsHealthyAt version) r.statuses
unfolding version_healthy_duration
version_healthy_duration-pos now r version h = healthy_since-pos now version r.statuses h

-- The loop gives up on both sides, or the results are in order.
abbrev LeOption : Option ℤ → Option ℤ → Type 0
LeOption none none = Unit
LeOption none (some t) = ⊥
LeOption (some t) none = ⊥
LeOption (some t) (some t') = t ≤ℤ t'

LeOption-refl : (o : Option ℤ) → LeOption o o
LeOption-refl none = tt
LeOption-refl (some t) = omega arith

healthy_until_mono :
    (version : String) (now now' : ℤ) (l : List DeploymentStatus)
    → now ≤ℤ now'
    → LeOption (healthy_until version now l) (healthy_until version now' l)
unfolding healthy_until
healthy_until_mono version now now' [] le = le
healthy_until_mono version now now' (s ∷ rest) le = ground (
  arith,
  LeOption-refl (healthy_until version s.start rest),
  healthy_until_mono version now now' rest le,
)

span_mono : (start : ℤ) (o o' : Option ℤ) → LeOption o o' → span start o ≤ℤ span start o'
unfolding span
span_mono start none none le = omega arith
span_mono start none (some t) le = absurd le
span_mono start (some t) none le = absurd le
span_mono start (some t) (some t') le = sub_time_mono t t' start le

healthy_since_mono :
    (now now' : ℤ) (version : String) (l : List DeploymentStatus)
    → now ≤ℤ now'
    → healthy_since now version l ≤ℤ healthy_since now' version l
unfolding healthy_since
healthy_since_mono now now' version [] le = omega arith
healthy_since_mono now now' version (s ∷ rest) le = ground (
  arith,
  healthy_since_mono now now' version rest le,
  span_mono s.start (healthy_until s.version now (s ∷ rest))
      (healthy_until s.version now' (s ∷ rest))
      (healthy_until_mono s.version now now' (s ∷ rest) le),
)

-- While a report stays as it is, its durations grow with the clock.
pub version_healthy_duration_mono :
    (now now' : ℤ) (r : DeploymentStatusesReport) (version : String)
    → now ≤ℤ now'
    → version_healthy_duration now r version ≤ℤ version_healthy_duration now' r version
unfolding version_healthy_duration
version_healthy_duration_mono now now' r version le =
    healthy_since_mono now now' version r.statuses le
