-- ===== src/Api/Next/Candidates.antt =====
-- The candidate versions that `NextVersion` collects.
use mathlib.Core.List.{reverse, reverse-cons, map-append}
use propagation_controller.Base.{
  ◌≡◌, refl, ◌∙◌, String, Bool, false, ◌&&◌, ◌||◌, List, [], ◌∷◌, ◌++◌, contains, contains-append,
  arith, ◌==◌, eq_iff, inl, inr, Bool-cases,
}
use propagation_controller.Api.{DeploymentStatus, DeploymentStatusesReport}
use propagation_controller.Api.Report.Duration.{versions_of}
use propagation_controller.Api.Next.{add_versions, add_reports}

-- Some report of the deployment has a status of the version.
unfoldable pub is_reported : String → List DeploymentStatusesReport → String → Bool
is_reported deployment [] v = false
is_reported deployment (r ∷ reports) v =
    r.deployment_name == deployment && contains (versions_of r.statuses) v
    || is_reported deployment reports v

-- No version stands in the list twice.
abbrev pub IsDistinct : List String → Type 0
IsDistinct [] = Unit
IsDistinct (v ∷ vs) = (contains vs v ≡ false) × IsDistinct vs

contains-versions_of-reverse :
    (l : List DeploymentStatus) (v : String)
    → contains (versions_of (reverse l)) v ≡ contains (versions_of l) v
contains-versions_of-reverse [] v = refl
contains-versions_of-reverse (s ∷ l) v =
    rw (reverse-cons s l, map-append, contains-append, contains-versions_of-reverse l v)
      (unfold contains in ground arith)

contains-snoc :
    (vs : List String) (w v : String) → contains (vs ++ w ∷ []) v ≡ (contains vs v || w == v)
contains-snoc vs w v = contains-append vs (w ∷ []) v ∙ unfold contains in ground arith

contains-add_versions :
    (vs : List String) (l : List DeploymentStatus) (v : String)
    → contains (add_versions vs l) v ≡ (contains vs v || contains (versions_of l) v)
unfolding add_versions
contains-add_versions vs [] v = unfold contains in ground arith
contains-add_versions vs (s ∷ l) v = elim (Bool-cases (contains vs s.version)) [
  | inl old ↦
      rw (old, contains-add_versions vs l v) (unfold contains in ground (arith, eq_iff s.version v))
  | inr new ↦
      rw (new, contains-add_versions (vs ++ s.version ∷ []) l v, contains-snoc vs s.version v)
        (unfold contains in ground arith)
]

contains-add_reports :
    (deployment : String) (vs : List String) (reports : List DeploymentStatusesReport) (v : String)
    → contains (add_reports deployment vs reports) v
      ≡ (contains vs v || is_reported deployment reports v)
unfolding add_reports is_reported
contains-add_reports deployment vs [] v = ground arith
contains-add_reports deployment vs (r ∷ reports) v =
    elim (Bool-cases (r.deployment_name == deployment)) [
      | inl same ↦
          rw
            (
              same,
              contains-add_reports deployment (add_versions vs (reverse r.statuses)) reports v,
              contains-add_versions vs (reverse r.statuses) v,
              contains-versions_of-reverse r.statuses v,
            )
            (ground arith)
      | inr other ↦ rw (other, contains-add_reports deployment vs reports v) refl
    ]

IsDistinct-snoc :
    (vs : List String) (w : String)
    → IsDistinct vs
    → contains vs w ≡ false
    → IsDistinct (vs ++ w ∷ [])
unfolding contains
IsDistinct-snoc [] w d new = (refl, tt)
IsDistinct-snoc (v ∷ vs) w d new = (
  contains-snoc vs w v ∙ ground (arith, d.0, eq_iff v w, eq_iff w v),
  IsDistinct-snoc vs w d.1 (ground arith),
)

IsDistinct-add_versions :
    (vs : List String) (l : List DeploymentStatus) → IsDistinct vs → IsDistinct (add_versions vs l)
unfolding add_versions
IsDistinct-add_versions vs [] d = d
IsDistinct-add_versions vs (s ∷ l) d = elim (Bool-cases (contains vs s.version)) [
  | inl old ↦ rw old (IsDistinct-add_versions vs l d)
  | inr new ↦
      rw new (IsDistinct-add_versions (vs ++ s.version ∷ []) l (IsDistinct-snoc vs s.version d new))
]

IsDistinct-add_reports :
    (deployment : String) (vs : List String) (reports : List DeploymentStatusesReport)
    → IsDistinct vs
    → IsDistinct (add_reports deployment vs reports)
unfolding add_reports
IsDistinct-add_reports deployment vs [] d = d
IsDistinct-add_reports deployment vs (r ∷ reports) d =
    elim (Bool-cases (r.deployment_name == deployment)) [
      | inl same ↦ rw same (
          IsDistinct-add_reports deployment (add_versions vs (reverse r.statuses)) reports
            (IsDistinct-add_versions vs (reverse r.statuses) d))
      | inr other ↦ rw other (IsDistinct-add_reports deployment vs reports d)
    ]

-- The candidates are the versions that the reports of the deployment hold, each of them once.
pub candidates :
    (deployment : String) (reports : List DeploymentStatusesReport)
    → ((v : String)
        → contains (add_reports deployment [] reports) v ≡ is_reported deployment reports v)
      × IsDistinct (add_reports deployment [] reports)
candidates deployment reports = (
  λ v. contains-add_reports deployment [] reports v ∙ unfold contains in refl,
  IsDistinct-add_reports deployment [] reports tt,
)
