-- ===== src/Controller/Reports/Find.antt =====
-- The search for a deployment's report.
use mathlib.Core.Path.{subst}
use propagation_controller.Base.{
  none-ne-some, some_injective, ◌≢◌, arith, ◌≡◌, refl, sym, ap, ◌∙◌, String, Bool, Option, some,
  List, [], ◌∷◌, All, ◌==◌, if◌then◌else◌, inl, inr, Bool-cases, Option-cases, eq_iff, ◌⊎◌,
}
use propagation_controller.Api.{DeploymentStatus, DeploymentStatusesReport}
use propagation_controller.Api.Report.{find_deployment_status_report}
use propagation_controller.Controller.Fetch.{report_for, write_through}

-- A search that succeeds ends at the first report or goes on behind it.
find-cases :
    (x : DeploymentStatusesReport) (reports : List DeploymentStatusesReport) (d : String)
    (r : DeploymentStatusesReport)
    → find_deployment_status_report (x ∷ reports) d ≡ some r
    → ((x ≡ r) × (x.deployment_name ≡ d)) ⊎ (find_deployment_status_report reports d ≡ some r)
unfolding find_deployment_status_report
find-cases x reports d r e =
    let by_name : Bool → Option DeploymentStatusesReport =
      λ b. if b then some x else find_deployment_status_report reports d in
    elim (Bool-cases (x.deployment_name == d)) [
      | inl here ↦
          inl (some_injective (sym (ap by_name here) ∙ e), (eq_iff x.deployment_name d).0 here)
      | inr there ↦ inr (sym (ap by_name there) ∙ e)
    ]

find-nil :
    (d : String) (r : DeploymentStatusesReport) → find_deployment_status_report [] d ≡ some r → ⊥
unfolding find_deployment_status_report
find-nil d r e = none-ne-some e

-- What holds of all reports holds of one that is found.
pub find-All :
    (P : DeploymentStatusesReport → Type 0) (reports : List DeploymentStatusesReport) (d : String)
    (r : DeploymentStatusesReport)
    → All P reports
    → find_deployment_status_report reports d ≡ some r
    → P r
find-All P [] d r v e = absurd (find-nil d r e)
find-All P (x ∷ reports) d r (h, v) e =
    let rest = find-All P reports d r v in
    elim (find-cases x reports d r e) [ inl (same, _) ↦ subst P same h | inr later ↦ rest later ]

pub find_name :
    (reports : List DeploymentStatusesReport) (d : String) (r : DeploymentStatusesReport)
    → find_deployment_status_report reports d ≡ some r
    → r.deployment_name ≡ d
find_name [] d r e = absurd (find-nil d r e)
find_name (x ∷ reports) d r e =
    let rest = find_name reports d r in
    elim (find-cases x reports d r e) [
      | inl (same, named) ↦ sym (ap (λ y. y.deployment_name) same) ∙ named
      | inr later ↦ rest later
    ]

pub report_for-name :
    (d : String) (reports : List DeploymentStatusesReport)
    → (report_for d reports).deployment_name ≡ d
unfolding report_for
report_for-name d reports = elim (Option-cases (find_deployment_status_report reports d)) [
  | inl e ↦ rw (e, report_for) refl
  | inr (r, e) ↦ rw (e, report_for) (find_name reports d r e)
]

-- A write to the report of one deployment is not seen by a search for another.
find-write_through :
    (d d' : String) (status : DeploymentStatus) (old : List DeploymentStatusesReport)
    → d ≢ d'
    → find_deployment_status_report (write_through d status old) d'
      ≡ find_deployment_status_report old d'
unfolding find_deployment_status_report write_through
find-write_through d d' status [] apart = refl
find-write_through d d' status (r ∷ old) apart =
    let rest = find-write_through d d' status old apart in
    ground (arith, eq_iff r.deployment_name d, eq_iff r.deployment_name d', rest, apart)

pub report_for-write_through :
    (d d' : String) (status : DeploymentStatus) (old : List DeploymentStatusesReport)
    → d ≢ d'
    → report_for d' (write_through d status old) ≡ report_for d' old
unfolding report_for
report_for-write_through d d' status old apart =
    rw (report_for, find-write_through d d' status old apart) refl
