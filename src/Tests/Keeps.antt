-- ===== src/Tests/Keeps.antt =====
-- A cluster that stores what it is sent.
use mathlib.Core.List.{map-id}
use propagation_controller.Base.{◌≡◌, refl, sym, ap, ◌∙◌, List, [], ◌∷◌, map, ok, ok_injective}
use propagation_controller.Api.{DeploymentStatus, DeploymentStatusesReport, Propagation}
use propagation_controller.Controller.{Cluster}
use propagation_controller.Controller.Round.{KeepsObject, stored_report}

as_sent : (rs : List DeploymentStatusesReport) → map (stored_report (λ t. t)) rs ≡ rs
as_sent [] = refl
as_sent (r ∷ rs) =
    λ i. record r { statuses = map-id {A = DeploymentStatus} r.statuses i } ∷ as_sent rs i

pub stores-KeepsObject :
    {W : Type 0} (cluster : Cluster W)
    → ((p : Propagation) (w : W) → (cluster.update_status p w).0 ≡ ok p)
    → KeepsObject (λ t. t) cluster
stores-KeepsObject cluster stores = record {
  spec = λ p p' w e. ap (λ (p : Propagation). p.spec) (sym (ok_injective (sym (stores p w) ∙ e)));
  conditions = λ p p' w e.
      ap (λ (p : Propagation). p.status.deploy_conditions)
        (sym (ok_injective (sym (stores p w) ∙ e)));
  reports = λ p p' w e.
      ap (λ (p : Propagation). p.status.deployment_statuses_reports)
        (sym (ok_injective (sym (stores p w) ∙ e)))
      ∙ sym (as_sent p.status.deployment_statuses_reports);
}
