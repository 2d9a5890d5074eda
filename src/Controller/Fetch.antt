-- ===== src/Controller/Fetch.antt =====
-- The part of `Reconcile` that fetches the statuses. The goroutines are taken one after another, in
-- the order in which they start. A report that is found shares its statuses with the object: where
-- `AppendStatus` writes to the last one in place, the object's report changes too, which shows when
-- the object is written after an error.
use propagation_controller.Base.{
  String, ◌&&◌, Option, none, some, List, [], ◌∷◌, ok, err, Error, ◌==◌, if◌then◌else◌,
}
use propagation_controller.Api.{DeploymentStatus, DeploymentStatusesReport, pending}
use propagation_controller.Api.Report.{
  find_deployment_status_report, last_status, set_last, refine, append_status,
}
use propagation_controller.Controller.{Cluster, Backend}

-- `report`, with the new one where there is none.
unfoldable pub report_for : String → List DeploymentStatusesReport → DeploymentStatusesReport
report_for deployment reports = elim (find_deployment_status_report reports deployment) [
  | some report ↦ report
  | none ↦ record { deployment_name = deployment; statuses = [] }
]

-- What `AppendStatus` leaves in the statuses that the object's report shares.
unfoldable pub written_in_place :
    Option DeploymentStatus → DeploymentStatus → List DeploymentStatus → List DeploymentStatus
written_in_place none status statuses = statuses
written_in_place (some last) status statuses =
    if last.version == status.version && last.state == pending
    then set_last (refine last status) statuses
    else statuses

-- The object's reports after that write, which reaches the first report of the deployment.
unfoldable pub write_through :
    String → DeploymentStatus → List DeploymentStatusesReport → List DeploymentStatusesReport
unfolding written_in_place
write_through deployment status [] = []
write_through deployment status (r ∷ reports) =
    if r.deployment_name == deployment
    then record r { statuses = written_in_place (last_status r) status r.statuses } ∷ reports
    else r ∷ write_through deployment status reports

-- What the loop has made: the reports, the object's own reports, the first error, and the state.
pub record Fetched (W C : Type 0) : Type 0 where
  pub reports : List DeploymentStatusesReport
  pub old : List DeploymentStatusesReport
  pub error : Option Error
  pub client : C
  pub world : W

abbrev pub or_error : Option Error → Error → Option Error
or_error none e = some e
or_error (some first) e = some first

module _ {W C : Type 0} (cluster : Cluster W) (backend : Backend W C) where
  -- One goroutine with the statements that start it: the report, and what becomes of the rest.
  unfoldable pub fetch_one :
      String
      → List DeploymentStatusesReport
      → Option Error
      → C
      → W
      → DeploymentStatusesReport × List DeploymentStatusesReport × Option Error × C × W
  fetch_one deployment old error c w =
      let report = report_for deployment old in
      let (r, c', w') = backend.get_status deployment c w in
      elim r [
        | err e ↦ (report, old, or_error error e, c', w')
        | ok fetched ↦
            let (t, w'') = cluster.now w' in
            let status = record fetched { start = t } in
            (append_status report status, write_through deployment status old, error, c', w'')
      ]

  unfoldable pub fetch_all :
      List String → List DeploymentStatusesReport → Option Error → C → W → Fetched W C
  unfolding fetch_one
  fetch_all [] old error c w = record {
    reports = [];
    old = old;
    error = error;
    client = c;
    world = w;
  }
  fetch_all (deployment ∷ rest) old error c w =
      let (report, old', error', c', w') = fetch_one deployment old error c w in
      let others = fetch_all rest old' error' c' w' in
      record others { reports = report ∷ others.reports }
