-- ===== src/Controller/Reports/Polled.antt =====
-- The newest status of a report that was fetched is the one that `GetStatus` returned.
use propagation_controller.Base.{
  ◌≡◌, String, Option, none, List, [], ◌∷◌, All, ok, inl, inr, Result-cases, Error,
}
use propagation_controller.Api.{DeploymentStatus, DeploymentStatusesReport}
use propagation_controller.Api.Report.History.Kind.{IsNewest, append_status-IsNewest}
use propagation_controller.Controller.{Cluster, Backend}
use propagation_controller.Controller.Fetch.{report_for, fetch_one, fetch_all}
use propagation_controller.Controller.Reports.{
  answer, polled, after, fetch_one-ok, fetch_one-err, fetch_one-answer, fetch_one-name,
}

module _ {W C : Type 0} (cluster : Cluster W) (backend : Backend W C) (Q : C × W → Type 0)
    (reads : (c : C) (w : W) → Q (c, w) → Q (c, (cluster.now w).1))
    (gets : (d : String) (c : C) (w : W)
      → Q (c, w)
      → Q ((backend.get_status d c w).1, (backend.get_status d c w).2)) where
  -- The report's newest status was returned by `GetStatus` at a client and a state of the kind.
  pub record IsPolled (r : DeploymentStatusesReport) : Type 0 where
    pub client : C
    pub world : W
    pub kind : Q (client, world)
    pub status : DeploymentStatus
    pub returned : (backend.get_status r.deployment_name client world).0 ≡ ok status
    pub is_newest : IsNewest status r

  fetch_one-keeps :
      (d : String) (old : List DeploymentStatusesReport) (error : Option Error) (c : C) (w : W)
      → Q (c, w)
      → let x = fetch_one cluster backend d old error c w in Q (x.3, x.4)
  fetch_one-keeps d old error c w q = elim (Result-cases (answer cluster backend d old c w).0) [
    | inl (s, e) ↦ rw (fetch_one-ok cluster backend d old c w error s e) (reads _ _ (gets d c w q))
    | inr (x, e) ↦ rw (fetch_one-err cluster backend d old c w error x e) (gets d c w q)
  ]

  fetch_one-IsPolled :
      (d : String) (rest : List String) (old : List DeploymentStatusesReport) (error : Option Error)
      (c : C) (w : W)
      → Q (c, w)
      → after cluster backend rest (fetch_one cluster backend d old error c w) ≡ none
      → IsPolled (fetch_one cluster backend d old error c w).0
  fetch_one-IsPolled d rest old error c w q e =
      let (s, f) = fetch_one-answer cluster backend d rest old error c w e in
      record {
        client = c;
        world = w;
        kind = q;
        status = s;
        returned = rw (fetch_one-name cluster backend d old c w error) f;
        is_newest =
            rw (fetch_one-ok cluster backend d old c w error s f)
              (append_status-IsNewest (report_for d old) (polled cluster backend d old c w s));
      }

  -- Where the fetching ends without an error, each report's newest status has the version and the
  -- state of a status that `GetStatus` returned on the way.
  pub fetch_all-IsPolled :
      (ds : List String) (old : List DeploymentStatusesReport) (error : Option Error) (c : C)
      (w : W)
      → Q (c, w)
      → (fetch_all cluster backend ds old error c w).error ≡ none
      → All IsPolled (fetch_all cluster backend ds old error c w).reports
  unfolding fetch_all
  fetch_all-IsPolled [] old error c w q e = tt
  fetch_all-IsPolled (d ∷ rest) old error c w q e =
      let (_, old', error', c', w') = fetch_one cluster backend d old error c w in
      (
        fetch_one-IsPolled d rest old error c w q e,
        fetch_all-IsPolled rest old' error' c' w' (fetch_one-keeps d old error c w q) e,
      )
