-- ===== src/Controller/Interleaving/Panic.antt =====
-- The end of a round behind goroutines in any order: the nil that `LastStatus` may return is not
-- dereferenced.
use mathlib.Core.Path.{subst}
use propagation_controller.Base.{◌≡◌, ◌≢◌, sym, ℤ, String, List, [], ◌∷◌, All}
use propagation_controller.Api.{DeploymentStatusesReport, Propagation}
use propagation_controller.Config.{Config}
use propagation_controller.Controller.{Cluster, Objects, Backend, panic}
use propagation_controller.Controller.Fetch.{Fetched, report_for}
use propagation_controller.Controller.Reconcile.{required_statuses, store_reports}
use propagation_controller.Controller.Reports.{HasStatus, append_status-HasStatus}
use propagation_controller.Controller.Round.{KeepsObject}
use propagation_controller.Controller.Panic.{store_reports-ne-panic}
use propagation_controller.Controller.Interleaving.{
  Pool, Move, run, start_pool, HasReturned, reports_of,
}
use propagation_controller.Controller.Interleaving.Invariant.{Distinct}
use propagation_controller.Controller.Interleaving.Result.{AreFetched, IsResult, run-IsResult}

-- What `store_reports` gets of the goroutines.
abbrev pub fetched_by : {W C : Type 0} → Pool W C → Fetched W C
fetched_by p = record {
  reports = reports_of p;
  old = p.shared.old;
  error = p.shared.error;
  client = p.shared.client;
  world = p.shared.world;
}

module _ {W C : Type 0} (cluster : Cluster W) (backend : Backend W C)
    (old : List DeploymentStatusesReport) where
  AreFetched-HasStatus :
      (ds : List String) (rs : List DeploymentStatusesReport)
      → AreFetched cluster backend old ds rs
      → All HasStatus rs
  AreFetched-HasStatus [] [] v = tt
  AreFetched-HasStatus [] (r ∷ rs) v = absurd v
  AreFetched-HasStatus (d ∷ ds) [] v = absurd v
  AreFetched-HasStatus (d ∷ ds) (r ∷ rs) (f, v) = (
    subst HasStatus (sym f.appended) (append_status-HasStatus (report_for d old) _),
    AreFetched-HasStatus ds rs v,
  )

module _ {W C Object Node : Type 0} (default_tag : String) (cluster : Cluster W)
    (objects : Objects W Object Node) (backend : Backend W C) (store_time : ℤ → ℤ)
    (keeps : KeepsObject store_time cluster) (config : Config) (version : String)
    (p : Propagation) where
  -- Let a round come to the fetching of the statuses, of deployments with different names, and let
  -- its goroutines go on in any order until all have been started and have returned. Whatever they
  -- return, and whatever the cluster and the registry answer from there on, the round does not end in
  -- a panic: no nil status is dereferenced, whichever deployments have to be at one version. The answer
  -- to an update of a status keeps the reports that were sent, but for what storing does to an instant.
  pub run-ne-panic :
      (c : C) (w : W) (moves : List Move)
      → Distinct (required_statuses default_tag cluster objects backend p)
      → let q = run cluster backend moves (
          start_pool
            (required_statuses default_tag cluster objects backend p)
            p.status.deployment_statuses_reports
            c
            w) in
        q.todo ≡ []
        → All (λ x. HasReturned x.phase) q.slots
        → (store_reports default_tag cluster objects backend config version p (fetched_by q)).0
          ≢ panic
  run-ne-panic c w moves distinct over returned =
      let ds = required_statuses default_tag cluster objects backend p in
      let old = p.status.deployment_statuses_reports in
      let q = run cluster backend moves (start_pool ds old c w) in
      let result = run-IsResult cluster backend old ds c w moves distinct over returned in
      store_reports-ne-panic default_tag cluster objects backend store_time keeps config version p
        (fetched_by q)
        λ e.
          AreFetched-HasStatus cluster backend old ds (reports_of q)
            (subst (IsResult cluster backend old ds (reports_of q)) e result)
