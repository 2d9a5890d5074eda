-- ===== src/Controller/Interleaving/History.antt =====
-- The reports of a round are histories again.
use mathlib.Core.Path.{subst}
use propagation_controller.Base.{◌≡◌, sym, String, none, List, [], ◌∷◌, All, inl, inr, Option-cases}
use propagation_controller.Api.{DeploymentStatus, DeploymentStatusesReport}
use propagation_controller.Api.Report.{find_deployment_status_report}
use propagation_controller.Api.Report.History.Newest.{newest_first}
use propagation_controller.Api.Report.History.Invariants.{
  IsHistory, StartsAfter, append_status-IsHistory,
}
use propagation_controller.Controller.{Cluster, Backend}
use propagation_controller.Controller.Fetch.{report_for}
use propagation_controller.Controller.Reports.Find.{find-All}
use propagation_controller.Controller.Interleaving.{Move, run, start_pool, HasReturned, reports_of}
use propagation_controller.Controller.Interleaving.Invariant.{Distinct}
use propagation_controller.Controller.Interleaving.Result.{AreFetched, IsResult, run-IsResult}

module _ {W C : Type 0} (cluster : Cluster W) (backend : Backend W C) where
  -- The report is a history, and no reading of the clock is before its newest status.
  pub record IsPast (r : DeploymentStatusesReport) : Type 0 where
    pub history : IsHistory (newest_first r)
    pub past :
        (status : DeploymentStatus) (w : W)
        → StartsAfter (newest_first r) (record status { start = (cluster.now w).0 })

  report_for-IsPast :
      (d : String) (old : List DeploymentStatusesReport)
      → All IsPast old
      → IsPast (report_for d old)
  unfolding report_for
  report_for-IsPast d old v = elim (Option-cases (find_deployment_status_report old d)) [
    | inl e ↦ rw (e, report_for) (record { history = tt; past = λ status w. tt })
    | inr (r, e) ↦ rw (e, report_for) (find-All IsPast old d r v e)
  ]

  AreFetched-IsHistory :
      (old : List DeploymentStatusesReport)
      → All IsPast old
      → (ds : List String) (rs : List DeploymentStatusesReport)
      → AreFetched cluster backend old ds rs
      → All (λ r. IsHistory (newest_first r)) rs
  AreFetched-IsHistory old v [] [] f = tt
  AreFetched-IsHistory old v [] (r ∷ rs) f = absurd f
  AreFetched-IsHistory old v (d ∷ ds) [] f = absurd f
  AreFetched-IsHistory old v (d ∷ ds) (r ∷ rs) (f, fs) =
      let p = report_for-IsPast d old v in
      (
        subst (λ r. IsHistory (newest_first r)) (sym f.appended)
            (append_status-IsHistory (report_for d old) _ p.history (p.past f.status f.clock)),
        AreFetched-IsHistory old v ds rs fs,
      )

  -- Each report that the object has is a history, and no reading of the clock is before its newest
  -- status. The deployments that are polled have different names. Then, in whatever order the
  -- goroutines go on, when all have returned without an error, each report that they made is a
  -- history: its successive statuses differ, a pending one is followed by one of another version only,
  -- and time does not go back.
  pub run-IsHistory :
      (ds : List String) (old : List DeploymentStatusesReport) (c : C) (w : W) (moves : List Move)
      → Distinct ds
      → All IsPast old
      → let p = run cluster backend moves (start_pool ds old c w) in
        p.todo ≡ []
        → All (λ x. HasReturned x.phase) p.slots
        → p.shared.error ≡ none
        → All (λ r. IsHistory (newest_first r)) (reports_of p)
  run-IsHistory ds old c w moves distinct v over returned fine =
      let p = run cluster backend moves (start_pool ds old c w) in
      AreFetched-IsHistory old v ds (reports_of p) (
        subst (IsResult cluster backend old ds (reports_of p)) fine
          (run-IsResult cluster backend old ds c w moves distinct over returned))
