-- ===== src/Tests/Interleaving.antt =====
-- Two goroutines: both are started, the second asks first, and the first returns first.
use propagation_controller.Api.{DeploymentStatusesReport}
use propagation_controller.Api.Report.History.Newest.{newest_first}
use propagation_controller.Api.Report.History.Invariants.{IsHistory}
use propagation_controller.Controller.Interleaving.History.{IsPast, run-IsHistory}
use propagation_controller.Base.{arith}
use propagation_controller.Base.{refl, String, List, [], ◌∷◌, All, eq_iff, ◌≢◌, false≢true}
use propagation_controller.Controller.Interleaving.{
  Move, launch, resume, run, start_pool, reports_of, Pool,
}
use propagation_controller.Controller.Interleaving.Result.{IsResult, run-IsResult}
use propagation_controller.Controller.{panic}
use propagation_controller.Controller.Reconcile.{required_statuses, store_reports}
use propagation_controller.Controller.Interleaving.Panic.{fetched_by, run-ne-panic}
use propagation_controller.Tests.Keeps.{stores-KeepsObject}
use propagation_controller.Tests.Controller.{
  config, prod_1, objects, cluster, backend, report_of, healthy_at,
}
use propagation_controller.Base.{ℕ}

abbrev both : List String
both = "prod-2" ∷ "staging-1" ∷ []

abbrev mixed : List Move
mixed = launch ∷ launch ∷ resume 1 ∷ resume 0 ∷ resume 0 ∷ resume 1 ∷ []

abbrev ended : Pool ℕ (Unit {0})
ended = run cluster backend mixed (start_pool both [] tt 7)

apart : ◌≢◌ {A = String} "prod-2" "staging-1"
apart e = absurd (false≢true ((eq_iff "prod-2" "staging-1").1 e))

run-IsResult_example : IsResult cluster backend [] both (reports_of ended) ended.shared.error
run-IsResult_example =
    run-IsResult cluster backend [] both tt 7 mixed ((apart, tt), (tt, tt)) (unfold run in refl)
      (unfold run in (tt, (tt, tt)))

-- The object has a report of `prod-2` from instant 0.
abbrev stored : List DeploymentStatusesReport
stored = report_of "prod-2" (healthy_at "v1" 0) ∷ []

stored-IsPast : IsPast cluster backend (report_of "prod-2" (healthy_at "v1" 0))
stored-IsPast = record { history = tt; past = λ status w. omega arith }

abbrev ended_again : Pool ℕ (Unit {0})
ended_again = run cluster backend mixed (start_pool both stored tt 7)

run-IsHistory_example : All (λ r. IsHistory (newest_first r)) (reports_of ended_again)
run-IsHistory_example =
    run-IsHistory cluster backend both stored tt 7 mixed ((apart, tt), (tt, tt)) (stored-IsPast, tt)
      (unfold run in refl) (unfold run in (tt, (tt, tt))) (unfold run in refl)

abbrev ended_for_prod_1 : Pool ℕ (Unit {0})
ended_for_prod_1 =
    run cluster backend mixed (start_pool both prod_1.status.deployment_statuses_reports tt 7)

run-ne-panic_example :
    (store_reports "latest" cluster objects backend config "v1" prod_1
      (fetched_by ended_for_prod_1)).0
    ≢ panic
unfolding required_statuses
run-ne-panic_example =
    run-ne-panic "latest" cluster objects backend (λ t. t)
      (stores-KeepsObject cluster (λ p w. refl)) config "v1" prod_1 tt 7 mixed
      ((apart, tt), (tt, tt)) (unfold run in refl) (unfold run in (tt, (tt, tt)))
