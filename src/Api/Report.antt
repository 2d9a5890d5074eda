-- ===== src/Api/Report.antt =====
-- The methods of `DeploymentStatusesReport` in api/v1alpha1/propagation_types.go, and the search for
-- a report in a status. A method that changes the report returns the new one.
pub mod History
pub mod Duration
use propagation_controller.Base.{
  ℕ, suc, ◌-◌, ℤ, pos, sub_time, String, Bool, true, false, not, ◌&&◌, Option, none, some, List, [],
  ◌∷◌, ◌++◌, leb, length, get_elem?, take, ◌==◌, if◌then◌else◌,
}
use propagation_controller.Api.{DeploymentStatus, DeploymentStatusesReport, healthy, pending}

-- `(*PropagationStatus).FindDeploymentStatusReport`, over the list of the reports; `none` is nil.
unfoldable pub find_deployment_status_report :
    List DeploymentStatusesReport → String → Option DeploymentStatusesReport
find_deployment_status_report [] deployment = none
find_deployment_status_report (report ∷ reports) deployment =
    if report.deployment_name == deployment
    then some report
    else find_deployment_status_report reports deployment

-- The inner loop of `VersionHealthyDuration` over `r.Statuses[i:]`: `none` is its `return 0`,
-- `some t` the value of `until` behind the loop.
unfoldable pub healthy_until : String → ℤ → List DeploymentStatus → Option ℤ
healthy_until version until [] = some until
healthy_until version until (s2 ∷ rest) =
    let over = healthy_until version s2.start rest in
    let on = healthy_until version until rest in
    if not (s2.state == healthy) then (if s2.version == version then none else over) else on

-- What `VersionHealthyDuration` returns after the inner loop.
unfoldable pub span : ℤ → Option ℤ → ℤ
span start none = pos 0
span start (some until) = sub_time until start

-- The outer loop: the first status of the version decides.
unfoldable pub healthy_since : ℤ → String → List DeploymentStatus → ℤ
unfolding span
healthy_since now version [] = pos 0
healthy_since now version (s1 ∷ rest) =
    let later = healthy_since now version rest in
    if not (s1.version == version)
    then later
    else span s1.start (healthy_until s1.version now (s1 ∷ rest))

-- `(*DeploymentStatusesReport).VersionHealthyDuration`; `now` is the clock's reading.
unfoldable pub version_healthy_duration : ℤ → DeploymentStatusesReport → String → ℤ
unfolding healthy_since
version_healthy_duration now r version = healthy_since now version r.statuses

-- `(*DeploymentStatusesReport).LastStatus`; `none` is nil.
unfoldable pub last_status : DeploymentStatusesReport → Option DeploymentStatus
last_status r =
    let count = length r.statuses in
    elim (leb count 0) [ true ↦ none | false ↦ get_elem? r.statuses (count - 1) ]

-- A write through the pointer that `LastStatus` returns.
unfoldable pub set_last : DeploymentStatus → List DeploymentStatus → List DeploymentStatus
set_last v [] = []
set_last v (s ∷ []) = v ∷ []
set_last v (s ∷ t ∷ rest) = s ∷ set_last v (t ∷ rest)

-- What `AppendStatus` writes into the last status when that is pending at the same version.
unfoldable pub refine : DeploymentStatus → DeploymentStatus → DeploymentStatus
refine last status =
    if status.state == healthy
    then record last { state = status.state; start = status.start }
    else record last { state = status.state }

-- The first `if` of `AppendStatus`.
unfoldable pub record_status :
    Option DeploymentStatus → DeploymentStatus → List DeploymentStatus → List DeploymentStatus
unfolding set_last refine
record_status none status statuses = statuses ++ status ∷ []
record_status (some last) status statuses =
    if last.version == status.version && last.state == pending
    then set_last (refine last status) statuses
    else statuses ++ status ∷ []

-- The test of the second `if` at `r.Statuses[statusCount-2]`.
unfoldable pub repeats : Option DeploymentStatus → DeploymentStatus → Bool
repeats none status = false
repeats (some s) status = s.version == status.version && s.state == status.state

-- The second `if` of `AppendStatus`: a status that repeats the one before it is dropped.
unfoldable pub drop_repeated : DeploymentStatus → List DeploymentStatus → List DeploymentStatus
unfolding repeats
drop_repeated status statuses =
    let count = length statuses in
    if leb 2 count && repeats (get_elem? statuses (count - 2)) status
    then take (count - 1) statuses
    else statuses

-- `(*DeploymentStatusesReport).AppendStatus`
unfoldable pub append_status :
    DeploymentStatusesReport → DeploymentStatus → DeploymentStatusesReport
unfolding last_status record_status drop_repeated
append_status r status = record r {
  statuses = drop_repeated status (record_status (last_status r) status r.statuses);
}
