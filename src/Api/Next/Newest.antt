-- ===== src/Api/Next/Newest.antt =====
-- The candidates of `NextVersion` in their order: the newest status of a report comes first.
use mathlib.Core.List.{reverse, append_assoc, append-nil}
use propagation_controller.Base.{
  ◌≡◌, refl, sym, ap, ◌∙◌, String, true, List, [], ◌∷◌, ◌++◌, contains, ◌==◌, if◌then◌else◌, inl,
  inr, Bool-cases,
}
use propagation_controller.Api.{DeploymentStatus, DeploymentStatusesReport}
use propagation_controller.Api.Report.Duration.{versions_of}
use propagation_controller.Api.Next.{add_versions, add_reports}

-- The versions of the deployment's reports, those of a report from its last status to its first.
unfoldable pub reported : String → List DeploymentStatusesReport → List String
reported deployment [] = []
reported deployment (r ∷ reports) =
    let rest = reported deployment reports in
    if r.deployment_name == deployment then versions_of (reverse r.statuses) ++ rest else rest

-- The first occurrences in a list of what is not yet in `seen`.
unfoldable pub firsts : List String → List String → List String
firsts seen [] = []
firsts seen (v ∷ vs) =
    let old = firsts seen vs in
    let new = v ∷ firsts (seen ++ v ∷ []) vs in if contains seen v then old else new

-- Each version that the reports of the deployment hold, once, where it is met first when one goes
-- through each report from its newest status to its oldest.
unfoldable pub newest_versions : String → List DeploymentStatusesReport → List String
unfolding firsts reported
newest_versions deployment reports = firsts [] (reported deployment reports)

firsts-append :
    (seen xs ys : List String)
    → firsts seen (xs ++ ys) ≡ firsts seen xs ++ firsts (seen ++ firsts seen xs) ys
unfolding firsts
firsts-append seen [] ys = ap (λ l. firsts l ys) (sym (append-nil seen))
firsts-append seen (x ∷ xs) ys = elim (Bool-cases (contains seen x)) [
  | inl old ↦ rw old (firsts-append seen xs ys)
  | inr new ↦ rw new (
      let old = seen ++ x ∷ [] in
      ap (◌∷◌ x) (
        firsts-append old xs ys
        ∙ ap (λ l. firsts old xs ++ firsts l ys) (append_assoc seen (x ∷ []) (firsts old xs))))
]

add_versions-firsts :
    (vs : List String) (l : List DeploymentStatus)
    → add_versions vs l ≡ vs ++ firsts vs (versions_of l)
unfolding add_versions firsts
add_versions-firsts vs [] = sym (append-nil vs)
add_versions-firsts vs (s ∷ l) = elim (Bool-cases (contains vs s.version)) [
  | inl old ↦ rw old (add_versions-firsts vs l)
  | inr new ↦ rw new (
      let with = vs ++ s.version ∷ [] in
      add_versions-firsts with l ∙ append_assoc vs (s.version ∷ []) (firsts with (versions_of l)))
]

add_reports_here :
    (deployment : String) (vs : List String) (r : DeploymentStatusesReport)
    (reports : List DeploymentStatusesReport)
    → (r.deployment_name == deployment) ≡ true
    → add_reports deployment vs (r ∷ reports)
      ≡ add_reports deployment (add_versions vs (reverse r.statuses)) reports
unfolding add_reports
add_reports_here deployment vs r reports e = rw e refl

reported_here :
    (deployment : String) (r : DeploymentStatusesReport) (reports : List DeploymentStatusesReport)
    → (r.deployment_name == deployment) ≡ true
    → reported deployment (r ∷ reports)
      ≡ versions_of (reverse r.statuses) ++ reported deployment reports
unfolding reported
reported_here deployment r reports e = rw e refl

add_reports-firsts :
    (deployment : String) (vs : List String) (reports : List DeploymentStatusesReport)
    → add_reports deployment vs reports ≡ vs ++ firsts vs (reported deployment reports)
unfolding add_reports reported
add_reports-firsts deployment vs [] =
    sym (append-nil vs) ∙ ap (λ l. vs ++ l) (unfold firsts in refl)
add_reports-firsts deployment vs (r ∷ reports) =
    elim (Bool-cases (r.deployment_name == deployment)) [
      | inl same ↦
          let l = versions_of (reverse r.statuses) in
          let rest = reported deployment reports in
          let grown = add_versions-firsts vs (reverse r.statuses) in
          add_reports_here deployment vs r reports same
          ∙ add_reports-firsts deployment (add_versions vs (reverse r.statuses)) reports
          ∙ ap (λ k. k ++ firsts k rest) grown
          ∙ append_assoc vs (firsts vs l) (firsts (vs ++ firsts vs l) rest)
          ∙ ap (λ k. vs ++ k) (sym (firsts-append vs l rest))
          ∙ ap (λ k. vs ++ firsts vs k) (sym (reported_here deployment r reports same))
      | inr other ↦ rw other (add_reports-firsts deployment vs reports)
    ]

pub add_reports-newest :
    (deployment : String) (reports : List DeploymentStatusesReport)
    → add_reports deployment [] reports ≡ newest_versions deployment reports
unfolding newest_versions
add_reports-newest deployment reports = add_reports-firsts deployment [] reports
