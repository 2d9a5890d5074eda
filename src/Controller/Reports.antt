-- ===== src/Controller/Reports.antt =====
-- The reports that a round of fetching makes.
pub mod Find
pub mod Polled
use mathlib.Core.Path.{subst}
use propagation_controller.Base.{
  none-ne-some, some_injective, ◌≡◌, refl, sym, ap, ◌∙◌, String, Bool, ◌&&◌, Option, none, some,
  List, [], ◌∷◌, map, All, ◌==◌, if◌then◌else◌, inl, inr, Bool-cases, Option-cases, Result-cases,
  eq_iff, Result, ok, err, Error, ◌⊎◌,
}
use propagation_controller.Api.{DeploymentStatus, DeploymentStatusesReport, pending}
use propagation_controller.Api.Report.{
  find_deployment_status_report, last_status, append_status, repeats, refine,
}
use propagation_controller.Api.Report.History.Newest.{
  record_newest, drop_newest, newest_first, newest_first-append_status,
}
use propagation_controller.Api.Report.History.Invariants.{newest, last_status-newest}
use propagation_controller.Api.Report.History.Kind.{append_status-IsNewest}
use propagation_controller.Controller.{Cluster, Backend}
use propagation_controller.Controller.Fetch.{
  report_for, write_through, or_error, fetch_one, fetch_all,
}
use propagation_controller.Controller.Reports.Find.{report_for-name}

append_status-name :
    (r : DeploymentStatusesReport) (status : DeploymentStatus)
    → (append_status r status).deployment_name ≡ r.deployment_name
unfolding append_status
append_status-name r status = refl

-- A report with a newest status.
abbrev pub HasStatus : DeploymentStatusesReport → Type 0
HasStatus r = (l : DeploymentStatus) × (last_status r ≡ some l)

pub append_status-HasStatus :
    (r : DeploymentStatusesReport) (status : DeploymentStatus) → HasStatus (append_status r status)
append_status-HasStatus r status = let (l, e, _) = append_status-IsNewest r status in (l, e)

module _ {W C : Type 0} (cluster : Cluster W) (backend : Backend W C) where
  module _ (d : String) (old : List DeploymentStatusesReport) (c : C) (w : W) where
    abbrev pub answer : Result DeploymentStatus × C × W
    answer = backend.get_status d c w

    abbrev pub polled : DeploymentStatus → DeploymentStatus
    polled s = record s { start = (cluster.now answer.2).0 }

    pub fetch_one-err :
        (error : Option Error) (e : Error)
        → answer.0 ≡ err e
        → fetch_one cluster backend d old error c w
          ≡ (report_for d old, old, or_error error e, answer.1, answer.2)
    unfolding fetch_one
    fetch_one-err error e f = rw (f, fetch_one)

    pub fetch_one-ok :
        (error : Option Error) (s : DeploymentStatus)
        → answer.0 ≡ ok s
        → fetch_one cluster backend d old error c w ≡ (
          append_status (report_for d old) (polled s),
          write_through d (polled s) old,
          error,
          answer.1,
          (cluster.now answer.2).1,
        )
    unfolding fetch_one
    fetch_one-ok error s f = rw (f, fetch_one)

    pub fetch_one-name :
        (error : Option Error) → (fetch_one cluster backend d old error c w).0.deployment_name ≡ d
    fetch_one-name error = elim (Result-cases answer.0) [
      | inl (s, f) ↦
          rw (fetch_one-ok error s f)
            (append_status-name (report_for d old) (polled s) ∙ report_for-name d old)
      | inr (e, f) ↦ rw (fetch_one-err error e f) (report_for-name d old)
    ]

  fetch_all-name :
      (ds : List String) (old : List DeploymentStatusesReport) (error : Option Error) (c : C)
      (w : W)
      → map (λ r. r.deployment_name) (fetch_all cluster backend ds old error c w).reports ≡ ds
  unfolding fetch_all
  fetch_all-name [] old error c w = refl
  fetch_all-name (d ∷ rest) old error c w =
      let (_, old', error', c', w') = fetch_one cluster backend d old error c w in
      λ i. fetch_one-name d old c w error i ∷ fetch_all-name rest old' error' c' w' i

  -- An error is kept to the end of the loop.
  fetch_one-some :
      (d : String) (old : List DeploymentStatusesReport) (e : Error) (c : C) (w : W)
      → (fetch_one cluster backend d old (some e) c w).2 ≡ some e
  fetch_one-some d old e c w = elim (Result-cases (answer d old c w).0) [
    | inl (s, f) ↦ rw (fetch_one-ok d old c w (some e) s f) refl
    | inr (x, f) ↦ rw (fetch_one-err d old c w (some e) x f) refl
  ]

  fetch_all-some :
      (ds : List String) (old : List DeploymentStatusesReport) (e : Error) (c : C) (w : W)
      (error : Option Error)
      → error ≡ some e
      → (fetch_all cluster backend ds old error c w).error ≡ some e
  unfolding fetch_all
  fetch_all-some [] old e c w error f = f
  fetch_all-some (d ∷ rest) old e c w error f =
      let (_, old', error', c', w') = fetch_one cluster backend d old error c w in
      fetch_all-some rest old' e c' w' error'
        (ap (λ x. (fetch_one cluster backend d old x c w).2) f ∙ fetch_one-some d old e c w)

  abbrev pub after :
      List String
      → DeploymentStatusesReport × List DeploymentStatusesReport × Option Error × C × W
      → Option Error
  after rest x = (fetch_all cluster backend rest x.1 x.2 x.3 x.4).error

  or_error-some : (error : Option Error) (x : Error) → (y : Error) × (or_error error x ≡ some y)
  or_error-some none x = (x, refl)
  or_error-some (some y) x = (y, refl)

  -- Where no error is left, the first call of `GetStatus` returned a status.
  pub fetch_one-answer :
      (d : String) (rest : List String) (old : List DeploymentStatusesReport) (error : Option Error)
      (c : C) (w : W)
      → after rest (fetch_one cluster backend d old error c w) ≡ none
      → (s : DeploymentStatus) × ((answer d old c w).0 ≡ ok s)
  fetch_one-answer d rest old error c w e = elim (Result-cases (answer d old c w).0) [
    | inl found ↦ found
    | inr (x, f) ↦
        let (y, g) = or_error-some error x in
        absurd (
          none-ne-some (
            sym e
            ∙ ap (after rest) (fetch_one-err d old c w error x f)
            ∙ fetch_all-some rest old y (answer d old c w).1 (answer d old c w).2 (or_error error x)
                g))
  ]

  fetch_one-HasStatus :
      (d : String) (rest : List String) (old : List DeploymentStatusesReport) (error : Option Error)
      (c : C) (w : W)
      → after rest (fetch_one cluster backend d old error c w) ≡ none
      → HasStatus (fetch_one cluster backend d old error c w).0
  fetch_one-HasStatus d rest old error c w e =
      let (s, f) = fetch_one-answer d rest old error c w e in
      rw (fetch_one-ok d old c w error s f)
        (append_status-HasStatus (report_for d old) (polled d old c w s))

  fetch_all-HasStatus :
      (ds : List String) (old : List DeploymentStatusesReport) (error : Option Error) (c : C)
      (w : W)
      → (fetch_all cluster backend ds old error c w).error ≡ none
      → All HasStatus (fetch_all cluster backend ds old error c w).reports
  unfolding fetch_all
  fetch_all-HasStatus [] old error c w e = tt
  fetch_all-HasStatus (d ∷ rest) old error c w e =
      let (_, old', error', c', w') = fetch_one cluster backend d old error c w in
      (fetch_one-HasStatus d rest old error c w e, fetch_all-HasStatus rest old' error' c' w' e)

  -- If every call of `GetStatus` succeeds, the reports are those of the deployments asked for, in
  -- their order, and each has a newest status.
  pub fetch_all-none :
      (ds : List String) (old : List DeploymentStatusesReport) (c : C) (w : W)
      → (fetch_all cluster backend ds old none c w).error ≡ none
      → (map (λ r. r.deployment_name) (fetch_all cluster backend ds old none c w).reports ≡ ds)
        × All HasStatus (fetch_all cluster backend ds old none c w).reports
  fetch_all-none ds old c w e =
      (fetch_all-name ds old none c w, fetch_all-HasStatus ds old none c w e)
