-- ===== src/Api/Report/History/Kind.antt =====
-- The newest status behind `AppendStatus` has the version and the state of the one appended, whatever
-- was there before.
use propagation_controller.Base.{
  ◌≡◌, refl, ap, ◌∙◌, ◌&&◌, some, List, [], ◌∷◌, arith, inl, inr, ◌==◌, Bool-cases, eq_iff,
}
use propagation_controller.Api.{DeploymentStatus, DeploymentStatusesReport, pending, healthy}
use propagation_controller.Api.Report.{last_status, append_status, repeats, refine}
use propagation_controller.Api.Report.History.Newest.{
  record_newest, drop_newest, newest_first, newest_first-append_status,
}
use propagation_controller.Api.Report.History.Invariants.{newest, last_status-newest}

-- The status has the version and the state of the other.
abbrev pub SameKind : DeploymentStatus → DeploymentStatus → Type 0
SameKind s l = (l.version ≡ s.version) × (l.state ≡ s.state)

abbrev NewestKind : DeploymentStatus → List DeploymentStatus → Type 0
NewestKind s h = (l : DeploymentStatus) × (newest h ≡ some l) × SameKind s l

drop_newest-NewestKind :
    (status s : DeploymentStatus) (rest : List DeploymentStatus)
    → SameKind status s
    → NewestKind status (drop_newest status (s ∷ rest))
unfolding drop_newest repeats
drop_newest-NewestKind status s [] same = (s, refl, same)
drop_newest-NewestKind status s (t ∷ rest) same = elim (Bool-cases (repeats (some t) status)) [
  | inl e ↦ (
    t,
    rw e refl,
    (
      ground (arith, e, eq_iff t.version status.version),
      ground (arith, e, eq_iff t.state status.state),
    ),
  )
  | inr e ↦ (s, rw e refl, same)
]

record_newest-NewestKind :
    (status : DeploymentStatus) (h : List DeploymentStatus)
    → NewestKind status (record_newest status h)
unfolding record_newest refine
record_newest-NewestKind status [] = (status, refl, (refl, refl))
record_newest-NewestKind status (last ∷ rest) =
    elim (Bool-cases (last.version == status.version && last.state == pending)) [
      | inl e ↦ rw e (
          drop_newest-NewestKind status (refine last status) rest (
            ground (arith, e, eq_iff last.version status.version),
            ground (arith, e, eq_iff status.state healthy),
          ))
      | inr e ↦ rw e (drop_newest-NewestKind status status (last ∷ rest) (refl, refl))
    ]

-- The newest status of the report has the version and the state of the status.
abbrev pub IsNewest : DeploymentStatus → DeploymentStatusesReport → Type 0
IsNewest s r = (l : DeploymentStatus) × (last_status r ≡ some l) × SameKind s l

pub append_status-IsNewest :
    (r : DeploymentStatusesReport) (s : DeploymentStatus) → IsNewest s (append_status r s)
append_status-IsNewest r s =
    let (l, e, same) = record_newest-NewestKind s (newest_first r) in
    (
      l,
      last_status-newest (append_status r s) ∙ ap newest (newest_first-append_status r s) ∙ e,
      same,
    )
