-- ===== src/Api/Report/History/Invariants.antt =====
-- What `AppendStatus` keeps of a report's history, and what the newest status says after it.
use mathlib.Core.List.{reverse, reverse-cons, reverse-reverse}
use propagation_controller.Base.{
  ◌≡◌, refl, ◌≢◌, sym, ap, ◌∙◌, ◌≤ℤ◌, Option, none, some, List, [], ◌∷◌, arith, eq_iff,
}
use propagation_controller.Api.{DeploymentStatus, DeploymentStatusesReport, healthy, pending}
use propagation_controller.Api.Report.{last_status, refine, repeats, append_status}
use propagation_controller.Api.Report.History.Newest.{
  last_status-nil, last_status-append, record_newest, newest_first, newest_first-append_status,
}

-- `t` was recorded right before `s`: they differ, a pending status is followed by one of another
-- version only, and time does not go back.
pub record Follows (t s : DeploymentStatus) : Type 0 where
  pub changed : t.version ≡ s.version → t.state ≢ s.state
  pub settled : t.version ≡ s.version → t.state ≢ pending
  pub ordered : t.start ≤ℤ s.start

-- A history with the newest status first.
abbrev pub IsHistory : List DeploymentStatus → Type 0
IsHistory [] = Unit
IsHistory (s ∷ []) = Unit
IsHistory (s ∷ t ∷ rest) = Follows t s × IsHistory (t ∷ rest)

-- The status starts no earlier than the newest one.
abbrev pub StartsAfter : List DeploymentStatus → DeploymentStatus → Type 0
StartsAfter [] status = Unit
StartsAfter (l ∷ rest) status = l.start ≤ℤ status.start

record_newest-IsHistory :
    (status : DeploymentStatus) (h : List DeploymentStatus)
    → IsHistory h
    → StartsAfter h status
    → IsHistory (record_newest status h)
unfolding record_newest refine repeats
record_newest-IsHistory status [] v a = tt
record_newest-IsHistory status (l ∷ []) v a = ground (
  arith,
  eq_iff l.version status.version,
  eq_iff l.state status.state,
  eq_iff l.state pending,
  eq_iff status.state healthy,
)
record_newest-IsHistory status (l ∷ k ∷ rest) v a = ground (
  arith,
  eq_iff l.version status.version,
  eq_iff l.state status.state,
  eq_iff l.state pending,
  eq_iff status.state healthy,
  eq_iff k.version status.version,
  eq_iff k.state status.state,
)

abbrev pub newest : List DeploymentStatus → Option DeploymentStatus
newest [] = none
newest (s ∷ _) = some s

-- The status is there, has the version and the state of `status`, and starts no later.
abbrev pub Reports : DeploymentStatus → Option DeploymentStatus → Type 0
Reports status none = ⊥
Reports status (some l) =
    (l.version ≡ status.version) × (l.state ≡ status.state) × (l.start ≤ℤ status.start)

newest-record_newest :
    (status : DeploymentStatus) (h : List DeploymentStatus)
    → IsHistory h
    → StartsAfter h status
    → Reports status (newest (record_newest status h))
unfolding record_newest refine repeats
newest-record_newest status [] v a = (refl, refl, omega arith)
newest-record_newest status (l ∷ []) v a = ground (
  arith,
  eq_iff l.version status.version,
  eq_iff l.state status.state,
  eq_iff l.state pending,
  eq_iff status.state healthy,
)
newest-record_newest status (l ∷ k ∷ rest) v a = ground (
  arith,
  eq_iff l.version status.version,
  eq_iff l.state status.state,
  eq_iff l.state pending,
  eq_iff status.state healthy,
  eq_iff k.version status.version,
  eq_iff k.state status.state,
)

record_newest_again :
    (status l : DeploymentStatus) (rest : List DeploymentStatus)
    → IsHistory (l ∷ rest)
    → l.version ≡ status.version
    → l.state ≡ status.state
    → record_newest status (l ∷ rest) ≡ l ∷ rest
unfolding record_newest refine repeats
record_newest_again status l [] v same_version same_state = ground (
  arith,
  eq_iff l.version status.version,
  eq_iff l.state status.state,
  eq_iff l.state pending,
  eq_iff status.state healthy,
  eq_iff pending healthy,
)
record_newest_again status l (k ∷ rest) v same_version same_state = ground (
  arith,
  eq_iff l.version status.version,
  eq_iff l.state status.state,
  eq_iff l.state pending,
  eq_iff status.state healthy,
  eq_iff pending healthy,
  eq_iff k.version status.version,
  eq_iff k.state status.state,
)

same_report :
    (r r' : DeploymentStatusesReport)
    → r.deployment_name ≡ r'.deployment_name
    → newest_first r ≡ newest_first r'
    → r ≡ r'
same_report r r' named same =
    let statuses : r.statuses ≡ r'.statuses =
      sym (reverse-reverse r.statuses) ∙ ap reverse same ∙ reverse-reverse r'.statuses in
    λ i. record { deployment_name = named i; statuses = statuses i }

-- `LastStatus` gives the newest status, and nil for an empty report.
pub last_status-newest : (r : DeploymentStatusesReport) → last_status r ≡ newest (newest_first r)
last_status-newest r = by_newest (newest_first r) (sym (reverse-reverse r.statuses))
  where
    by_newest : (h : List DeploymentStatus) → r.statuses ≡ reverse h → last_status r ≡ newest h
    by_newest [] e = last_status-nil r e
    by_newest (l ∷ rest) e = last_status-append r (reverse rest) l (e ∙ reverse-cons l rest)

-- Whatever was recorded before, the newest status has the version and the state of the one that
-- was appended, and starts no later, provided that no earlier status starts after it.
append_status-last :
    (r : DeploymentStatusesReport) (status : DeploymentStatus)
    → IsHistory (newest_first r)
    → StartsAfter (newest_first r) status
    → Reports status (last_status (append_status r status))
append_status-last r status v a =
    rw (last_status-newest (append_status r status), newest_first-append_status r status)
      (newest-record_newest status (newest_first r) v a)

-- A status that is polled again with the version and the state of the newest one changes nothing,
-- so the time since which these hold is kept.
append_status_again :
    (r : DeploymentStatusesReport) (status l : DeploymentStatus)
    → IsHistory (newest_first r)
    → last_status r ≡ some l
    → l.version ≡ status.version
    → l.state ≡ status.state
    → append_status r status ≡ r
append_status_again r status l v e same_version same_state =
    same_report (append_status r status) r (unfold append_status in refl) (
      newest_first-append_status r status
      ∙ unchanged (newest_first r) v (sym (last_status-newest r) ∙ e))
  where
    unchanged :
        (h : List DeploymentStatus) → IsHistory h → newest h ≡ some l → record_newest status h ≡ h
    unchanged [] v e = cc
    unchanged (s ∷ rest) v e = record_newest_again status s rest v (ground arith) (ground arith)

-- Appending keeps a history a history, if the new status starts no earlier than the newest one.
pub append_status-IsHistory :
    (r : DeploymentStatusesReport) (status : DeploymentStatus)
    → IsHistory (newest_first r)
    → StartsAfter (newest_first r) status
    → IsHistory (newest_first (append_status r status))
append_status-IsHistory r status v a =
    rw (newest_first-append_status r status) (record_newest-IsHistory status (newest_first r) v a)
