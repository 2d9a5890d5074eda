-- ===== src/Tests/Api.antt =====
-- The reports and the choice of a version, for a deployment behind `staging`.
use propagation_controller.Base.{
  ℕ, ◌+◌, ◌≡◌, refl, ℤ, pos, ◌≤ℤ◌, sub_time, String, true, [], ◌∷◌, All, some, contains, arith,
  eq_iff,
}
use propagation_controller.Api.{
  DeploymentStatus, DeploymentStatusesReport, DeployConditions, Propagation, healthy, pending,
  unhealthy,
}
use propagation_controller.Api.Report.{healthy_until, version_healthy_duration, append_status}
use propagation_controller.Api.Report.History.Newest.{
  record_newest, newest_first, newest_first-append_status,
}
use propagation_controller.Api.Report.History.Invariants.{IsHistory, append_status-IsHistory}
use propagation_controller.Api.Report.Duration.{
  or_now, last_sick, IsHealthyAt, versions_of, version_healthy_duration_lem,
}
use propagation_controller.Api.Next.Newest.{newest_versions}
use propagation_controller.Api.Next.{bakes, first_baked, add_reports, next_version}
use propagation_controller.Api.Next.Choice.{Choice, next_version-Choice, next_version-IsHealthyAt}
use propagation_controller.Api.Next.Candidates.{IsDistinct, is_reported, candidates}

abbrev at : String → ℕ → String → DeploymentStatus
at version start state = record { version = version; start = pos start; state = state }

-- Version v1 healthy from 0, v2 unhealthy from 4, v3 healthy from 8.
abbrev staging : DeploymentStatusesReport
staging = record {
  deployment_name = "staging";
  statuses = at "v1" 0 healthy ∷ at "v2" 4 unhealthy ∷ at "v3" 8 healthy ∷ [];
}

abbrev next_status : DeploymentStatus
next_status = at "v4" 9 pending

abbrev repeated : DeploymentStatus
repeated = at "v3" 12 healthy

abbrev conditions : DeployConditions
conditions = record {
  deploy_after = record { deployments = "staging" ∷ []; bake_time = pos 3 };
  deploy_with = [];
}

abbrev production : Propagation
production = record {
  name = "production";
  namespace = "default";
  generation = pos 1;
  spec = record {
    poll_interval = pos 0;
    backend = record { base_url = "oci://registry/app"; secret_ref = some "" };
    deployment = record {
      name = "production";
      version = record { kind = ""; name = ""; api_version = ""; field_path = "" };
    };
  };
  status = record {
    deployment_status = at "v1" 0 healthy;
    conditions = [];
    deployment_statuses_reports = staging ∷ [];
    deploy_conditions = conditions;
  };
}

-- A clock that goes on by one nanosecond at each reading.
abbrev now : ℕ → ℤ × ℕ
now n = (pos n, n + 1)

now_mono : (n : ℕ) → (now n).0 ≤ℤ (now (now n).1).0
now_mono n = omega arith

-- At 10, v3 has not baked, and v2 is not healthy.
chosen_v1 : (next_version now "latest" production 10).0 ≡ "v1"
unfolding next_version first_baked bakes add_reports version_healthy_duration healthy_until contains
    sub_time
chosen_v1 = refl

staging-IsHistory : IsHistory (newest_first staging)
staging-IsHistory = (
  record {
    changed = λ e. absurd (ground (arith, eq_iff "v2" "v3"));
    settled = λ e. absurd (ground (arith, eq_iff "v2" "v3"));
    ordered = omega arith;
  },
  (
    record {
      changed = λ e. absurd (ground (arith, eq_iff "v1" "v2"));
      settled = λ e. absurd (ground (arith, eq_iff "v1" "v2"));
      ordered = omega arith;
    },
    tt,
  ),
)

next_version-Choice_example :
    Choice conditions.deploy_after
      (staging ∷ [])
      (newest_versions "staging" (staging ∷ []))
      (pos 10)
      (now (next_version now "latest" production 10).1).0
      (next_version now "latest" production 10).0
next_version-Choice_example =
    next_version-Choice now now_mono "latest" production "staging" [] 10 refl

next_version-IsHealthyAt_example :
    All
      (λ r.
        contains ("staging" ∷ []) r.deployment_name ≡ true
        → (contains (versions_of r.statuses) (next_version now "latest" production 10).0 ≡ true)
          × All (IsHealthyAt (next_version now "latest" production 10).0) r.statuses)
      (staging ∷ [])
next_version-IsHealthyAt_example =
    next_version-IsHealthyAt now now_mono "latest" production "staging" [] 10 refl (omega arith)
      (λ e. absurd (ground (arith, chosen_v1, eq_iff "v1" "")))

candidates_example :
    ((v : String)
      → contains (add_reports "staging" [] (staging ∷ [])) v
        ≡ is_reported "staging" (staging ∷ []) v)
    × IsDistinct (add_reports "staging" [] (staging ∷ []))
candidates_example = candidates "staging" (staging ∷ [])

newest_first-append_status_example :
    newest_first (append_status staging next_status)
    ≡ record_newest next_status (newest_first staging)
newest_first-append_status_example = newest_first-append_status staging next_status

append_status-IsHistory_example : IsHistory (newest_first (append_status staging next_status))
append_status-IsHistory_example =
    append_status-IsHistory staging next_status staging-IsHistory (omega arith)

version_healthy_duration_lem_example :
    version_healthy_duration (pos 10) staging "v3"
    ≡ sub_time (or_now (last_sick (at "v3" 8 healthy ∷ [])) (pos 10)) (pos 8)
version_healthy_duration_lem_example =
    version_healthy_duration_lem (pos 10) staging "v3"
      (at "v1" 0 healthy ∷ at "v2" 4 unhealthy ∷ []) (at "v3" 8 healthy) [] refl
      (
        (λ e. absurd (ground (arith, eq_iff "v1" "v3"))),
        ((λ e. absurd (ground (arith, eq_iff "v2" "v3"))), tt),
      )
      refl ((λ _. refl), tt)

two_since_v3 : version_healthy_duration (pos 10) staging "v3" ≡ pos 2
unfolding version_healthy_duration healthy_until sub_time
two_since_v3 = refl
