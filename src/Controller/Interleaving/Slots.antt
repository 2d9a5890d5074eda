-- ===== src/Controller/Interleaving/Slots.antt =====
-- What one step of a goroutine does to its slot and to what is shared.
use mathlib.Core.Path.{subst}
use propagation_controller.Base.{
  All-imp, ◌≡◌, ◌≢◌, refl, sym, ap, ℕ, zero, suc, String, Option, none, some, List, [], ◌∷◌, map,
  All, inl, inr, Result-cases, ok, err, Error,
}
use propagation_controller.Api.{DeploymentStatus, DeploymentStatusesReport}
use propagation_controller.Api.Report.{append_status}
use propagation_controller.Controller.Reports.Find.{report_for-write_through}
use propagation_controller.Controller.{Cluster, Backend}
use propagation_controller.Controller.Fetch.{report_for, or_error}
use propagation_controller.Controller.Interleaving.{
  Phase, waiting, answered, finished, failed, Slot, Shared, advance_from, advance, advance_at,
}

module _ {W C : Type 0} (cluster : Cluster W) (backend : Backend W C)
    (old : List DeploymentStatusesReport) where
  -- `GetStatus` returned the status for the deployment in some state.
  pub record IsAnswer (d : String) (status : DeploymentStatus) : Type 0 where
    pub client : C
    pub world : W
    pub answered : (backend.get_status d client world).0 ≡ ok status

  -- The report is the object's own one of the deployment, with one status appended, which `GetStatus`
  -- returned for the deployment and which starts at a reading of the clock.
  pub record IsFetched (d : String) (r : DeploymentStatusesReport) : Type 0 where
    pub status : DeploymentStatus
    pub is_answer : IsAnswer d status
    pub clock : W
    pub appended :
        r ≡ append_status (report_for d old) (record status { start = (cluster.now clock).0 })

  -- `GetStatus` returned the error for some deployment in some state.
  pub record IsFailure (e : Error) : Type 0 where
    pub deployment : String
    pub client : C
    pub world : W
    pub answered : (backend.get_status deployment client world).0 ≡ err e

  abbrev pub HasFailure : Option Error → Type 0
  HasFailure none = Unit
  HasFailure (some e) = IsFailure e

  abbrev pub IsSome : Option Error → Type 0
  IsSome error = (e : Error) × (error ≡ some e)

  -- What holds of a slot in each phase of its goroutine.
  abbrev pub IsAt : Option Error → Phase → String → DeploymentStatusesReport → Type 0
  IsAt error waiting d r = r ≡ report_for d old
  IsAt error (answered status) d r = (r ≡ report_for d old) × IsAnswer d status
  IsAt error finished d r = IsFetched d r
  IsAt error failed d r = IsSome error

  abbrev pub IsSlot : Option Error → Slot → Type 0
  IsSlot error x = IsAt error x.phase x.deployment x.report

  IsAt-mono :
      (error error' : Option Error) (p : Phase) (d : String) (r : DeploymentStatusesReport)
      → (IsSome error → IsSome error')
      → IsAt error p d r
      → IsAt error' p d r
  IsAt-mono error error' waiting d r f v = v
  IsAt-mono error error' (answered status) d r f v = v
  IsAt-mono error error' finished d r f v = v
  IsAt-mono error error' failed d r f v = f v

  or_error-IsSome : (error : Option Error) (e : Error) → IsSome (or_error error e)
  or_error-IsSome none e = (e, refl)
  or_error-IsSome (some first) e = (first, refl)

  or_error-HasFailure :
      (error : Option Error) (e : Error)
      → HasFailure error
      → IsFailure e
      → HasFailure (or_error error e)
  or_error-HasFailure none e h f = f
  or_error-HasFailure (some first) e h f = h

  -- What a step of one goroutine does to what is shared.
  pub record Moves (ds : List String) (s s' : Shared W C) : Type 0 where
    pub mono : IsSome s.error → IsSome s'.error
    pub failure : HasFailure s.error → HasFailure s'.error
    pub others : (d : String) → All (λ e. e ≢ d) ds → report_for d s'.old ≡ report_for d s.old

  Moves-refl : (ds : List String) (s : Shared W C) → Moves ds s s
  Moves-refl ds s = record { mono = λ e. e; failure = λ f. f; others = λ d apart. refl }

  -- A step of one goroutine.
  pub record Advances (x : Slot) (s : Shared W C) (y : Slot × Shared W C) : Type 0 where
    pub same : y.0.deployment ≡ x.deployment
    pub is_slot : IsSlot y.1.error y.0
    pub moves : Moves (x.deployment ∷ []) s y.1

  advance_from-Advances :
      (p : Phase) (x : Slot) (s : Shared W C)
      → x.phase ≡ p
      → IsAt s.error p x.deployment x.report
      → Advances x s (advance_from cluster backend p x s)
  unfolding advance_from
  advance_from-Advances waiting x s e v =
      elim (Result-cases (backend.get_status x.deployment s.client s.world).0) [
        | inl (status, f) ↦
            rw (f, advance_from)
              (record {
                same = refl;
                is_slot = (v, record { client = s.client; world = s.world; answered = f });
                moves = record { mono = λ e. e; failure = λ h. h; others = λ d apart. refl };
              })
        | inr (e, f) ↦
            rw (f, advance_from)
              (record {
                same = refl;
                is_slot = or_error-IsSome s.error e;
                moves = record {
                  mono = λ _. or_error-IsSome s.error e;
                  failure = λ h. or_error-HasFailure s.error e h (record {
                    deployment = x.deployment;
                    client = s.client;
                    world = s.world;
                    answered = f;
                  });
                  others = λ d apart. refl;
                };
              })
      ]
  advance_from-Advances (answered status) x s e (same, answer) = record {
    same = refl;
    is_slot = record {
      status = status;
      is_answer = answer;
      clock = s.world;
      appended = ap (λ r. append_status r (record status { start = (cluster.now s.world).0 })) same;
    };
    moves = record {
      mono = λ e. e;
      failure = λ h. h;
      others = λ d apart. report_for-write_through x.deployment d _ s.old apart.0;
    };
  }
  advance_from-Advances finished x s e v = record {
    same = refl;
    is_slot = subst (λ p. IsAt s.error p x.deployment x.report) (sym e) v;
    moves = Moves-refl _ _;
  }
  advance_from-Advances failed x s e v = record {
    same = refl;
    is_slot = subst (λ p. IsAt s.error p x.deployment x.report) (sym e) v;
    moves = Moves-refl _ _;
  }

  -- A step of some goroutine.
  pub record AllAdvance (xs : List Slot) (s : Shared W C) (y : List Slot × Shared W C)
      : Type 0 where
    pub same : map (λ x. x.deployment) y.0 ≡ map (λ x. x.deployment) xs
    pub are_slots : All (IsSlot y.1.error) y.0
    pub moves : Moves (map (λ x. x.deployment) xs) s y.1

  pub advance_at-AllAdvance :
      (i : ℕ) (xs : List Slot) (s : Shared W C)
      → All (IsSlot s.error) xs
      → AllAdvance xs s (advance_at cluster backend i xs s)
  unfolding advance_at advance
  advance_at-AllAdvance i [] s v = record { same = refl; are_slots = tt; moves = Moves-refl _ _ }
  advance_at-AllAdvance zero (x ∷ xs) s (v, vs) =
      let a = advance_from-Advances x.phase x s refl v in
      record {
        same = ap (λ d. d ∷ map (λ x. x.deployment) xs) a.same;
        are_slots = (
          a.is_slot,
          All-imp (λ x. IsAt-mono _ _ x.phase x.deployment x.report a.moves.mono) xs vs,
        );
        moves = record {
          mono = a.moves.mono;
          failure = a.moves.failure;
          others = λ d apart. a.moves.others d (apart.0, tt);
        };
      }
  advance_at-AllAdvance (suc i) (x ∷ xs) s (v, vs) =
      let a = advance_at-AllAdvance i xs s vs in
      record {
        same = ap (◌∷◌ x.deployment) a.same;
        are_slots = (IsAt-mono _ _ x.phase x.deployment x.report a.moves.mono v, a.are_slots);
        moves = record {
          mono = a.moves.mono;
          failure = a.moves.failure;
          others = λ d apart. a.moves.others d apart.1;
        };
      }
