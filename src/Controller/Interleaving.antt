-- ===== src/Controller/Interleaving.antt =====
-- The part of `Reconcile` that fetches the statuses, with its goroutines in any order. A goroutine
-- calls `GetStatus` in one step, and reads the clock and appends the status in another. Between them
-- the loop may start further goroutines and these may go on. `Controller.Fetch` is the order in which
-- each goroutine ends before the next one starts.
pub mod Slots
pub mod Invariant
pub mod Result
pub mod History
pub mod Panic
use propagation_controller.Base.{
  ℕ, zero, suc, String, Option, none, List, [], ◌∷◌, ◌++◌, map, ok, err, Error,
}
use propagation_controller.Api.{DeploymentStatus, DeploymentStatusesReport}
use propagation_controller.Api.Report.{append_status}
use propagation_controller.Controller.{Cluster, Backend}
use propagation_controller.Controller.Fetch.{report_for, write_through, or_error}

-- What a goroutine does next.
pub data Phase : Type 0 where
  waiting : Phase
  answered : DeploymentStatus → Phase
  finished : Phase
  failed : Phase

-- `reports[i]` with the goroutine that was started for it
pub record Slot : Type 0 where
  pub deployment : String
  pub report : DeploymentStatusesReport
  pub phase : Phase

-- What the goroutines and the loop share: the object's own reports, the first error of the group, the
-- client and the world.
pub record Shared (W C : Type 0) : Type 0 where
  pub old : List DeploymentStatusesReport
  pub error : Option Error
  pub client : C
  pub world : W

-- `todo` has the deployments that the loop has not come to.
pub record Pool (W C : Type 0) : Type 0 where
  pub todo : List String
  pub slots : List Slot
  pub shared : Shared W C

-- One turn of the loop, or a step of the goroutine with that index.
pub data Move : Type 0 where
  launch : Move
  resume : ℕ → Move

module _ {W C : Type 0} (cluster : Cluster W) (backend : Backend W C) where
  -- A step of the function that is given to `getStatusErrors.Go`, from each phase.
  unfoldable pub advance_from : Phase → Slot → Shared W C → Slot × Shared W C
  advance_from waiting x s =
      let (r, c, w) = backend.get_status x.deployment s.client s.world in
      elim r [
        | err e ↦ (
          record x { phase = failed },
          record { old = s.old; error = or_error s.error e; client = c; world = w },
        )
        | ok status ↦ (record x { phase = answered status }, record s { client = c; world = w })
      ]
  advance_from (answered fetched) x s =
      let (t, w) = cluster.now s.world in
      let status = record fetched { start = t } in
      (
        record x { report = append_status x.report status; phase = finished },
        record s { old = write_through x.deployment status s.old; world = w },
      )
  advance_from finished x s = (x, s)
  advance_from failed x s = (x, s)

  unfoldable pub advance : Slot → Shared W C → Slot × Shared W C
  unfolding advance_from
  advance x s = advance_from x.phase x s

  unfoldable pub advance_at : ℕ → List Slot → Shared W C → List Slot × Shared W C
  advance_at i [] s = ([], s)
  advance_at zero (x ∷ xs) s = let (y, s') = advance x s in (y ∷ xs, s')
  advance_at (suc i) (x ∷ xs) s = let (ys, s') = advance_at i xs s in (x ∷ ys, s')

  -- A turn of the loop.
  unfoldable pub launch_next : List String → List Slot → Shared W C → Pool W C
  launch_next [] xs s = record { todo = []; slots = xs; shared = s }
  launch_next (d ∷ rest) xs s = record {
    todo = rest;
    slots = xs ++ record { deployment = d; report = report_for d s.old; phase = waiting } ∷ [];
    shared = s;
  }

  unfoldable pub step : Move → Pool W C → Pool W C
  unfolding launch_next advance_at advance
  step launch p = launch_next p.todo p.slots p.shared
  step (resume i) p =
      let (xs, s) = advance_at i p.slots p.shared in record p { slots = xs; shared = s }

  unfoldable pub run : List Move → Pool W C → Pool W C
  unfolding step
  run [] p = p
  run (m ∷ moves) p = run moves (step m p)

-- A goroutine that has returned.
abbrev pub HasReturned : Phase → Type 0
HasReturned waiting = ⊥
HasReturned (answered _) = ⊥
HasReturned finished = Unit
HasReturned failed = Unit

module _ {W C : Type 0} where
  abbrev pub start_pool : List String → List DeploymentStatusesReport → C → W → Pool W C
  start_pool ds old c w = record {
    todo = ds;
    slots = [];
    shared = record { old = old; error = none; client = c; world = w };
  }

  abbrev pub reports_of : Pool W C → List DeploymentStatusesReport
  reports_of p = map (λ x. x.report) p.slots
