-- ===== src/Controller/Interleaving/Invariant.antt =====
-- What holds of the goroutines and of what they share, whatever their order.
use mathlib.Core.Path.{subst}
use propagation_controller.Base.{
  All-append, All-zip, All-imp, ◌≡◌, ◌≢◌, refl, sym, ap, ◌∙◌, String, List, [], ◌∷◌, ◌++◌, map, All,
}
use propagation_controller.Api.{DeploymentStatusesReport}
use propagation_controller.Controller.{Cluster, Backend}
use propagation_controller.Controller.Fetch.{report_for}
use propagation_controller.Controller.Interleaving.{
  waiting, Slot, Shared, Pool, Move, launch, resume, launch_next, step, run, start_pool,
}
use propagation_controller.Controller.Interleaving.Slots.{HasFailure, IsSlot, advance_at-AllAdvance}

-- No string occurs twice.
abbrev pub Distinct : List String → Type 0
Distinct [] = Unit
Distinct (d ∷ rest) = All (λ e. d ≢ e) rest × Distinct rest

module _ {W C : Type 0} (cluster : Cluster W) (backend : Backend W C)
    (old : List DeploymentStatusesReport) where
  abbrev deployments_of : List Slot → List String
  deployments_of xs = map (λ x. x.deployment) xs

  -- What every order of the goroutines keeps, for a round that fetches the statuses of `ds`.
  pub record IsPool (ds : List String) (p : Pool W C) : Type 0 where
    pub names : deployments_of p.slots ++ p.todo ≡ ds
    pub are_slots : All (IsSlot cluster backend old p.shared.error) p.slots
    pub apart : All (λ d. All (λ e. e ≢ d) (deployments_of p.slots)) p.todo
    pub distinct : Distinct p.todo
    pub unread : All (λ d. report_for d p.shared.old ≡ report_for d old) p.todo
    pub failure : HasFailure cluster backend old p.shared.error

  map-append_one :
      (xs : List Slot) (y : Slot) (ds : List String)
      → deployments_of (xs ++ y ∷ []) ++ ds ≡ deployments_of xs ++ y.deployment ∷ ds
  map-append_one [] y ds = refl
  map-append_one (x ∷ xs) y ds = ap (◌∷◌ x.deployment) (map-append_one xs y ds)

  All-append_map :
      (P : String → Type 0) (xs : List Slot) (y : Slot)
      → All P (deployments_of xs)
      → P y.deployment
      → All P (deployments_of (xs ++ y ∷ []))
  All-append_map P [] y v p = (p, tt)
  All-append_map P (x ∷ xs) y (q, v) p = (q, All-append_map P xs y v p)

  launch_next-IsPool :
      (ds todo : List String) (xs : List Slot) (s : Shared W C)
      → IsPool ds (record { todo = todo; slots = xs; shared = s })
      → IsPool ds (launch_next cluster backend todo xs s)
  unfolding launch_next
  launch_next-IsPool ds [] xs s v = v
  launch_next-IsPool ds (d ∷ rest) xs s v =
      let y : Slot = record { deployment = d; report = report_for d s.old; phase = waiting } in
      record {
        names = map-append_one xs y rest ∙ v.names;
        are_slots = All-append (IsSlot cluster backend old s.error) xs y v.are_slots v.unread.0;
        apart =
            All-zip (λ e old_ones new. All-append_map (λ a. a ≢ e) xs y old_ones new) rest v.apart.1
              v.distinct.0;
        distinct = v.distinct.1;
        unread = v.unread.1;
        failure = v.failure;
      }

  step-IsPool :
      (ds : List String) (m : Move) (p : Pool W C)
      → IsPool ds p
      → IsPool ds (step cluster backend m p)
  unfolding step
  step-IsPool ds launch p v = launch_next-IsPool ds p.todo p.slots p.shared v
  step-IsPool ds (resume i) p v =
      let a = advance_at-AllAdvance cluster backend old i p.slots p.shared v.are_slots in
      record {
        names = ap (λ ns. ns ++ p.todo) a.same ∙ v.names;
        are_slots = a.are_slots;
        apart = All-imp (λ d. subst (All (λ e. e ≢ d)) (sym a.same)) p.todo v.apart;
        distinct = v.distinct;
        unread = All-zip (λ d apart same. a.moves.others d apart ∙ same) p.todo v.apart v.unread;
        failure = a.moves.failure v.failure;
      }

  pub run-IsPool :
      (ds : List String) (moves : List Move) (p : Pool W C)
      → IsPool ds p
      → IsPool ds (run cluster backend moves p)
  unfolding run
  run-IsPool ds [] p v = v
  run-IsPool ds (m ∷ moves) p v =
      run-IsPool ds moves (step cluster backend m p) (step-IsPool ds m p v)

  All-trivial : {P : String → Type 0} → ((d : String) → P d) → (ds : List String) → All P ds
  All-trivial f [] = tt
  All-trivial f (d ∷ ds) = (f d, All-trivial f ds)

  pub start_pool-IsPool :
      (ds : List String) (c : C) (w : W) → Distinct ds → IsPool ds (start_pool ds old c w)
  start_pool-IsPool ds c w distinct = record {
    names = refl;
    are_slots = tt;
    apart = All-trivial (λ d. tt) ds;
    distinct = distinct;
    unread = All-trivial (λ d. refl) ds;
    failure = tt;
  }
