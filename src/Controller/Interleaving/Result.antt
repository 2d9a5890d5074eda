-- ===== src/Controller/Interleaving/Result.antt =====
-- What the goroutines have made when the loop is over and all of them have returned.
use mathlib.Core.Path.{subst}
use propagation_controller.Base.{
  none-ne-some, ◌≡◌, refl, sym, ap, ◌∙◌, String, Option, none, some, List, [], ◌∷◌, ◌++◌, map, All,
  Error,
}
use mathlib.Core.List.{append-nil}
use propagation_controller.Api.{DeploymentStatusesReport}
use propagation_controller.Controller.{Cluster, Backend}
use propagation_controller.Controller.Interleaving.{
  Phase, waiting, answered, finished, failed, Slot, Move, run, start_pool, HasReturned, reports_of,
}
use propagation_controller.Controller.Interleaving.Slots.{
  IsFetched, IsFailure, HasFailure, IsAt, IsSlot,
}
use propagation_controller.Controller.Interleaving.Invariant.{
  Distinct, run-IsPool, start_pool-IsPool,
}

module _ {W C : Type 0} (cluster : Cluster W) (backend : Backend W C)
    (old : List DeploymentStatusesReport) where
  -- The reports are those of the deployments, in their order, each with the status that was fetched.
  abbrev pub AreFetched : List String → List DeploymentStatusesReport → Type 0
  AreFetched [] [] = Unit
  AreFetched [] (r ∷ rs) = ⊥
  AreFetched (d ∷ ds) [] = ⊥
  AreFetched (d ∷ ds) (r ∷ rs) = IsFetched cluster backend old d r × AreFetched ds rs

  -- Without an error all statuses were fetched; an error is one of `GetStatus`.
  abbrev pub IsResult : List String → List DeploymentStatusesReport → Option Error → Type 0
  IsResult ds rs none = AreFetched ds rs
  IsResult ds rs (some e) = IsFailure cluster backend old e

  IsAt-finished :
      (p : Phase) (d : String) (r : DeploymentStatusesReport) (error : Option Error)
      → error ≡ none
      → HasReturned p
      → IsAt cluster backend old error p d r
      → IsFetched cluster backend old d r
  IsAt-finished waiting d r error e h v = absurd h
  IsAt-finished (answered status) d r error e h v = absurd h
  IsAt-finished finished d r error e h v = v
  IsAt-finished failed d r error e h (y, f) = absurd (none-ne-some (sym e ∙ f))

  slots-AreFetched :
      (xs : List Slot) (error : Option Error)
      → error ≡ none
      → All (IsSlot cluster backend old error) xs
      → All (λ x. HasReturned x.phase) xs
      → AreFetched (map (λ x. x.deployment) xs) (map (λ x. x.report) xs)
  slots-AreFetched [] error e v h = tt
  slots-AreFetched (x ∷ xs) error e (v, vs) (h, hs) =
      (IsAt-finished x.phase x.deployment x.report error e h v, slots-AreFetched xs error e vs hs)

  by_error :
      (ds : List String) (rs : List DeploymentStatusesReport) (error : Option Error)
      → (error ≡ none → AreFetched ds rs)
      → ((e : Error) → error ≡ some e → IsFailure cluster backend old e)
      → IsResult ds rs error
  by_error ds rs none f g = f refl
  by_error ds rs (some e) f g = g e refl

  -- The statuses of deployments with different names are fetched. In whatever order the goroutines go
  -- on, when all have been started and have returned, the result is the same in kind. Without an
  -- error the reports are those of the deployments in their order; each is the object's own report of
  -- before the round with one status appended that `GetStatus` returned for that deployment. An error
  -- is one that `GetStatus` returned.
  pub run-IsResult :
      (ds : List String) (c : C) (w : W) (moves : List Move)
      → Distinct ds
      → let p = run cluster backend moves (start_pool ds old c w) in
        p.todo ≡ []
        → All (λ x. HasReturned x.phase) p.slots
        → IsResult ds (reports_of p) p.shared.error
  run-IsResult ds c w moves distinct over returned =
      let p = run cluster backend moves (start_pool ds old c w) in
      let v =
        run-IsPool cluster backend old ds moves (start_pool ds old c w)
          (start_pool-IsPool cluster backend old ds c w distinct) in
      let names : map (λ x. x.deployment) p.slots ≡ ds =
        sym (append-nil (map (λ x. x.deployment) p.slots))
        ∙ ap (λ t. map (λ x. x.deployment) p.slots ++ t) (sym over)
        ∙ v.names in
      by_error ds (reports_of p) p.shared.error
        (λ e.
          subst (λ ds. AreFetched ds (reports_of p)) names
            (slots-AreFetched p.slots p.shared.error e v.are_slots returned))
        (λ e f. subst (HasFailure cluster backend old) f v.failure)
