-- ===== src/Tests/Manager.antt =====
-- The manager with a runtime that counts its calls.
use propagation_controller.Base.{
  ℕ, ◌+◌, ◌≡◌, refl, sym, ap, ok_injective, List, [], ◌∷◌, Result, ok, err, if◌then◌else◌,
}
use propagation_controller.Manager.{
  GroupVersionKind, same_kind, is_registered, ControllerRuntime, Exit, default_flags, main,
}
use propagation_controller.Manager.Start.{IsRuntime, IsEarly, main-IsEarly}

-- `ConfigMap` of the Kubernetes client.
abbrev client_go_kinds : List GroupVersionKind
client_go_kinds = record { group = ""; version = "v1"; kind = "ConfigMap" } ∷ []

-- A manager is its scheme.
abbrev runtime : ControllerRuntime ℕ (List GroupVersionKind)
runtime = record {
  new_manager = λ options w. (ok options.scheme, w + 1);
  complete = λ kind name mgr w. (if is_registered kind mgr then ok tt else err "no kind", w + 1);
  add_healthz_check = λ name mgr w. (ok tt, w + 1);
  add_readyz_check = λ name mgr w. (ok tt, w + 1);
  start = λ mgr w. (ok tt, w + 1);
}

runtime-IsRuntime : IsRuntime runtime (λ mgr. mgr)
runtime-IsRuntime = record {
  has_scheme = λ options w mgr e. sym (ok_injective e);
  unregistered = λ kind name mgr w e. ("no kind", ap (λ b. if b then ok tt else err "no kind") e);
}

abbrev ended : Exit
ended = (main runtime client_go_kinds default_flags 0).0

-- The second controller is the one that fails.
third_call : (main runtime client_go_kinds default_flags 0).1 ≡ 3
unfolding main is_registered same_kind
third_call = refl

main-IsEarly_example :
    IsEarly ended
    × ((start : List GroupVersionKind → ℕ → Result (Unit {0}) × ℕ)
        → main runtime client_go_kinds default_flags 0
          ≡ main (record runtime { start = start }) client_go_kinds default_flags 0)
main-IsEarly_example =
    main-IsEarly runtime (λ mgr. mgr) runtime-IsRuntime client_go_kinds
      (unfold is_registered same_kind in refl) default_flags 0
