-- ===== src/Manager/Start.antt =====
-- Whether the manager is started.
use propagation_controller.Base.{
  ◌≡◌, refl, ap, ◌∙◌, String, false, Option, none, some, List, [], ◌∷◌, Result, ok, err, Error, inl,
  inr, Result-cases, arith, ◌⊎◌, sym,
}
use propagation_controller.Manager.{
  GroupVersionKind, ManagerOptions, same_kind, is_registered, promotion_kuberik, kuberik,
  ControllerRuntime, Flags, Exit, exited, or_exit, manager_scheme, manager_options, main,
}

-- The two messages with which the program can end before the manager is started.
abbrev pub IsEarly : Exit → Type 0
IsEarly x = (x ≡ exited "unable to start manager") ⊎ (x ≡ exited "unable to create controller")

-- What controller-runtime documents: a manager has the scheme of its options, and a controller for a
-- kind that is not registered there cannot be completed.
pub record IsRuntime {W Manager : Type 0} (runtime : ControllerRuntime W Manager)
    (scheme_of : Manager → List GroupVersionKind) : Type 0 where
  pub has_scheme :
      (options : ManagerOptions) (w : W) (mgr : Manager)
      → (runtime.new_manager options w).0 ≡ ok mgr
      → scheme_of mgr ≡ options.scheme
  pub unregistered :
      (kind : GroupVersionKind) (name : Option String) (mgr : Manager) (w : W)
      → is_registered kind (scheme_of mgr) ≡ false
      → (e : Error) × ((runtime.complete kind name mgr w).0 ≡ err e)

-- The kind of the promotion controller is not among those of api/v1alpha1.
not-registered :
    (kinds : List GroupVersionKind)
    → is_registered (promotion_kuberik "ReleasePromotion") kinds ≡ false
    → is_registered (promotion_kuberik "ReleasePromotion") (manager_scheme kinds) ≡ false
unfolding manager_scheme is_registered same_kind
not-registered [] e = refl
not-registered (k ∷ kinds) e = ground (arith, not-registered kinds)

module _ {W Manager : Type 0} (runtime : ControllerRuntime W Manager)
    (client_go_kinds : List GroupVersionKind) (flags : Flags) (w : W) where
  abbrev created : Result Manager × W
  created = runtime.new_manager (manager_options client_go_kinds flags) w

  abbrev pub ended : Exit × W
  ended = main runtime client_go_kinds flags w

  no_manager :
      (e : Error) → created.0 ≡ err e → ended ≡ (exited "unable to start manager", created.1)
  unfolding main
  no_manager e f = rw (f, main, or_exit)

  module _ (mgr : Manager) (made : created.0 ≡ ok mgr) where
    abbrev first : Result (Unit {0}) × W
    first = runtime.complete (kuberik "Propagation") none mgr created.1

    no_propagation :
        (e : Error) → first.0 ≡ err e → ended ≡ (exited "unable to create controller", first.1)
    unfolding main
    no_propagation e f = rw (made, f, main, or_exit)

    abbrev second : Result (Unit {0}) × W
    second =
        runtime.complete (promotion_kuberik "ReleasePromotion") (some "promotion-releasepromotion")
          mgr first.1

    no_promotion :
        (e : Error)
        → first.0 ≡ ok tt
        → second.0 ≡ err e
        → ended ≡ (exited "unable to create controller", second.1)
    unfolding main
    no_promotion e f g = rw (made, f, g, main, or_exit)

module _ {W Manager : Type 0} (runtime : ControllerRuntime W Manager)
    (scheme_of : Manager → List GroupVersionKind) (law : IsRuntime runtime scheme_of)
    (client_go_kinds : List GroupVersionKind)
    (foreign : is_registered (promotion_kuberik "ReleasePromotion") client_go_kinds ≡ false)
    (flags : Flags) (w : W) where
  refused :
      (mgr : Manager) (w' : W)
      → (runtime.new_manager (manager_options client_go_kinds flags) w).0 ≡ ok mgr
      → (e : Error) × ((runtime.complete
            (promotion_kuberik "ReleasePromotion")
            (some "promotion-releasepromotion")
            mgr
            w').0
          ≡ err e)
  unfolding manager_options
  refused mgr w' made = law.unregistered _ _ mgr w' (
      ap (is_registered (promotion_kuberik "ReleasePromotion"))
        (law.has_scheme (manager_options client_go_kinds flags) w mgr made)
      ∙ not-registered client_go_kinds foreign)

  -- Unless the scheme of the Kubernetes client has the kind `ReleasePromotion` of this program, which
  -- `init` does not add to it, the program exits with status 1 before the manager is started: it
  -- cannot create the manager, or it cannot create a controller. It ends in the same state whatever
  -- starting the manager would do.
  pub main-IsEarly :
      IsEarly (main runtime client_go_kinds flags w).0
      × ((start : Manager → W → Result (Unit {0}) × W)
          → main runtime client_go_kinds flags w
            ≡ main (record runtime { start = start }) client_go_kinds flags w)
  main-IsEarly =
      elim (Result-cases (runtime.new_manager (manager_options client_go_kinds flags) w).0) [
        | inr (e, f) ↦ (
          inl (ap (λ x. x.0) (no_manager runtime client_go_kinds flags w e f)),
          λ start.
              no_manager runtime client_go_kinds flags w e f
              ∙ sym (no_manager (record runtime { start = start }) client_go_kinds flags w e f),
        )
        | inl (mgr, made) ↦ elim (Result-cases (first runtime client_go_kinds flags w mgr made).0) [
          | inr (e, f) ↦ (
            inr (ap (λ x. x.0) (no_propagation runtime client_go_kinds flags w mgr made e f)),
            λ start.
                no_propagation runtime client_go_kinds flags w mgr made e f
                ∙ sym (
                    no_propagation (record runtime { start = start }) client_go_kinds flags w mgr
                      made e f),
          )
          | inl (tt', f) ↦
              let (e, g) = refused mgr (first runtime client_go_kinds flags w mgr made).1 made in
              (
                inr (ap (λ x. x.0) (no_promotion runtime client_go_kinds flags w mgr made e f g)),
                λ start.
                    no_promotion runtime client_go_kinds flags w mgr made e f g
                    ∙ sym (
                        no_promotion (record runtime { start = start }) client_go_kinds flags w mgr
                          made e f g),
              )
        ]
      ]
