-- ===== src/Controller/System/Rounds.antt =====
-- A whole round of the reconciler, as a step of the registry.
use mathlib.Core.Path.{subst}
use propagation_controller.Base.{
  ℤ, ◌≡◌, refl, sym, ap, ◌∙◌, String, Option, Result, ok, err, Error, inl, inr, Result-cases,
}
use propagation_controller.Api.{Propagation}
use propagation_controller.Clients.Registry.{Contents}
use propagation_controller.Clients.{
  ArtifactMetadata, Bytes, PropagationBackendClient, PropagationClient,
}
use propagation_controller.Clients.Clientset.{
  NamespacedName, PropagationClientset, find_client, key_of, propagation,
}
use propagation_controller.Clients.Clientset.Switch.{propagation-ok}
use propagation_controller.Controller.{Cluster, Objects, Outcome}
use propagation_controller.Controller.Reconcile.{
  set_condition, set_ready_condition_false, with_client, reconcile,
}
use propagation_controller.Controller.Round.{KeepsObject}
use propagation_controller.Controller.Round.Whole.{with_client-Effect}
use propagation_controller.Controller.System.{
  System, Handle, system_cluster, system_objects, system_backend, reconcile_system,
}
use propagation_controller.Controller.System.Relation.{
  IsSeparate, IsOwn, IsRound, IsRound-same, IsRound-trans,
}
use propagation_controller.Controller.System.Calls.{Goes, Call, Call-IsEffect}
use propagation_controller.Controller.System.Opening.{
  IsHonest, ReadyClient, IsReadyFor, IsCoherent-again, ReadyClient-world, propagation-world,
  propagation-err, secret_of-keeps,
}

module _ {V A Object Node : Type 0} (default_tag : String) (cluster : Cluster V)
    (objects : Objects V Object Node) (get_secret : NamespacedName → V → Result (Option Bytes) × V)
    (new_backend : String → Option Bytes → Result (PropagationBackendClient V A))
    (content : Contents V A) (separate : IsSeparate content cluster objects get_secret)
    (store_time : ℤ → ℤ) (keeps : KeepsObject store_time cluster)
    (honest : IsHonest content cluster new_backend) where
  abbrev pub round_of : NamespacedName → System V A → Outcome × System V A
  round_of = reconcile_system default_tag get_secret new_backend cluster objects

  pub system_keeps : KeepsObject store_time (system_cluster {A = A} cluster)
  system_keeps = record {
    spec = λ p p' s. keeps.spec p p' s.world;
    conditions = λ p p' s. keeps.conditions p p' s.world;
    reports = λ p p' s. keeps.reports p p' s.world;
  }

  ready_by :
      (p : Propagation) {x : Handle V A × System V A}
      → x.0.key ≡ key_of p
      → IsOwn default_tag new_backend content x
      → IsReadyFor default_tag content p x.1
  ready_by p {x} same own =
      subst (ReadyClient default_tag content x.1.world)
        (sym (ap (λ k. find_client k x.1.clientset.clients) (sym same) ∙ own.stored)) own.coherent

  module _ (key : NamespacedName) (s : System V A) (p : Propagation)
      (found : (cluster.get_propagation key s.world).0 ≡ ok p) where
    abbrev pub opened : Result (PropagationClient V A) × PropagationClientset V A × V
    opened =
        propagation get_secret new_backend p s.clientset (cluster.get_propagation key s.world).1

    -- The state behind the opening.
    abbrev pub open_state : System V A
    open_state = record { clientset = opened.1; world = opened.2 }

    -- Where the round goes on from there: with a client that was opened.
    abbrev pub IsOpened : Handle V A × System V A → Type 0
    IsOpened x =
        (opened.0 ≡ ok x.0.client)
        × (x.1 ≡ open_state)
        × ((n : ArtifactMetadata) → content.held x.1.world n ≡ content.held s.world n)

    pub round_of-err :
        (e : Error)
        → opened.0 ≡ err e
        → round_of key s
          ≡ set_ready_condition_false default_tag
              (system_cluster cluster)
              (system_objects objects)
              (system_backend default_tag get_secret new_backend)
              p
              e
              "BackendInitFailed"
              open_state
    unfolding reconcile_system reconcile
    round_of-err e f = rw (found, f, reconcile)

    pub round_of-ok :
        (c : PropagationClient V A)
        → opened.0 ≡ ok c
        → (round_of key s).1
          ≡ (with_client default_tag
              (system_cluster cluster)
              (system_objects objects)
              (system_backend default_tag get_secret new_backend)
              p
              (record { key = key_of p; client = c })
              open_state).2
    unfolding reconcile_system reconcile
    round_of-ok c f = rw (found, f, reconcile)

    opened-content : (n : ArtifactMetadata) → content.held opened.2 n ≡ content.held s.world n
    opened-content n =
        let w = (cluster.get_propagation key s.world).1 in
        ap (λ w. content.held w n)
          (propagation-world default_tag content get_secret new_backend p s.clientset w)
        ∙ secret_of-keeps default_tag content get_secret new_backend separate.gets_secret p n w
        ∙ separate.gets key n s.world

    abbrev pub failed : Error → System V A
    failed e =
        (set_ready_condition_false default_tag (system_cluster cluster) (system_objects objects)
          (system_backend default_tag get_secret new_backend) p e "BackendInitFailed" open_state).1

    failed-content :
        (e : Error) (n : ArtifactMetadata)
        → content.held (failed e).world n ≡ content.held s.world n
    unfolding set_ready_condition_false set_condition
    failed-content e n =
        separate.updates _ n _ ∙ separate.sets_condition _ _ n opened.2 ∙ opened-content n

    pub failed-clientset : (e : Error) → (failed e).clientset ≡ opened.1
    unfolding set_ready_condition_false set_condition
    failed-clientset e = refl

    module _ (ready : IsReadyFor default_tag content p s) where
      IsOwn-opened :
          (c : PropagationClient V A)
          → opened.0 ≡ ok c
          → IsOwn default_tag new_backend content
              (record { key = key_of p; client = c }, open_state)
      IsOwn-opened c e =
          let w = (cluster.get_propagation key s.world).1 in
          let (secret, _, made, cache, stored) =
            propagation-ok get_secret new_backend p s.clientset w c e in
          record {
            coherent =
                IsCoherent-again default_tag content get_secret new_backend
                  (find_client (key_of p) s.clientset.clients) c s.world opened.2 ready
                  opened-content (honest.registry key s.world p secret c.backend found made) cache;
            stored = stored;
            is_made = (p.spec.backend.base_url, secret, made);
          }

      -- The start with a client that was opened.
      abbrev pub begun : PropagationClient V A → Handle V A × System V A
      begun c = (record { key = key_of p; client = c }, open_state)

      went :
          (c : PropagationClient V A) (e : opened.0 ≡ ok c)
          → let x =
              with_client default_tag
                (system_cluster cluster)
                (system_objects objects)
                (system_backend default_tag get_secret new_backend)
                p
                (begun c).0
                open_state in
            Goes default_tag cluster objects get_secret new_backend content separate IsOpened
              (begun c)
              (e, refl, opened-content)
              (IsOwn-opened c e)
              p.spec
              (begun c)
              (x.1, x.2)
      went c e =
          with_client-Effect default_tag (system_cluster cluster) (system_objects objects)
            (system_backend default_tag get_secret new_backend) store_time system_keeps p.spec
            (begun c)
            (Call default_tag cluster objects get_secret new_backend content separate IsOpened
              (begun c) (e, refl, opened-content) (IsOwn-opened c e) p.spec)
            (Call-IsEffect default_tag cluster objects get_secret new_backend content separate
              IsOpened (begun c) (e, refl, opened-content) (IsOwn-opened c e) p.spec)
            p refl (IsOwn-opened c e)

      ready-failed : (e : Error) → opened.0 ≡ err e → IsReadyFor default_tag content p (failed e)
      ready-failed e f =
          subst
            (λ set.
              ReadyClient default_tag content (failed e).world (find_client (key_of p) set.clients))
            (sym (
              failed-clientset e
              ∙ propagation-err default_tag content get_secret new_backend p s.clientset
                  (cluster.get_propagation key s.world).1 e f))
            (ReadyClient-world default_tag content get_secret new_backend
              (find_client (key_of p) s.clientset.clients) s.world (failed e).world
              (failed-content e) ready)

      pub reconcile_system-IsRound :
          IsRound default_tag cluster objects get_secret new_backend content IsOpened p.spec s.world
            (round_of key s).1.world
          × IsReadyFor default_tag content p (round_of key s).1
      reconcile_system-IsRound = elim (Result-cases opened.0) [
        | inr (e, f) ↦ rw (round_of-err e f) (
          IsRound-same default_tag cluster objects get_secret new_backend content IsOpened p.spec
              s.world (failed e).world (failed-content e),
          ready-failed e f,
        )
        | inl (c, f) ↦
            let goes = went c f in
            rw (round_of-ok c f) (
              IsRound-trans default_tag cluster objects get_secret new_backend content IsOpened
                  p.spec s.world opened.2 _
                  (IsRound-same default_tag cluster objects get_secret new_backend content IsOpened
                    p.spec s.world opened.2 opened-content)
                  goes.round,
              ready_by p goes.same_key goes.own,
            )
      ]
