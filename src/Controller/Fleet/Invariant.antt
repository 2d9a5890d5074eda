-- ===== src/Controller/Fleet/Invariant.antt =====
-- The invariant of the fleet: every controller's client is coherent, and has written no places but its
-- deployment's own.
use mathlib.Core.Path.{subst}
use propagation_controller.Base.{
  ◌≡◌, refl, sym, ap, ◌∙◌, ℤ, String, Result, ok, err, inl, inr, ◌⊎◌, Result-cases, Error,
}
use propagation_controller.Api.{Propagation}
use propagation_controller.Clients.Registry.{Contents}
use propagation_controller.Clients.{ArtifactMetadata}
use propagation_controller.Clients.Steps.{status_of}
use propagation_controller.Clients.Transfer.{deploy_of}
use propagation_controller.Clients.Clientset.{PropagationClientset, find_client, key_of}
use propagation_controller.Controller.{failed}
use propagation_controller.Controller.Reconcile.{reconcile}
use propagation_controller.Controller.System.{System, reconcile_system}
use propagation_controller.Controller.System.Opening.{IsReadyFor, ReadyClient, ReadyClient-world}
use propagation_controller.Controller.System.Relation.{IsReported, IsRound}
use propagation_controller.Controller.System.Rounds.{IsOpened, reconcile_system-IsRound}
use propagation_controller.Controller.System.Caches.{WritesOwn, reconcile_system-WritesOwn}
use propagation_controller.Controller.System.Staging.{IsStagedDeployment, reconcile_system-IsStaged}
use propagation_controller.Controller.Fleet.{Site, IsSite, Fleet, system_at}
use propagation_controller.Controller.Fleet.Bystander.{ChangesOwn}

-- Without an object a round ends.
reconcile_system-err :
    {V A Object Node : Type 0} (default_tag : String) (site : Site V A Object Node) (s : System V A)
    (e : Error)
    → (site.cluster.get_propagation site.key s.world).0 ≡ err e
    → reconcile_system default_tag site.get_secret site.new_backend site.cluster site.objects
        site.key s
      ≡ (failed e, record s { world = (site.cluster.get_propagation site.key s.world).1 })
unfolding reconcile_system reconcile
reconcile_system-err default_tag site s e f = rw (f, reconcile) refl

module _ {V A Object Node : Type 0} (default_tag : String) (content : Contents V A)
    (store_time : ℤ → ℤ) (sites : String → Site V A Object Node)
    (laws : (d : String) → IsSite content store_time d (sites d)) where
  -- The deployment's client, where the clientset has one.
  pub record IsSoundAt (d : String) (set : PropagationClientset V A) (w : V) : Type 0 where
    pub coherent : ReadyClient default_tag content w (find_client (sites d).key set.clients)
    pub writes : WritesOwn d (find_client (sites d).key set.clients)

  -- The object that the deployment's controller finds at the state.
  pub record IsFound (d : String) (s : Fleet V A) (p : Propagation) : Type 0 where
    pub found : ((sites d).cluster.get_propagation (sites d).key s.world).0 ≡ ok p

  -- A round of the deployment's controller that began at `s` has deployed a version.
  abbrev pub StagedAt : (d : String) (s : Fleet V A) (p : Propagation) → IsFound d s p → V → Type 0
  StagedAt d s p f =
      IsStagedDeployment default_tag (sites d).cluster (sites d).objects (sites d).get_secret
        (sites d).new_backend content (laws d).separate store_time (laws d).keeps (laws d).honest
        (laws d).mono (sites d).key (system_at d s) p f.found

  -- A round of the deployment's controller that began at `s` has published a status.
  abbrev pub ReportedAt :
      (d : String) (s : Fleet V A) (p : Propagation) → IsFound d s p → V → Type 0
  ReportedAt d s p f =
      IsReported default_tag (sites d).cluster (sites d).objects (sites d).get_secret
        (sites d).new_backend content
        (IsOpened default_tag (sites d).cluster (sites d).objects (sites d).get_secret
          (sites d).new_backend content (laws d).separate store_time (laws d).keeps (laws d).honest
          (sites d).key (system_at d s) p f.found)
        p.spec

  -- What is behind a round.
  pub record IsBehind (d : String) (s : Fleet V A) (x : System V A) : Type 0 where
    pub changes : ChangesOwn default_tag content d s.world x.world
    pub sound : IsSoundAt d x.clientset x.world
    pub deployed :
        (content.held x.world (deploy_of d) ≡ content.held s.world (deploy_of d))
        ⊎ ((p : Propagation) × (f : IsFound d s p) × StagedAt d s p f x.world)
    pub reported :
        (content.held x.world (status_of d) ≡ content.held s.world (status_of d))
        ⊎ ((p : Propagation) × (f : IsFound d s p) × ReportedAt d s p f x.world)

  module _ (d : String) (s : Fleet V A) (sound : IsSoundAt d (s.clientsets d) s.world) where
    abbrev behind : System V A
    behind =
        (reconcile_system default_tag (sites d).get_secret (sites d).new_backend (sites d).cluster
          (sites d).objects (sites d).key (system_at d s)).1

    abbrev got : Result Propagation × V
    got = (sites d).cluster.get_propagation (sites d).key s.world

    missing-IsBehind : (e : Error) → got.0 ≡ err e → IsBehind d s behind
    missing-IsBehind e f =
        let same = λ (n : ArtifactMetadata). (laws d).separate.gets (sites d).key n s.world in
        subst (IsBehind d s)
          (sym (ap (λ x. x.1) (reconcile_system-err default_tag (sites d) (system_at d s) e f)))
          (record {
            changes = λ n. inr (same n);
            sound = record {
              coherent =
                  ReadyClient-world default_tag content (sites d).get_secret (sites d).new_backend
                    (find_client (sites d).key (s.clientsets d).clients) s.world got.1 same
                    sound.coherent;
              writes = sound.writes;
            };
            deployed = inl (same (deploy_of d));
            reported = inl (same (status_of d));
          })

    module _ (p : Propagation) (found : got.0 ≡ ok p) where
      abbrev same_key : key_of p ≡ (sites d).key
      same_key = (laws d).keyed s.world p found

      abbrev same_name : p.spec.deployment.name ≡ d
      same_name = (laws d).named s.world p found

      abbrev ready : IsReadyFor default_tag content p (system_at d s)
      ready =
          subst
            (λ k. ReadyClient default_tag content s.world (find_client k (s.clientsets d).clients))
            (sym same_key) sound.coherent

      went :
          IsRound default_tag
            (sites d).cluster
            (sites d).objects
            (sites d).get_secret
            (sites d).new_backend
            content
            (IsOpened default_tag
              (sites d).cluster
              (sites d).objects
              (sites d).get_secret
              (sites d).new_backend
              content
              (laws d).separate
              store_time
              (laws d).keeps
              (laws d).honest
              (sites d).key
              (system_at d s)
              p
              found)
            p.spec
            s.world
            behind.world
          × IsReadyFor default_tag content p behind
      went =
          reconcile_system-IsRound default_tag (sites d).cluster (sites d).objects
            (sites d).get_secret (sites d).new_backend content (laws d).separate store_time
            (laws d).keeps (laws d).honest (sites d).key (system_at d s) p found ready

      found_changes : ChangesOwn default_tag content d s.world behind.world
      found_changes n = elim (went.0.others n) [
        | inl e ↦ inl (inl (ap status_of (sym same_name) ∙ e))
        | inr (inl e) ↦ inl (inr (ap deploy_of (sym same_name) ∙ e))
        | inr (inr e) ↦ inr e
      ]

      found-IsSoundAt : IsSoundAt d behind.clientset behind.world
      found-IsSoundAt =
          let own : WritesOwn p.spec.deployment.name
              (find_client (key_of p) (s.clientsets d).clients) =
            subst (λ k. WritesOwn p.spec.deployment.name (find_client k (s.clientsets d).clients))
              (sym same_key)
              (subst (λ e. WritesOwn e (find_client (sites d).key (s.clientsets d).clients))
                (sym same_name) sound.writes) in
          let wrote =
            reconcile_system-WritesOwn default_tag (sites d).cluster (sites d).objects
              (sites d).get_secret (sites d).new_backend content (laws d).separate store_time
              (laws d).keeps (laws d).honest (sites d).key (system_at d s) p found own in
          record {
            coherent =
                subst
                  (λ k.
                    ReadyClient default_tag content behind.world
                      (find_client k behind.clientset.clients))
                  same_key went.1;
            writes =
                subst (λ e. WritesOwn e (find_client (sites d).key behind.clientset.clients))
                  same_name
                  (subst
                    (λ k. WritesOwn p.spec.deployment.name (find_client k behind.clientset.clients))
                    same_key wrote);
          }

      found-IsBehind : IsBehind d s behind
      found-IsBehind = record {
        changes = found_changes;
        sound = found-IsSoundAt;
        deployed =
            elim (reconcile_system-IsStaged default_tag (sites d).cluster (sites d).objects
              (sites d).get_secret (sites d).new_backend content (laws d).separate store_time
              (laws d).keeps (laws d).honest (laws d).mono (sites d).key (system_at d s) p found
              ready) [
                | inl kept ↦ inl (
                    subst
                      (λ e.
                        content.held behind.world (deploy_of e)
                        ≡ content.held s.world (deploy_of e))
                      same_name kept)
                | inr staged ↦ inr (p, record { found = found }, staged)
              ];
        reported = elim went.0.reported [
          | inl kept ↦ inl (
              subst
                (λ e. content.held behind.world (status_of e) ≡ content.held s.world (status_of e))
                same_name kept)
          | inr reported ↦ inr (p, record { found = found }, reported)
        ];
      }

    -- A round of the deployment's controller leaves its client sound and no places changed but the
    -- deployment's own; what it deploys is a staged version.
    pub round-IsBehind : IsBehind d s behind
    round-IsBehind = elim (Result-cases got.0) [
      | inl (p, e) ↦ found-IsBehind p e
      | inr (x, e) ↦ missing-IsBehind x e
    ]
