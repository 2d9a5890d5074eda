-- ===== src/Controller/System/Caches.antt =====
-- What a round leaves in the publish cache of its client: entries at the places of its deployment.
use mathlib.Core.Path.{subst}
use propagation_controller.Base.{
  ◌≡◌, refl, sym, ap, ◌∙◌, ℤ, String, Option, some, Result, ok, inl, inr, ◌⊎◌, Result-cases,
}
use propagation_controller.Api.{Propagation, PropagationSpec}
use propagation_controller.Clients.Registry.{Contents}
use propagation_controller.Clients.{
  ArtifactMetadata, Bytes, Cache, PropagationBackendClient, PropagationClient, lookup, get_config,
  get_status, publish_status, propagate,
}
use propagation_controller.Clients.Written.{
  WritesAt, publish_status-WritesAt, get_status-WritesAt, get_config-WritesAt, propagate-WritesAt,
}
use propagation_controller.Clients.Steps.{status_of}
use propagation_controller.Clients.Transfer.{deploy_of}
use propagation_controller.Clients.Clientset.{
  NamespacedName, PropagationClientset, find_client, key_of,
}
use propagation_controller.Clients.Clientset.Switch.{cache_of, find-put_client, propagation-ok}
use propagation_controller.Controller.{Cluster, Objects, Outcome}
use propagation_controller.Controller.Reconcile.{with_client}
use propagation_controller.Controller.Round.{KeepsObject, own_status, IsEffect}
use propagation_controller.Controller.Round.Whole.{with_client-Effect}
use propagation_controller.Controller.System.{
  System, Handle, through, system_cluster, system_objects, system_backend, reconcile_system,
}
use propagation_controller.Controller.System.Relation.{IsSeparate}
use propagation_controller.Controller.System.Opening.{IsHonest, propagation-err}
use propagation_controller.Controller.System.Rounds.{
  opened, system_keeps, round_of-err, round_of-ok, failed-clientset,
}

-- The places that a deployment's own controller writes.
abbrev pub OwnPlace : String → ArtifactMetadata → Type 0
OwnPlace d m = (status_of d ≡ m) ⊎ (deploy_of d ≡ m)

-- The caches that a client starts with know no write but at the deployment's own places.
abbrev pub WritesOwn : {V A : Type 0} → String → Option (PropagationClient V A) → Type 0
WritesOwn {A = A} d o =
    (m : ArtifactMetadata) (a : A) → lookup m (cache_of o).publish_cache ≡ some a → OwnPlace d m

module _ {V A : Type 0} where
  -- The clientset has the handle's client, which has written no places but the deployment's own.
  abbrev Held : String → Handle V A × System V A → Type 0
  Held d x =
      (find_client x.0.key x.1.clientset.clients ≡ some x.0.client)
      × WritesAt (OwnPlace d) x.0.client

  abbrev Holds : String → Handle V A × System V A → Handle V A × System V A → Type 0
  Holds d x y = Held d x → (y.0.key ≡ x.0.key) × Held d y

  Holds-through :
      (get_secret : NamespacedName → V → Result (Option Bytes) × V)
      (new_backend : String → Option Bytes → Result (PropagationBackendClient V A)) {B : Type 0}
      (d : String) (h : Handle V A) (s : System V A) (x : B × PropagationClient V A × V)
      → (WritesAt (OwnPlace d) h.client → WritesAt (OwnPlace d) x.1)
      → Holds d (h, s) ((through h s x).1, (through h s x).2)
  Holds-through get_secret new_backend d h s x step (stored, writes) =
      (refl, (find-put_client get_secret new_backend h.key x.1 s.clientset, step writes))

module _ {V A Object Node : Type 0} (default_tag : String) (cluster : Cluster V)
    (objects : Objects V Object Node) (get_secret : NamespacedName → V → Result (Option Bytes) × V)
    (new_backend : String → Option Bytes → Result (PropagationBackendClient V A)) where
  Holds-IsEffect :
      (spec : PropagationSpec) (start : Handle V A × System V A)
      → IsEffect default_tag
          (system_cluster cluster)
          (system_objects objects)
          (system_backend default_tag get_secret new_backend)
          spec
          start
          (Holds spec.deployment.name)
  Holds-IsEffect spec start =
      let name = spec.deployment.name in
      record {
        stays = λ x v. (refl, v);
        composes = λ x y z r t v. let (k, v') = r v in let (k', v'') = t v' in (k' ∙ k, v'');
        reads = λ h s v. (refl, v);
        updates = λ p h s v. (refl, v);
        sets_condition = λ x xs h s v. (refl, v);
        gets_object = λ api_version kind key h s v. (refl, v);
        gets_config = λ h s.
            Holds-through get_secret new_backend name h s (get_config default_tag h.client s.world)
              λ v. get_config-WritesAt (OwnPlace name) default_tag h.client s.world v;
        gets_status = λ d h s.
            Holds-through get_secret new_backend name h s
              (get_status default_tag d h.client s.world)
              λ v. get_status-WritesAt (OwnPlace name) default_tag h.client s.world v d;
        publishes = λ version h s mine.
            Holds-through get_secret new_backend name h s
              (publish_status name (own_status version) h.client s.world)
              λ v.
                publish_status-WritesAt (OwnPlace name) name (own_status version) h.client s.world
                  (inl refl) v;
        propagates = λ version h s decided.
            Holds-through get_secret new_backend name h s
              (propagate default_tag name version h.client s.world)
              λ v.
                propagate-WritesAt (OwnPlace name) default_tag h.client s.world v name version
                  (inr refl);
      }

  module _ (content : Contents V A) (separate : IsSeparate content cluster objects get_secret)
      (store_time : ℤ → ℤ) (keeps : KeepsObject store_time cluster)
      (honest : IsHonest content cluster new_backend) (key : NamespacedName) (s : System V A)
      (p : Propagation) (found : (cluster.get_propagation key s.world).0 ≡ ok p) where
    abbrev began : Result (PropagationClient V A) × PropagationClientset V A × V
    began =
        opened default_tag cluster objects get_secret new_backend content separate store_time keeps
          honest key s p found

    -- The round from the opening of the client on.
    abbrev went_on : PropagationClient V A → Outcome × Handle V A × System V A
    went_on c =
        with_client default_tag (system_cluster {A = A} cluster) (system_objects objects)
          (system_backend default_tag get_secret new_backend) p
          (record { key = key_of p; client = c }) (record { clientset = began.1; world = began.2 })

    went_on-Held :
        (c : PropagationClient V A)
        → began.0 ≡ ok c
        → WritesOwn p.spec.deployment.name (find_client (key_of p) s.clientset.clients)
        → ((went_on c).1.key ≡ key_of p)
          × Held p.spec.deployment.name ((went_on c).1, (went_on c).2)
    went_on-Held c f own =
        let (secret, _, _, cache, stored) =
          propagation-ok get_secret new_backend p s.clientset
            (cluster.get_propagation key s.world).1 c f in
        with_client-Effect default_tag (system_cluster {A = A} cluster) (system_objects objects)
          (system_backend default_tag get_secret new_backend) store_time
          (system_keeps default_tag cluster objects get_secret new_backend content separate
            store_time keeps honest)
          p.spec
          (record { key = key_of p; client = c }, record { clientset = began.1; world = began.2 })
          (Holds p.spec.deployment.name)
          (Holds-IsEffect p.spec (
            record { key = key_of p; client = c },
            record { clientset = began.1; world = began.2 },
          ))
          p refl
          (
            stored,
            λ m a e. own m a (ap (λ (k : Cache A). lookup m k.publish_cache) (sym cache) ∙ e),
          )

    found_behind :
        (c : PropagationClient V A) (f : began.0 ≡ ok c)
        → (went_on c).1.key ≡ key_of p
        → find_client (went_on c).1.key (went_on c).2.clientset.clients ≡ some (went_on c).1.client
        → find_client
            (key_of p)
            (reconcile_system default_tag get_secret new_backend cluster objects key
              s).1.clientset.clients
          ≡ some (went_on c).1.client
    found_behind c f same stored =
        ap (λ (x : System V A). find_client (key_of p) x.clientset.clients)
          (round_of-ok default_tag cluster objects get_secret new_backend content separate
            store_time keeps honest key s p found c f)
        ∙ ap (λ k. find_client k (went_on c).2.clientset.clients) (sym same)
        ∙ stored

    -- A round adds nothing to the publish cache of the object's client but entries at the status and
    -- the deploy place of its deployment.
    pub reconcile_system-WritesOwn :
        WritesOwn p.spec.deployment.name (find_client (key_of p) s.clientset.clients)
        → WritesOwn p.spec.deployment.name (
            find_client
              (key_of p)
              (reconcile_system default_tag get_secret new_backend cluster objects key
                s).1.clientset.clients)
    reconcile_system-WritesOwn own = elim (Result-cases began.0) [
      | inr (e, f) ↦
          subst
            (λ (set : PropagationClientset V A).
              WritesOwn p.spec.deployment.name (find_client (key_of p) set.clients))
            (sym (
              ap (λ x. x.1.clientset)
                (round_of-err default_tag cluster objects get_secret new_backend content separate
                  store_time keeps honest key s p found e f)
              ∙ failed-clientset default_tag cluster objects get_secret new_backend content separate
                  store_time keeps honest key s p found e
              ∙ propagation-err default_tag content get_secret new_backend p s.clientset
                  (cluster.get_propagation key s.world).1 e f))
            own
      | inl (c, f) ↦
          let (same, (stored, writes)) = went_on-Held c f own in
          subst (WritesOwn p.spec.deployment.name) (sym (found_behind c f same stored)) writes
    ]
