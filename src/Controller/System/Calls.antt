-- ===== src/Controller/System/Calls.antt =====
-- Each call that a round makes, as a step of the whole system.
use propagation_controller.Base.{
  sym, ◌≡◌, refl, ◌∙◌, String, Option, some, Result, ok, err, inl, inr, ◌⊎◌, ByResult,
}
use propagation_controller.Api.{PropagationSpec}
use propagation_controller.Clients.Registry.{Contents}
use propagation_controller.Clients.{
  ArtifactMetadata, Bytes, PropagationBackendClient, PropagationClient, get_config, get_status,
  publish_status, propagate,
}
use propagation_controller.Clients.Steps.{
  IsKept, get_status-IsKept, get_config-IsKept, publish_status-IsKeptBut, publish_status-here,
  status_of,
}
use propagation_controller.Clients.Transfer.{manifest_of, deploy_of, propagate-IsTransfer}
use propagation_controller.Clients.Clientset.{NamespacedName}
use propagation_controller.Controller.{Cluster, Objects}
use propagation_controller.Controller.Round.{IsOwnVersion, own_status, IsDecided, IsEffect}
use propagation_controller.Controller.System.Relation.{
  IsSeparate, IsOwn, IsDeployed, IsRound, IsRound-same, IsRound-trans, not-deploy_status,
  not-manifest_deploy,
}
use propagation_controller.Controller.System.Own.{IsOwn-outside, IsOwn-through}
use propagation_controller.Controller.System.{
  System, Handle, through, system_cluster, system_objects, system_backend,
}

module _ {V A Object Node : Type 0} (default_tag : String) (cluster : Cluster V)
    (objects : Objects V Object Node) (get_secret : NamespacedName → V → Result (Option Bytes) × V)
    (new_backend : String → Option Bytes → Result (PropagationBackendClient V A))
    (content : Contents V A) (separate : IsSeparate content cluster objects get_secret)
    (Begins : Handle V A × System V A → Type 0) (start : Handle V A × System V A)
    (begins : Begins start) (own_start : IsOwn default_tag new_backend content start) where
  abbrev Own : Handle V A × System V A → Type 0
  Own = IsOwn default_tag new_backend content

  abbrev Round : PropagationSpec → V → V → Type 0
  Round = IsRound default_tag cluster objects get_secret new_backend content Begins

  -- Behind a call the handle is of the same object, its client as good as before, and the registry
  -- changed as in a round.
  pub record Goes (spec : PropagationSpec) (x y : Handle V A × System V A) : Type 0 where
    pub same_key : y.0.key ≡ x.0.key
    pub own : Own y
    pub round : Round spec x.1.world y.1.world

  abbrev pub Call : PropagationSpec → Handle V A × System V A → Handle V A × System V A → Type 0
  Call spec x y = Own x → Goes spec x y

  abbrev Decided : PropagationSpec → String → Handle V A × System V A → Type 0
  Decided spec =
      IsDecided default_tag (system_cluster {A = A} cluster) (system_objects objects)
        (system_backend default_tag get_secret new_backend) (Call spec) start spec

  Call-outside :
      (spec : PropagationSpec) (h : Handle V A) (s : System V A) (w : V)
      → ((n : ArtifactMetadata) → content.held w n ≡ content.held s.world n)
      → Call spec (h, s) (h, record s { world = w })
  Call-outside spec h s w same own = record {
    same_key = refl;
    own = IsOwn-outside default_tag get_secret new_backend content h s w same own;
    round =
        IsRound-same default_tag cluster objects get_secret new_backend content Begins spec s.world
          w same;
  }

  Call-read :
      {B : Type 0} (spec : PropagationSpec) (h : Handle V A) (s : System V A)
      (x : B × PropagationClient V A × V)
      → (Own (h, s) → IsKept default_tag content h.client.backend s.world (x.1, x.2))
      → Call spec (h, s) ((through h s x).1, (through h s x).2)
  Call-read spec h s x read own =
      let kept = read own in
      record {
        same_key = refl;
        own =
            IsOwn-through default_tag get_secret new_backend content h s x.1 x.2 own kept.backend
              kept.coherent;
        round =
            IsRound-same default_tag cluster objects get_secret new_backend content Begins spec
              s.world x.2 kept.keeps;
      }

  -- No status is published at the deploy place.
  Call-publish :
      (spec : PropagationSpec) (version : String) (h : Handle V A) (s : System V A)
      → IsOwnVersion default_tag
          (system_cluster {A = A} cluster)
          (system_objects objects)
          (system_backend default_tag get_secret new_backend)
          spec
          version
      → let x =
          through h s (publish_status spec.deployment.name (own_status version) h.client s.world) in
        Call spec (h, s) (x.1, x.2)
  Call-publish spec version h s mine own =
      let name = spec.deployment.name in
      let x = publish_status name (own_status version) h.client s.world in
      let kept =
        publish_status-IsKeptBut default_tag content h.client s.world own.coherent name
          (own_status version) in
      record {
        same_key = refl;
        own =
            IsOwn-through default_tag get_secret new_backend content h s x.1 x.2 own kept.backend
              kept.coherent;
        round = record {
          others = λ n. elim (kept.others n) [ inl e ↦ inl e | inr e ↦ inr (inr e) ];
          deployed = elim (kept.others (deploy_of name)) [
            | inl e ↦ absurd (
                not-deploy_status default_tag cluster objects get_secret new_backend content Begins
                  name e)
            | inr e ↦ inl e
          ];
          reported =
              elim (publish_status-here default_tag content h.client s.world own.coherent name
                (own_status version)) [
                  | inl same ↦ inl same
                  | inr (new, made, there) ↦ inr (record {
                    version = version;
                    own = mine;
                    backend = h.client.backend;
                    is_made = own.is_made;
                    new = new;
                    made = made;
                    written = there;
                  })
                ];
        };
      }

  deployed_by :
      (spec : PropagationSpec) (v : String) (w w' : V) (x : Handle V A × System V A)
      → Decided spec v x
      → ((n : ArtifactMetadata)
          → (deploy_of spec.deployment.name ≡ n) ⊎ (content.held w' n ≡ content.held w n))
      → (r : Result (Unit {0}))
      → ByResult
          (λ _.
            (copy : Bytes) × (content.held w (manifest_of spec.deployment.name v) ≡ some copy)
            × (content.held w' (deploy_of spec.deployment.name) ≡ some copy))
          (content.held w' (deploy_of spec.deployment.name)
            ≡ content.held w (deploy_of spec.deployment.name))
          r
      → (content.held w' (deploy_of spec.deployment.name)
          ≡ content.held w (deploy_of spec.deployment.name))
        ⊎ IsDeployed default_tag cluster objects get_secret new_backend content Begins spec w'
  deployed_by spec v w w' x decided others (err e) kept = inl kept
  deployed_by spec v w w' x decided others (ok _) (copy, read, written) = inr (record {
    version = v;
    start = start;
    begins = begins;
    fetching = decided.fetching;
    own = (decided.reached own_start).own;
    unchanged = (decided.reached own_start).round.others;
    was_allowed = decided.was_allowed;
    copy = copy;
    read = elim (others (manifest_of spec.deployment.name v)) [
      | inl e ↦ absurd (
          not-manifest_deploy default_tag cluster objects get_secret new_backend content Begins _ v
            e)
      | inr e ↦ e ∙ read
    ];
    written = written;
  })

  Call-propagate :
      (spec : PropagationSpec) (v : String) (h : Handle V A) (s : System V A)
      → Decided spec v (h, s)
      → let x = through h s (propagate default_tag spec.deployment.name v h.client s.world) in
        Call spec (h, s) (x.1, x.2)
  Call-propagate spec v h s decided own =
      let name = spec.deployment.name in
      let x = propagate default_tag name v h.client s.world in
      let moved = propagate-IsTransfer default_tag content name v h.client s.world own.coherent in
      record {
        same_key = refl;
        own =
            IsOwn-through default_tag get_secret new_backend content h s x.1 x.2 own moved.backend
              moved.coherent;
        round = record {
          others = λ n. elim (moved.others n) [ inl e ↦ inr (inl e) | inr e ↦ inr (inr e) ];
          deployed = deployed_by spec v s.world x.2 (h, s) decided moved.others x.0 moved.here;
          reported = elim (moved.others (status_of name)) [
            | inl e ↦ absurd (
                not-deploy_status default_tag cluster objects get_secret new_backend content Begins
                  name (sym e))
            | inr e ↦ inl e
          ];
        };
      }

  -- The calls of a round, as `IsEffect` asks for them.
  pub Call-IsEffect :
      (spec : PropagationSpec)
      → IsEffect default_tag
          (system_cluster cluster)
          (system_objects objects)
          (system_backend default_tag get_secret new_backend)
          spec
          start
          (Call spec)
  Call-IsEffect spec = record {
    stays = λ x own. record {
      same_key = refl;
      own = own;
      round =
          IsRound-same default_tag cluster objects get_secret new_backend content Begins spec
            x.1.world x.1.world (λ n. refl);
    };
    composes = λ x y z r t own.
        let first = r own in
        let second = t first.own in
        record {
          same_key = second.same_key ∙ first.same_key;
          own = second.own;
          round =
              IsRound-trans default_tag cluster objects get_secret new_backend content Begins spec
                x.1.world y.1.world z.1.world first.round second.round;
        };
    reads = λ h s. Call-outside spec h s _ (λ n. separate.reads n s.world);
    updates = λ p h s. Call-outside spec h s _ (λ n. separate.updates p n s.world);
    sets_condition =
        λ x xs h s. Call-outside spec h s _ (λ n. separate.sets_condition x xs n s.world);
    gets_object = λ api_version kind key h s.
        Call-outside spec h s _ (λ n. separate.gets_object api_version kind key n s.world);
    gets_config = λ h s.
        Call-read spec h s (get_config default_tag h.client s.world)
          (λ own. get_config-IsKept default_tag content h.client s.world own.coherent);
    gets_status = λ d h s.
        Call-read spec h s (get_status default_tag d h.client s.world)
          (λ own. get_status-IsKept default_tag content h.client s.world own.coherent d);
    publishes = λ version h s mine. Call-publish spec version h s mine;
    propagates = λ v h s decided. Call-propagate spec v h s decided;
  }
