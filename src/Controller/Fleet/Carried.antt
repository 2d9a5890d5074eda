-- ===== src/Controller/Fleet/Carried.antt =====
-- What one step of the fleet is to each deployment: its own round or somebody else's step.
use mathlib.Core.Path.{subst}
use propagation_controller.Base.{
  ◌≡◌, refl, sym, ◌∙◌, ◌≢◌, ℤ, String, false, some, inl, inr, ◌⊎◌, ◌==◌, Bool-cases, eq_iff,
  none-ne-some, false≢true,
}
use propagation_controller.Api.{Propagation}
use propagation_controller.Clients.Registry.{Contents}
use propagation_controller.Clients.{ArtifactMetadata, Bytes, manifest, lookup}
use propagation_controller.Clients.Steps.{status_of}
use propagation_controller.Clients.Transfer.{deploy_of}
use propagation_controller.Clients.Clientset.{
  PropagationClientset, new_propagation_clientset, find_client,
}
use propagation_controller.Controller.Fleet.{
  Site, IsSite, Fleet, round_at, restart_at, IsOutside, Step, round, restart, outside,
}
use propagation_controller.Controller.Fleet.Bystander.{
  Persists, ReadyClient-Persists, ChangesOwn-Persists, ChangesOwn-kept, ChangesOwn-manifest,
  outside-Persists, outside-kept,
}
use propagation_controller.Controller.Fleet.Invariant.{
  IsSoundAt, IsFound, StagedAt, ReportedAt, round-IsBehind,
}

module _ {V A Object Node : Type 0} (default_tag : String) (content : Contents V A)
    (store_time : ℤ → ℤ) (sites : String → Site V A Object Node)
    (laws : (d : String) → IsSite content store_time d (sites d)) where
  abbrev pub SoundAt : String → PropagationClientset V A → V → Type 0
  SoundAt = IsSoundAt default_tag content store_time sites laws

  abbrev pub Deployed : String → Fleet V A → V → Type 0
  Deployed d s w =
      (p : Propagation) × (f : IsFound default_tag content store_time sites laws d s p) × StagedAt
        default_tag content store_time sites laws d s p f w

  abbrev pub Reported : String → Fleet V A → V → Type 0
  Reported d s w =
      (p : Propagation) × (f : IsFound default_tag content store_time sites laws d s p) × ReportedAt
        default_tag content store_time sites laws d s p f w

  -- The manifests that were there are there.
  abbrev pub KeepsManifests : V → V → Type 0
  KeepsManifests w w' =
      (n : ArtifactMetadata) (a : Bytes)
      → n.type ≡ manifest
      → content.held w n ≡ some a
      → content.held w' n ≡ some a

  -- What a step from `s` to `t` is to the deployment.
  pub record IsCarried (d : String) (s t : Fleet V A) : Type 0 where
    pub sound : SoundAt d (t.clientsets d) t.world
    pub manifests : KeepsManifests s.world t.world
    pub deployed :
        (content.held t.world (deploy_of d) ≡ content.held s.world (deploy_of d))
        ⊎ Deployed d s t.world
    pub reported :
        (content.held t.world (status_of d) ≡ content.held s.world (status_of d))
        ⊎ Reported d s t.world

  IsSoundAt-Persists :
      (d : String) (set : PropagationClientset V A) (w w' : V)
      → Persists default_tag content d w w'
      → SoundAt d set w
      → SoundAt d set w'
  IsSoundAt-Persists d set w w' persists sound = record {
    coherent =
        ReadyClient-Persists default_tag content d w w' (find_client (sites d).key set.clients)
          persists sound.writes sound.coherent;
    writes = sound.writes;
  }

  -- A clientset without a client.
  pub empty-IsSoundAt : (d : String) (w : V) → SoundAt d new_propagation_clientset w
  unfolding new_propagation_clientset find_client lookup
  empty-IsSoundAt d w = record { coherent = tt; writes = λ m a e. absurd (none-ne-some e) }

  module _ (d : String) (s : Fleet V A) (sound : SoundAt d (s.clientsets d) s.world) where
    own-IsCarried : IsCarried d s (round_at default_tag content sites d s)
    own-IsCarried =
        let b = round-IsBehind default_tag content store_time sites laws d s sound in
        record {
          sound = rw ((eq_iff d d).1 refl) b.sound;
          manifests = λ n a e h. ChangesOwn-manifest default_tag content d _ _ n e b.changes ∙ h;
          deployed = b.deployed;
          reported = b.reported;
        }

    other-IsCarried :
        (e : String)
        → SoundAt e (s.clientsets e) s.world
        → e ≢ d
        → (d == e) ≡ false
        → IsCarried d s (round_at default_tag content sites e s)
    other-IsCarried e sound' apart test =
        let b = round-IsBehind default_tag content store_time sites laws e s sound' in
        record {
          sound = rw test (
              IsSoundAt-Persists d (s.clientsets d) s.world _
                (ChangesOwn-Persists default_tag content e d _ _ apart b.changes) sound);
          manifests = λ n a e' h. ChangesOwn-manifest default_tag content e _ _ n e' b.changes ∙ h;
          deployed = inl (
              ChangesOwn-kept default_tag content e d _ _ (deploy_of d) apart b.changes (inr refl));
          reported = inl (
              ChangesOwn-kept default_tag content e d _ _ (status_of d) apart b.changes (inl refl));
        }

    restart_own : IsCarried d s (restart_at d s)
    restart_own = record {
      sound = rw ((eq_iff d d).1 refl) (empty-IsSoundAt d s.world);
      manifests = λ n a e h. h;
      deployed = inl refl;
      reported = inl refl;
    }

    restart_other : (e : String) → (d == e) ≡ false → IsCarried d s (restart_at e s)
    restart_other e test = record {
      sound = rw test sound;
      manifests = λ n a e h. h;
      deployed = inl refl;
      reported = inl refl;
    }

    outside-IsCarried :
        (t : Fleet V A)
        → t.clientsets ≡ s.clientsets
        → IsOutside content s.world t.world
        → IsCarried d s t
    outside-IsCarried t same out = record {
      sound =
          subst (λ (sets : String → PropagationClientset V A). SoundAt d (sets d) t.world)
            (sym same)
            (IsSoundAt-Persists d (s.clientsets d) s.world t.world
              (outside-Persists default_tag content d s.world t.world out) sound);
      manifests =
          λ n a e h. outside-Persists default_tag content d s.world t.world out n a (inl e) h;
      deployed =
          inl (outside-kept default_tag content d s.world t.world (deploy_of d) out (inr refl));
      reported =
          inl (outside-kept default_tag content d s.world t.world (status_of d) out (inl refl));
    }

  abbrev pub IsSound : Fleet V A → Type 0
  IsSound s = (d : String) → SoundAt d (s.clientsets d) s.world

  differs : (d e : String) → (d == e) ≡ false → e ≢ d
  differs d e test same = absurd (false≢true (sym test ∙ (eq_iff d e).1 (sym same)))

  -- Every step carries every deployment over.
  pub step-IsCarried :
      (s t : Fleet V A)
      → IsSound s
      → Step default_tag content sites s t
      → (d : String) → IsCarried d s t
  step-IsCarried s t sound (round e same) d =
      subst (IsCarried d s) (sym same) (elim (Bool-cases (d == e)) [
        | inl here ↦
            subst (λ e. IsCarried d s (round_at default_tag content sites e s))
              ((eq_iff d e).0 here) (own-IsCarried d s (sound d))
        | inr there ↦ other-IsCarried d s (sound d) e (sound e) (differs d e there) there
      ])
  step-IsCarried s t sound (restart e same) d =
      subst (IsCarried d s) (sym same) (elim (Bool-cases (d == e)) [
        | inl here ↦
            subst (λ e. IsCarried d s (restart_at e s)) ((eq_iff d e).0 here)
              (restart_own d s (sound d))
        | inr there ↦ restart_other d s (sound d) e there
      ])
  step-IsCarried s t sound (outside same out) d = outside-IsCarried d s (sound d) t same out
