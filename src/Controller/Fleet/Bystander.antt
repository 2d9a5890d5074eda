-- ===== src/Controller/Fleet/Bystander.antt =====
-- What a deployment's client and its places keep while others take a step.
use propagation_controller.Base.{
  ◌≡◌, sym, ap, ◌∙◌, ◌≢◌, String, true, Option, none, some, inl, inr, ◌⊎◌, arith, none-ne-some,
}
use propagation_controller.Clients.{
  Bytes, ArtifactMetadata, PropagationClient, manifest, is_immutable,
}
use propagation_controller.Clients.Registry.{Contents, same_type_eq}
use propagation_controller.Clients.Steps.{config_place}
use propagation_controller.Controller.Fleet.{IsOutside}
use propagation_controller.Controller.System.Opening.{ReadyClient}
use propagation_controller.Controller.System.Caches.{OwnPlace, WritesOwn}

OwnPlace-name : (d : String) (n : ArtifactMetadata) → OwnPlace d n → n.deployment ≡ d
OwnPlace-name d n (inl e) = ap (λ (n : ArtifactMetadata). n.deployment) (sym e)
OwnPlace-name d n (inr e) = ap (λ (n : ArtifactMetadata). n.deployment) (sym e)

own-ne-manifest : (d : String) (n : ArtifactMetadata) → OwnPlace d n → n.type ≡ manifest → ⊥
own-ne-manifest d n (inl e) f = cc
own-ne-manifest d n (inr e) f = cc

own-ne-config : (d : String) (n : ArtifactMetadata) → OwnPlace d n → n ≡ config_place → ⊥
own-ne-config d n (inl e) f = cc
own-ne-config d n (inr e) f = cc

manifest-ne-config : (n : ArtifactMetadata) → n.type ≡ manifest → n ≡ config_place → ⊥
manifest-ne-config n e f = cc

is_immutable-manifest :
    (default_tag : String) (m : ArtifactMetadata)
    → is_immutable default_tag m ≡ true
    → m.type ≡ manifest
unfolding is_immutable
is_immutable-manifest default_tag m e = ground (arith, same_type_eq m.type manifest)

-- A place whose contents the client of the deployment may serve from its caches unasked.
abbrev pub Relied : String → ArtifactMetadata → Type 0
Relied d n = (n.type ≡ manifest) ⊎ OwnPlace d n

own-ne-Relied : (d e : String) (n : ArtifactMetadata) → d ≢ e → OwnPlace d n → Relied e n → ⊥
own-ne-Relied d e n apart own (inl f) = own-ne-manifest d n own f
own-ne-Relied d e n apart own (inr own') =
    apart (sym (OwnPlace-name d n own) ∙ OwnPlace-name e n own')

Relied-ne-config : (d : String) (n : ArtifactMetadata) → Relied d n → n ≡ config_place → ⊥
Relied-ne-config d n (inl e) f = manifest-ne-config n e f
Relied-ne-config d n (inr own) f = own-ne-config d n own f

module _ {V A : Type 0} (default_tag : String) (content : Contents V A) where
  -- What the deployment's client relies on is still there.
  abbrev pub Persists : String → V → V → Type 0
  Persists d w w' =
      (n : ArtifactMetadata) (a : Bytes)
      → Relied d n
      → content.held w n ≡ some a
      → content.held w' n ≡ some a

  -- So the client stays ready.
  pub ReadyClient-Persists :
      (d : String) (w w' : V) (o : Option (PropagationClient V A))
      → Persists d w w'
      → WritesOwn d o
      → ReadyClient default_tag content w o
      → ReadyClient default_tag content w' o
  ReadyClient-Persists d w w' none persists own ready = tt
  ReadyClient-Persists d w w' (some c) persists own ready = record {
    registry = ready.registry;
    manifests = λ m a i e.
        persists m (content.raw a) (inl (is_immutable-manifest default_tag m i))
          (ready.manifests m a i e);
    published = λ m a e. persists m (content.raw a) (inr (own m a e)) (ready.published m a e);
  }

  -- A step changed nothing but the places of a deployment.
  abbrev pub ChangesOwn : String → V → V → Type 0
  ChangesOwn d w w' = (n : ArtifactMetadata) → OwnPlace d n ⊎ (content.held w' n ≡ content.held w n)

  -- Then what others rely on persists.
  pub ChangesOwn-Persists : (d e : String) (w w' : V) → d ≢ e → ChangesOwn d w w' → Persists e w w'
  ChangesOwn-Persists d e w w' apart changes n a relied h = elim (changes n) [
    | inl own ↦ absurd (own-ne-Relied d e n apart own relied)
    | inr kept ↦ kept ∙ h
  ]

  pub ChangesOwn-kept :
      (d e : String) (w w' : V) (n : ArtifactMetadata)
      → d ≢ e
      → ChangesOwn d w w'
      → OwnPlace e n
      → content.held w' n ≡ content.held w n
  ChangesOwn-kept d e w w' n apart changes place = elim (changes n) [
    | inl own ↦ absurd (own-ne-Relied d e n apart own (inr place))
    | inr kept ↦ kept
  ]

  -- Whoever changes a deployment's places, manifests persist.
  pub ChangesOwn-manifest :
      (d : String) (w w' : V) (n : ArtifactMetadata)
      → n.type ≡ manifest
      → ChangesOwn d w w'
      → content.held w' n ≡ content.held w n
  ChangesOwn-manifest d w w' n e changes = elim (changes n) [
    | inl own ↦ absurd (own-ne-manifest d n own e)
    | inr kept ↦ kept
  ]

  -- So does what others publish outside of the rounds.
  pub outside-Persists : (d : String) (w w' : V) → IsOutside content w w' → Persists d w w'
  outside-Persists d w w' out n a relied h = elim (out n) [
    | inl kept ↦ kept ∙ h
    | inr (inl config) ↦ absurd (Relied-ne-config d n relied config)
    | inr (inr (_, empty)) ↦ absurd (none-ne-some (sym empty ∙ h))
  ]

  pub outside-kept :
      (d : String) (w w' : V) (n : ArtifactMetadata)
      → IsOutside content w w'
      → OwnPlace d n
      → content.held w' n ≡ content.held w n
  outside-kept d w w' n out place = elim (out n) [
    | inl kept ↦ kept
    | inr (inl config) ↦ absurd (own-ne-config d n place config)
    | inr (inr (kind, _)) ↦ absurd (own-ne-manifest d n place kind)
  ]
