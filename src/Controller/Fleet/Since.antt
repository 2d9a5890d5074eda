-- ===== src/Controller/Fleet/Since.antt =====
-- What a place holds in the states that a fleet can reach: what it held at the start, or what a step on
-- the way has made.
use mathlib.Core.Path.{subst}
use propagation_controller.Base.{◌≡◌, refl, sym, ◌∙◌, ℤ, String, inl, inr, ◌⊎◌}
use propagation_controller.Clients.Registry.{Contents}
use propagation_controller.Clients.{ArtifactMetadata}
use propagation_controller.Clients.Clientset.{new_propagation_clientset}
use propagation_controller.Controller.Fleet.{Site, IsSite, Fleet, Reach, start, next}
use propagation_controller.Controller.Fleet.Invariant.{IsSoundAt}
use propagation_controller.Controller.Fleet.Carried.{
  IsSound, KeepsManifests, IsCarried, empty-IsSoundAt, step-IsCarried,
}

module _ {V A Object Node : Type 0} (default_tag : String) (content : Contents V A)
    (store_time : ℤ → ℤ) (sites : String → Site V A Object Node)
    (laws : (d : String) → IsSite content store_time d (sites d)) where
  -- Something was made by a step from `begin`, which is a state on the way from `s₀`.
  pub record MadeSince (Made : Fleet V A → V → Type 0) (s₀ : Fleet V A) (w : V) : Type 0 where
    pub begin : Fleet V A
    pub reached : Reach default_tag content sites s₀ begin
    pub made : Made begin w

  -- The place holds what it held at the start, or what was made since.
  abbrev pub Since : (Fleet V A → V → Type 0) → ArtifactMetadata → Fleet V A → Fleet V A → Type 0
  Since Made n s₀ s = (content.held s.world n ≡ content.held s₀.world n) ⊎ MadeSince Made s₀ s.world

  module _ (s₀ : Fleet V A)
      (fresh : (d : String) → s₀.clientsets d ≡ new_propagation_clientset) where
    Reach-IsSound :
        (s : Fleet V A)
        → Reach default_tag content sites s₀ s
        → IsSound default_tag content store_time sites laws s
    Reach-IsSound s start d =
        subst (λ set. IsSoundAt default_tag content store_time sites laws d set s₀.world)
          (sym (fresh d)) (empty-IsSoundAt default_tag content store_time sites laws d s₀.world)
    Reach-IsSound s (next {t = t} reached step) d =
        (step-IsCarried default_tag content store_time sites laws t s (Reach-IsSound t reached) step
          d).sound

    -- A step keeps the place or makes something there, and what was made lasts while the place and the
    -- manifests do.
    pub Reach-Since :
        (Made : Fleet V A → V → Type 0) (n : ArtifactMetadata) (d : String)
        → ((s : Fleet V A) (w w' : V)
            → KeepsManifests default_tag content store_time sites laws w w'
            → content.held w' n ≡ content.held w n
            → Made s w
            → Made s w')
        → ((s t : Fleet V A)
            → IsCarried default_tag content store_time sites laws d s t
            → (content.held t.world n ≡ content.held s.world n) ⊎ Made s t.world)
        → (s : Fleet V A) → Reach default_tag content sites s₀ s
        → Since Made n s₀ s
    Reach-Since Made n d lasts makes s start = inl refl
    Reach-Since Made n d lasts makes s (next {t = t} reached step) =
        let carried =
          step-IsCarried default_tag content store_time sites laws t s (Reach-IsSound t reached)
            step d in
        let before = Reach-Since Made n d lasts makes t reached in
        elim (makes t s carried) [
          | inr made ↦ inr (record { begin = t; reached = reached; made = made })
          | inl same ↦ elim before [
            | inl kept ↦ inl (same ∙ kept)
            | inr old ↦ inr (record {
              begin = old.begin;
              reached = old.reached;
              made = lasts old.begin t.world s.world carried.manifests same old.made;
            })
          ]
        ]
