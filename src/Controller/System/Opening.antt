-- ===== src/Controller/System/Opening.antt =====
-- The client with which a round starts.
use propagation_controller.Base.{
  ◌≡◌, refl, sym, ap, ◌∙◌, String, not, Option, none, some, [], Result, ok, err, Error, inl, inr,
  Bool-cases, Option-cases, Result-cases, err-ne-ok, ◌==◌,
}
use propagation_controller.Api.{Propagation}
use propagation_controller.Clients.{
  ArtifactMetadata, Bytes, PropagationBackendClient, PropagationClient, lookup,
}
use propagation_controller.Clients.Registry.{Contents, IsRegistry, IsCoherent, IsCoherent-world}
use propagation_controller.Clients.Clientset.{
  NamespacedName, PropagationClientset, find_client, key_of, secret_of, propagation,
}
use propagation_controller.Clients.Clientset.Switch.{cache_of, propagation_step}
use propagation_controller.Controller.{Cluster}
use propagation_controller.Controller.System.{System}

-- All objects of the cluster name one registry: a backend that is made of the base URL of an object
-- that the cluster returns, whatever the credentials, is a client of it.
pub record IsHonest {V A : Type 0} (content : Contents V A) (cluster : Cluster V)
    (new_backend : String → Option Bytes → Result (PropagationBackendClient V A)) : Type 0 where
  pub registry :
      (key : NamespacedName) (w : V) (p : Propagation) (secret : Option Bytes)
      (b : PropagationBackendClient V A)
      → (cluster.get_propagation key w).0 ≡ ok p
      → new_backend p.spec.backend.base_url secret ≡ ok b
      → IsRegistry b content

-- The client that the clientset has for the object, if any, is coherent.
abbrev pub ReadyClient :
    {V A : Type 0} → String → Contents V A → V → Option (PropagationClient V A) → Type 0
ReadyClient default_tag content w none = Unit
ReadyClient default_tag content w (some c) = IsCoherent default_tag content c w

abbrev pub IsReadyFor : {V A : Type 0} → String → Contents V A → Propagation → System V A → Type 0
IsReadyFor default_tag content p s =
    ReadyClient default_tag content s.world (find_client (key_of p) s.clientset.clients)

lookup-empty : {A : Type 0} {a : A} (m : ArtifactMetadata) → lookup m [] ≡ some a → ⊥
unfolding lookup
lookup-empty m e = cc

module _ {V A : Type 0} (default_tag : String) (content : Contents V A)
    (get_secret : NamespacedName → V → Result (Option Bytes) × V)
    (new_backend : String → Option Bytes → Result (PropagationBackendClient V A)) where
  -- A client with the caches of a ready one and an honest backend is coherent.
  pub IsCoherent-again :
      (o : Option (PropagationClient V A)) (c : PropagationClient V A) (w w' : V)
      → ReadyClient default_tag content w o
      → ((n : ArtifactMetadata) → content.held w' n ≡ content.held w n)
      → IsRegistry c.backend content
      → c.cache ≡ cache_of o
      → IsCoherent default_tag content c w'
  IsCoherent-again none c w w' ready same registry e = record {
    registry = registry;
    manifests = λ m a i f. absurd (lookup-empty m (ap (λ k. lookup m k.fetch_cache) (sym e) ∙ f));
    published = λ m a f. absurd (lookup-empty m (ap (λ k. lookup m k.publish_cache) (sym e) ∙ f));
  }
  IsCoherent-again (some old) c w w' ready same registry e = record {
    registry = registry;
    manifests =
        λ m a i f. same m ∙ ready.manifests m a i (ap (λ k. lookup m k.fetch_cache) (sym e) ∙ f);
    published =
        λ m a f. same m ∙ ready.published m a (ap (λ k. lookup m k.publish_cache) (sym e) ∙ f);
  }

  pub ReadyClient-world :
      (o : Option (PropagationClient V A)) (w w' : V)
      → ((n : ArtifactMetadata) → content.held w' n ≡ content.held w n)
      → ReadyClient default_tag content w o
      → ReadyClient default_tag content w' o
  ReadyClient-world none w w' same ready = tt
  ReadyClient-world (some c) w w' same ready =
      IsCoherent-world default_tag content c w w' same ready

  -- Only the secret is read.
  pub propagation-world :
      (p : Propagation) (set : PropagationClientset V A) (w : V)
      → (propagation get_secret new_backend p set w).2 ≡ (secret_of get_secret new_backend p w).1
  unfolding propagation
  propagation-world p set w = elim (Result-cases (secret_of get_secret new_backend p w).0) [
    | inr (x, e) ↦ rw (e, propagation) refl
    | inl (d, e) ↦ elim (Result-cases (new_backend p.spec.backend.base_url d)) [
      | inr (x, f) ↦ rw (e, propagation, f) refl
      | inl (b, f) ↦ rw (e, propagation, f) refl
    ]
  ]

  pub propagation-err :
      (p : Propagation) (set : PropagationClientset V A) (w : V) (x : Error)
      → (propagation get_secret new_backend p set w).0 ≡ err x
      → (propagation get_secret new_backend p set w).1 ≡ set
  unfolding propagation
  propagation-err p set w x h = elim (Result-cases (secret_of get_secret new_backend p w).0) [
    | inr (y, e) ↦ rw (e, propagation) refl
    | inl (d, e) ↦ elim (Result-cases (new_backend p.spec.backend.base_url d)) [
      | inr (y, f) ↦ rw (e, propagation, f) refl
      | inl (b, f) ↦ absurd (
          err-ne-ok
            (sym h ∙ ap (λ x. x.0) (propagation_step get_secret new_backend p set w d b e f)))
    ]
  ]

  module _
      (secret_keeps : (key : NamespacedName) (n : ArtifactMetadata) (w : V)
        → content.held (get_secret key w).1 n ≡ content.held w n) where
    pub secret_of-keeps :
        (p : Propagation) (n : ArtifactMetadata) (w : V)
        → content.held (secret_of get_secret new_backend p w).1 n ≡ content.held w n
    unfolding secret_of
    secret_of-keeps p n w = elim (Option-cases p.spec.backend.secret_ref) [
      | inl e ↦ rw (e, secret_of) refl
      | inr (name, e) ↦ elim (Bool-cases (not (name == ""))) [
        | inl f ↦ rw (e, f, secret_of) (secret_keeps _ n w)
        | inr f ↦ rw (e, f, secret_of) refl
      ]
    ]
