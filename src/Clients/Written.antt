-- ===== src/Clients/Written.antt =====
-- At which places a client's publish cache has entries: where the client itself has published.
use mathlib.Core.Path.{subst}
use propagation_controller.Base.{
  ◌⊎◌, if◌then◌else◌, ◌≡◌, refl, sym, ap, ◌∙◌, String, Bool, some, inl, inr, Bool-cases,
  Option-cases, Result-cases,
}
use propagation_controller.Api.{DeploymentStatus}
use propagation_controller.Clients.{
  ArtifactMetadata, same_metadata, status_payload, PropagationClient, lookup, is_immutable,
  is_fresh, same_bytes, fetch_through, fetch, publish_through, publish, publish_artifact,
  publish_status, get_status, get_config, propagate,
}
use propagation_controller.Clients.Publish.Cases.{published}
use propagation_controller.Clients.Registry.{same_metadata_eq}
use propagation_controller.Clients.Steps.{
  status_of, config_place, get_status-fetch, get_config-fetch,
}
use propagation_controller.Clients.Transfer.{manifest_of, deploy_of}

module _ {W A : Type 0} (default_tag : String) (m : ArtifactMetadata)
    (c : PropagationClient W A) where
  fetch_through-publish_cache :
      (w : W) → (fetch_through default_tag m c w).1.cache.publish_cache ≡ c.cache.publish_cache
  unfolding fetch_through
  fetch_through-publish_cache w = elim (Result-cases (c.backend.fetch m w).0) [
    | inl (a, e) ↦ rw (e, fetch_through) refl
    | inr (x, e) ↦ rw (e, fetch_through) refl
  ]

  -- `Fetch` leaves the publish cache alone.
  fetch-publish_cache :
      (w : W) → (fetch default_tag m c w).1.cache.publish_cache ≡ c.cache.publish_cache
  unfolding fetch
  fetch-publish_cache w = elim (Option-cases (lookup m c.cache.fetch_cache)) [
    | inl e ↦ rw (e, fetch) (fetch_through-publish_cache w)
    | inr (cached, e) ↦ elim (Bool-cases (is_immutable default_tag m)) [
      | inl f ↦ rw (e, f, fetch) refl
      | inr f ↦
          elim (Bool-cases (is_fresh (c.backend.digest_string cached) (c.backend.digest m w).0)) [
            | inl g ↦ rw (e, f, g, fetch) refl
            | inr g ↦ rw (e, f, g, fetch) (fetch_through-publish_cache (c.backend.digest m w).1)
          ]
    ]
  ]

module _ {W A : Type 0} (m : ArtifactMetadata) (a : A) (c : PropagationClient W A) where
  -- Behind a write the client is the same, or has the artifact in its publish cache.
  abbrev Wrote : PropagationClient W A → Type 0
  Wrote c' = (c' ≡ c) ⊎ (c' ≡ published m a c)

  publish_through-Wrote : (w : W) → Wrote (publish_through m a c w).1
  unfolding publish_through
  publish_through-Wrote w = elim (Result-cases (c.backend.publish m a w).0) [
    | inl (_, e) ↦ rw (e, publish_through) (inr refl)
    | inr (x, e) ↦ rw (e, publish_through) (inl refl)
  ]

  publish-Wrote : (w : W) → Wrote (publish m a c w).1
  unfolding publish
  publish-Wrote w = elim (Option-cases (lookup m c.cache.publish_cache)) [
    | inl e ↦ rw (e, publish) (publish_through-Wrote w)
    | inr (cached, e) ↦
        let (r, w') = c.backend.bytes cached w in
        let (r', w'') = c.backend.bytes a w' in
        elim (Result-cases r) [
          | inr (x, f) ↦ rw (e, f, publish) (inl refl)
          | inl (old, f) ↦ elim (Result-cases r') [
            | inr (x, g) ↦ rw (e, f, g, publish) (inl refl)
            | inl (new, g) ↦ elim (Bool-cases (same_bytes old new)) [
              | inl h ↦ rw (e, f, g, h, publish) (inl refl)
              | inr h ↦ rw (e, f, g, h, publish) (publish_through-Wrote w'')
            ]
          ]
        ]
  ]

module _ {W A : Type 0} (P : ArtifactMetadata → Type 0) where
  -- Every entry of the publish cache is at a place of the kind.
  abbrev pub WritesAt : PropagationClient W A → Type 0
  WritesAt c = (m : ArtifactMetadata) (a : A) → lookup m c.cache.publish_cache ≡ some a → P m

  WritesAt-cache :
      (c c' : PropagationClient W A)
      → c'.cache.publish_cache ≡ c.cache.publish_cache
      → WritesAt c
      → WritesAt c'
  WritesAt-cache c c' same v m a e = v m a (ap (lookup m) (sym same) ∙ e)

  published-WritesAt :
      (m : ArtifactMetadata) (a : A) (c : PropagationClient W A)
      → P m
      → WritesAt c
      → WritesAt (published m a c)
  unfolding lookup
  published-WritesAt m a c p v n b e = elim (Bool-cases (same_metadata m n)) [
    | inl h ↦ subst P (same_metadata_eq m n h) p
    | inr h ↦
        v n b (sym (ap (λ (t : Bool). if t then some a else lookup n c.cache.publish_cache) h) ∙ e)
  ]

  publish-WritesAt :
      (m : ArtifactMetadata) (a : A) (c : PropagationClient W A) (w : W)
      → P m
      → WritesAt c
      → WritesAt (publish m a c w).1
  publish-WritesAt m a c w p v = elim (publish-Wrote m a c w) [
    | inl e ↦ subst WritesAt (sym e) v
    | inr e ↦ subst WritesAt (sym e) (published-WritesAt m a c p v)
  ]

  pub publish_status-WritesAt :
      (d : String) (status : DeploymentStatus) (c : PropagationClient W A) (w : W)
      → P (status_of d)
      → WritesAt c
      → WritesAt (publish_status d status c w).1
  unfolding publish_status publish_artifact
  publish_status-WritesAt d status c w p v =
      elim (Result-cases (c.backend.new_artifact (status_payload status))) [
        | inr (x, e) ↦ rw (e, publish_artifact) v
        | inl (a, e) ↦ rw (e, publish_artifact) (publish-WritesAt (status_of d) a c w p v)
      ]

  module _ (default_tag : String) (c : PropagationClient W A) (w : W) (v : WritesAt c) where
    fetch-WritesAt : (m : ArtifactMetadata) → WritesAt (fetch default_tag m c w).1
    fetch-WritesAt m =
        WritesAt-cache c (fetch default_tag m c w).1 (fetch-publish_cache default_tag m c w) v

    pub get_status-WritesAt : (d : String) → WritesAt (get_status default_tag d c w).1
    get_status-WritesAt d =
        subst WritesAt (sym (get_status-fetch default_tag d c w)) (fetch-WritesAt (status_of d))

    pub get_config-WritesAt : WritesAt (get_config default_tag c w).1
    get_config-WritesAt =
        subst WritesAt (sym (get_config-fetch default_tag c w)) (fetch-WritesAt config_place)

    pub propagate-WritesAt :
        (d version : String) → P (deploy_of d) → WritesAt (propagate default_tag d version c w).1
    unfolding propagate
    propagate-WritesAt d version p =
        let m = manifest_of d version in
        elim (Result-cases (fetch default_tag m c w).0) [
          | inr (x, e) ↦ rw (e, propagate) (fetch-WritesAt m)
          | inl (a, e) ↦
              rw (e, propagate)
                (publish-WritesAt (deploy_of d) a (fetch default_tag m c w).1
                  (fetch default_tag m c w).2 p (fetch-WritesAt m))
        ]
