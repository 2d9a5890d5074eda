-- ===== src/Clients/Steps.antt =====
-- The operations of `PropagationClient` as reads and writes: what each leaves in the registry.
use mathlib.Core.Path.{subst}
use propagation_controller.Base.{
  ok, err, Error, true, some, sym, ◌∙◌, ByResult, err-ne-ok, ◌≡◌, refl, String, Result, inl, inr,
  ◌⊎◌, Result-cases,
}
use propagation_controller.Api.{DeploymentStatus}
use propagation_controller.Clients.{
  Bytes, ArtifactMetadata, deploy_status, propagation_config, status_payload,
  PropagationBackendClient, PropagationClient, is_immutable, fetch, publish, publish_artifact,
  publish_status, fetch_artifact, get_status, get_config,
}
use propagation_controller.Clients.Registry.{
  is_canonical, Contents, IsRegistry, IsCoherent, IsCoherent-world,
}
use propagation_controller.Clients.Fetch.{fetch-IsRead}
use propagation_controller.Clients.Publish.{publish-IsWrite}

-- Where the status of a deployment is published.
abbrev pub status_of : String → ArtifactMetadata
status_of deployment = record { deployment = deployment; type = deploy_status; version = "" }

-- Where the configuration is published.
abbrev pub config_place : ArtifactMetadata
config_place = record { deployment = ""; type = propagation_config; version = "" }

module _ {W A : Type 0} (default_tag : String) where
  -- Behind a call of `fetchArtifact` the client is the one behind its `Fetch`.
  fetch_artifact-fetch {ℓ} :
      {D : Type ℓ} (m : ArtifactMetadata) (parse : PropagationClient W A → A → W → Result D × W)
      (c : PropagationClient W A) (w : W)
      → (fetch_artifact default_tag m parse c w).1 ≡ (fetch default_tag m c w).1
  unfolding fetch_artifact
  fetch_artifact-fetch m parse c w = elim (Result-cases (fetch default_tag m c w).0) [
    | inl (a, e) ↦ rw (e, fetch_artifact) refl
    | inr (x, e) ↦ rw (e, fetch_artifact) refl
  ]

  pub get_status-fetch :
      (d : String) (c : PropagationClient W A) (w : W)
      → (get_status default_tag d c w).1 ≡ (fetch default_tag (status_of d) c w).1
  unfolding get_status
  get_status-fetch d c w = fetch_artifact-fetch (status_of d) _ c w

  pub get_config-fetch :
      (c : PropagationClient W A) (w : W)
      → (get_config default_tag c w).1 ≡ (fetch default_tag config_place c w).1
  unfolding get_config
  get_config-fetch c w = fetch_artifact-fetch config_place _ c w

  pub get_status-ok :
      (d : String) (c : PropagationClient W A) (w : W) (a : A)
      → let x = fetch default_tag (status_of d) c w in
        x.0 ≡ ok a → (get_status default_tag d c w).0 ≡ (x.1.backend.parse_status a x.2).0
  unfolding get_status fetch_artifact
  get_status-ok d c w a e = rw (e, fetch_artifact) refl

  get_status-err :
      (d : String) (c : PropagationClient W A) (w : W) (x : Error)
      → (fetch default_tag (status_of d) c w).0 ≡ err x
      → (get_status default_tag d c w).0 ≡ err x
  unfolding get_status fetch_artifact
  get_status-err d c w x e = rw (e, fetch_artifact) refl

by_result : {X Y : Type 0} (r : Result (Unit {0})) → ByResult (λ _. X) Y r → Y ⊎ X
by_result (ok _) x = inr x
by_result (err e) y = inl y

-- Behind a call that only reads, the registry is the same, and the client is as good.
pub record IsKept {W A : Type 0} (default_tag : String) (content : Contents W A)
    (b : PropagationBackendClient W A) (w : W) (x : PropagationClient W A × W) : Type 0 where
  pub keeps : (n : ArtifactMetadata) → content.held x.1 n ≡ content.held w n
  pub backend : x.0.backend ≡ b
  pub coherent : IsCoherent default_tag content x.0 x.1

-- Behind a call that writes at `m`, so it is at every other place.
pub record IsKeptBut {W A : Type 0} (default_tag : String) (content : Contents W A)
    (m : ArtifactMetadata) (b : PropagationBackendClient W A) (w : W)
    (x : PropagationClient W A × W) : Type 0 where
  pub others : (n : ArtifactMetadata) → (m ≡ n) ⊎ (content.held x.1 n ≡ content.held w n)
  pub backend : x.0.backend ≡ b
  pub coherent : IsCoherent default_tag content x.0 x.1

module _ {W A : Type 0} (default_tag : String) (content : Contents W A) (c : PropagationClient W A)
    (w : W) (v : IsCoherent default_tag content c w) where
  -- `fetchArtifact` only reads, if its parser does.
  fetch_artifact-IsKept :
      {D : Type 0} (m : ArtifactMetadata) (parse : PropagationClient W A → A → W → Result D × W)
      → is_canonical m ≡ true
      → ((c : PropagationClient W A) (a : A) (n : ArtifactMetadata) (w : W)
          → IsRegistry c.backend content
          → content.held (parse c a w).1 n ≡ content.held w n)
      → let x = fetch_artifact default_tag m parse c w in
        IsKept default_tag content c.backend w (x.1, x.2)
  unfolding fetch_artifact
  fetch_artifact-IsKept m parse canonical same =
      let read = fetch-IsRead default_tag content m c w canonical v in
      let (r, c', w') = fetch default_tag m c w in
      elim (Result-cases r) [
        | inr (x, e) ↦
            rw (e, fetch_artifact)
              (record { keeps = read.keeps; backend = read.backend; coherent = read.coherent })
        | inl (a, e) ↦
            let after : (n : ArtifactMetadata)
                → content.held (parse c' a w').1 n ≡ content.held w' n =
              λ n. same c' a n w' read.coherent.registry in
            rw (e, fetch_artifact)
              (record {
                keeps = λ n. after n ∙ read.keeps n;
                backend = read.backend;
                coherent =
                    IsCoherent-world default_tag content c' w' (parse c' a w').1 after
                      read.coherent;
              })
      ]

  pub get_status-IsKept :
      (d : String)
      → let x = get_status default_tag d c w in IsKept default_tag content c.backend w (x.1, x.2)
  unfolding get_status
  get_status-IsKept d =
      fetch_artifact-IsKept (status_of d) (λ c. c.backend.parse_status) refl
        (λ c a n w r. r.status_keeps a n w)

  pub get_config-IsKept :
      let x = get_config default_tag c w in IsKept default_tag content c.backend w (x.1, x.2)
  unfolding get_config
  get_config-IsKept =
      fetch_artifact-IsKept config_place (λ c. c.backend.parse_config) refl
        (λ c a n w r. r.config_keeps a n w)

  pub publish_status-IsKeptBut :
      (d : String) (status : DeploymentStatus)
      → let x = publish_status d status c w in
        IsKeptBut default_tag content (status_of d) c.backend w (x.1, x.2)
  unfolding publish_status publish_artifact is_immutable
  publish_status-IsKeptBut d status =
      elim (Result-cases (c.backend.new_artifact (status_payload status))) [
        | inr (x, e) ↦
            rw (e, publish_artifact)
              (record { others = λ n. inr refl; backend = refl; coherent = v })
        | inl (a, e) ↦
            let wrote = publish-IsWrite default_tag content (status_of d) a c refl refl w v in
            rw (e, publish_artifact)
              (record { others = wrote.others; backend = wrote.backend; coherent = wrote.coherent })
      ]

  -- A status that `GetStatus` returns is parsed from what the registry holds at the deployment's place.
  pub get_status-held :
      (d : String) (status : DeploymentStatus)
      → (get_status default_tag d c w).0 ≡ ok status
      → (y : Bytes) × (content.held w (status_of d) ≡ some y) × (content.decode y ≡ ok status)
  get_status-held d status e =
      let read = fetch-IsRead default_tag content (status_of d) c w refl v in
      let x = fetch default_tag (status_of d) c w in
      elim (Result-cases x.0) [
        | inr (z, f) ↦ absurd (err-ne-ok (sym (get_status-err default_tag d c w z f) ∙ e))
        | inl (a, f) ↦ (
          content.raw a,
          subst (ByResult (λ a. content.held w (status_of d) ≡ some (content.raw a)) Unit) f
              read.value,
          read.coherent.registry.status_reads a x.2 status
              (sym (get_status-ok default_tag d c w a f) ∙ e),
        )
      ]

  -- A publication of a status leaves the deployment's place as it was, or with the bytes of what the
  -- backend makes of the status.
  pub publish_status-here :
      (d : String) (status : DeploymentStatus)
      → (content.held (publish_status d status c w).2 (status_of d) ≡ content.held w (status_of d))
        ⊎ ((new : A) × (c.backend.new_artifact (status_payload status) ≡ ok new)
            × (content.held (publish_status d status c w).2 (status_of d) ≡ some (content.raw new)))
  unfolding publish_status publish_artifact is_immutable
  publish_status-here d status =
      elim (Result-cases (c.backend.new_artifact (status_payload status))) [
        | inr (x, e) ↦ rw (e, publish_artifact) (inl refl)
        | inl (a, e) ↦
            let wrote = publish-IsWrite default_tag content (status_of d) a c refl refl w v in
            rw (e, publish_artifact)
              (elim (by_result (publish (status_of d) a c w).0 wrote.here) [
                | inl same ↦ inl same
                | inr there ↦ inr (a, refl, there)
              ])
      ]
