-- ===== src/Clients/Transfer.antt =====
-- `Propagate`: the manifest of a version becomes the deploy artifact.
use mathlib.Core.Path.{subst}
use propagation_controller.Base.{
  ◌≡◌, refl, ◌∙◌, String, some, Result, ok, err, inl, inr, Result-cases, ByResult, ◌⊎◌,
}
use propagation_controller.Clients.{
  Bytes, ArtifactMetadata, manifest, deploy, PropagationBackendClient, PropagationClient,
  is_immutable, fetch, publish, propagate,
}
use propagation_controller.Clients.Registry.{Contents, IsCoherent}
use propagation_controller.Clients.Fetch.{IsRead, fetch-IsRead}
use propagation_controller.Clients.Publish.{IsWrite, publish-IsWrite}

abbrev pub manifest_of : String → String → ArtifactMetadata
manifest_of deployment version = record {
  deployment = deployment;
  type = manifest;
  version = version;
}

abbrev pub deploy_of : String → ArtifactMetadata
deploy_of deployment = record { deployment = deployment; type = deploy; version = "" }

-- What a call of `Propagate` leaves.
pub record IsTransfer {W A : Type 0} (default_tag : String) (content : Contents W A)
    (b : PropagationBackendClient W A) (deployment version : String) (w : W)
    (x : Result (Unit {0}) × PropagationClient W A × W) : Type 0 where
  pub here :
      ByResult
        (λ _.
          (copy : Bytes) × (content.held w (manifest_of deployment version) ≡ some copy)
          × (content.held x.2 (deploy_of deployment) ≡ some copy))
        (content.held x.2 (deploy_of deployment) ≡ content.held w (deploy_of deployment))
        x.0
  pub others :
      (n : ArtifactMetadata) → (deploy_of deployment ≡ n) ⊎ (content.held x.2 n ≡ content.held w n)
  pub backend : x.1.backend ≡ b
  pub coherent : IsCoherent default_tag content x.1 x.2

module _ {W A : Type 0} (default_tag : String) (content : Contents W A)
    (deployment version : String) where
  propagate-err :
      (c : PropagationClient W A) (w : W) (e : String)
      → (fetch default_tag (manifest_of deployment version) c w).0 ≡ err e
      → propagate default_tag deployment version c w ≡ (
        err e,
        (fetch default_tag (manifest_of deployment version) c w).1,
        (fetch default_tag (manifest_of deployment version) c w).2,
      )
  unfolding propagate
  propagate-err c w e h = rw (h, propagate)

  propagate-ok :
      (c : PropagationClient W A) (w : W) (a : A)
      → (fetch default_tag (manifest_of deployment version) c w).0 ≡ ok a
      → propagate default_tag deployment version c w
        ≡ publish
            (deploy_of deployment)
            a
            (fetch default_tag (manifest_of deployment version) c w).1
            (fetch default_tag (manifest_of deployment version) c w).2
  unfolding propagate
  propagate-ok c w a h = rw (h, propagate)

  -- What the write says of the state before it, in the terms of the state before the read.
  carried :
      (w w' w'' : W) (a : A) (r : Result (Unit {0}))
      → content.held w (manifest_of deployment version) ≡ some (content.raw a)
      → content.held w' (deploy_of deployment) ≡ content.held w (deploy_of deployment)
      → ByResult
          (λ _. content.held w'' (deploy_of deployment) ≡ some (content.raw a))
          (content.held w'' (deploy_of deployment) ≡ content.held w' (deploy_of deployment))
          r
      → ByResult
          (λ _.
            (copy : Bytes) × (content.held w (manifest_of deployment version) ≡ some copy)
            × (content.held w'' (deploy_of deployment) ≡ some copy))
          (content.held w'' (deploy_of deployment) ≡ content.held w (deploy_of deployment))
          r
  carried w w' w'' a (ok _) read kept there = (content.raw a, read, there)
  carried w w' w'' a (err e) read kept there = there ∙ kept

  -- A successful `Propagate` leaves at the deployment's deploy place the bytes of the manifest that
  -- the registry holds for the version. A failed one leaves that place as it was.
  -- No other place changes. The cache has to be coherent, and is so afterwards.
  pub propagate-IsTransfer :
      (c : PropagationClient W A) (w : W)
      → IsCoherent default_tag content c w
      → IsTransfer default_tag content c.backend deployment version w
          (propagate default_tag deployment version c w)
  propagate-IsTransfer c w v = elim (Result-cases (fetch default_tag m c w).0) [
    | inr (e, h) ↦ rw (propagate-err c w e h) (record {
      here = read.keeps (deploy_of deployment);
      others = λ n. inr (read.keeps n);
      backend = read.backend;
      coherent = read.coherent;
    })
    | inl (a, h) ↦
        let c' = (fetch default_tag m c w).1 in
        let w' = (fetch default_tag m c w).2 in
        let wrote : IsWrite default_tag content c'.backend (deploy_of deployment) a w'
            (publish (deploy_of deployment) a c' w') =
          publish-IsWrite default_tag content (deploy_of deployment) a c'
            (unfold is_immutable in refl) refl w' read.coherent in
        rw (propagate-ok c w a h) (record {
          here =
              carried w w' (publish (deploy_of deployment) a c' w').2 a
                (publish (deploy_of deployment) a c' w').0
                (subst (ByResult (λ a. content.held w m ≡ some (content.raw a)) Unit) h read.value)
                (read.keeps (deploy_of deployment)) wrote.here;
          others = λ n. elim (wrote.others n) [
            | inl same ↦ inl same
            | inr kept ↦ inr (kept ∙ read.keeps n)
          ];
          backend = wrote.backend ∙ read.backend;
          coherent = wrote.coherent;
        })
  ]
    where
      m : ArtifactMetadata
      m = manifest_of deployment version

      read : IsRead default_tag content c.backend m w (fetch default_tag m c w)
      read = fetch-IsRead default_tag content m c w refl v
