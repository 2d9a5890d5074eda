-- ===== src/Clients/Exchange.antt =====
-- A status on its way from one cluster to another: one client publishes it, another one reads it.
use propagation_controller.Base.{
  none-ne-some, some_injective, ◌≡◌, refl, ℤ, sym, ap, ◌∙◌, String, false, none, some, inl, inr,
  ◌⊎◌, Result, ok, err, Error, Result-cases, err-ne-ok, false≢true,
}
use propagation_controller.Api.{DeploymentStatus}
use propagation_controller.Clients.{
  ArtifactMetadata, status_payload, PropagationBackendClient, PropagationClient, lookup,
  is_immutable, publish, publish_artifact, publish_status, get_status,
}
use propagation_controller.Clients.Registry.{Contents, IsCoherent}
use propagation_controller.Clients.Publish.{IsWrite, publish-IsWrite}
use propagation_controller.Clients.Steps.{status_of, get_status-held}

-- A status as JSON has it: its start is stored with whole seconds.
abbrev pub as_stored : (ℤ → ℤ) → DeploymentStatus → DeploymentStatus
as_stored store_time s = record s { start = store_time s.start }

-- What the backend makes of a status is parsed back to the status as it is stored.
abbrev pub IsCodec : {W A : Type 0} → Contents W A → (ℤ → ℤ) → PropagationBackendClient W A → Type 0
IsCodec {A = A} content store_time b =
    (status : DeploymentStatus) (a : A)
    → b.new_artifact (status_payload status) ≡ ok a
    → content.decode (content.raw a) ≡ ok (as_stored store_time status)

module _ {W A : Type 0} (default_tag : String) (content : Contents W A) where
  -- A publication that succeeds leaves the bytes of the new artifact at its place.
  write-ok :
      (b : PropagationBackendClient W A) (m : ArtifactMetadata) (a : A) (w : W)
      (x : Result (Unit {0}) × PropagationClient W A × W)
      → IsWrite default_tag content b m a w x
      → x.0 ≡ ok tt
      → content.held x.2 m ≡ some (content.raw a)
  write-ok b m a w (err e, c, w') v f = absurd (err-ne-ok f)
  write-ok b m a w (ok _, c, w') v f = v.here

  -- A reader that has not published at the place is as coherent after a write there by another.
  IsCoherent-after :
      (m : ArtifactMetadata) (c : PropagationClient W A) (w w' : W)
      → is_immutable default_tag m ≡ false
      → lookup m c.cache.publish_cache ≡ none
      → ((n : ArtifactMetadata) → (m ≡ n) ⊎ (content.held w' n ≡ content.held w n))
      → IsCoherent default_tag content c w
      → IsCoherent default_tag content c w'
  IsCoherent-after m c w w' mutable fresh others v = record {
    registry = v.registry;
    manifests = λ n a i e. elim (others n) [
      | inl same ↦ absurd (false≢true (sym mutable ∙ ap (is_immutable default_tag) same ∙ i))
      | inr kept ↦ kept ∙ v.manifests n a i e
    ];
    published = λ n a e. elim (others n) [
      | inl same ↦
          absurd (none-ne-some (sym fresh ∙ ap (λ n. lookup n c.cache.publish_cache) same ∙ e))
      | inr kept ↦ kept ∙ v.published n a e
    ];
  }

  module _ (d : String) (status : DeploymentStatus) (c : PropagationClient W A) (w : W) where
    publish_status-new :
        (a : A)
        → c.backend.new_artifact (status_payload status) ≡ ok a
        → publish_status d status c w ≡ publish (status_of d) a c w
    unfolding publish_status publish_artifact
    publish_status-new a e = rw (e, publish_artifact) refl

    publish_status-err :
        (x : Error)
        → c.backend.new_artifact (status_payload status) ≡ err x
        → (publish_status d status c w).0 ≡ err x
    unfolding publish_status publish_artifact
    publish_status-err x e = rw (e, publish_artifact) refl

    -- What is at the place of a status that was published.
    record IsPublished (w' : W) : Type 0 where
      new : A
      made : c.backend.new_artifact (status_payload status) ≡ ok new
      here : content.held w' (status_of d) ≡ some (content.raw new)
      others : (n : ArtifactMetadata) → (status_of d ≡ n) ⊎ (content.held w' n ≡ content.held w n)

    publish_status-IsPublished :
        IsCoherent default_tag content c w
        → (publish_status d status c w).0 ≡ ok tt
        → IsPublished (publish_status d status c w).2
    publish_status-IsPublished v e =
        elim (Result-cases (c.backend.new_artifact (status_payload status))) [
          | inr (x, f) ↦ absurd (err-ne-ok (sym (publish_status-err x f) ∙ e))
          | inl (a, f) ↦
              let step = publish_status-new a f in
              let wrote =
                publish-IsWrite default_tag content (status_of d) a c (unfold is_immutable in refl)
                  refl w v in
              let here =
                write-ok c.backend (status_of d) a w (publish (status_of d) a c w) wrote
                  (sym (ap (λ x. x.0) step) ∙ e) in
              rw step (record { new = a; made = f; here = here; others = wrote.others })
        ]

  -- A client publishes the status of a deployment, without an error. Another client, which has not
  -- published that status itself, reads it next. It gets the status that was published, with its start
  -- as JSON stores it, or an error: that of its fetch, or that of reading and parsing what it fetched.
  -- Both clients are coherent with one registry, and what the backend of the first makes of a status
  -- is parsed back as it is stored.
  pub get_status-publish_status :
      (store_time : ℤ → ℤ) (d : String) (status : DeploymentStatus) (c c' : PropagationClient W A)
      (w : W)
      → IsCodec content store_time c.backend
      → IsCoherent default_tag content c w
      → IsCoherent default_tag content c' w
      → lookup (status_of d) c'.cache.publish_cache ≡ none
      → (publish_status d status c w).0 ≡ ok tt
      → let w' = (publish_status d status c w).2 in
        ((get_status default_tag d c' w').0 ≡ ok (as_stored store_time status))
        ⊎ ((e : Error) × ((get_status default_tag d c' w').0 ≡ err e))
  get_status-publish_status store_time d status c c' w codec v v' fresh e =
      let w' = (publish_status d status c w).2 in
      let p = publish_status-IsPublished d status c w v e in
      let coherent =
        IsCoherent-after (status_of d) c' w w' (unfold is_immutable in refl) fresh p.others v' in
      elim (Result-cases (get_status default_tag d c' w').0) [
        | inr failure ↦ inr failure
        | inl (got, f) ↦
            let (y, there, parsed) = get_status-held default_tag content c' w' coherent d got f in
            inl (
              f
              ∙ sym parsed
              ∙ ap content.decode (some_injective (sym there ∙ p.here))
              ∙ codec status p.new p.made)
      ]
