-- ===== src/Clients/Registry.antt =====
-- What the cached client relies on of a registry: reads tell what it holds and change nothing, a
-- write puts the artifact's bytes in its place and no other, and equal digests mean equal bytes.
-- These are properties of a content-addressed store that nobody else writes during a call.
use propagation_controller.Base.{
  ◌≡◌, ◌∙◌, String, Bool, true, false, ◌||◌, ◌==◌, Option, some, Result, ok, err, arith, eq_iff,
}
use propagation_controller.Api.{DeploymentStatus}
use propagation_controller.Clients.{
  Bytes, manifest, ArtifactType, same_type, ArtifactMetadata, same_metadata,
  PropagationBackendClient, lookup, PropagationClient, is_immutable, new_propagation_client,
}

-- The artifacts whose place is told by their metadata alone: the source gives a version to manifests
-- only, and a backend need not look at that of any other artifact.
abbrev pub is_canonical : ArtifactMetadata → Bool
is_canonical m = same_type m.type manifest || m.version == ""

-- `held` is what the registry holds: the bytes at the place of an artifact. `raw` are the bytes of an
-- artifact in hand, once they could be read, and `decode` is how a status is parsed from bytes.
pub record Contents (W A : Type 0) : Type 0 where
  pub held : W → ArtifactMetadata → Option Bytes
  pub raw : A → Bytes
  pub decode : Bytes → Result DeploymentStatus

pub record IsRegistry {W A : Type 0} (b : PropagationBackendClient W A) (content : Contents W A)
    : Type 0 where
  pub fetch_reads :
      (m : ArtifactMetadata) (w : W) (a : A)
      → is_canonical m ≡ true
      → (b.fetch m w).0 ≡ ok a
      → content.held w m ≡ some (content.raw a)
  pub fetch_keeps :
      (m n : ArtifactMetadata) (w : W) → content.held (b.fetch m w).1 n ≡ content.held w n
  pub digest_reads :
      (m : ArtifactMetadata) (w : W) (a : A) (d : String)
      → is_canonical m ≡ true
      → (b.digest m w).0 ≡ ok d
      → b.digest_string a ≡ ok d
      → content.held w m ≡ some (content.raw a)
  pub digest_keeps :
      (m n : ArtifactMetadata) (w : W) → content.held (b.digest m w).1 n ≡ content.held w n
  pub publish_writes :
      (m : ArtifactMetadata) (a : A) (w : W)
      → is_canonical m ≡ true
      → (b.publish m a w).0 ≡ ok tt
      → content.held (b.publish m a w).1 m ≡ some (content.raw a)
  pub publish_keeps :
      (m n : ArtifactMetadata) (a : A) (w : W)
      → is_canonical m ≡ true
      → same_metadata m n ≡ false
      → content.held (b.publish m a w).1 n ≡ content.held w n
  pub publish_fails :
      (m : ArtifactMetadata) (a : A) (w : W) (e : String)
      → is_canonical m ≡ true
      → (b.publish m a w).0 ≡ err e
      → content.held (b.publish m a w).1 m ≡ content.held w m
  pub bytes_reads : (a : A) (w : W) (y : Bytes) → (b.bytes a w).0 ≡ ok y → content.raw a ≡ y
  pub bytes_keeps :
      (a : A) (n : ArtifactMetadata) (w : W) → content.held (b.bytes a w).1 n ≡ content.held w n
  pub status_reads :
      (a : A) (w : W) (status : DeploymentStatus)
      → (b.parse_status a w).0 ≡ ok status
      → content.decode (content.raw a) ≡ ok status
  pub status_keeps :
      (a : A) (n : ArtifactMetadata) (w : W)
      → content.held (b.parse_status a w).1 n ≡ content.held w n
  pub config_keeps :
      (a : A) (n : ArtifactMetadata) (w : W)
      → content.held (b.parse_config a w).1 n ≡ content.held w n

pub same_type_eq : (s t : ArtifactType) → same_type s t ≡ true → s ≡ t
same_type_eq s t h = ground arith

pub same_metadata_eq : (m n : ArtifactMetadata) → same_metadata m n ≡ true → m ≡ n
unfolding same_metadata
same_metadata_eq m n h = ground (
  arith,
  eq_iff m.deployment n.deployment,
  eq_iff m.version n.version,
  same_type_eq m.type n.type,
)

pub same_metadata_refl : (m : ArtifactMetadata) → same_metadata m m ≡ true
unfolding same_metadata
same_metadata_refl m = ground (arith, eq_iff m.deployment m.deployment, eq_iff m.version m.version)

-- Each manifest in the fetch cache that is served unasked has the bytes that the registry holds, and
-- so has each artifact in the publish cache.
pub record IsCoherent {W A : Type 0} (default_tag : String) (content : Contents W A)
    (c : PropagationClient W A) (w : W) : Type 0 where
  pub registry : IsRegistry c.backend content
  pub manifests :
      (m : ArtifactMetadata) (a : A)
      → is_immutable default_tag m ≡ true
      → lookup m c.cache.fetch_cache ≡ some a
      → content.held w m ≡ some (content.raw a)
  pub published :
      (m : ArtifactMetadata) (a : A)
      → lookup m c.cache.publish_cache ≡ some a
      → content.held w m ≡ some (content.raw a)

module _ {W A : Type 0} (default_tag : String) (content : Contents W A) where
  -- The world may change as long as the registry's content does not.
  pub IsCoherent-world :
      (c : PropagationClient W A) (w w' : W)
      → ((n : ArtifactMetadata) → content.held w' n ≡ content.held w n)
      → IsCoherent default_tag content c w
      → IsCoherent default_tag content c w'
  IsCoherent-world c w w' same v = record {
    registry = v.registry;
    manifests = λ m a i e. same m ∙ v.manifests m a i e;
    published = λ m a e. same m ∙ v.published m a e;
  }

  -- A new client's caches are empty.
  pub new_propagation_client-IsCoherent :
      (b : PropagationBackendClient W A) (w : W)
      → IsRegistry b content
      → IsCoherent default_tag content (new_propagation_client b) w
  unfolding new_propagation_client lookup
  new_propagation_client-IsCoherent b w r = record {
    registry = r;
    manifests = λ m a i e. absurd (ground arith);
    published = λ m a e. absurd (ground arith);
  }
