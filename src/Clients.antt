-- ===== src/Clients.antt =====
-- pkg/clients/propagation_backend_client_oci.go: the artifacts, the interface of a backend, the
-- cached client over it and the operations of `PropagationClient`. The state of the world outside is
-- `W`; a call that reaches it returns the new one. A Go map is an association list whose first entry
-- for a key counts, so an assignment adds an entry in front.
pub mod Oci
pub mod Clientset
pub mod Registry
pub mod Fetch
pub mod Publish
pub mod Transfer
pub mod Written
pub mod Steps
pub mod Exchange
use propagation_controller.Base.{
  ℕ, String, Bool, true, false, not, ◌&&◌, ◌||◌, Option, none, some, List, [], ◌∷◌, Result, ok, err,
  Error, ◌==◌, if◌then◌else◌, nat_eq,
}
use propagation_controller.Api.{DeploymentStatus}
use propagation_controller.Config.{Config}

-- `ArtifactType`. The source makes no other value, and panics at one.
pub data ArtifactType : Type 0 where
  deploy_status manifest deploy propagation_config : ArtifactType

abbrev pub same_type : ArtifactType → ArtifactType → Bool
same_type deploy_status deploy_status = true
same_type manifest manifest = true
same_type deploy deploy = true
same_type propagation_config propagation_config = true
same_type _ _ = false

pub record ArtifactMetadata : Type 0 where
  pub deployment : String
  pub type : ArtifactType
  pub version : String

-- Equality of two keys of the cache.
unfoldable pub same_metadata : ArtifactMetadata → ArtifactMetadata → Bool
same_metadata m n =
    m.deployment == n.deployment && same_type m.type n.type && m.version == n.version

-- The contents that an artifact is made of or parsed into: the `any` of the source.
pub data Payload : Type 0 where
  status_payload : DeploymentStatus → Payload
  config_payload : Config → Payload

abbrev pub Bytes : Type 0
Bytes = List ℕ

-- `reflect.DeepEqual` of two byte slices.
unfoldable pub same_bytes : Bytes → Bytes → Bool
same_bytes [] [] = true
same_bytes (x ∷ xs) (y ∷ ys) = nat_eq x y && same_bytes xs ys
same_bytes _ _ = false

-- The interfaces `Artifact` (over the type `A`) and `PropagationBackendClient`. The bytes of an
-- artifact may be read from the registry when they are asked for first. `ParseArtifact` fills its
-- destination, so there is one for each type of destination.
pub record PropagationBackendClient (W A : Type 0) : Type 0 where
  pub digest_string : A → Result String
  pub bytes : A → W → Result Bytes × W
  pub fetch : ArtifactMetadata → W → Result A × W
  pub digest : ArtifactMetadata → W → Result String × W
  pub publish : ArtifactMetadata → A → W → Result (Unit {0}) × W
  pub new_artifact : Payload → Result A
  pub parse_status : A → W → Result DeploymentStatus × W
  pub parse_config : A → W → Result Config × W

-- The maps of `CachedPropagationBackendClient`.
pub record Cache (A : Type 0) : Type 0 where
  pub fetch_cache : List (ArtifactMetadata × A)
  pub publish_cache : List (ArtifactMetadata × A)

-- `PropagationClient` with the cached client in it.
pub record PropagationClient (W A : Type 0) : Type 0 where
  pub backend : PropagationBackendClient W A
  pub cache : Cache A

module _ {A : Type 0} where
  unfoldable pub lookup : ArtifactMetadata → List (ArtifactMetadata × A) → Option A
  lookup m [] = none
  lookup m ((n, a) ∷ entries) = if same_metadata n m then some a else lookup m entries

  -- `NewCachedPropagationBackendClient`
  abbrev pub empty_cache : Cache A
  empty_cache = record { fetch_cache = []; publish_cache = [] }

-- `NewPropagationClient`
unfoldable pub new_propagation_client :
    {W A : Type 0} → PropagationBackendClient W A → PropagationClient W A
new_propagation_client backend = record { backend = backend; cache = empty_cache }

-- Both calls returned, and the digests agree.
unfoldable pub is_fresh : Result String → Result String → Bool
is_fresh (ok cached) (ok remote) = remote == cached
is_fresh (ok cached) (err e) = false
is_fresh (err e) remote = false

-- The artifacts that `Fetch` takes from the cache unasked: manifests with a version of their own.
-- `default_tag` is `name.DefaultTag` of go-containerregistry.
unfoldable pub is_immutable : String → ArtifactMetadata → Bool
is_immutable default_tag m = same_type m.type manifest && not (m.version == default_tag)

module _ {W A : Type 0} (default_tag : String) where
  -- The last part of `Fetch`, from the call of the backend on.
  unfoldable pub fetch_through :
      ArtifactMetadata → PropagationClient W A → W → Result A × PropagationClient W A × W
  fetch_through m c w =
      let (r, w') = c.backend.fetch m w in
      elim r [
        | err e ↦ (err e, c, w')
        | ok a ↦ (
          ok a,
          record c { cache = record c.cache { fetch_cache = (m, a) ∷ c.cache.fetch_cache } },
          w',
        )
      ]

  -- `(*CachedPropagationBackendClient).Fetch`
  unfoldable pub fetch :
      ArtifactMetadata → PropagationClient W A → W → Result A × PropagationClient W A × W
  unfolding fetch_through
  fetch m c w = elim (lookup m c.cache.fetch_cache) [
    | none ↦ fetch_through m c w
    | some cached ↦
        if is_immutable default_tag m
        then (ok cached, c, w)
        else (let (remote, w') = c.backend.digest m w in
            if is_fresh (c.backend.digest_string cached) remote
            then (ok cached, c, w')
            else fetch_through m c w')
  ]

module _ {W A : Type 0} where
  -- The last part of `Publish`.
  unfoldable pub publish_through :
      ArtifactMetadata
      → A
      → PropagationClient W A
      → W
      → Result (Unit {0}) × PropagationClient W A × W
  publish_through m a c w =
      let (r, w') = c.backend.publish m a w in
      elim r [
        | err e ↦ (err e, c, w')
        | ok _ ↦ (
          ok tt,
          record c { cache = record c.cache { publish_cache = (m, a) ∷ c.cache.publish_cache } },
          w',
        )
      ]

  -- `(*CachedPropagationBackendClient).Publish`
  unfoldable pub publish :
      ArtifactMetadata
      → A
      → PropagationClient W A
      → W
      → Result (Unit {0}) × PropagationClient W A × W
  unfolding publish_through
  publish m a c w = elim (lookup m c.cache.publish_cache) [
    | none ↦ publish_through m a c w
    | some cached ↦
        let (r, w') = c.backend.bytes cached w in
        let (r', w'') = c.backend.bytes a w' in
        elim r [
          | err e ↦ (err e, c, w')
          | ok cached_bytes ↦ elim r' [
            | err e ↦ (err e, c, w'')
            | ok publish_bytes ↦
                if same_bytes cached_bytes publish_bytes
                then (ok tt, c, w'')
                else publish_through m a c w''
          ]
        ]
  ]

  unfoldable pub publish_artifact :
      ArtifactMetadata
      → Payload
      → PropagationClient W A
      → W
      → Result (Unit {0}) × PropagationClient W A × W
  publish_artifact m payload c w = elim (c.backend.new_artifact payload) [
    | err e ↦ (err e, c, w)
    | ok a ↦ publish m a c w
  ]

  unfoldable pub publish_status :
      String
      → DeploymentStatus
      → PropagationClient W A
      → W
      → Result (Unit {0}) × PropagationClient W A × W
  publish_status deployment status =
      publish_artifact (record { deployment = deployment; type = deploy_status; version = "" })
        (status_payload status)

  unfoldable pub publish_config :
      Config → PropagationClient W A → W → Result (Unit {0}) × PropagationClient W A × W
  publish_config config =
      publish_artifact (record { deployment = ""; type = propagation_config; version = "" })
        (config_payload config)

module _ {W A : Type 0} (default_tag : String) where
  -- `fetchArtifact`, with the parser for the type of its destination.
  unfoldable pub fetch_artifact {ℓ} :
      {D : Type ℓ}
      → ArtifactMetadata
      → (PropagationClient W A → A → W → Result D × W)
      → PropagationClient W A
      → W
      → Result D × PropagationClient W A × W
  fetch_artifact m parse c w =
      let (r, c', w') = fetch default_tag m c w in
      elim r [ err e ↦ (err e, c', w') | ok a ↦ (let (d, w'') = parse c' a w' in (d, c', w'')) ]

  unfoldable pub get_status :
      String → PropagationClient W A → W → Result DeploymentStatus × PropagationClient W A × W
  get_status deployment =
      fetch_artifact (record { deployment = deployment; type = deploy_status; version = "" })
        (λ c. c.backend.parse_status)

  unfoldable pub get_config : PropagationClient W A → W → Result Config × PropagationClient W A × W
  get_config =
      fetch_artifact (record { deployment = ""; type = propagation_config; version = "" })
        (λ c. c.backend.parse_config)

  unfoldable pub propagate :
      String → String → PropagationClient W A → W → Result (Unit {0}) × PropagationClient W A × W
  propagate deployment version c w =
      let (r, c', w') =
        fetch default_tag (record { deployment = deployment; type = manifest; version = version }) c
          w in
      elim r [
        | err e ↦ (err e, c', w')
        | ok artifact ↦
            publish (record { deployment = deployment; type = deploy; version = "" }) artifact c' w'
      ]
