-- ===== src/Clients/Oci.antt =====
-- `OCIPropagationBackendClient` and `newPropagationBackendClient`. The image library (crane, mutate,
-- static, name), `encoding/json`, `net/url` and the parsers of a repository's name and of a docker
-- configuration are parameters. An artifact is a pointer to an image and to the bytes that `Bytes`
-- keeps of it. Each artifact has an image of its own, so it stands for the pointer, and the field
-- `data` is in the world: `Heap` reads and assigns it.
pub mod Place
pub mod Lawful
pub mod Url
use Prim.Native.Char.{code}
use Prim.Native.String.{◌++◌ as append}
use propagation_controller.Base.{
  ℕ, String, Bool, true, false, Option, none, some, Result, ok, err, ◌==◌, if◌then◌else◌, nat_eq,
}
use propagation_controller.Base.Fallible.{◌>>=◌}
use mathlib.Core.Option
use propagation_controller.Api.{DeploymentStatus}
use propagation_controller.Config.{Config}
use propagation_controller.Clients.{
  ArtifactType, deploy_status, manifest, deploy, propagation_config, ArtifactMetadata, Payload,
  Bytes, PropagationBackendClient,
}

-- What the client calls of the image library. A reference is the text of `Tag(version).Name()`. An
-- image that was pulled has its layers read from the registry when they are exported.
pub record ImageLibrary (W Image Auth : Type 0) : Type 0 where
  pub image_digest : Image → Result String
  pub export : Image → W → Result Bytes × W
  pub pull : String → Option Auth → W → Result Image × W
  pub remote_digest : String → Option Auth → W → Result String × W
  pub push : Image → String → Option Auth → W → Result (Unit {0}) × W
  pub layer_image : Bytes → Result Image

-- What it calls of `encoding/json`.
pub record Json : Type 0 where
  pub marshal : Payload → Result Bytes
  pub unmarshal_status : Bytes → Result DeploymentStatus
  pub unmarshal_config : Bytes → Result Config

pub record OciArtifact (Image : Type 0) : Type 0 where
  pub image : Image

-- The field `data` of an artifact; `none` is nil.
pub record Heap (W Image : Type 0) : Type 0 where
  pub get_data : OciArtifact Image → W → Option Bytes
  pub set_data : OciArtifact Image → Bytes → W → W

-- The subpath and the tag that `ociTagFromArtifactMetadata` chooses.
unfoldable pub subpath : ArtifactType → String
subpath deploy_status = "statuses"
subpath manifest = "manifests"
subpath deploy = "deploy"
subpath propagation_config = "config"

unfoldable pub tag_version : String → ArtifactType → String → String
tag_version default_tag manifest version = version
tag_version default_tag deploy_status version = default_tag
tag_version default_tag deploy version = default_tag
tag_version default_tag propagation_config version = default_tag

-- `ociTagFromArtifactMetadata`: the text that the library joins of the repository, the subpath, the
-- deployment and the tag.
unfoldable pub place :
    {Repository : Type 0}
    → (Repository → String → String → String → String)
    → String
    → Repository
    → ArtifactMetadata
    → String
unfolding subpath tag_version
place reference default_tag repository m =
    reference repository (subpath m.type) m.deployment (tag_version default_tag m.type m.version)

-- `&ociArtifact{image: image}`, or the error instead of the image.
abbrev pub fresh_artifact : {Image : Type 0} → Result Image → Result (OciArtifact Image)
fresh_artifact (ok image) = ok (record { image = image })
fresh_artifact (err e) = err e

module _ {W Image Auth Repository : Type 0} (default_tag : String) (lib : ImageLibrary W Image Auth)
    (json : Json) (reference : Repository → String → String → String → String)
    (heap : Heap W Image) where
  -- `Bytes`
  unfoldable pub oci_bytes : OciArtifact Image → W → Result Bytes × W
  oci_bytes a w = elim (heap.get_data a w) [
    | some kept ↦ (ok kept, w)
    | none ↦
        let (r, w') = lib.export a.image w in
        elim r [ err e ↦ (err e, w') | ok extracted ↦ (ok extracted, heap.set_data a extracted w') ]
  ]

  -- `ParseArtifact`, with `json.Unmarshal` for the type of its destination
  unfoldable pub oci_parse {ℓ} :
      {D : Type ℓ} → (Bytes → Result D) → OciArtifact Image → W → Result D × W
  unfolding oci_bytes
  oci_parse unmarshal a w =
      let (artifact_data, w') = oci_bytes a w in (artifact_data >>= unmarshal, w')

  -- The methods, for the fields `repository` and `auth`.
  unfoldable pub oci_client :
      Repository → Option Auth → PropagationBackendClient W (OciArtifact Image)
  unfolding place oci_bytes oci_parse
  oci_client repository auth = record {
    digest_string = λ a. lib.image_digest a.image;
    bytes = oci_bytes;
    fetch = λ m w.
        let (r, w') = lib.pull (place reference default_tag repository m) auth w in
        (fresh_artifact r, w');
    digest = λ m w. lib.remote_digest (place reference default_tag repository m) auth w;
    publish = λ m a w. lib.push a.image (place reference default_tag repository m) auth w;
    new_artifact = λ payload.
        fresh_artifact (json.marshal payload >>= λ artifact_json. lib.layer_image artifact_json);
    parse_status = oci_parse json.unmarshal_status;
    parse_config = oci_parse json.unmarshal_config;
  }

-- `strings.TrimPrefix`
unfoldable pub strip : String → String → Option String
strip String.[] s = some s
strip (String.◌∷◌ c p) String.[] = none
strip (String.◌∷◌ c p) (String.◌∷◌ d s) = if nat_eq (code c) (code d) then strip p s else none

unfoldable pub trim_prefix : String → String → String
unfolding strip
trim_prefix s prefix = Option.get_or (strip prefix s) s

-- `scheme`: `parse` is `url.Parse`, and `scheme_of` the field `Scheme` of what it returns.
unfoldable pub scheme :
    {Url : Type 0} → (String → Result Url) → (Url → String) → String → Result String
scheme parse scheme_of base_url = elim (parse base_url) [ err e ↦ err e | ok u ↦ ok (scheme_of u) ]

-- `url_scheme` is `scheme` with the parser of URLs.
module _ (url_scheme : String → Result String) where
  unfoldable pub trim_scheme : String → Result String
  unfolding trim_prefix
  trim_scheme base_url = do
    scheme ← url_scheme base_url
    ok (trim_prefix base_url (append scheme "://"))

-- `fmt.Errorf` with a verb `%w` at the end.
abbrev pub wrap_error {ℓ} : {A : Type ℓ} → String → Result A → Result A
wrap_error prefix (ok a) = ok a
wrap_error prefix (err e) = err (append prefix e)

-- The entry `.dockerconfigjson` of the secret's data.
abbrev pub auth_of {ℓ} :
    {Auth : Type ℓ} → (Bytes → Result Auth) → Option Bytes → Result (Option Auth)
auth_of parse_auth none = ok none
auth_of parse_auth (some b) = do
  auth ← wrap_error "failed to parse docker auth config: " (parse_auth b)
  ok (some auth)

module _ {W Image Auth Repository : Type 0} (default_tag : String) (lib : ImageLibrary W Image Auth)
    (json : Json) (reference : Repository → String → String → String → String) (heap : Heap W Image)
    (url_scheme : String → Result String) (new_repository : String → Result Repository)
    (parse_auth : Bytes → Result Auth) where
  -- The case `"oci"` of the `switch`.
  unfoldable pub oci_backend :
      String → Option Bytes → Result (PropagationBackendClient W (OciArtifact Image))
  oci_backend url secret_data = do
    repository ← wrap_error "failed to parse OCI repository: " (new_repository url)
    auth ← auth_of parse_auth secret_data
    ok (oci_client default_tag lib json reference heap repository auth)

  unfoldable pub new_propagation_backend_client :
      String → Option Bytes → Result (PropagationBackendClient W (OciArtifact Image))
  unfolding trim_scheme oci_backend
  new_propagation_backend_client base_url secret_data = do
    protocol ← url_scheme base_url
    url ← trim_scheme url_scheme base_url
    if protocol == "oci"
        then oci_backend url secret_data
        else err (append protocol " backend not supported")

  -- `NewPropagationBackendClient`, for a repository without credentials
  unfoldable pub public_backend_client :
      String → Result (PropagationBackendClient W (OciArtifact Image))
  unfolding new_propagation_backend_client
  public_backend_client base_url = new_propagation_backend_client base_url none
