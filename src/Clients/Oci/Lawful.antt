-- ===== src/Clients/Oci/Lawful.antt =====
-- The client of an OCI repository is a client of a registry as the cached client relies on it.
use propagation_controller.Base.{
  ◌≡◌, ◌≢◌, ap, ℤ, ◌∙◌, String, Option, none, some, Result, ok, err, if◌then◌else◌, err-ne-ok,
  ok_injective, >>=-eq-ok,
}
use propagation_controller.Base.Fallible.{◌>>=◌}
use propagation_controller.Api.{DeploymentStatus}
use propagation_controller.Clients.Exchange.{as_stored}
use propagation_controller.Clients.{status_payload, ArtifactMetadata, Bytes}
use propagation_controller.Clients.Registry.{is_canonical, Contents}
use propagation_controller.Clients.Oci.{
  ImageLibrary, Json, OciArtifact, Heap, place, fresh_artifact, oci_client,
}

-- What is relied on of the image library and of a registry that nobody else writes during a call.
-- `stored` is what the registry holds at a reference, and `exported` are the contents of an image.
pub record IsImageLibrary {W Image Auth Repository : Type 0} (lib : ImageLibrary W Image Auth)
    (heap : Heap W Image) (reference : Repository → String → String → String → String)
    (stored : W → String → Option Bytes) (exported : Image → Bytes) : Type 0 where
  -- The text of a reference tells what it was joined of. The source does not escape the parts that it
  -- hands over, so with a library that joins them by `/` and `:` this stands for deployments and
  -- versions whose names have neither of these in them, and no part `..`.
  pub apart :
      (repository : Repository) (s s' d d' t t' : String)
      → reference repository s d t ≡ reference repository s' d' t'
      → (s ≡ s') × (d ≡ d') × (t ≡ t')
  pub pull_reads :
      (r : String) (auth : Option Auth) (w : W) (i : Image)
      → (lib.pull r auth w).0 ≡ ok i
      → stored w r ≡ some (exported i)
  pub pull_keeps :
      (r q : String) (auth : Option Auth) (w : W) → stored (lib.pull r auth w).1 q ≡ stored w q
  -- The digest of an image is that of its contents.
  pub digest_reads :
      (r : String) (auth : Option Auth) (w : W) (i : Image) (d : String)
      → (lib.remote_digest r auth w).0 ≡ ok d
      → lib.image_digest i ≡ ok d
      → stored w r ≡ some (exported i)
  pub digest_keeps :
      (r q : String) (auth : Option Auth) (w : W)
      → stored (lib.remote_digest r auth w).1 q ≡ stored w q
  pub push_writes :
      (i : Image) (r : String) (auth : Option Auth) (w : W)
      → (lib.push i r auth w).0 ≡ ok tt
      → stored (lib.push i r auth w).1 r ≡ some (exported i)
  pub push_keeps :
      (i : Image) (r q : String) (auth : Option Auth) (w : W)
      → r ≢ q
      → stored (lib.push i r auth w).1 q ≡ stored w q
  pub push_fails :
      (i : Image) (r : String) (auth : Option Auth) (w : W) (e : String)
      → (lib.push i r auth w).0 ≡ err e
      → stored (lib.push i r auth w).1 r ≡ stored w r
  pub export_reads : (i : Image) (w : W) (y : Bytes) → (lib.export i w).0 ≡ ok y → exported i ≡ y
  pub export_keeps : (i : Image) (q : String) (w : W) → stored (lib.export i w).1 q ≡ stored w q
  -- The artifacts keep what was exported, and memory is not the registry.
  pub get_data_reads :
      (a : OciArtifact Image) (w : W) (y : Bytes)
      → heap.get_data a w ≡ some y
      → exported a.image ≡ y
  pub set_data_keeps :
      (a : OciArtifact Image) (y : Bytes) (q : String) (w : W)
      → stored (heap.set_data a y w) q ≡ stored w q

module _ {W Image Auth Repository : Type 0} (default_tag : String) (lib : ImageLibrary W Image Auth)
    (json : Json) (reference : Repository → String → String → String → String) (heap : Heap W Image)
    (stored : W → String → Option Bytes) (exported : Image → Bytes)
    (law : IsImageLibrary lib heap reference stored exported) (repository : Repository)
    (auth : Option Auth) where
  -- What the registry holds, by the metadata of artifacts that have one place each.
  abbrev pub oci_contents : Contents W (OciArtifact Image)
  oci_contents = record {
    held =
        λ w m. if is_canonical m then stored w (place reference default_tag repository m) else none;
    raw = λ a. exported a.image;
    decode = json.unmarshal_status;
  }

  abbrev place_of : ArtifactMetadata → String
  place_of = place reference default_tag repository

  fresh_artifact-ok :
      (r : Result Image) (a : OciArtifact Image) → fresh_artifact r ≡ ok a → r ≡ ok a.image
  fresh_artifact-ok (ok i) a e = ap (λ (a : OciArtifact Image). ok a.image) (ok_injective e)
  fresh_artifact-ok (err x) a e = absurd (err-ne-ok e)

  pub oci_client-IsCodec :
      (store_time : ℤ → ℤ)
      → ((y : Bytes) (i : Image) → lib.layer_image y ≡ ok i → exported i ≡ y)
      → ((status : DeploymentStatus) (y : Bytes)
          → json.marshal (status_payload status) ≡ ok y
          → json.unmarshal_status y ≡ ok (as_stored store_time status))
      → (status : DeploymentStatus) (a : OciArtifact Image)
      → (oci_client default_tag lib json reference heap repository auth).new_artifact
          (status_payload status)
        ≡ ok a
      → oci_contents.decode (oci_contents.raw a) ≡ ok (as_stored store_time status)
  unfolding oci_client
  oci_client-IsCodec store_time layers reads status a made =
      let (y, written, layered) =
        >>=-eq-ok (json.marshal (status_payload status)) (λ y. lib.layer_image y)
          (fresh_artifact-ok (json.marshal (status_payload status) >>= λ y. lib.layer_image y) a
            made) in
      ap json.unmarshal_status (layers y a.image layered) ∙ reads status y written
