-- ===== src/Controller/System/Honest.antt =====
-- The backends of the program are those that the theorems about the reconciler ask for.
use Prim.Native.String.{◌++◌ as append}
use propagation_controller.Base.{String, Option, Result}
use propagation_controller.Clients.{Bytes, PropagationBackendClient}
use propagation_controller.Clients.Oci.{
  ImageLibrary, Json, OciArtifact, Heap, new_propagation_backend_client,
}
use propagation_controller.Clients.Oci.Lawful.{IsImageLibrary}
use propagation_controller.Controller.{Cluster}

module _ {W Image Auth Repository : Type 0} (default_tag : String) (lib : ImageLibrary W Image Auth)
    (json : Json) (reference : Repository → String → String → String → String) (heap : Heap W Image)
    (url_scheme : String → Result String) (new_repository : String → Result Repository)
    (parse_auth : Bytes → Result Auth) (stored : W → String → Option Bytes)
    (exported : Image → Bytes) (law : IsImageLibrary lib heap reference stored exported)
    (cluster : Cluster W) (base_url scheme : String) (repository : Repository) where
  abbrev make : String → Option Bytes → Result (PropagationBackendClient W (OciArtifact Image))
  make =
      new_propagation_backend_client default_tag lib json reference heap url_scheme new_repository
        parse_auth
