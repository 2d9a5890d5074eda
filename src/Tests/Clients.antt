-- ===== src/Tests/Clients.antt =====
-- A registry that is a list of artifacts, each a text that is its own digest, and clients of it.
use Prim.Native.Char.{code}
use mathlib.Core.Option
use propagation_controller.Base.{
  if◌then◌else◌, ◌≡◌, refl, sym, ap, ◌∙◌, String, false, List, [], ◌∷◌, Option, none, some, Result,
  ok, err, ok_injective, err-ne-ok,
}
use propagation_controller.Api.{DeploymentStatus}
use propagation_controller.Config.{Config}
use propagation_controller.Clients.{
  same_bytes, ArtifactMetadata, Bytes, PropagationBackendClient, PropagationClient, Payload, lookup,
  same_metadata, new_propagation_client, fetch, publish, propagate, is_immutable,
}
use propagation_controller.Clients.Registry.{
  Contents, IsRegistry, IsCoherent, new_propagation_client-IsCoherent, same_metadata_refl,
}
use propagation_controller.Clients.Fetch.{IsRead, fetch-IsRead}
use propagation_controller.Clients.Publish.{IsWrite, publish-IsWrite}
use propagation_controller.Clients.Transfer.{
  IsTransfer, manifest_of, deploy_of, propagate-IsTransfer,
}
use propagation_controller.Clients.Clientset.{
  NamespacedName, PropagationClientset, key_of, find_client, secret_of, propagation, same_name,
}
use propagation_controller.Clients.Clientset.Switch.{cache_of, propagation-ok, publish_after_switch}
use propagation_controller.Tests.Config.{propagation_of}
use propagation_controller.Tests.Controller.{healthy_at}

abbrev pub World : Type 0
World = List (ArtifactMetadata × String)

abbrev pub codes : String → Bytes
codes String.[] = []
codes (String.◌∷◌ c s) = code c ∷ codes s

abbrev or_not_found : Option String → Result String
or_not_found none = err "not found"
or_not_found (some a) = ok a

-- The text of a version is read as the status healthy at it.
unfoldable pub decode : Bytes → Result DeploymentStatus
decode y =
    if same_bytes y (codes "v1")
    then ok (healthy_at "v1" 0)
    else if same_bytes y (codes "v2")
    then ok (healthy_at "v2" 0)
    else err "not a status"

abbrev pub content : Contents World String
content = record { held = λ w m. Option.map codes (lookup m w); raw = codes; decode = decode }

-- What is made of a payload and parsed as a configuration is left open.
abbrev pub registry_with :
    (Payload → Result String) → (String → Result Config) → PropagationBackendClient World String
registry_with new_artifact parse_config = record {
  digest_string = λ a. ok a;
  bytes = λ a w. (ok (codes a), w);
  fetch = λ m w. (or_not_found (lookup m w), w);
  digest = λ m w. (or_not_found (lookup m w), w);
  publish = λ m a w. (ok tt, (m, a) ∷ w);
  new_artifact = new_artifact;
  parse_status = λ a w. (decode (codes a), w);
  parse_config = λ a w. (parse_config a, w);
}

abbrev pub registry : PropagationBackendClient World String
registry = registry_with (λ payload. ok "payload") (λ a. err "not a configuration")

or_not_found_ok : (o : Option String) (a : String) → or_not_found o ≡ ok a → o ≡ some a
or_not_found_ok none a e = absurd (err-ne-ok e)
or_not_found_ok (some b) a e = ap some (ok_injective e)

lookup_put : (m : ArtifactMetadata) (a : String) (w : World) → lookup m ((m, a) ∷ w) ≡ some a
unfolding lookup
lookup_put m a w = rw (same_metadata_refl m)

lookup_put_other :
    (m n : ArtifactMetadata) (a : String) (w : World)
    → same_metadata m n ≡ false
    → lookup n ((m, a) ∷ w) ≡ lookup n w
unfolding lookup
lookup_put_other m n a w e = rw e

pub registry_with-IsRegistry :
    (new_artifact : Payload → Result String) (parse_config : String → Result Config)
    → IsRegistry (registry_with new_artifact parse_config) content
registry_with-IsRegistry new_artifact parse_config = record {
  fetch_reads = λ m w a c e. ap (Option.map codes) (or_not_found_ok (lookup m w) a e);
  fetch_keeps = λ m n w. refl;
  digest_reads = λ m w a d c e f.
      ap (Option.map codes) (or_not_found_ok (lookup m w) d e)
      ∙ ap (λ a. some (codes a)) (ok_injective (sym f));
  digest_keeps = λ m n w. refl;
  publish_writes = λ m a w c _. ap (Option.map codes) (lookup_put m a w);
  publish_keeps = λ m n a w c e. ap (Option.map codes) (lookup_put_other m n a w e);
  publish_fails = λ m a w x c e. absurd (err-ne-ok (sym e));
  bytes_reads = λ a w y e. ok_injective e;
  bytes_keeps = λ a n w. refl;
  status_reads = λ a w status e. e;
  status_keeps = λ a n w. refl;
  config_keeps = λ a n w. refl;
}

pub registry-IsRegistry : IsRegistry registry content
registry-IsRegistry = registry_with-IsRegistry _ _

abbrev client : PropagationClient World String
client = record { backend = registry; cache = record { fetch_cache = []; publish_cache = [] } }

abbrev world : World
world = (manifest_of "prod" "v1", "image one") ∷ []

client-IsCoherent : IsCoherent "latest" content client world
unfolding new_propagation_client
client-IsCoherent =
    new_propagation_client-IsCoherent "latest" content registry world registry-IsRegistry

propagate_copies :
    lookup (deploy_of "prod") (propagate "latest" "prod" "v1" client world).2 ≡ some "image one"
unfolding propagate fetch publish lookup same_metadata is_immutable
propagate_copies = refl

fetch-IsRead_example :
    IsRead "latest" content registry
      (manifest_of "prod" "v1")
      world
      (fetch "latest" (manifest_of "prod" "v1") client world)
fetch-IsRead_example =
    fetch-IsRead "latest" content (manifest_of "prod" "v1") client world refl client-IsCoherent

publish-IsWrite_example :
    IsWrite "latest" content registry
      (deploy_of "prod")
      "image two"
      world
      (publish (deploy_of "prod") "image two" client world)
unfolding is_immutable
publish-IsWrite_example =
    publish-IsWrite "latest" content (deploy_of "prod") "image two" client refl refl world
      client-IsCoherent

propagate-IsTransfer_example :
    IsTransfer "latest" content registry "prod" "v1" world
      (propagate "latest" "prod" "v1" client world)
propagate-IsTransfer_example =
    propagate-IsTransfer "latest" content "prod" "v1" client world client-IsCoherent

abbrev pub get_secret : NamespacedName → World → Result (Option Bytes) × World
get_secret key w = (err "no secret", w)

abbrev new_backend : String → Option Bytes → Result (PropagationBackendClient World String)
new_backend base_url secret_data = ok registry

-- A clientset whose client for `prod-1` has published `image one`.
abbrev used : PropagationClient World String
used = record client {
  cache = record { fetch_cache = []; publish_cache = (deploy_of "prod-1", "image one") ∷ [] };
}

abbrev clientset : PropagationClientset World String
clientset = record { clients = (key_of (propagation_of "prod-1"), used) ∷ [] }

propagation-ok_example :
    (secret_data : Option Bytes) × ((secret_of get_secret new_backend
        (propagation_of "prod-1")
        []).0
      ≡ ok secret_data)
    × (new_backend "oci://registry/app" secret_data ≡ ok registry)
    × (used.cache ≡ cache_of (find_client (key_of (propagation_of "prod-1")) clientset.clients))
    × (find_client
          (key_of (propagation_of "prod-1"))
          (propagation get_secret new_backend (propagation_of "prod-1") clientset []).1.clients
        ≡ some used)
propagation-ok_example =
    propagation-ok get_secret new_backend (propagation_of "prod-1") clientset [] used
      (unfold propagation find_client same_name in refl)

-- The registry is empty, and the publication succeeds without a call of it.
publish_after_switch_example : publish (deploy_of "prod-1") "image one" used [] ≡ (ok tt, used, [])
publish_after_switch_example =
    publish_after_switch get_secret new_backend (propagation_of "prod-1") clientset [] used used
      (deploy_of "prod-1") "image one" "image one" (codes "image one") []
      (unfold find_client same_name in refl) (unfold lookup same_metadata in refl)
      (unfold propagation find_client same_name in refl) refl refl
