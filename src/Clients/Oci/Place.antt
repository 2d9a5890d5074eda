-- ===== src/Clients/Oci/Place.antt =====
-- Where artifacts are kept: the places of different artifacts differ, if the library joins them so.
use mathlib.Core.Option.{some-injective}
use mathlib.Core.Path.{subst}
use propagation_controller.Base.{
  ◌≡◌, refl, sym, ap, ◌∙◌, String, true, ◌||◌, Option, none, some, ◌==◌, if◌then◌else◌, eq_iff,
}
use propagation_controller.Clients.{
  ArtifactType, deploy_status, manifest, deploy, propagation_config, ArtifactMetadata, same_type,
}
use propagation_controller.Clients.Registry.{is_canonical}
use propagation_controller.Clients.Oci.{subpath, tag_version, place}

type_of : String → Option ArtifactType
type_of s =
    if s == "statuses"
    then some deploy_status
    else if s == "manifests"
    then some manifest
    else if s == "deploy"
    then some deploy
    else if s == "config"
    then some propagation_config
    else none

type_of-subpath : (t : ArtifactType) → type_of (subpath t) ≡ some t
unfolding type_of subpath
type_of-subpath deploy_status = refl
type_of-subpath manifest = refl
type_of-subpath deploy = refl
type_of-subpath propagation_config = refl

subpath-injective : (s t : ArtifactType) → subpath s ≡ subpath t → s ≡ t
subpath-injective s t e =
    some-injective s t (sym (type_of-subpath s) ∙ ap type_of e ∙ type_of-subpath t)

same_version :
    (default_tag : String) (t : ArtifactType) (v v' : String)
    → (same_type t manifest || v == "") ≡ true
    → (same_type t manifest || v' == "") ≡ true
    → tag_version default_tag t v ≡ tag_version default_tag t v'
    → v ≡ v'
unfolding tag_version
same_version default_tag manifest v v' c c' e = e
same_version default_tag deploy_status v v' c c' e = (eq_iff v "").0 c ∙ sym ((eq_iff v' "").0 c')
same_version default_tag deploy v v' c c' e = (eq_iff v "").0 c ∙ sym ((eq_iff v' "").0 c')
same_version default_tag propagation_config v v' c c' e =
    (eq_iff v "").0 c ∙ sym ((eq_iff v' "").0 c')

-- Let the library's references tell the subpath, the deployment and the tag apart. Then artifacts of
-- one place that are manifests or without a version are the same.
pub place-injective :
    {Repository : Type 0} (reference : Repository → String → String → String → String)
    (default_tag : String) (repository : Repository)
    → ((s s' d d' t t' : String)
        → reference repository s d t ≡ reference repository s' d' t'
        → (s ≡ s') × (d ≡ d') × (t ≡ t'))
    → (m n : ArtifactMetadata) → is_canonical m ≡ true
    → is_canonical n ≡ true
    → place reference default_tag repository m ≡ place reference default_tag repository n
    → m ≡ n
unfolding place
place-injective reference default_tag repository apart m n c c' e =
    let (s, d, t) = apart _ _ _ _ _ _ e in
    let same = subpath-injective m.type n.type s in
    let version : m.version ≡ n.version =
      same_version default_tag m.type m.version n.version c
        (subst (λ u. (same_type u manifest || n.version == "") ≡ true) (sym same) c')
        (t ∙ ap (λ u. tag_version default_tag u n.version) (sym same)) in
    λ i. record { deployment = d i; type = same i; version = version i }
