-- ===== src/Tests/Kpctl.antt =====
-- The command in a repository with one configuration, beside another file.
use propagation_controller.Base.{
  ◌≡◌, refl, String, Bool, true, false, none, [], ◌∷◌, All, Result, ok, contains, ◌==◌,
  if◌then◌else◌,
}
use propagation_controller.Clients.{
  Bytes, PropagationBackendClient, publish_config, publish_artifact, publish,
  new_propagation_client, lookup, same_metadata,
}
use propagation_controller.Kpctl.{
  Formats, Entry, Files, yaml_to_json, find_configs, publish_files, publish_configs,
}
use propagation_controller.Kpctl.Order.{Published, config_paths, publish_configs-Published}
use propagation_controller.Tests.Clients.{World, registry}

abbrev pub formats : Formats Bytes
formats = record {
  read_yaml = λ b. ok b;
  write_json = λ b. ok b;
  read_json =
      λ b. ok (record { backend = "oci://registry/app"; config = record { environments = [] } });
}

abbrev entry : String → Bool → Entry
entry path is_dir = record { path = path; is_dir = is_dir; failure = none }

abbrev pub files : Files World String
files = record {
  read_file = λ path w. ok [];
  open_repository = λ path w. ok path;
  work_tree = λ repo. ok "/app";
  join = λ a b. a;
  extension = λ path. if path == "/app/a.yaml" then ".yaml" else ".md";
  walk = λ path w. entry "/app" true ∷ entry "/app/a.yaml" false ∷ entry "/app/b.md" false ∷ [];
}

abbrev pub new_backend : String → Result (PropagationBackendClient World String)
new_backend base_url = ok registry

finds_one : find_configs files "." [] ≡ ok ("/app/a.yaml" ∷ [])
unfolding find_configs contains
finds_one = refl

publish_configs-Published_example :
    (repo : String) × (root : String) × (◌≡◌ {A = Result String} (ok ".") (ok repo))
    × (◌≡◌ {A = Result String} (ok "/app") (ok root))
    × All (λ e. e.failure ≡ none) (files.walk (files.join root ".kuberik") [])
    × Published files formats new_backend
        (config_paths files (files.walk (files.join root ".kuberik") []))
        []
        (publish_configs files formats new_backend []).1
publish_configs-Published_example = publish_configs-Published files formats new_backend [] (
    unfold publish_configs find_configs contains publish_files publish_config publish_artifact
      publish new_propagation_client lookup same_metadata yaml_to_json in
    refl)
