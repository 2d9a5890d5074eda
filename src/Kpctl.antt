-- ===== src/Kpctl.antt =====
-- cmd/kpctl/cmd/publish.go: the command that publishes a repository's configurations. The files, the
-- work tree and the parsers of YAML and JSON are parameters, as is the function that makes a backend
-- client of a base URL.
pub mod Order
pub mod Outside
pub mod Command
use Prim.Native.String.{◌++◌ as append}
use propagation_controller.Base.{
  String, Bool, true, false, not, ◌&&◌, Option, none, some, List, [], ◌∷◌, Result, ok, err, Error,
  contains, if◌then◌else◌,
}
use propagation_controller.Config.{Config, PropagationConfig}
use propagation_controller.Clients.{
  Bytes, PropagationBackendClient, new_propagation_client, publish_config,
}

-- What is used of `encoding/json` and of yaml.v3: a `Document` is the map that YAML is read into.
pub record Formats (Document : Type 0) : Type 0 where
  pub read_yaml : Bytes → Result Document
  pub write_json : Document → Result Bytes
  pub read_json : Bytes → Result PropagationConfig

-- A file that `filepath.Walk` visits: its path, whether it is a directory, and the error it reports.
pub record Entry : Type 0 where
  pub path : String
  pub is_dir : Bool
  pub failure : Option Error

-- `repo.Worktree` and the walk below a directory, which ends where the callback returns an error.
pub record Files (W Repo : Type 0) : Type 0 where
  pub read_file : String → W → Result Bytes
  pub open_repository : String → W → Result Repo
  pub work_tree : Repo → Result String
  pub join : String → String → String
  pub extension : String → String
  pub walk : String → W → List Entry

abbrev pub wrap {ℓ} : {A : Type ℓ} → String → Result A → Result A
wrap prefix (ok a) = ok a
wrap prefix (err e) = err (append prefix e)

-- `yamlToJSON`
unfoldable pub yaml_to_json : {Document : Type 0} → Formats Document → Bytes → Result Bytes
yaml_to_json formats yaml_content =
    elim (wrap "failed to parse yaml: " (formats.read_yaml yaml_content)) [
      | err e ↦ err e
      | ok config ↦ wrap "failed to marshal json: " (formats.write_json config)
    ]

-- The extensions that the walk accepts.
abbrev pub yaml_extensions : List String
yaml_extensions = ".yaml" ∷ ".yml" ∷ []

module _ {W Repo : Type 0} (files : Files W Repo) where
  abbrev pub is_config : Entry → Bool
  is_config entry = not entry.is_dir && contains yaml_extensions (files.extension entry.path)

  -- The walk with its callback.
  unfoldable pub collect : List Entry → Result (List String)
  collect [] = ok []
  collect (entry ∷ entries) =
      let rest = collect entries in
      elim entry.failure [
        | some e ↦ err e
        | none ↦ elim rest [
          | err e ↦ err e
          | ok paths ↦ ok (if is_config entry then entry.path ∷ paths else paths)
        ]
      ]

  -- `findConfigs`
  unfoldable pub find_configs : String → W → Result (List String)
  unfolding collect
  find_configs repo_path w =
      elim (wrap "failed to open git repository: " (files.open_repository repo_path w)) [
        | err e ↦ err e
        | ok repo ↦ elim (wrap "failed to get git worktree: " (files.work_tree repo)) [
          | err e ↦ err e
          | ok root_dir ↦
              wrap "failed to find configs: "
                (collect (files.walk (files.join root_dir ".kuberik") w))
        ]
      ]

  module _ {Document A : Type 0} (formats : Formats Document)
      (new_backend : String → Result (PropagationBackendClient W A)) where
    -- `publishConfig` up to the publication.
    unfoldable pub load_config : String → W → Result PropagationConfig
    unfolding yaml_to_json
    load_config path w = elim (wrap "failed to read file: " (files.read_file path w)) [
      | err e ↦ err e
      | ok content ↦ elim (wrap "failed to marshal config: " (yaml_to_json formats content)) [
        | err e ↦ err e
        | ok content_json ↦ wrap "failed to parse config: " (formats.read_json content_json)
      ]
    ]

    -- `publishConfig`
    unfoldable pub publish_file : String → W → Result (Unit {0}) × W
    unfolding load_config
    publish_file path w = elim (load_config path w) [
      | err e ↦ (err e, w)
      | ok cfg ↦ elim (wrap "failed to create backend client: " (new_backend cfg.backend)) [
        | err e ↦ (err e, w)
        | ok backend_client ↦
            let (r, _, w') = publish_config cfg.config (new_propagation_client backend_client) w in
            (wrap "failed to publish config: " r, w')
      ]
    ]

    -- The loop of `PublishConfigs`.
    unfoldable pub publish_files : List String → W → Result (Unit {0}) × W
    unfolding publish_file
    publish_files [] w = (ok tt, w)
    publish_files (config ∷ configs) w =
        let (r, w') = publish_file config w in
        let rest = publish_files configs w' in
        elim r [ err e ↦ (err (append "failed to publish config: " e), w') | ok _ ↦ rest ]

    -- `PublishConfigs`
    unfoldable pub publish_configs : W → Result (Unit {0}) × W
    unfolding publish_files
    publish_configs w = elim (wrap "failed to find configs: " (find_configs "." w)) [
      | err e ↦ (err e, w)
      | ok configs ↦ publish_files configs w
    ]
