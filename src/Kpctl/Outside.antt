-- ===== src/Kpctl/Outside.antt =====
-- What a run of `PublishConfigs` changes in a registry.
use propagation_controller.Base.{
  ◌≡◌, refl, sym, ◌∙◌, String, List, [], ◌∷◌, Result, ok, inl, inr, ◌⊎◌, Result-cases,
}
use propagation_controller.Config.{Config}
use propagation_controller.Clients.{
  ArtifactMetadata, config_payload, PropagationBackendClient, new_propagation_client, is_immutable,
  publish_artifact, publish_config,
}
use propagation_controller.Clients.Registry.{
  Contents, IsRegistry, new_propagation_client-IsCoherent,
}
use propagation_controller.Clients.Publish.{publish-IsWrite}
use propagation_controller.Clients.Steps.{config_place}
use propagation_controller.Kpctl.{
  Formats, Files, find_configs, load_config, publish_file, publish_files, publish_configs,
}
use propagation_controller.Controller.Fleet.{IsOutside}

module _ {W A : Type 0} (default_tag : String) (content : Contents W A) where
  abbrev OnlyConfig : W → W → Type 0
  OnlyConfig w w' =
      (n : ArtifactMetadata) → (content.held w' n ≡ content.held w n) ⊎ (config_place ≡ n)

  OnlyConfig-trans : (u v w : W) → OnlyConfig u v → OnlyConfig v w → OnlyConfig u w
  OnlyConfig-trans u v w r s n = elim (s n) [
    | inr here ↦ inr here
    | inl e ↦ elim (r n) [ inl f ↦ inl (e ∙ f) | inr here ↦ inr here ]
  ]

  publish_config-OnlyConfig :
      (config : Config) (b : PropagationBackendClient W A) (w : W)
      → IsRegistry b content
      → OnlyConfig w (publish_config config (new_propagation_client b) w).2
  unfolding publish_config publish_artifact is_immutable new_propagation_client
  publish_config-OnlyConfig config b w honest n =
      let c = new_propagation_client b in
      elim (Result-cases (b.new_artifact (config_payload config))) [
        | inr (x, e) ↦ rw (e, publish_artifact) (inl refl)
        | inl (a, e) ↦
            let wrote =
              publish-IsWrite default_tag content config_place a c refl refl w
                (new_propagation_client-IsCoherent default_tag content b w honest) in
            rw (e, publish_artifact)
              (elim (wrote.others n) [ inl here ↦ inr here | inr kept ↦ inl kept ])
      ]

  module _ {Repo Document : Type 0} (files : Files W Repo) (formats : Formats Document)
      (new_backend : String → Result (PropagationBackendClient W A))
      (honest : (url : String) (b : PropagationBackendClient W A)
        → new_backend url ≡ ok b
        → IsRegistry b content) where
    publish_file-OnlyConfig :
        (path : String) (w : W) → OnlyConfig w (publish_file files formats new_backend path w).1
    unfolding publish_file
    publish_file-OnlyConfig path w n =
        elim (Result-cases (load_config files formats new_backend path w)) [
          | inr (x, e) ↦ rw (e, publish_file) (inl refl)
          | inl (cfg, e) ↦ elim (Result-cases (new_backend cfg.backend)) [
            | inr (x, f) ↦ rw (e, f, publish_file) (inl refl)
            | inl (b, f) ↦
                rw (e, f, publish_file)
                  (publish_config-OnlyConfig cfg.config b w (honest cfg.backend b f) n)
          ]
        ]

    publish_files-OnlyConfig :
        (paths : List String) (w : W)
        → OnlyConfig w (publish_files files formats new_backend paths w).1
    unfolding publish_files
    publish_files-OnlyConfig [] w n = inl refl
    publish_files-OnlyConfig (path ∷ paths) w n =
        let (r, w') = publish_file files formats new_backend path w in
        let first = publish_file-OnlyConfig path w in
        let rest = publish_files-OnlyConfig paths w' in
        elim (Result-cases r) [
          | inr (x, e) ↦ rw (e, publish_files) (first n)
          | inl (_, e) ↦
              rw (e, publish_files)
                (OnlyConfig-trans w w' (publish_files files formats new_backend paths w').1 first
                  rest n)
        ]

    pub publish_configs-OnlyConfig :
        (w : W) (n : ArtifactMetadata)
        → (content.held (publish_configs files formats new_backend w).1 n ≡ content.held w n)
          ⊎ (config_place ≡ n)
    unfolding publish_configs
    publish_configs-OnlyConfig w n = elim (Result-cases (find_configs files "." w)) [
      | inr (x, e) ↦ rw (e, publish_configs) (inl refl)
      | inl (paths, e) ↦ rw (e, publish_configs) (publish_files-OnlyConfig paths w n)
    ]

    -- So it is a step of others to the controllers.
    pub publish_configs-IsOutside :
        (w : W) → IsOutside content w (publish_configs files formats new_backend w).1
    publish_configs-IsOutside w n = elim (publish_configs-OnlyConfig w n) [
      | inl kept ↦ inl kept
      | inr here ↦ inr (inl (sym here))
    ]
