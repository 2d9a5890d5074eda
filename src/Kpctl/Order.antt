-- ===== src/Kpctl/Order.antt =====
-- Which files `PublishConfigs` publishes, and in which order.
use Prim.Native.String.{◌++◌ as append}
use propagation_controller.Base.{
  ◌≡◌, refl, sym, ap, ◌∙◌, String, Option, none, some, List, [], ◌∷◌, All, Result, ok, err, Error,
  if◌then◌else◌, inl, inr, Result-cases, Option-cases, err-ne-ok, ok_injective,
}
use propagation_controller.Clients.{PropagationBackendClient}
use propagation_controller.Kpctl.{
  Formats, Entry, Files, wrap, is_config, collect, find_configs, publish_file, publish_files,
  publish_configs,
}

wrap-ok {ℓ} :
    {A : Type ℓ} (prefix : String) (r : Result A) (a : A) → wrap prefix r ≡ ok a → r ≡ ok a
wrap-ok prefix (ok b) a e = e
wrap-ok prefix (err x) a e = absurd (err-ne-ok e)

module _ {W Repo : Type 0} (files : Files W Repo) where
  -- The paths of the entries that are configurations, in order.
  abbrev pub config_paths : List Entry → List String
  config_paths [] = []
  config_paths (entry ∷ entries) =
      let rest = config_paths entries in if is_config files entry then entry.path ∷ rest else rest

  abbrev add_path : Entry → Option Error → Result (List String) → Result (List String)
  add_path entry (some e) rest = err e
  add_path entry none (err e) = err e
  add_path entry none (ok paths) = ok (if is_config files entry then entry.path ∷ paths else paths)

  collect_step :
      (entry : Entry) (entries : List Entry) (o : Option Error) (r : Result (List String))
      → entry.failure ≡ o
      → collect files entries ≡ r
      → collect files (entry ∷ entries) ≡ add_path entry o r
  unfolding collect
  collect_step entry entries (some x) r e f = rw (e, collect) refl
  collect_step entry entries none (err x) e f = rw (e, f, collect) refl
  collect_step entry entries none (ok paths) e f = rw (e, f, collect) refl

  collect-ok :
      (entries : List Entry) (paths : List String)
      → collect files entries ≡ ok paths
      → All (λ entry. entry.failure ≡ none) entries × (paths ≡ config_paths entries)
  collect-ok [] paths e = (tt, sym (ok_injective (unfold collect in e)))
  collect-ok (entry ∷ entries) paths e =
      let earlier = collect-ok entries in
      let step : (o : Option Error) (r : Result (List String))
          → entry.failure ≡ o
          → collect files entries ≡ r
          → add_path entry o r ≡ ok paths =
        λ o r f g. sym (collect_step entry entries o r f g) ∙ e in
      elim (Option-cases entry.failure) [
        | inr (x, f) ↦ absurd (err-ne-ok (step (some x) (collect files entries) f refl))
        | inl f ↦ elim (Result-cases (collect files entries)) [
          | inr (x, g) ↦ absurd (err-ne-ok (step none (err x) f g))
          | inl (rest, g) ↦
              let (v, same) = earlier rest g in
              (
                (f, v),
                sym (ok_injective (step none (ok rest) f g))
                    ∙ ap (λ ps. if is_config files entry then entry.path ∷ ps else ps) same,
              )
        ]
      ]

  module _ {Document A : Type 0} (formats : Formats Document)
      (new_backend : String → Result (PropagationBackendClient W A)) where
    -- The files are published one after another, each in the state that the one before left.
    pub data Published : List String → W → W → Type 0 where
      all_published : {w : W} → Published [] w w
      then_published :
          {path : String} {paths : List String} {w w' : W}
          → (publish_file files formats new_backend path w).0 ≡ ok tt
          → Published paths (publish_file files formats new_backend path w).1 w'
          → Published (path ∷ paths) w w'

    publish_files-cons_err :
        (path : String) (paths : List String) (w : W) (x : Error)
        → (publish_file files formats new_backend path w).0 ≡ err x
        → (publish_files files formats new_backend (path ∷ paths) w).0
          ≡ err (append "failed to publish config: " x)
    unfolding publish_files
    publish_files-cons_err path paths w x e = rw (e, publish_files) refl

    publish_files-cons_ok :
        (path : String) (paths : List String) (w : W)
        → (publish_file files formats new_backend path w).0 ≡ ok tt
        → publish_files files formats new_backend (path ∷ paths) w
          ≡ publish_files files formats new_backend paths
              (publish_file files formats new_backend path w).1
    unfolding publish_files
    publish_files-cons_ok path paths w e = rw (e, publish_files) refl

    publish_files-Published :
        (paths : List String) (w : W)
        → (publish_files files formats new_backend paths w).0 ≡ ok tt
        → Published paths w (publish_files files formats new_backend paths w).1
    publish_files-Published [] w e = unfold publish_files in all_published
    publish_files-Published (path ∷ paths) w e =
        let w' = (publish_file files formats new_backend path w).1 in
        let later = publish_files-Published paths w' in
        elim (Result-cases (publish_file files formats new_backend path w).0) [
          | inl (tt', f) ↦
              let step = publish_files-cons_ok path paths w f in
              rw step (then_published f (later (sym (ap (λ x. x.0) step) ∙ e)))
          | inr (x, f) ↦ absurd (err-ne-ok (sym (publish_files-cons_err path paths w x f) ∙ e))
        ]

    find_configs-unopened :
        (w : W) (x : Error)
        → files.open_repository "." w ≡ err x
        → find_configs files "." w ≡ err (append "failed to open git repository: " x)
    unfolding find_configs
    find_configs-unopened w x f = rw (f, find_configs) refl

    find_configs-bare :
        (w : W) (repo : Repo) (x : Error)
        → files.open_repository "." w ≡ ok repo
        → files.work_tree repo ≡ err x
        → find_configs files "." w ≡ err (append "failed to get git worktree: " x)
    unfolding find_configs
    find_configs-bare w repo x f g = rw (f, g, find_configs) refl

    find_configs-walk :
        (w : W) (repo : Repo) (root : String)
        → files.open_repository "." w ≡ ok repo
        → files.work_tree repo ≡ ok root
        → find_configs files "." w
          ≡ wrap "failed to find configs: "
              (collect files (files.walk (files.join root ".kuberik") w))
    unfolding find_configs
    find_configs-walk w repo root f g = rw (f, g, find_configs) refl

    find_configs-ok :
        (w : W) (paths : List String)
        → find_configs files "." w ≡ ok paths
        → (repo : Repo) × (root : String) × (files.open_repository "." w ≡ ok repo)
          × (files.work_tree repo ≡ ok root)
          × (collect files (files.walk (files.join root ".kuberik") w) ≡ ok paths)
    find_configs-ok w paths e = elim (Result-cases (files.open_repository "." w)) [
      | inr (x, f) ↦ absurd (err-ne-ok (sym (find_configs-unopened w x f) ∙ e))
      | inl (repo, f) ↦ elim (Result-cases (files.work_tree repo)) [
        | inr (x, g) ↦ absurd (err-ne-ok (sym (find_configs-bare w repo x f g) ∙ e))
        | inl (root, g) ↦
            (repo, root, f, g, wrap-ok _ _ paths (sym (find_configs-walk w repo root f g) ∙ e))
      ]
    ]

    publish_configs-err :
        (w : W) (x : Error)
        → find_configs files "." w ≡ err x
        → publish_configs files formats new_backend w
          ≡ (err (append "failed to find configs: " x), w)
    unfolding publish_configs
    publish_configs-err w x f = rw (f, publish_configs) refl

    publish_configs-found :
        (w : W) (paths : List String)
        → find_configs files "." w ≡ ok paths
        → publish_configs files formats new_backend w
          ≡ publish_files files formats new_backend paths w
    unfolding publish_configs
    publish_configs-found w paths f = rw (f, publish_configs) refl

    -- If `PublishConfigs` succeeds, the repository was opened, the walk below its `.kuberik` met no error,
    -- and every file with the extension `.yaml` or `.yml` that it met was published with success, in
    -- the order of the walk, each in the state that the one before left.
    pub publish_configs-Published :
        (w : W)
        → (publish_configs files formats new_backend w).0 ≡ ok tt
        → (repo : Repo) × (root : String) × (files.open_repository "." w ≡ ok repo)
          × (files.work_tree repo ≡ ok root)
          × All (λ entry. entry.failure ≡ none) (files.walk (files.join root ".kuberik") w)
          × Published
              (config_paths (files.walk (files.join root ".kuberik") w))
              w
              (publish_configs files formats new_backend w).1
    publish_configs-Published w e = elim (Result-cases (find_configs files "." w)) [
      | inr (x, f) ↦ absurd (err-ne-ok (sym (ap (λ r. r.0) (publish_configs-err w x f)) ∙ e))
      | inl (paths, f) ↦
          let (repo, root, opened, tree, collected) = find_configs-ok w paths f in
          let (v, same) = collect-ok (files.walk (files.join root ".kuberik") w) paths collected in
          let found = publish_configs-found w paths f in
          (
            repo,
            root,
            opened,
            tree,
            v,
            rw (sym same, found) (publish_files-Published paths w (sym (ap (λ r. r.0) found) ∙ e)),
          )
    ]
