-- ===== src/Tests/Command.antt =====
-- kpctl over a world that is the list of the calls, the last one first.
use Prim.Native.String.{◌++◌ as append}
use propagation_controller.Base.{◌≡◌, refl, String, none, some, List, [], ◌∷◌, Result, ok, err}
use propagation_controller.Manager.{Exit, returned, exited}
use propagation_controller.Kpctl.Command.{
  Viper, Git, Terminal, Command, Execution, completed, stopped, init_config, execute_kpctl,
}

abbrev Calls : Type 0
Calls = List String

abbrev viper : Viper Calls
viper = record {
  set_config_file = λ file w. append "file " file ∷ w;
  add_config_path = λ path w. append "path " path ∷ w;
  set_config_type = λ type w. append "type " type ∷ w;
  set_config_name = λ name w. append "name " name ∷ w;
  automatic_env = λ w. "env" ∷ w;
  read_in_config = λ w. (err "no configuration", "read" ∷ w);
  config_file_used = λ w. "";
}

abbrev terminal : Terminal Calls
terminal = record { print_line = λ text w. text ∷ w; print_error = λ text detail w. text ∷ w }

abbrev git : Result String → Git Calls String String
git opened = record {
  plain_open = λ path w. (opened, w);
  worktree = λ repo w. (ok repo, w);
  root = λ worktree. worktree;
}

-- Without the flag the configuration is searched at the root of the work tree.
searches :
    init_config terminal (git (ok "/app")) viper "" []
    ≡ (returned, "read" ∷ "env" ∷ "name .kuberik-propagation" ∷ "type yaml" ∷ "path /app" ∷ [])
unfolding init_config
searches = refl

-- With the flag git is not asked.
takes_the_flag :
    init_config terminal (git (err "no repository")) viper "app.yaml" []
    ≡ (returned, "read" ∷ "env" ∷ "file app.yaml" ∷ [])
unfolding init_config
takes_the_flag = refl

no_repository :
    (init_config terminal (git (err "no repository")) viper "" []).0
    ≡ exited "Failed to open git repository:"
unfolding init_config
no_repository = refl

-- Cobra for the arguments `publish`: the function for `OnInitialize`, and then the command.
abbrev execute_publish :
    Command Calls
    → List (Command Calls)
    → (String → Calls → Exit × Calls)
    → Calls
    → Execution × Calls
execute_publish root commands initialise w =
    let (exit, w') = initialise "" w in
    elim exit [
      | exited message ↦ (stopped (exited message), w')
      | returned ↦ elim commands [
        | [] ↦ (completed (err "unknown command"), w')
        | ◌∷◌ c _ ↦ elim c.run [
          | none ↦ (completed (ok tt), w')
          | some f ↦ (completed (ok tt), f [] w')
        ]
      ]
    ]

-- `kpctl publish` prints a line.
publishes_nothing :
    execute_kpctl terminal execute_publish (init_config terminal (git (ok "/app")) viper) [] ≡ (
      returned,
      "publish called" ∷ "read" ∷ "env" ∷ "name .kuberik-propagation" ∷ "type yaml" ∷ "path /app"
          ∷ [],
    )
unfolding execute_kpctl init_config
publishes_nothing = refl
