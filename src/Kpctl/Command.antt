-- ===== src/Kpctl/Command.antt =====
-- cmd/kpctl/main.go, cmd/kpctl/cmd/root.go and the command of cmd/kpctl/cmd/publish.go. Cobra, viper,
-- git and the terminal are interfaces over the state `W`. A command's texts for its users are left
-- out, and so is the flag `toggle`, which nothing reads.
use propagation_controller.Base.{
  String, Option, none, some, List, [], ◌∷◌, Result, ok, err, ◌==◌, not, if◌then◌else◌,
}
use propagation_controller.Manager.{Exit, returned, exited}

-- What is used of viper.
pub record Viper (W : Type 0) : Type 0 where
  pub set_config_file : String → W → W
  pub add_config_path : String → W → W
  pub set_config_type : String → W → W
  pub set_config_name : String → W → W
  pub automatic_env : W → W
  pub read_in_config : W → Result (Unit {0}) × W
  pub config_file_used : W → String

-- `PlainOpenWithOptions` at a path, `Worktree`, and the root of a work tree.
pub record Git (W Repo Worktree : Type 0) : Type 0 where
  pub plain_open : String → W → Result Repo × W
  pub worktree : Repo → W → Result Worktree × W
  pub root : Worktree → String

-- `Println` and `Fprintln` to standard error.
pub record Terminal (W : Type 0) : Type 0 where
  pub print_line : String → W → W
  pub print_error : String → String → W → W

-- `cobra.Command`: `name` is its field `Use`, and `run` is nil for the command at the root.
pub record Command (W : Type 0) : Type 0 where
  pub name : String
  pub run : Option (List String → W → W)

module _ {W Repo Worktree : Type 0} (terminal : Terminal W) (git : Git W Repo Worktree)
    (viper : Viper W) where
  -- The branch of `initConfig` without the flag: where the configuration is searched.
  unfoldable pub search_config : W → Exit × W
  search_config w =
      let (opened, w') = git.plain_open "." w in
      elim opened [
        | err e ↦ (
          exited "Failed to open git repository:",
          terminal.print_error "Failed to open git repository:" e w',
        )
        | ok repo ↦
            let (found, w'') = git.worktree repo w' in
            elim found [
              | err e ↦ (
                exited "Failed to get git worktree:",
                terminal.print_error "Failed to get git worktree:" e w'',
              )
              | ok worktree ↦ (
                returned,
                viper.set_config_name ".kuberik-propagation"
                    (viper.set_config_type "yaml" (viper.add_config_path (git.root worktree) w'')),
              )
            ]
      ]

  -- The end of `initConfig`; an error of the reading is dropped.
  unfoldable pub read_config : W → W
  read_config w =
      let (r, w') = viper.read_in_config (viper.automatic_env w) in
      elim r [
        | err e ↦ w'
        | ok _ ↦ terminal.print_error "Using config file:" (viper.config_file_used w') w'
      ]

  -- `initConfig`
  unfoldable pub init_config : String → W → Exit × W
  unfolding search_config read_config
  init_config cfg_file w =
      let (exit, w') =
        if not (cfg_file == "")
        then (returned, viper.set_config_file cfg_file w)
        else search_config w in
      elim exit [ exited message ↦ (exited message, w') | returned ↦ (returned, read_config w') ]

-- What becomes of a call of cobra's `Execute`: it returns, or a function that it calls ends the program.
pub data Execution : Type 0 where
  completed : Result (Unit {0}) → Execution
  stopped : Exit → Execution

module _ {W : Type 0} (terminal : Terminal W) where
  abbrev pub root_command : Command W
  root_command = record { name = "propagation-controller"; run = none }

  -- The command only prints; `publish_configs` is called by no command.
  abbrev pub publish_command : Command W
  publish_command = record {
    name = "publish";
    run = some λ args w. terminal.print_line "publish called" w;
  }

  -- `Execute`, which `main` calls. `execute` is that of cobra for the root command, the commands below
  -- it, and the function for `OnInitialize`, which it calls with the value of the flag `config`.
  unfoldable pub execute_kpctl :
      (Command W → List (Command W) → (String → W → Exit × W) → W → Execution × W)
      → (String → W → Exit × W)
      → W
      → Exit × W
  execute_kpctl execute init_config w =
      let (r, w') = execute root_command (publish_command ∷ []) init_config w in
      elim r [
        | stopped exit ↦ (exit, w')
        | completed (err e) ↦ (exited "", w')
        | completed (ok _) ↦ (returned, w')
      ]
