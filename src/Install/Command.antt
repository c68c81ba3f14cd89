-- ===== src/Install/Command.antt =====
-- runReport of internal/app/run.go: the dispatch on the arguments of the report command. strconv.Atoi is the parameter `atoi`.
pub mod Valid
use ithiltir_node.Base.{
  Option, none, some, List, [], ◌∷◌, map, Text, text_eq, codes, ℤ, is_positive, Result, ok, err,
  if◌then◌else◌,
}
use ithiltir_node.ReportCfg.{Url, Config, ConfigError, remove, update_key}
use ithiltir_node.Install.Files.{Stored, load}
use ithiltir_node.Install.Report.{
  Output, printed, usage, Env, Outcome, failed, done, target_by_id, save_report_install,
}
use ithiltir_node.Install.Files.{save}

-- The usage text, with exit code 1.
pub bad_usage : Stored → Outcome
unfolding failed
bad_usage file = failed file (usage ∷ [])

-- The printed list of targets.
pub listed : Stored → Option Config → Outcome
unfolding failed done
listed file none = failed file []
listed file (some cfg) = done file (map printed cfg.targets)

-- An id on the command line: Atoi, and more than 0.
positive_id : Option ℤ → Option ℤ
positive_id none = none
positive_id (some id) = if is_positive id then some id else none

module _ (parse_url : Text → Option Url) where
  -- Save, then print the target if there is one to print.
  pub save_next : Env → Stored → Config → List Output → Outcome
  unfolding failed done
  save_next env file next out =
      let (file', saved) = save parse_url env.fails file next in
      if saved then done file' out else failed file' []

  pub removed : Env → Stored → Result ConfigError Config → Outcome
  unfolding save_next
  removed env file (err _) = failed file []
  removed env file (ok next) = save_next env file next []

  pub updated : Env → Stored → ℤ → Result ConfigError Config → Outcome
  unfolding save_next
  updated env file id (err _) = failed file []
  updated env file id (ok next) = save_next env file next (printed (target_by_id next id) ∷ [])

  pub run_install : Env → Stored → Text → Text → Option Config → Outcome
  run_install env file endpoint key none = failed file []
  run_install env file endpoint key (some cfg) =
      save_report_install parse_url env file cfg endpoint key

  pub run_remove : Env → Stored → Option ℤ → Option Config → Outcome
  unfolding removed
  run_remove env file none cfg = failed file []
  run_remove env file (some id) none = failed file []
  run_remove env file (some id) (some cfg) = removed env file (remove parse_url cfg id)

  pub run_update : Env → Stored → Option ℤ → Text → Option Config → Outcome
  unfolding updated
  run_update env file none key cfg = failed file []
  run_update env file (some id) key none = failed file []
  run_update env file (some id) key (some cfg) =
      updated env file id (update_key parse_url cfg id key)

  -- `report install <url> <key>`, by the arguments after the subcommand; and so on.
  pub install_args : Env → Stored → List Text → Outcome
  unfolding run_install bad_usage
  install_args env file (endpoint ∷ key ∷ []) =
      run_install env file endpoint key (load parse_url file)
  install_args env file _ = bad_usage file

  pub list_args : Stored → List Text → Outcome
  unfolding listed bad_usage
  list_args file [] = listed file (load parse_url file)
  list_args file (_ ∷ _) = bad_usage file

  module _ (atoi : Text → Option ℤ) where
    pub remove_args : Env → Stored → List Text → Outcome
    unfolding run_remove bad_usage positive_id
    remove_args env file (id ∷ []) =
        run_remove env file (positive_id (atoi id)) (load parse_url file)
    remove_args env file _ = bad_usage file

    pub update_args : Env → Stored → List Text → Outcome
    unfolding run_update bad_usage positive_id
    update_args env file (id ∷ key ∷ []) =
        run_update env file (positive_id (atoi id)) key (load parse_url file)
    update_args env file _ = bad_usage file

    pub run_command : Env → Stored → Text → List Text → Outcome
    unfolding install_args remove_args update_args list_args
    run_command env file command args =
        if text_eq command (codes "install")
        then install_args env file args
        else if text_eq command (codes "remove")
        then remove_args env file args
        else if text_eq command (codes "update")
        then update_args env file args
        else if text_eq command (codes "list")
        then list_args file args
        else bad_usage file

    -- runReport; the first argument is the word `report`.
    pub run_report : Env → Stored → List Text → Outcome
    unfolding run_command
    run_report env file (_ ∷ command ∷ args) = run_command env file command args
    run_report env file _ = bad_usage file
