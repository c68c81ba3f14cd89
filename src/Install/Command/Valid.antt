-- ===== src/Install/Command/Valid.antt =====
-- What a run of the report command leaves in the report file.
use ithiltir_node.Base.{
  ◌≡◌, ◌⊎◌, inl, inr, refl, Option, none, some, List, [], ◌∷◌, Text, ℤ, Result, ok, err, Bool-cases,
  text_eq, codes,
}
use ithiltir_node.ReportCfg.{Url, Target, Config, ConfigError}
use ithiltir_node.ReportCfg.Shape.{IsValid}
use ithiltir_node.ReportCfg.Outcomes.{add_outcome, replace_outcome}
use ithiltir_node.Install.Files.{Stored, present}
use ithiltir_node.Install.Files.Atomic.{save_total}
use ithiltir_node.Install.Report.{Output, Env, Outcome, failed, done, save_report_install}
use ithiltir_node.Install.Report.Writes.{Edit, appended, replaced, install_Writes}
use ithiltir_node.Install.Command.{
  bad_usage, listed, save_next, removed, updated, run_install, run_remove, run_update, install_args,
  remove_args, update_args, list_args, run_command, run_report,
}

module _ (parse_url : Text → Option Url) where
  -- The file is as it was, or holds a valid config.
  abbrev Intact : Stored → Outcome → Type 0
  Intact file o =
      (o.file ≡ file) ⊎ ((next : Config) × (o.file ≡ present next) × IsValid parse_url next)

  Edit-IsValid :
      (cfg next : Config) (t : Target) → Edit parse_url cfg t next → IsValid parse_url next
  Edit-IsValid cfg next t (appended new e _) =
      (add_outcome parse_url cfg next new t.url t.key t.server_install_id e).2
  Edit-IsValid cfg next t (replaced old e _) =
      (replace_outcome parse_url cfg next old.id t.url t.key t.server_install_id e).3

  install-Intact :
      (env : Env) (file : Stored) (cfg : Config) (endpoint key : Text)
      → Intact file (save_report_install parse_url env file cfg endpoint key)
  install-Intact env file cfg endpoint key =
      elim (install_Writes parse_url env file cfg endpoint key) [
        | inl same ↦ inl same
        | inr (i, _, next, e, edit) ↦ inr (next, e, Edit-IsValid cfg next _ edit)
      ]

  save_next-Intact :
      (env : Env) (file : Stored) (next : Config) (out : List Output)
      → Intact file (save_next parse_url env file next out)
  unfolding save_next
  save_next-Intact env file next out = elim (save_total parse_url env.fails file next) [
    | inl (e, v, _) ↦ rw e (inr (next, refl, v))
    | inr (e, _) ↦ rw e (inl refl)
  ]

  removed-Intact :
      (env : Env) (file : Stored) (r : Result ConfigError Config)
      → Intact file (removed parse_url env file r)
  unfolding removed failed
  removed-Intact env file (err _) = inl refl
  removed-Intact env file (ok next) = save_next-Intact env file next []

  updated-Intact :
      (env : Env) (file : Stored) (id : ℤ) (r : Result ConfigError Config)
      → Intact file (updated parse_url env file id r)
  unfolding updated failed
  updated-Intact env file id (err _) = inl refl
  updated-Intact env file id (ok next) = save_next-Intact env file next _

  run_install-Intact :
      (env : Env) (file : Stored) (endpoint key : Text) (cfg : Option Config)
      → Intact file (run_install parse_url env file endpoint key cfg)
  unfolding run_install failed
  run_install-Intact env file endpoint key none = inl refl
  run_install-Intact env file endpoint key (some cfg) = install-Intact env file cfg endpoint key

  run_remove-Intact :
      (env : Env) (file : Stored) (id : Option ℤ) (cfg : Option Config)
      → Intact file (run_remove parse_url env file id cfg)
  unfolding run_remove failed
  run_remove-Intact env file none cfg = inl refl
  run_remove-Intact env file (some id) none = inl refl
  run_remove-Intact env file (some id) (some cfg) = removed-Intact env file _

  run_update-Intact :
      (env : Env) (file : Stored) (id : Option ℤ) (key : Text) (cfg : Option Config)
      → Intact file (run_update parse_url env file id key cfg)
  unfolding run_update failed
  run_update-Intact env file none key cfg = inl refl
  run_update-Intact env file (some id) key none = inl refl
  run_update-Intact env file (some id) key (some cfg) = updated-Intact env file id _

  install_args-Intact :
      (env : Env) (file : Stored) (args : List Text)
      → Intact file (install_args parse_url env file args)
  unfolding install_args bad_usage failed
  install_args-Intact env file [] = inl refl
  install_args-Intact env file (_ ∷ []) = inl refl
  install_args-Intact env file (endpoint ∷ key ∷ []) = run_install-Intact env file endpoint key _
  install_args-Intact env file (_ ∷ _ ∷ _ ∷ _) = inl refl

  listed_file : (file : Stored) (cfg : Option Config) → (listed file cfg).file ≡ file
  unfolding listed failed done
  listed_file file none = refl
  listed_file file (some cfg) = refl

  list_args_file : (file : Stored) (args : List Text) → (list_args parse_url file args).file ≡ file
  unfolding list_args bad_usage failed
  list_args_file file [] = listed_file file _
  list_args_file file (_ ∷ _) = refl

  module _ (atoi : Text → Option ℤ) where
    remove_args-Intact :
        (env : Env) (file : Stored) (args : List Text)
        → Intact file (remove_args parse_url atoi env file args)
    unfolding remove_args bad_usage failed
    remove_args-Intact env file [] = inl refl
    remove_args-Intact env file (id ∷ []) = run_remove-Intact env file _ _
    remove_args-Intact env file (_ ∷ _ ∷ _) = inl refl

    update_args-Intact :
        (env : Env) (file : Stored) (args : List Text)
        → Intact file (update_args parse_url atoi env file args)
    unfolding update_args bad_usage failed
    update_args-Intact env file [] = inl refl
    update_args-Intact env file (_ ∷ []) = inl refl
    update_args-Intact env file (id ∷ key ∷ []) = run_update-Intact env file _ key _
    update_args-Intact env file (_ ∷ _ ∷ _ ∷ _) = inl refl

    run_command-Intact :
        (env : Env) (file : Stored) (command : Text) (args : List Text)
        → Intact file (run_command parse_url atoi env file command args)
    unfolding run_command bad_usage failed
    run_command-Intact env file command args =
        elim (Bool-cases (text_eq command (codes "install"))) [
          | inl e ↦ rw e (install_args-Intact env file args)
          | inr e ↦ elim (Bool-cases (text_eq command (codes "remove"))) [
            | inl e' ↦ rw (e, e') (remove_args-Intact env file args)
            | inr e' ↦ elim (Bool-cases (text_eq command (codes "update"))) [
              | inl e'' ↦ rw (e, e', e'') (update_args-Intact env file args)
              | inr e'' ↦ elim (Bool-cases (text_eq command (codes "list"))) [
                | inl l ↦ rw (e, e', e'', l) (inl (list_args_file file args))
                | inr l ↦ rw (e, e', e'', l) (inl refl)
              ]
            ]
          ]
        ]

    -- Whatever its arguments, what the server, the terminal and the file system answer, and what
    -- the report file holds: a run of the report command leaves that file as it was, or leaves a
    -- config that Validate takes.
    pub run_report-Intact :
        (env : Env) (file : Stored) (args : List Text)
        → let o = run_report parse_url atoi env file args in
          (o.file ≡ file) ⊎ ((next : Config) × (o.file ≡ present next) × IsValid parse_url next)
    unfolding run_report bad_usage failed
    run_report-Intact env file [] = inl refl
    run_report-Intact env file (_ ∷ []) = inl refl
    run_report-Intact env file (_ ∷ command ∷ args) = run_command-Intact env file command args
